-- ===== src/Util.antt =====
-- The utilities of util/include/qubus/util.
pub mod IndexSpace
pub mod LfuCache
