-- ===== src/Qtl.antt =====
-- The front end of tensor expressions: qubus/src/qtl.
pub mod Expressions
pub mod Meaning
pub mod Deltas
