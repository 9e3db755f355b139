-- ===== src/Tests/Runtime.antt =====
-- Runs of the runtime.
pub mod Memory
pub mod Tasks
pub mod Layouts
