-- ===== src/Runtime.antt =====
-- The runtime: memory, dataflow and scheduling.
pub mod AddressSpace
pub mod Dataflow
pub mod Scheduling
pub mod Layout
