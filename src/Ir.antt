-- ===== src/Ir.antt =====
-- The intermediate representation: qubus/include/qubus/IR and qubus/src/IR.
pub mod Types
pub mod Expressions
pub mod Inference
pub mod Semantics
pub mod Folding
pub mod Conversions
