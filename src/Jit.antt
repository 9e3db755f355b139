-- ===== src/Jit.antt =====
-- The code generator: qubus/src/jit.
pub mod Builder
pub mod Operators
pub mod Loops
pub mod Conversions
