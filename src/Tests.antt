-- ===== src/Tests.antt =====
-- Concrete inputs at which the theorems about the program apply.
pub mod Jit
pub mod Parts
pub mod Caches
pub mod Slices
pub mod ValueSets
pub mod Invariants
pub mod Affine
pub mod Types
pub mod Equality
pub mod Folding
pub mod Analysis
pub mod Runtime
pub mod Conversions
pub mod Util
pub mod Managers
pub mod Qtl
pub mod Accesses
