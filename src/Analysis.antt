-- ===== src/Analysis.antt =====
-- The analyses of the compiler: qubus/src/*_analysis.cpp and qubus/src/pass_manager.cpp.
pub mod Alias
pub mod Axioms
pub mod Manager
pub mod Accesses
pub mod Invariants
pub mod Affine
pub mod ValueSets
