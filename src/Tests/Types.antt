-- ===== src/Tests/Types.antt =====
-- Runs of qubus/src/IR/type.cpp and qubus/src/IR/type_inference.cpp on concrete types.
use qubus.Base.{ℕ, ◌+◌, ◌≢◌, ◌↔◌, arith}
use qubus.Ir.Types.{IrType, double, float, integer, complex, array}
use qubus.Ir.Types.Hash.{Hashing}
use qubus.Ir.Inference.CommonType.{common_type, Widens, IsBelow, IsBelow-common_type_iff}

abbrev matrix : IrType
matrix = array (complex double) 2

-- A mixing step that counts.
abbrev counting : Hashing
counting = record {
  combine = λ a b. a + b + 1;
  hash_tag = λ _. 3;
  hash_rank = λ n. n;
  hash_string = λ _. 7;
}

counting_mixes : (a b : ℕ) → counting.combine a b ≢ a
counting_mixes a b h = omega arith

abbrev twelve : ℕ
twelve = 12

IsBelow-common_type_iff_example :
    (IsBelow (common_type integer (complex float)) (complex double))
    ↔ (Widens integer (complex double) × Widens (complex float) (complex double))
IsBelow-common_type_iff_example = IsBelow-common_type_iff integer (complex float) (complex double)
