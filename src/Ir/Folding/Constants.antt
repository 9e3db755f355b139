-- ===== src/Ir/Folding/Constants.antt =====
-- A constant integer expression folds to one literal.
use qubus.Ir.Expressions.{
  Expression, Expressions, BinaryOpTag, UnaryOpTag, integer_literal, binary_operator,
  unary_operator, plus, minus, multiplies, divides, modulus, div_floor,
}

-- The operators that are folded.
abbrev pub IsArithmetic : BinaryOpTag → Type 0
IsArithmetic plus = Unit
IsArithmetic minus = Unit
IsArithmetic multiplies = Unit
IsArithmetic divides = Unit
IsArithmetic modulus = Unit
IsArithmetic div_floor = Unit
IsArithmetic _ = ⊥

abbrev pub IsSign : UnaryOpTag → Type 0
IsSign UnaryOpTag.plus = Unit
IsSign UnaryOpTag.negate = Unit
IsSign _ = ⊥

-- Built from integer literals by those operators.
abbrev pub IsConstant : Expression → Type 0
IsConstant (integer_literal z) = Unit
IsConstant (binary_operator t l r) = IsArithmetic t × IsConstant l × IsConstant r
IsConstant (unary_operator t e) = IsSign t × IsConstant e
IsConstant _ = ⊥
