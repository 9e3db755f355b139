-- ===== src/Analysis/Affine/Plain.antt =====
-- The affine expressions and constraints of qubus/src/affine_constraints.cpp that isl computes as C++
-- does, and the expressions and conditions that they are extracted from.
use qubus.Base.{ℕ, suc, Bool, true, false, ◌||◌, Option, some, ◌≡◌}
use qubus.Base.Int.{ℤ, pos}
use qubus.Base.Results.{Result, ok}
use qubus.Ir.Expressions.{
  Expression, BinaryOpTag, UnaryOpTag, binary_operator as binary, unary_operator as unary,
  integer_literal as literal,
}
use qubus.Ir.Semantics.{Value, int}
use qubus.Analysis.Affine.{AffineExpr, integer_literal, AffineConstraint, wrapped}
use qubus.Analysis.Affine.Meaning.{Valuation, affine_value}

abbrev pub is_literal : AffineExpr → Bool
is_literal (integer_literal z) = true
is_literal _ = false

abbrev pub IsPositiveLiteral : AffineExpr → Type 0
IsPositiveLiteral (integer_literal (pos (suc m))) = Unit
IsPositiveLiteral _ = ⊥

abbrev pub IsNatural : Option ℤ → Type 0
IsNatural (some (pos n)) = Unit
IsNatural _ = ⊥

-- No division, which isl does not round; of a product, one factor a literal; and a remainder of no
-- negative number by a positive literal only.
abbrev pub IsExact : Valuation → AffineExpr → Type 0
IsExact ν (AffineExpr.binary_operator BinaryOpTag.divides l r) = ⊥
IsExact ν (AffineExpr.binary_operator BinaryOpTag.multiplies l r) =
    IsExact ν l × IsExact ν r × ((is_literal l || is_literal r) ≡ true)
IsExact ν (AffineExpr.binary_operator BinaryOpTag.modulus l r) =
    IsExact ν l × IsNatural (affine_value ν l) × IsPositiveLiteral r
IsExact ν (AffineExpr.binary_operator _ l r) = IsExact ν l × IsExact ν r
IsExact ν (AffineExpr.unary_operator t e) = IsExact ν e
IsExact ν _ = Unit

-- Its expressions are exact, and nothing is compared by `>`.
abbrev pub IsExactConstraint : Valuation → AffineConstraint → Type 0
IsExactConstraint ν (wrapped e) = IsExact ν e
IsExactConstraint ν (AffineConstraint.binary_operator BinaryOpTag.greater c d) = ⊥
IsExactConstraint ν (AffineConstraint.binary_operator t c d) =
    IsExactConstraint ν c × IsExactConstraint ν d
IsExactConstraint ν (AffineConstraint.unary_operator t c) = IsExactConstraint ν c

abbrev pub is_literal_expr : Expression → Bool
is_literal_expr (literal z) = true
is_literal_expr _ = false

abbrev pub IsPositiveLiteralExpr : Expression → Type 0
IsPositiveLiteralExpr (literal (pos (suc m))) = Unit
IsPositiveLiteralExpr _ = ⊥

-- The same of an expression and a condition, whose operands have values.
module _ (meaning : Expression → Result Value) where
  abbrev pub IsPlain : Expression → Type 0
  IsPlain (binary BinaryOpTag.divides l r) = ⊥
  IsPlain (binary BinaryOpTag.multiplies l r) =
      IsPlain l × IsPlain r × ((is_literal_expr l || is_literal_expr r) ≡ true)
  IsPlain (binary BinaryOpTag.modulus l r) =
      IsPlain l × ((k : ℕ) × (meaning l ≡ ok (int (pos k)))) × IsPositiveLiteralExpr r
  IsPlain (binary _ l r) = IsPlain l × IsPlain r
  IsPlain (unary t e) = IsPlain e
  IsPlain _ = Unit

  abbrev pub IsPlainCondition : Expression → Type 0
  IsPlainCondition (binary BinaryOpTag.greater l r) = ⊥
  IsPlainCondition (binary BinaryOpTag.logical_and l r) = IsPlainCondition l × IsPlainCondition r
  IsPlainCondition (binary BinaryOpTag.logical_or l r) = IsPlainCondition l × IsPlainCondition r
  IsPlainCondition (binary _ l r) = IsPlain l × IsPlain r
  IsPlainCondition (unary UnaryOpTag.logical_not e) = IsPlainCondition e
  IsPlainCondition _ = Unit
