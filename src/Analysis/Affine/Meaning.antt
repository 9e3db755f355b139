-- ===== src/Analysis/Affine/Meaning.antt =====
-- What affine expressions and constraints are meant to denote, qubus/src/affine_constraints.cpp:
-- the values of the expressions they were extracted from, on unbounded integers.
use qubus.Base.{ℕ, Bool, true, not, ◌&&◌, ◌||◌, if◌then◌else◌, Option, none, some, ◌≡◌, All}
use qubus.Base.Int.{ℤ, pos, ◌+ℤ◌, ◌-ℤ◌, ◌*ℤ◌, quot, rem, ltb_ℤ, leb_ℤ, eqb_ℤ}
use qubus.Base.Results.{Result, ok, ◌>>=◌}
use qubus.Ir.Expressions.{
  Expression, Variable, BinaryOpTag, UnaryOpTag, same_variable, variable_ref,
  binary_operator as binary, unary_operator as unary, integer_literal as literal,
}
use qubus.Ir.Expressions.Equality.{equal}
use qubus.Ir.Semantics.{Value, int, is_zero, apply_binary, apply_unary}
use qubus.Analysis.Affine.{
  Name, AffineExpr, affine_variable, affine_constant, integer_literal, AffineConstraint, wrapped,
  AffineContext,
}

abbrev pub bind_option {ℓ} : {A B : Type ℓ} → Option A → (A → Option B) → Option B
bind_option none f = none
bind_option (some a) f = f a

abbrev pub apply_affine : BinaryOpTag → ℤ → ℤ → Option ℤ
apply_affine BinaryOpTag.plus a b = some (a +ℤ b)
apply_affine BinaryOpTag.minus a b = some (a -ℤ b)
apply_affine BinaryOpTag.multiplies a b = some (a *ℤ b)
apply_affine BinaryOpTag.divides a b = if is_zero b then none else some (quot a b)
apply_affine BinaryOpTag.modulus a b = if is_zero b then none else some (rem a b)
apply_affine _ a b = none

abbrev pub apply_sign : UnaryOpTag → ℤ → Option ℤ
apply_sign UnaryOpTag.plus a = some a
apply_sign UnaryOpTag.negate a = some (pos 0 -ℤ a)
apply_sign _ a = none

abbrev pub compare_values : BinaryOpTag → ℤ → ℤ → Option Bool
compare_values BinaryOpTag.equal_to a b = some (eqb_ℤ a b)
compare_values BinaryOpTag.not_equal_to a b = some (not (eqb_ℤ a b))
compare_values BinaryOpTag.less a b = some (ltb_ℤ a b)
compare_values BinaryOpTag.greater a b = some (ltb_ℤ b a)
compare_values BinaryOpTag.less_equal a b = some (leb_ℤ a b)
compare_values BinaryOpTag.greater_equal a b = some (leb_ℤ b a)
compare_values _ a b = none

abbrev pub connect_values : BinaryOpTag → Bool → Bool → Option Bool
connect_values BinaryOpTag.logical_and a b = some (a && b)
connect_values BinaryOpTag.logical_or a b = some (a || b)
connect_values _ a b = none

-- The values of the names.
abbrev pub Valuation : Type 0
Valuation = Name → ℤ

module _ (ν : Valuation) where
  unfoldable pub affine_value : AffineExpr → Option ℤ
  affine_value (affine_variable n) = some (ν n)
  affine_value (affine_constant n) = some (ν n)
  affine_value (integer_literal z) = some z
  affine_value (AffineExpr.binary_operator t l r) =
      bind_option (affine_value l) (λ x. bind_option (affine_value r) (apply_affine t x))
  affine_value (AffineExpr.unary_operator t e) = bind_option (affine_value e) (apply_sign t)

  unfoldable pub constraint_value : AffineConstraint → Option Bool
  unfolding affine_value
  constraint_value (AffineConstraint.binary_operator t (wrapped l) (wrapped r)) =
      bind_option (affine_value l) (λ x. bind_option (affine_value r) (compare_values t x))
  constraint_value (AffineConstraint.binary_operator t c d) =
      bind_option (constraint_value c) (λ x. bind_option (constraint_value d) (connect_values t x))
  constraint_value (AffineConstraint.unary_operator UnaryOpTag.logical_not c) =
      bind_option (constraint_value c) (λ x. some (not x))
  constraint_value _ = none

-- A meaning of expressions that reads the operators as the IR does, and gives equal expressions the
-- same value.
pub record IsMeaning (same_double same_float : ℕ → ℕ → Bool) (floor : ℤ → ℤ → Result ℤ)
    (meaning : Expression → Result Value) : Type 0 where
  pub of_literal : (z : ℤ) → meaning (literal z) ≡ ok (int z)
  pub of_binary :
      (t : BinaryOpTag) (l r : Expression)
      → meaning (binary t l r) ≡ (meaning l >>= λ x. meaning r >>= λ y. apply_binary floor t x y)
  pub of_unary :
      (t : UnaryOpTag) (e : Expression) → meaning (unary t e) ≡ (meaning e >>= apply_unary t)
  pub of_equal :
      (e f : Expression) → equal same_double same_float e f ≡ true → meaning e ≡ meaning f
  pub of_variable :
      (v w : Variable)
      → same_variable v w ≡ true
      → meaning (variable_ref v) ≡ meaning (variable_ref w)

module _ (meaning : Expression → Result Value) (ν : Valuation) where
  abbrev pub IsValueOf : Name → Expression → Type 0
  IsValueOf n e = (z : ℤ) → meaning e ≡ ok (int z) → ν n ≡ z

  abbrev pub IsVariableEntry : Variable × Name → Type 0
  IsVariableEntry (v, n) = IsValueOf n (variable_ref v)

  abbrev pub IsConstantEntry : Expression × Name → Type 0
  IsConstantEntry (e, n) = IsValueOf n e

  -- Every name in the tables has the value of what it stands for.
  abbrev pub IsValuation : AffineContext → Type 0
  IsValuation ctx = All IsVariableEntry ctx.variable_table × All IsConstantEntry ctx.constant_table
