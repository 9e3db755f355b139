-- ===== src/Analysis/Affine/Operators.antt =====
-- The operators that `try_construct_affine_expr` of qubus/src/affine_constraints.cpp keeps, and what
-- they compute.
use qubus.Base.{
  ◌||◌, arith, Bool, true, false, none, some, ◌≡◌, refl, ap, sym, subst, Bool-cases, inl, inr,
  if◌then◌else◌,
}
use mathlib.Core.Option.{some-injective}
use qubus.Base.Int.{ℤ, pos, quot}
use qubus.Base.Results.{Result, ok, ◌>>=◌}
use qubus.Ir.Expressions.{Expression, binary_operator as binary, BinaryOpTag, UnaryOpTag}
use qubus.Ir.Semantics.{Value, int, apply_binary, apply_unary, checked, in_range, is_zero}
use qubus.Analysis.Affine.{AffineExpr, AffineContext, combine, combine_unary}
use qubus.Analysis.Affine.Plain.{
  is_literal, is_literal_expr, IsPositiveLiteral, IsPositiveLiteralExpr, IsNatural, IsExact,
  IsPlain,
}
use qubus.Analysis.Affine.Meaning.{Valuation, affine_value, apply_affine}
use qubus.Analysis.Affine.Numbering.{IsDeclared}

pub checked-int : (w z : ℤ) → (checked w >>= λ u. ok (int u)) ≡ ok (int z) → w ≡ z
checked-int w z h = elim (Bool-cases (in_range w)) [
  | inl p ↦ cc (rw p at h)
  | inr p ↦ cc (rw p at h)
]

pub if-eq-some {ℓ} :
    {A : Type ℓ} (b : Bool) (x a : A) → (if b then none else some x) ≡ some a → a ≡ x
if-eq-some true x a h = cc h
if-eq-some false x a h = sym (some-injective x a h)

pub combine-eq-some :
    (t : BinaryOpTag) (l r a : AffineExpr)
    → combine t l r ≡ some a
    → a ≡ AffineExpr.binary_operator t l r
combine-eq-some BinaryOpTag.plus l r a h = cc
combine-eq-some BinaryOpTag.minus l r a h = cc
combine-eq-some BinaryOpTag.multiplies l r a h = if-eq-some _ _ a h
combine-eq-some BinaryOpTag.divides l r a h = if-eq-some _ _ a h
combine-eq-some BinaryOpTag.modulus l r a h = if-eq-some _ _ a h
combine-eq-some _ l r a h = cc

-- An operator that stays affine has an integer only of integers, and the same one unbounded.
pub apply_binary-affine :
    (floor : ℤ → ℤ → Result ℤ) (t : BinaryOpTag) (l r a : AffineExpr) (x y : Value) (z : ℤ)
    → combine t l r ≡ some a
    → apply_binary floor t x y ≡ ok (int z)
    → (i j : ℤ) × (x ≡ int i) × (y ≡ int j) × (apply_affine t i j ≡ some z)
unfolding apply_binary
apply_binary-affine floor BinaryOpTag.plus l r a (int i) (int j) z c h =
    (i, j, refl, refl, ap some (checked-int _ z h))
apply_binary-affine floor BinaryOpTag.minus l r a (int i) (int j) z c h =
    (i, j, refl, refl, ap some (checked-int _ z h))
apply_binary-affine floor BinaryOpTag.multiplies l r a (int i) (int j) z c h =
    (i, j, refl, refl, ap some (checked-int _ z h))
apply_binary-affine floor BinaryOpTag.divides l r a (int i) (int j) z c h = (
  i,
  j,
  refl,
  refl,
  elim (Bool-cases (is_zero j)) [
    | inl p ↦ cc (rw p at h)
    | inr p ↦ rw p (ap some (checked-int _ z (rw p at h)))
  ],
)
apply_binary-affine floor BinaryOpTag.modulus l r a (int i) (int j) z c h = (
  i,
  j,
  refl,
  refl,
  elim (Bool-cases (is_zero j)) [
    | inl p ↦ cc (rw p at h)
    | inr p ↦ elim (Bool-cases (in_range (quot i j))) [
      | inl q ↦ rw p (ap some (checked-int _ z (rw (p, q) at h)))
      | inr q ↦ cc (rw (p, q) at h)
    ]
  ],
)
apply_binary-affine floor t l r a x y z c h = cc

pub apply_unary-affine :
    (t : UnaryOpTag) (e a : AffineExpr) (x : Value) (z : ℤ)
    → combine_unary t e ≡ some a
    → apply_unary t x ≡ ok (int z)
    → (i : ℤ) × (x ≡ int i)
      × ((ν : Valuation) → affine_value ν e ≡ some i → affine_value ν a ≡ some z)
unfolding apply_unary affine_value
apply_unary-affine UnaryOpTag.plus e a (int i) z c h = (i, refl, λ ν p. cc)
apply_unary-affine UnaryOpTag.negate e a (int i) z c h = (
  i,
  refl,
  λ ν p.
      subst (λ b. affine_value ν b ≡ some z) (some-injective _ a c)
        (rw p (ap some (checked-int _ z h))),
)
apply_unary-affine t e a x z c h = cc

pub combine_unary-IsDeclared :
    (ctx : AffineContext) (t : UnaryOpTag) (e a : AffineExpr)
    → combine_unary t e ≡ some a
    → IsDeclared ctx e
    → IsDeclared ctx a
combine_unary-IsDeclared ctx UnaryOpTag.plus e a h p =
    subst (IsDeclared ctx) (some-injective _ a h) p
combine_unary-IsDeclared ctx UnaryOpTag.negate e a h p =
    subst (IsDeclared ctx) (some-injective _ a h) p
combine_unary-IsDeclared ctx _ e a h p = cc h

module _ (meaning : Expression → Result Value) (ν : Valuation) where
  pub combine-IsExact :
      (t : BinaryOpTag) (l r : Expression) (x y a : AffineExpr)
      → combine t x y ≡ some a
      → (IsPlain meaning l → IsExact ν x)
      → (IsPlain meaning r → IsExact ν y)
      → (is_literal_expr l ≡ true → is_literal x ≡ true)
      → (is_literal_expr r ≡ true → is_literal y ≡ true)
      → (IsPositiveLiteralExpr r → IsPositiveLiteral y)
      → ((z : ℤ) → meaning l ≡ ok (int z) → affine_value ν x ≡ some z)
      → IsPlain meaning (binary t l r)
      → IsExact ν a
  combine-IsExact BinaryOpTag.plus l r x y a h p q _ _ _ _ plain =
      subst (IsExact ν) (some-injective _ a h) (p plain.0, q plain.1)
  combine-IsExact BinaryOpTag.minus l r x y a h p q _ _ _ _ plain =
      subst (IsExact ν) (some-injective _ a h) (p plain.0, q plain.1)
  combine-IsExact BinaryOpTag.multiplies l r x y a h p q left right _ _ plain =
      subst (IsExact ν) (sym (combine-eq-some BinaryOpTag.multiplies x y a h)) (
        p plain.0,
        q plain.1,
        kept (is_literal_expr l) (is_literal_expr r) (is_literal x) (is_literal y) left right
            plain.2,
      )
    where
      kept :
          (a b c d : Bool)
          → (a ≡ true → c ≡ true)
          → (b ≡ true → d ≡ true)
          → (a || b) ≡ true
          → (c || d) ≡ true
      kept a b c d f g h = ground (arith, f, g, h)
  combine-IsExact BinaryOpTag.modulus l r x y a h p q _ _ positive valued plain =
      subst (IsExact ν) (sym (combine-eq-some BinaryOpTag.modulus x y a h))
        (p plain.0, subst IsNatural (sym (valued (pos plain.1.0) plain.1.1)) tt, positive plain.2)
  combine-IsExact BinaryOpTag.divides l r x y a h p q _ _ _ _ plain = absurd plain
  combine-IsExact _ l r x y a h p q _ _ _ _ plain = cc h

  pub combine_unary-IsExact :
      (t : UnaryOpTag) (x a : AffineExpr) → combine_unary t x ≡ some a → IsExact ν x → IsExact ν a
  combine_unary-IsExact UnaryOpTag.plus x a h p = subst (IsExact ν) (some-injective _ a h) p
  combine_unary-IsExact UnaryOpTag.negate x a h p = subst (IsExact ν) (some-injective _ a h) p
  combine_unary-IsExact _ x a h p = cc h
