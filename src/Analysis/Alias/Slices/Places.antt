-- ===== src/Analysis/Alias/Slices/Places.antt =====
-- What the constraints of a slice of qubus/src/alias_analysis.cpp are worth at a place in each of its
-- dimensions.
use qubus.Base.{
  ℕ, suc, ◌+◌, ◌%◌, ◌==◌, Bool, true, false, ◌&&◌, Option, none, some, List, [], ◌∷◌, ◌≡◌, refl, ap,
  arith, inl, inr, Bool-cases,
}
use qubus.Base.Int.{ℤ, pos, ◌-ℤ◌, rem, ltb_ℤ, leb_ℤ, eqb_ℤ, -ℤ_parts}
use qubus.Base.Results.{Result, ok}
use qubus.Ir.Expressions.{Expression, BinaryOpTag, integer_literal as literal}
use qubus.Ir.Semantics.{Value, int, is_zero}
use qubus.Analysis.Affine.{AffineExpr, AffineConstraint, AffineContext, Extracted, is_const}
use qubus.Analysis.Affine.Meaning.{Valuation, affine_value, constraint_value}
use qubus.Analysis.Affine.Plain.{IsExact, IsExactConstraint, IsPlain, IsNatural, IsPositiveLiteral}
use qubus.Analysis.Alias.Slices.{Dimension, when_found, slice_constraint, with_stride, and_also}

-- In a dimension: the index, the end of the range, the distance of the index from its beginning, and
-- the stride less one.
pub record Place : Type 0 where
  pub index : ℤ
  pub end : ℤ
  pub distance : ℕ
  pub gap : ℕ

abbrev pub in_slice : Place → Bool
in_slice q = ltb_ℤ q.index q.end && (q.distance % suc q.gap == 0)

abbrev pub in_slices : List Place → Bool
in_slices [] = true
in_slices (q ∷ qs) = in_slice q && in_slices qs

zero_right : (k : ℕ) → k + 0 ≡ k
zero_right k = omega arith

pub when_found-eq-some {ℓ} :
    {A : Type ℓ} {B : Type 0} (o : Option A) (ctx ctx' : AffineContext) (next : A → Extracted B)
    (b : B)
    → when_found o ctx next ≡ ok (some b, ctx')
    → (a : A) × (o ≡ some a) × (next a ≡ ok (some b, ctx'))
when_found-eq-some none ctx ctx' next b h = cc h
when_found-eq-some (some a) ctx ctx' next b h = (a, refl, h)

pub with_stride-eq-some :
    (var offset bound stride : AffineExpr) (ctx ctx' : AffineContext) (c : AffineConstraint)
    → with_stride var offset bound stride ctx ≡ ok (some c, ctx')
    → (c ≡ slice_constraint var offset bound stride) × (ctx ≡ ctx')
with_stride-eq-some var offset bound stride ctx ctx' c h = elim (Bool-cases (is_const stride)) [
  | inl p ↦ (cc (rw p at h), cc (rw p at h))
  | inr p ↦ cc (rw p at h)
]

module _ (meaning : Expression → Result Value) (ν : Valuation) where
  -- The index is not before the range, whose stride is a positive literal.
  pub record IsAt (d : Dimension) (q : Place) : Type 0 where
    pub start : ℤ
    pub at_index : affine_value ν d.var ≡ some q.index
    pub exact : IsExact ν d.var
    pub starts : meaning d.offset ≡ ok (int start)
    pub ends : meaning d.bound ≡ ok (int q.end)
    pub strides : d.stride ≡ literal (pos (suc q.gap))
    pub plain_offset : IsPlain meaning d.offset
    pub plain_bound : IsPlain meaning d.bound
    pub apart : q.index -ℤ start ≡ pos q.distance

  abbrev pub AreAt : List Dimension → List Place → Type 0
  AreAt [] [] = Unit
  AreAt (d ∷ ds) (q ∷ qs) = IsAt d q × AreAt ds qs
  AreAt _ _ = ⊥

  -- A constraint that is exact and has the truth value.
  abbrev pub IsWorth : AffineConstraint → Bool → Type 0
  IsWorth c b = IsExactConstraint ν c × (constraint_value ν c ≡ some b)

  abbrev values_in : ℤ → ℤ → ℤ → ℤ → Bool
  values_in v o e m = (leb_ℤ o v && ltb_ℤ v e) && eqb_ℤ (rem (v -ℤ o) m) (pos 0)

  values_in-in_slice :
      (q : Place) (o : ℤ)
      → q.index -ℤ o ≡ pos q.distance
      → values_in q.index o q.end (pos (suc q.gap)) ≡ in_slice q
  unfolding rem
  values_in-in_slice q o h =
      rw (h, after)
        (ap (λ k. ltb_ℤ q.index q.end && (k == 0)) (zero_right (q.distance % suc q.gap)))
    where
      after : leb_ℤ o q.index ≡ true
      after = ground (arith, h, -ℤ_parts q.index o)

  pub slice_constraint-IsWorth :
      (d : Dimension) (q : Place) (offset bound stride : AffineExpr)
      → (at : IsAt d q) → IsExact ν offset
      → IsExact ν bound
      → IsExact ν stride
      → IsPositiveLiteral stride
      → affine_value ν offset ≡ some at.start
      → affine_value ν bound ≡ some q.end
      → affine_value ν stride ≡ some (pos (suc q.gap))
      → IsWorth (slice_constraint d.var offset bound stride) (in_slice q)
  unfolding constraint_value
  slice_constraint-IsWorth d q offset bound stride at xo xb xs positive vo vb vs = (
    (((xo, at.exact), (at.exact, xb)), (((at.exact, xo), natural, positive), tt)),
    rw (vo, at.at_index, vb, vs, nonzero) (ap some (values_in-in_slice q at.start at.apart)),
  )
    where
      nonzero : is_zero (pos (suc q.gap)) ≡ false
      nonzero = ground arith

      natural :
          IsNatural (affine_value ν (AffineExpr.binary_operator BinaryOpTag.minus d.var offset))
      natural = rw (at.at_index, vo, at.apart) tt

  pub and_also-IsWorth :
      (c e : AffineConstraint) (x y : Bool)
      → IsWorth c x
      → IsWorth e y
      → IsWorth (and_also c e) (x && y)
  unfolding constraint_value
  and_also-IsWorth (AffineConstraint.wrapped a) e x y p q = cc (p.1)
  and_also-IsWorth (AffineConstraint.binary_operator t a b) e x y p q =
      ((p.0, q.0), rw (p.1, q.1) refl)
  and_also-IsWorth (AffineConstraint.unary_operator t a) e x y p q =
      ((p.0, q.0), rw (p.1, q.1) refl)
