-- ===== src/Analysis/Alias/Slices.antt =====
-- The regions of slices: `try_generate_slice_constraints_1D` and `try_generate_slice_region` of
-- qubus/src/alias_analysis.cpp, on affine constraints.
pub mod Places
pub mod Outcomes
pub mod Points
use qubus.Base.{
  ℕ, Bool, true, ◌≡◌, refl, Bool-cases, inl, inr, if◌then◌else◌, Option, none, some, List, [], ◌∷◌,
}
use qubus.Base.Int.{pos}
use qubus.Base.Results.{Result, ok, fail, undefined_behaviour, ◌>>=◌}
use qubus.Ir.Expressions.{Expression, BinaryOpTag}
use qubus.Analysis.Affine.{
  AffineExpr, integer_literal, AffineConstraint, wrapped, AffineContext, Extracted, is_const,
  try_construct_affine_expr,
}
use qubus.Analysis.Alias.{AliasResult, noalias, may_alias}
use qubus.Analysis.Affine.Isl.{Isl}
use qubus.Analysis.Affine.Conversion.{convert_to_isl_set, construct_corresponding_space}

-- Of each dimension, the variable for its index and the range of the slice.
pub record Dimension : Type 0 where
  pub var : AffineExpr
  pub offset : Expression
  pub bound : Expression
  pub stride : Expression

-- An early return where nothing was found.
abbrev pub when_found {ℓ} :
    {A : Type ℓ} {B : Type 0} → Option A → AffineContext → (A → Extracted B) → Extracted B
when_found none ctx next = ok (none, ctx)
when_found (some a) ctx next = next a

abbrev pub compare : BinaryOpTag → AffineExpr → AffineExpr → AffineConstraint
compare t l r = AffineConstraint.binary_operator t (wrapped l) (wrapped r)

abbrev pub and_also : AffineConstraint → AffineConstraint → AffineConstraint
and_also c d = AffineConstraint.binary_operator BinaryOpTag.logical_and c d

-- offset <= var && var < bound && (var - offset) % stride == 0.
abbrev pub slice_constraint : AffineExpr → AffineExpr → AffineExpr → AffineExpr → AffineConstraint
slice_constraint var offset bound stride =
    and_also
      (and_also (compare BinaryOpTag.less_equal offset var) (compare BinaryOpTag.less var bound))
      (compare BinaryOpTag.equal_to
        (AffineExpr.binary_operator BinaryOpTag.modulus
          (AffineExpr.binary_operator BinaryOpTag.minus var offset) stride)
        (integer_literal (pos 0)))

-- The assertion of `operator%` is that the divisor is constant.
abbrev pub with_stride :
    AffineExpr → AffineExpr → AffineExpr → AffineExpr → AffineContext → Extracted AffineConstraint
with_stride var offset bound stride ctx =
    if is_const stride
    then ok (some (slice_constraint var offset bound stride), ctx)
    else fail undefined_behaviour

module _ (same_double same_float : ℕ → ℕ → Bool) where
  unfoldable pub try_generate_slice_constraints_1D :
      Dimension → AffineContext → Extracted AffineConstraint
  unfolding try_construct_affine_expr
  try_generate_slice_constraints_1D d ctx = do
    (aff_offset, ctx₁) ← try_construct_affine_expr same_double same_float d.offset ctx
    when_found aff_offset ctx₁ (λ offset. do
      (aff_bound, ctx₂) ← try_construct_affine_expr same_double same_float d.bound ctx₁
      when_found aff_bound ctx₂ (λ bound. do
        (aff_stride, ctx₃) ← try_construct_affine_expr same_double same_float d.stride ctx₂
        when_found aff_stride ctx₃ (λ stride. with_stride d.var offset bound stride ctx₃)))

  -- The loop over the dimensions after the first one.
  unfoldable pub add_constraints :
      AffineConstraint → List Dimension → AffineContext → Extracted AffineConstraint
  unfolding try_generate_slice_constraints_1D
  add_constraints constraint [] ctx = ok (some constraint, ctx)
  add_constraints constraint (d ∷ ds) ctx = do
    (partial_constraint, ctx₁) ← try_generate_slice_constraints_1D d ctx
    when_found partial_constraint ctx₁ (λ c. add_constraints (and_also constraint c) ds ctx₁)

  unfoldable pub slice_constraints : List Dimension → AffineContext → Extracted AffineConstraint
  unfolding add_constraints
  slice_constraints [] ctx = ok (none, ctx)
  slice_constraints (d ∷ ds) ctx = do
    (partial_constraint, ctx₁) ← try_generate_slice_constraints_1D d ctx
    when_found partial_constraint ctx₁ (λ c. add_constraints c ds ctx₁)

  module _ (isl : Isl) where
    abbrev pub converted : Option AffineConstraint → AffineContext → Extracted isl.Region
    converted none ctx = ok (none, ctx)
    converted (some c) ctx = do
      region ← convert_to_isl_set isl c (construct_corresponding_space isl ctx)
      ok (some region, ctx)

    unfoldable pub try_generate_slice_region : List Dimension → AffineContext → Extracted isl.Region
    unfolding slice_constraints convert_to_isl_set construct_corresponding_space
    try_generate_slice_region ds ctx = do
      (constraint, ctx₁) ← slice_constraints ds ctx
      converted constraint ctx₁

    module _ (is_empty : isl.Region → Bool) where
      abbrev pub answer_of : Option isl.Region → Option isl.Region → AliasResult
      answer_of (some set1) (some set2) =
          if is_empty (isl.intersect set1 set2) then noalias else may_alias
      answer_of _ _ = may_alias

      -- The end of the rule for two lists of ranges, over the variables of both.
      unfoldable pub compare_slices :
          List Dimension → List Dimension → AffineContext → Result (AliasResult × AffineContext)
      unfolding try_generate_slice_region
      compare_slices ds es ctx = do
        (set1, ctx₁) ← try_generate_slice_region ds ctx
        (set2, ctx₂) ← try_generate_slice_region es ctx₁
        ok (answer_of set1 set2, ctx₂)

      pub answer_of-noalias :
          (o u : Option isl.Region)
          → answer_of o u ≡ noalias
          → (set1 set2 : isl.Region) × (o ≡ some set1)
            × (u ≡ some set2)
            × (is_empty (isl.intersect set1 set2) ≡ true)
      answer_of-noalias (some set1) (some set2) h =
          elim (Bool-cases (is_empty (isl.intersect set1 set2))) [
            | inl e ↦ (set1, set2, refl, refl, e)
            | inr e ↦ cc (rw e at h)
          ]
      answer_of-noalias _ _ h = cc h
