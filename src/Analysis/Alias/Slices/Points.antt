-- ===== src/Analysis/Alias/Slices/Points.antt =====
-- The points in the regions of slices, qubus/src/alias_analysis.cpp.
use qubus.Base.{ℕ, Bool, true, false, ◌&&◌, Option, none, some, List, ◌≡◌, sym, ap, subst, ap₂, ◌∙◌}
use qubus.Base.Int.{ℤ}
use qubus.Base.Results.{Result, ok, >>=-eq-ok}
use qubus.Ir.Expressions.{Expression}
use qubus.Ir.Semantics.{Value}
use qubus.Analysis.Affine.{AffineConstraint, AffineContext}
use qubus.Analysis.Affine.Meaning.{IsMeaning, IsValuation}
use qubus.Analysis.Affine.Numbering.{IsNumbered}
use qubus.Analysis.Affine.Declaring.{Step}
use qubus.Analysis.Affine.Isl.{Point, Isl, Reading, Lawful}
use qubus.Analysis.Affine.Exactness.{at_point}
use qubus.Analysis.Affine.Conversion.{convert_to_isl_set, construct_corresponding_space}
use qubus.Analysis.Affine.Regions.{convert_to_isl_set-contains}
use qubus.Analysis.Alias.{noalias}
use qubus.Analysis.Alias.Slices.{
  compare_slices, answer_of, answer_of-noalias, Dimension, slice_constraints,
  try_generate_slice_region, converted,
}
use qubus.Analysis.Alias.Slices.Places.{Place, in_slices, AreAt}
use qubus.Analysis.Alias.Slices.Outcomes.{
  AreDeclared, AreDeclared-grow, slice_constraints-SliceOutcome,
}

module _ {same_double same_float : ℕ → ℕ → Bool} {floor : ℤ → ℤ → Result ℤ}
    {meaning : Expression → Result Value} (laws : IsMeaning same_double same_float floor meaning)
    {isl : Isl} {r : Reading isl} (lawful : Lawful isl r) where
  converted-contains :
      (ds : List Dimension) (qs : List Place) (ctx ctx₁ ctx' : AffineContext)
      (o : Option AffineConstraint) (region : isl.Region) (p : Point)
      → IsNumbered ctx
      → AreDeclared ctx ds
      → slice_constraints same_double same_float ds ctx ≡ ok (o, ctx₁)
      → converted same_double same_float isl o ctx₁ ≡ ok (some region, ctx')
      → AreAt meaning (at_point p) ds qs
      → Step laws ctx ctx'
        × (IsValuation meaning (at_point p) ctx' → r.contains region p ≡ in_slices qs)
  converted-contains ds qs ctx ctx₁ ctx' none region p n known ho h at = cc h
  converted-contains ds qs ctx ctx₁ ctx' (some c) region p n known ho h at =
      let (d, hd, h₁) =
        >>=-eq-ok (convert_to_isl_set isl c (construct_corresponding_space isl ctx₁)) _ h in
      let contexts : ctx₁ ≡ ctx' = cc h₁ in
      let regions : d ≡ region = cc h₁ in
      let out = slice_constraints-SliceOutcome laws (at_point p) ds qs ctx ctx₁ c at known n ho in
      (
        subst (Step laws ctx) contexts out.step,
        λ valid.
            let worth = out.worth (subst (IsValuation meaning (at_point p)) (sym contexts) valid) in
            ap (λ e. r.contains e p) (sym regions)
            ∙ convert_to_isl_set-contains lawful ctx₁ out.step.numbered p c d (in_slices qs)
                out.declared worth.0 hd worth.1,
      )

  region_outcome :
      (ds : List Dimension) (qs : List Place) (ctx ctx' : AffineContext) (region : isl.Region)
      (p : Point)
      → IsNumbered ctx
      → AreDeclared ctx ds
      → try_generate_slice_region same_double same_float isl ds ctx ≡ ok (some region, ctx')
      → AreAt meaning (at_point p) ds qs
      → Step laws ctx ctx'
        × (IsValuation meaning (at_point p) ctx' → r.contains region p ≡ in_slices qs)
  unfolding try_generate_slice_region
  region_outcome ds qs ctx ctx' region p n known h at =
      let ((o, ctx₁), ho, h₁) = >>=-eq-ok (slice_constraints same_double same_float ds ctx) _ h in
      converted-contains ds qs ctx ctx₁ ctx' o region p n known ho h₁ at

  -- A point at which the names have the values of what they stand for, and whose indices are not
  -- before the ranges of a slice, is in the region of the slice exactly if each index is before the end
  -- of its range and a multiple of the stride away from its beginning. The offsets and bounds are
  -- plain (no division, no product of two non-literals, and remainders only of natural numbers by
  -- positive literals) and have values, and the strides are positive literals.
  pub try_generate_slice_region-contains :
      (ds : List Dimension) (qs : List Place) (ctx ctx' : AffineContext) (region : isl.Region)
      (p : Point)
      → IsNumbered ctx
      → AreDeclared ctx ds
      → try_generate_slice_region same_double same_float isl ds ctx ≡ ok (some region, ctx')
      → IsValuation meaning (at_point p) ctx'
      → AreAt meaning (at_point p) ds qs
      → r.contains region p ≡ in_slices qs
  try_generate_slice_region-contains ds qs ctx ctx' region p n known h valid at =
      (region_outcome ds qs ctx ctx' region p n known h at).1 valid

  -- Where two slices over the same variables are reported apart, no index vector that is not before
  -- either of them is in both, at a point where the names have the values of what they stand for and
  -- the strides are positive literals.
  compare_slices-noalias :
      (is_empty : isl.Region → Bool)
      → ((d : isl.Region) (p : Point) → is_empty d ≡ true → r.contains d p ≡ false)
      → (ds es : List Dimension) (qs qs' : List Place) (ctx ctx' : AffineContext) (p : Point)
      → IsNumbered ctx
      → AreDeclared ctx ds
      → AreDeclared ctx es
      → compare_slices same_double same_float isl is_empty ds es ctx ≡ ok (noalias, ctx')
      → IsValuation meaning (at_point p) ctx'
      → AreAt meaning (at_point p) ds qs
      → AreAt meaning (at_point p) es qs'
      → (in_slices qs && in_slices qs') ≡ false
  unfolding compare_slices
  compare_slices-noalias is_empty empty ds es qs qs' ctx ctx' p n known known' h valid at at' =
      let ((o, ctx₁), ho, h₁) =
        >>=-eq-ok (try_generate_slice_region same_double same_float isl ds ctx) _ h in
      let ((u, ctx₂), hu, h₂) =
        >>=-eq-ok (try_generate_slice_region same_double same_float isl es ctx₁) _ h₁ in
      let contexts : ctx₂ ≡ ctx' = cc h₂ in
      let answer : answer_of same_double same_float isl is_empty o u ≡ noalias = cc h₂ in
      let (set1, set2, po, pu, none_common) =
        answer_of-noalias same_double same_float isl is_empty o u answer in
      let (step, first) =
        region_outcome ds qs ctx ctx₁ set1 p n known (ho ∙ ap (λ k. ok (k, ctx₁)) po) at in
      let (step', second) =
        region_outcome es qs' ctx₁ ctx' set2 p step.numbered
          (AreDeclared-grow laws (at_point p) ctx ctx₁ es step known')
          (hu ∙ ap (λ k. ok (k, ctx₂)) pu ∙ ap (λ k. ok (some set2, k)) contexts) at' in
      ap₂ (λ x y. x && y) (sym (first (step'.earlier (at_point p) valid))) (sym (second valid))
      ∙ sym (lawful.contains-intersect set1 set2 p)
      ∙ empty (isl.intersect set1 set2) p none_common
