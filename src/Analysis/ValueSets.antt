-- ===== src/Analysis/ValueSets.antt =====
-- Value sets: qubus/src/value_set_analysis.cpp, on affine constraints. The axioms that are valid at an
-- expression are given with it.
pub mod Soundness
use qubus.Base.{ℕ, Bool, true, false, Option, none, some, List, [], ◌∷◌, ◌≡◌}
use qubus.Base.Int.{ℤ}
use qubus.Base.Results.{Result, ok, ◌>>=◌}
use qubus.Ir.Expressions.{Expression}
use qubus.Analysis.Affine.{
  AffineExpr, AffineConstraint, AffineContext, try_construct_affine_expr,
  try_extract_affine_constraint,
}
use qubus.Analysis.Affine.Isl.{param, Point, Isl, Reading}
use qubus.Analysis.Affine.Conversion.{
  convert_to_isl_aff_expr, convert_to_isl_set, construct_corresponding_space,
}

-- What the analysis uses of isl besides: the images of sets under functions, as sets of numbers.
pub record Images (isl : Isl) : Type 1 where
  pub Values : Type 0
  pub simplify : isl.Region → isl.Region
  pub image : isl.Aff → isl.Region → Values
  pub everything : Values
  pub have_no_common : Values → Values → Bool

-- `has v ps z`: the set has the number, where the parameters have the values `ps`.
pub record ImagesReading {isl : Isl} (r : Reading isl) (images : Images isl) : Type 0 where
  pub has : images.Values → (ℕ → ℤ) → ℤ → Bool
  pub contains-simplify :
      (d : isl.Region) (p : Point) → r.contains (images.simplify d) p ≡ r.contains d p
  pub has-image :
      (f : isl.Aff) (d : isl.Region) (p : Point) (z : ℤ)
      → r.contains d p ≡ true
      → r.value f p ≡ some z
      → has (images.image f d) (p param) z ≡ true
  pub has-everything : (ps : ℕ → ℤ) (z : ℤ) → has images.everything ps z ≡ true
  pub none_common :
      (v w : images.Values) (ps : ℕ → ℤ) (z : ℤ)
      → images.have_no_common v w ≡ true
      → has v ps z ≡ true
      → has w ps z ≡ false

abbrev pub keep : Option AffineConstraint → List AffineConstraint → List AffineConstraint
keep none found = found
keep (some c) found = c ∷ found

module _ (isl : Isl) where
  -- The loop that intersects the domain with each constraint.
  unfoldable pub narrow : isl.Space → List AffineConstraint → isl.Region → Result isl.Region
  unfolding convert_to_isl_set
  narrow s [] domain = ok domain
  narrow s (c ∷ cs) domain = do
    constraint ← convert_to_isl_set isl c s
    narrow s cs (isl.intersect domain constraint)

module _ (same_double same_float : ℕ → ℕ → Bool) (isl : Isl) (images : Images isl) where
  -- The axioms that are affine.
  unfoldable pub affine_axioms :
      List Expression → AffineContext → Result (List AffineConstraint × AffineContext)
  unfolding try_extract_affine_constraint
  affine_axioms [] ctx = ok ([], ctx)
  affine_axioms (fact ∷ axioms) ctx = do
    (c, ctx₁) ← try_extract_affine_constraint same_double same_float fact ctx
    (rest, ctx₂) ← affine_axioms axioms ctx₁
    ok (keep c rest, ctx₂)

  unfoldable pub values_of :
      AffineExpr → List Expression → AffineContext → Result (images.Values × AffineContext)
  unfolding affine_axioms narrow convert_to_isl_aff_expr construct_corresponding_space
  values_of a axioms ctx = do
    (constraints, ctx₁) ← affine_axioms axioms ctx
    let s = construct_corresponding_space isl ctx₁
    domain ← narrow isl s constraints (isl.universe s)
    f ← convert_to_isl_aff_expr isl a s
    ok (images.image f (images.simplify domain), ctx₁)

  abbrev pub values_if_affine :
      Option AffineExpr → List Expression → AffineContext → Result (images.Values × AffineContext)
  values_if_affine (some a) axioms ctx = values_of a axioms ctx
  values_if_affine none axioms ctx = ok (images.everything, ctx)

  -- Each expression stands with its valid axioms.
  unfoldable pub determine_value_sets :
      List (Expression × List Expression)
      → AffineContext
      → Result (List images.Values × AffineContext)
  unfolding try_construct_affine_expr values_of
  determine_value_sets [] ctx = ok ([], ctx)
  determine_value_sets ((e, axioms) ∷ es) ctx = do
    (a, ctx₁) ← try_construct_affine_expr same_double same_float e ctx
    (v, ctx₂) ← values_if_affine a axioms ctx₁
    (vs, ctx₃) ← determine_value_sets es ctx₂
    ok (v ∷ vs, ctx₃)
