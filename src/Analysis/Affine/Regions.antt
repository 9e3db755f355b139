-- ===== src/Analysis/Affine/Regions.antt =====
-- `convert_to_isl_set` of qubus/src/affine_constraints.cpp: the points of the set of a constraint.
use qubus.Base.{◌≢◌, Bool, not, some, ◌≡◌, refl, sym, ap, subst, ◌∙◌, arith}
use mathlib.Core.Option.{some-injective}
use qubus.Base.Int.{ℤ, pos, ◌+ℤ◌, ◌-ℤ◌, leb_ℤ, ltb_ℤ, eqb_ℤ, +ℤ_parts, -ℤ_parts}
use qubus.Base.Results.{ok, >>=-eq-ok, ok-injective}
use qubus.Ir.Expressions.{BinaryOpTag, UnaryOpTag}
use qubus.Analysis.Affine.{AffineConstraint, wrapped, AffineContext}
use qubus.Analysis.Affine.Meaning.{
  Valuation, affine_value, constraint_value, compare_values, connect_values,
}
use qubus.Analysis.Affine.Plain.{IsExactConstraint}
use qubus.Analysis.Affine.Isl.{Point, Isl, Reading, Lawful}
use qubus.Analysis.Affine.Conversion.{
  convert_to_isl_aff_expr, compare_region, connect_regions, convert_to_isl_set,
  construct_corresponding_space,
}
use qubus.Analysis.Affine.Numbering.{IsNumbered, IsDeclaredConstraint}
use qubus.Analysis.Affine.Exactness.{at_point, bind_option-eq-some, convert_to_isl_aff_expr-value}

IsExactConstraint-parts :
    (ν : Valuation) (t : BinaryOpTag) (c d : AffineConstraint)
    → IsExactConstraint ν (AffineConstraint.binary_operator t c d)
    → IsExactConstraint ν c × IsExactConstraint ν d
IsExactConstraint-parts ν BinaryOpTag.greater c d h = absurd h
IsExactConstraint-parts ν t c d h = h

eqb_of_difference : (x y : ℤ) → eqb_ℤ (x -ℤ y) (pos 0) ≡ eqb_ℤ x y
eqb_of_difference x y = ground (arith, -ℤ_parts x y)

less_of_difference : (x y : ℤ) → leb_ℤ (pos 0) (pos 0 -ℤ (x -ℤ y +ℤ pos 1)) ≡ ltb_ℤ x y
less_of_difference x y =
    ground (arith, -ℤ_parts x y, +ℤ_parts (x -ℤ y) (pos 1), -ℤ_parts (pos 0) (x -ℤ y +ℤ pos 1))

less_equal_of_difference : (x y : ℤ) → leb_ℤ (pos 0) (pos 0 -ℤ (x -ℤ y)) ≡ leb_ℤ x y
less_equal_of_difference x y = ground (arith, -ℤ_parts x y, -ℤ_parts (pos 0) (x -ℤ y))

greater_equal_of_difference : (x y : ℤ) → leb_ℤ (pos 0) (x -ℤ y) ≡ leb_ℤ y x
greater_equal_of_difference x y = ground (arith, -ℤ_parts x y)

pub greater_of_difference : (x y : ℤ) → leb_ℤ (pos 0) (x -ℤ y +ℤ pos 1) ≡ leb_ℤ y (x +ℤ pos 1)
greater_of_difference x y =
    ground (arith, -ℤ_parts x y, +ℤ_parts (x -ℤ y) (pos 1), +ℤ_parts x (pos 1))

module _ {isl : Isl} {r : Reading isl} (laws : Lawful isl r) where
  equality-contains :
      (s : isl.Space) (a : isl.Aff) (p : Point) (x : ℤ)
      → r.value a p ≡ some x
      → r.contains (isl.add_equality (isl.universe s) a) p ≡ eqb_ℤ x (pos 0)
  equality-contains s a p x h =
      rw (laws.contains-add_equality (isl.universe s) a p x h, laws.contains-universe s p) refl

  pub inequality-contains :
      (s : isl.Space) (a : isl.Aff) (p : Point) (x : ℤ)
      → r.value a p ≡ some x
      → r.contains (isl.add_inequality (isl.universe s) a) p ≡ leb_ℤ (pos 0) x
  inequality-contains s a p x h =
      rw (laws.contains-add_inequality (isl.universe s) a p x h, laws.contains-universe s p) refl

  compare_region-contains :
      (t : BinaryOpTag) (s : isl.Space) (a b : isl.Aff) (d : isl.Region) (p : Point) (x y : ℤ)
      (v : Bool)
      → t ≢ BinaryOpTag.greater
      → r.value a p ≡ some x
      → r.value b p ≡ some y
      → compare_region isl t s a b ≡ ok d
      → compare_values t x y ≡ some v
      → r.contains d p ≡ v
  compare_region-contains BinaryOpTag.equal_to s a b d p x y v other va vb h c =
      ap (λ e. r.contains e p) (sym (ok-injective h))
      ∙ equality-contains s _ p _ (laws.value-sub a b p x y va vb)
      ∙ eqb_of_difference x y
      ∙ some-injective _ _ c
  compare_region-contains BinaryOpTag.not_equal_to s a b d p x y v other va vb h c =
      ap (λ e. r.contains e p) (sym (ok-injective h))
      ∙ laws.contains-complement _ p
      ∙ ap not (equality-contains s _ p _ (laws.value-sub a b p x y va vb) ∙ eqb_of_difference x y)
      ∙ some-injective _ _ c
  compare_region-contains BinaryOpTag.less s a b d p x y v other va vb h c =
      ap (λ e. r.contains e p) (sym (ok-injective h))
      ∙ inequality-contains s _ p _ (
          laws.value-neg _ p _
            (laws.value-add_constant _ (pos 1) p _ (laws.value-sub a b p x y va vb)))
      ∙ less_of_difference x y
      ∙ some-injective _ _ c
  compare_region-contains BinaryOpTag.less_equal s a b d p x y v other va vb h c =
      ap (λ e. r.contains e p) (sym (ok-injective h))
      ∙ inequality-contains s _ p _ (laws.value-neg _ p _ (laws.value-sub a b p x y va vb))
      ∙ less_equal_of_difference x y
      ∙ some-injective _ _ c
  compare_region-contains BinaryOpTag.greater_equal s a b d p x y v other va vb h c =
      ap (λ e. r.contains e p) (sym (ok-injective h))
      ∙ inequality-contains s _ p _ (laws.value-sub a b p x y va vb)
      ∙ greater_equal_of_difference x y
      ∙ some-injective _ _ c
  compare_region-contains BinaryOpTag.greater s a b d p x y v other va vb h c = absurd (other refl)
  compare_region-contains t s a b d p x y v other va vb h c = cc

  connect_regions-contains :
      (t : BinaryOpTag) (a b d : isl.Region) (p : Point) (x y v : Bool)
      → r.contains a p ≡ x
      → r.contains b p ≡ y
      → connect_regions isl t a b ≡ ok d
      → connect_values t x y ≡ some v
      → r.contains d p ≡ v
  connect_regions-contains BinaryOpTag.logical_and a b d p x y v ha hb h c =
      ap (λ e. r.contains e p) (sym (ok-injective h))
      ∙ laws.contains-intersect a b p
      ∙ rw (ha, hb) (some-injective _ _ c)
  connect_regions-contains BinaryOpTag.logical_or a b d p x y v ha hb h c =
      ap (λ e. r.contains e p) (sym (ok-injective h))
      ∙ laws.contains-union_ a b p
      ∙ rw (ha, hb) (some-injective _ _ c)
  connect_regions-contains t a b d p x y v ha hb h c = cc

  module _ (ctx : AffineContext) (n : IsNumbered ctx) (p : Point) where
    abbrev space : isl.Space
    space = construct_corresponding_space isl ctx

    -- A point is in the set of an exact constraint if and only if the constraint is true there.
    pub convert_to_isl_set-contains :
        (c : AffineConstraint) (d : isl.Region) (v : Bool)
        → IsDeclaredConstraint ctx c
        → IsExactConstraint (at_point p) c
        → convert_to_isl_set isl c space ≡ ok d
        → constraint_value (at_point p) c ≡ some v
        → r.contains d p ≡ v
    unfolding convert_to_isl_set constraint_value
    convert_to_isl_set-contains (AffineConstraint.binary_operator t (wrapped l) (wrapped e)) d v
          declared exact h holds =
        let (a, cl, h₁) = >>=-eq-ok (convert_to_isl_aff_expr isl l space) _ h in
        let (b, ce, h₂) = >>=-eq-ok (convert_to_isl_aff_expr isl e space) _ h₁ in
        let (x, vl, v₁) = bind_option-eq-some (affine_value (at_point p) l) _ v holds in
        let (y, ve, v₂) = bind_option-eq-some (affine_value (at_point p) e) _ v v₁ in
        let (left, right) = IsExactConstraint-parts (at_point p) t (wrapped l) (wrapped e) exact in
        compare_region-contains t space a b d p x y v
          (λ g.
            subst
              (λ u.
                IsExactConstraint (at_point p)
                  (AffineConstraint.binary_operator u (wrapped l) (wrapped e)))
              g exact)
          (convert_to_isl_aff_expr-value laws ctx n p l a x declared.0 left cl vl)
          (convert_to_isl_aff_expr-value laws ctx n p e b y declared.1 right ce ve) h₂ v₂
    convert_to_isl_set-contains (AffineConstraint.unary_operator UnaryOpTag.logical_not c) d v
          declared exact h holds =
        let (a, cl, h₁) = >>=-eq-ok (convert_to_isl_set isl c space) _ h in
        let (x, vl, v₁) = bind_option-eq-some (constraint_value (at_point p) c) _ v holds in
        ap (λ e. r.contains e p) (sym (ok-injective h₁))
        ∙ laws.contains-complement a p
        ∙ ap not (convert_to_isl_set-contains c a x declared exact cl vl)
        ∙ some-injective _ _ v₁
    convert_to_isl_set-contains (AffineConstraint.unary_operator t c) d v declared exact h holds =
        cc
    convert_to_isl_set-contains (wrapped e) d v declared exact h holds = cc
    convert_to_isl_set-contains (AffineConstraint.binary_operator t (wrapped l) e) d v declared
          exact h holds =
        cc
    convert_to_isl_set-contains (AffineConstraint.binary_operator t c e) d v declared exact h
          holds =
        let (a, cl, h₁) = >>=-eq-ok (convert_to_isl_set isl c space) _ h in
        let (b, ce, h₂) = >>=-eq-ok (convert_to_isl_set isl e space) _ h₁ in
        let (x, vl, v₁) = bind_option-eq-some (constraint_value (at_point p) c) _ v holds in
        let (y, ve, v₂) = bind_option-eq-some (constraint_value (at_point p) e) _ v v₁ in
        let (left, right) = IsExactConstraint-parts (at_point p) t c e exact in
        connect_regions-contains t a b d p x y v
          (convert_to_isl_set-contains c a x declared.0 left cl vl)
          (convert_to_isl_set-contains e b y declared.1 right ce ve) h₂ v₂
