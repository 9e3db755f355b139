-- ===== src/Analysis/Alias/Slices/Outcomes.antt =====
-- The constraints of the dimensions of a slice, qubus/src/alias_analysis.cpp: when they hold.
use qubus.Base.{
  ℕ, suc, Bool, true, false, ◌&&◌, some, List, [], ◌∷◌, ◌≡◌, refl, sym, ap, subst, subst₂, ◌∙◌,
}
use qubus.Base.Int.{ℤ, pos}
use qubus.Base.Results.{Result, ok, >>=-eq-ok}
use qubus.Ir.Expressions.{Expression, integer_literal as literal}
use qubus.Ir.Semantics.{Value}
use qubus.Analysis.Affine.{AffineExpr, AffineConstraint, AffineContext, try_construct_affine_expr}
use qubus.Analysis.Affine.Meaning.{Valuation, IsMeaning, IsValuation}
use qubus.Analysis.Affine.Plain.{IsPlain, IsPositiveLiteralExpr}
use qubus.Analysis.Affine.Numbering.{
  IsNumbered, IsDeclared, IsDeclaredConstraint, IsDeclared-grow, IsDeclaredConstraint-grow,
}
use qubus.Analysis.Affine.Declaring.{Step, then_step}
use qubus.Analysis.Affine.Extraction.{try_construct_affine_expr-Extraction}
use qubus.Analysis.Alias.Slices.{
  Dimension, slice_constraint, and_also, try_generate_slice_constraints_1D, add_constraints,
  slice_constraints,
}
use qubus.Analysis.Alias.Slices.Places.{
  Place, in_slice, in_slices, IsAt, AreAt, IsWorth, slice_constraint-IsWorth, and_also-IsWorth,
  when_found-eq-some, with_stride-eq-some,
}

-- The variables are declared.
abbrev pub AreDeclared : AffineContext → List Dimension → Type 0
AreDeclared ctx [] = Unit
AreDeclared ctx (d ∷ ds) = IsDeclared ctx d.var × AreDeclared ctx ds

module _ {same_double same_float : ℕ → ℕ → Bool} {floor : ℤ → ℤ → Result ℤ}
    {meaning : Expression → Result Value} (laws : IsMeaning same_double same_float floor meaning)
    (ν : Valuation) where
  pub record SliceOutcome (ctx ctx' : AffineContext) (c : AffineConstraint) (b : Bool)
      : Type 0 where
    pub step : Step laws ctx ctx'
    pub declared : IsDeclaredConstraint ctx' c
    pub worth : IsValuation meaning ν ctx' → IsWorth meaning ν c b

  slice_constraint-SliceOutcome :
      (d : Dimension) (q : Place) (ctx ctx₁ ctx₂ ctx₃ : AffineContext)
      (offset bound stride : AffineExpr)
      → IsAt meaning ν d q
      → IsNumbered ctx
      → IsDeclared ctx d.var
      → try_construct_affine_expr same_double same_float d.offset ctx ≡ ok (some offset, ctx₁)
      → try_construct_affine_expr same_double same_float d.bound ctx₁ ≡ ok (some bound, ctx₂)
      → try_construct_affine_expr same_double same_float d.stride ctx₂ ≡ ok (some stride, ctx₃)
      → SliceOutcome ctx ctx₃ (slice_constraint d.var offset bound stride) (in_slice q)
  slice_constraint-SliceOutcome d q ctx ctx₁ ctx₂ ctx₃ offset bound stride at n known ho hb hs =
      let first = try_construct_affine_expr-Extraction laws d.offset ctx (some offset, ctx₁) n ho in
      let second =
        try_construct_affine_expr-Extraction laws d.bound ctx₁ (some bound, ctx₂)
          first.step.numbered hb in
      let third =
        try_construct_affine_expr-Extraction laws d.stride ctx₂ (some stride, ctx₃)
          second.step.numbered hs in
      let last_two = then_step laws second.step third.step in
      let all_three = then_step laws first.step last_two in
      let offset_known =
        IsDeclared-grow ctx₁ ctx₃ offset last_two.variables_grow last_two.constants_grow
          (first.declared offset refl) in
      let bound_known =
        IsDeclared-grow ctx₂ ctx₃ bound third.step.variables_grow third.step.constants_grow
          (second.declared bound refl) in
      let var_known =
        IsDeclared-grow ctx ctx₃ d.var all_three.variables_grow all_three.constants_grow known in
      record {
        step = all_three;
        declared = (
          ((offset_known, var_known), (var_known, bound_known)),
          (((var_known, offset_known), third.declared stride refl), tt),
        );
        worth = λ valid.
            let valid₂ = third.step.earlier ν valid in
            let valid₁ = second.step.earlier ν valid₂ in
            slice_constraint-IsWorth meaning ν d q offset bound stride at
              (first.exact offset ν refl valid₁ at.plain_offset)
              (second.exact bound ν refl valid₂ at.plain_bound)
              (third.exact stride ν refl valid (plain_stride q at.strides))
              (third.positive_kept stride refl (positive_stride q at.strides))
              (first.valued offset ν at.start refl valid₁ at.starts)
              (second.valued bound ν q.end refl valid₂ at.ends)
              (third.valued stride ν (pos (suc q.gap)) refl valid
                (ap meaning at.strides ∙ laws.of_literal (pos (suc q.gap))));
      }
    where
      plain_stride :
          (q : Place) {e : Expression} → e ≡ literal (pos (suc q.gap)) → IsPlain meaning e
      plain_stride q h = rw h tt

      positive_stride :
          (q : Place) {e : Expression} → e ≡ literal (pos (suc q.gap)) → IsPositiveLiteralExpr e
      positive_stride q h = rw h tt

  try_generate_slice_constraints_1D-SliceOutcome :
      (d : Dimension) (q : Place) (ctx ctx' : AffineContext) (c : AffineConstraint)
      → IsAt meaning ν d q
      → IsNumbered ctx
      → IsDeclared ctx d.var
      → try_generate_slice_constraints_1D same_double same_float d ctx ≡ ok (some c, ctx')
      → SliceOutcome ctx ctx' c (in_slice q)
  unfolding try_generate_slice_constraints_1D
  try_generate_slice_constraints_1D-SliceOutcome d q ctx ctx' c at n known h =
      let ((o, ctx₁), ho, h₁) =
        >>=-eq-ok (try_construct_affine_expr same_double same_float d.offset ctx) _ h in
      let (offset, po, h₂) = when_found-eq-some o ctx₁ ctx' _ c h₁ in
      let ((b, ctx₂), hb, h₃) =
        >>=-eq-ok (try_construct_affine_expr same_double same_float d.bound ctx₁) _ h₂ in
      let (bound, pb, h₄) = when_found-eq-some b ctx₂ ctx' _ c h₃ in
      let ((s, ctx₃), hs, h₅) =
        >>=-eq-ok (try_construct_affine_expr same_double same_float d.stride ctx₂) _ h₄ in
      let (stride, ps, h₆) = when_found-eq-some s ctx₃ ctx' _ c h₅ in
      let (same, end) = with_stride-eq-some d.var offset bound stride ctx₃ ctx' c h₆ in
      subst (λ k. SliceOutcome ctx ctx' k (in_slice q)) (sym same)
        (slice_constraint-SliceOutcome d q ctx ctx₁ ctx₂ ctx' offset bound stride at n known
          (ho ∙ ap (λ k. ok (k, ctx₁)) po) (hb ∙ ap (λ k. ok (k, ctx₂)) pb)
          (hs ∙ ap (λ k. ok (k, ctx₃)) ps ∙ ap (λ k. ok (some stride, k)) end))

  pub AreDeclared-grow :
      (ctx ctx' : AffineContext) (ds : List Dimension)
      → Step laws ctx ctx'
      → AreDeclared ctx ds
      → AreDeclared ctx' ds
  AreDeclared-grow ctx ctx' [] s h = tt
  AreDeclared-grow ctx ctx' (d ∷ ds) s h = (
    IsDeclared-grow ctx ctx' d.var s.variables_grow s.constants_grow h.0,
    AreDeclared-grow ctx ctx' ds s h.1,
  )

  and_also-SliceOutcome :
      (ctx ctx₁ ctx₂ : AffineContext) (c e : AffineConstraint) (x y : Bool)
      → SliceOutcome ctx ctx₁ c x
      → SliceOutcome ctx₁ ctx₂ e y
      → SliceOutcome ctx ctx₂ (and_also c e) (x && y)
  and_also-SliceOutcome ctx ctx₁ ctx₂ c e x y p q = record {
    step = then_step laws p.step q.step;
    declared = (
      IsDeclaredConstraint-grow ctx₁ ctx₂ c q.step.variables_grow q.step.constants_grow p.declared,
      q.declared,
    );
    worth = λ valid.
        and_also-IsWorth meaning ν c e x y (p.worth (q.step.earlier ν valid)) (q.worth valid);
  }

  add_constraints-SliceOutcome :
      (ds : List Dimension) (qs : List Place) (ctx ctx₁ ctx' : AffineContext)
      (c c' : AffineConstraint) (b : Bool)
      → AreAt meaning ν ds qs
      → AreDeclared ctx₁ ds
      → SliceOutcome ctx ctx₁ c b
      → add_constraints same_double same_float c ds ctx₁ ≡ ok (some c', ctx')
      → SliceOutcome ctx ctx' c' (b && in_slices qs)
  unfolding add_constraints
  add_constraints-SliceOutcome [] [] ctx ctx₁ ctx' c c' b at known sofar h =
      subst (SliceOutcome ctx ctx' c') (sym (and_true b))
        (subst₂ (λ x k. SliceOutcome ctx x k b) contexts constraints sofar)
    where
      and_true : (b : Bool) → (b && true) ≡ b
      and_true true = refl
      and_true false = refl

      contexts : ctx₁ ≡ ctx'
      contexts = cc h

      constraints : c ≡ c'
      constraints = cc h
  add_constraints-SliceOutcome (d ∷ ds) (q ∷ qs) ctx ctx₁ ctx' c c' b at known sofar h =
      let ((o, ctx₂), ho, h₁) =
        >>=-eq-ok (try_generate_slice_constraints_1D same_double same_float d ctx₁) _ h in
      let (e, po, h₂) = when_found-eq-some o ctx₂ ctx' _ c' h₁ in
      let here =
        try_generate_slice_constraints_1D-SliceOutcome d q ctx₁ ctx₂ e at.0 sofar.step.numbered
          known.0 (ho ∙ ap (λ k. ok (k, ctx₂)) po) in
      let rest =
        add_constraints-SliceOutcome ds qs ctx ctx₂ ctx' (and_also c e) c' (b && in_slice q) at.1
          (AreDeclared-grow ctx₁ ctx₂ ds here.step known.1)
          (and_also-SliceOutcome ctx ctx₁ ctx₂ c e b (in_slice q) sofar here) h₂ in
      subst (SliceOutcome ctx ctx' c') (and_assoc b (in_slice q) (in_slices qs)) rest
    where
      and_assoc : (x y z : Bool) → ((x && y) && z) ≡ (x && (y && z))
      and_assoc true y z = refl
      and_assoc false y z = refl
  add_constraints-SliceOutcome _ _ ctx ctx₁ ctx' c c' b at known sofar h = absurd at

  pub slice_constraints-SliceOutcome :
      (ds : List Dimension) (qs : List Place) (ctx ctx' : AffineContext) (c : AffineConstraint)
      → AreAt meaning ν ds qs
      → AreDeclared ctx ds
      → IsNumbered ctx
      → slice_constraints same_double same_float ds ctx ≡ ok (some c, ctx')
      → SliceOutcome ctx ctx' c (in_slices qs)
  unfolding slice_constraints
  slice_constraints-SliceOutcome (d ∷ ds) (q ∷ qs) ctx ctx' c at known n h =
      let ((o, ctx₁), ho, h₁) =
        >>=-eq-ok (try_generate_slice_constraints_1D same_double same_float d ctx) _ h in
      let (e, po, h₂) = when_found-eq-some o ctx₁ ctx' _ c h₁ in
      let here =
        try_generate_slice_constraints_1D-SliceOutcome d q ctx ctx₁ e at.0 n known.0
          (ho ∙ ap (λ k. ok (k, ctx₁)) po) in
      add_constraints-SliceOutcome ds qs ctx ctx₁ ctx' e c (in_slice q) at.1
        (AreDeclared-grow ctx ctx₁ ds here.step known.1) here h₂
  slice_constraints-SliceOutcome [] qs ctx ctx' c at known n h = cc h
  slice_constraints-SliceOutcome (d ∷ ds) [] ctx ctx' c at known n h = absurd at
