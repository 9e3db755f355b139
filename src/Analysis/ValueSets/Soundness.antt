-- ===== src/Analysis/ValueSets/Soundness.antt =====
-- The value sets of qubus/src/value_set_analysis.cpp have the values of the expressions.
use qubus.Base.{
  ℕ, Bool, true, Option, none, some, List, [], ◌∷◌, ◌≡◌, refl, sym, ap, subst, ◌∙◌, All,
}
use qubus.Base.Int.{ℤ}
use qubus.Base.Results.{Result, ok, >>=-eq-ok, ok-injective}
use qubus.Ir.Expressions.{Expression}
use qubus.Ir.Semantics.{Value, int, truth}
use qubus.Analysis.Affine.{
  AffineExpr, AffineConstraint, AffineContext, try_construct_affine_expr,
  try_extract_affine_constraint,
}
use qubus.Analysis.Affine.Meaning.{constraint_value, IsMeaning, IsValuation}
use qubus.Analysis.Affine.Numbering.{
  IsNumbered, IsDeclaredConstraint, IsDeclared-grow, IsDeclaredConstraint-grow,
}
use qubus.Analysis.Affine.Plain.{IsExactConstraint, IsPlain, IsPlainCondition}
use qubus.Analysis.Affine.Isl.{param, Point, Isl, Reading, Lawful}
use qubus.Analysis.Affine.Conversion.{
  convert_to_isl_aff_expr, convert_to_isl_set, construct_corresponding_space,
}
use qubus.Analysis.Affine.Declaring.{Step, same_step, then_step}
use qubus.Analysis.Affine.Extraction.{Extraction, try_construct_affine_expr-Extraction}
use qubus.Analysis.Affine.Constraints.{
  ConstraintExtraction, try_extract_affine_constraint-Extraction,
}
use qubus.Analysis.Affine.Exactness.{at_point, convert_to_isl_aff_expr-value}
use qubus.Analysis.Affine.Regions.{convert_to_isl_set-contains}
use qubus.Analysis.ValueSets.{
  Images, ImagesReading, keep, affine_axioms, narrow, values_of, values_if_affine,
  determine_value_sets,
}

module _ {same_double same_float : ℕ → ℕ → Bool} {floor : ℤ → ℤ → Result ℤ}
    {meaning : Expression → Result Value} (laws : IsMeaning same_double same_float floor meaning)
    {isl : Isl} {r : Reading isl} (lawful : Lawful isl r) {images : Images isl}
    (i : ImagesReading r images) (p : Point) where
  -- A fact that is plain and true.
  abbrev pub IsFact : Expression → Type 0
  IsFact e = IsPlainCondition meaning e × (meaning e ≡ ok (truth true))

  abbrev IsTrueAt : AffineContext → AffineConstraint → Type 0
  IsTrueAt ctx c =
      IsDeclaredConstraint ctx c
      × (IsValuation meaning (at_point p) ctx
          → IsExactConstraint (at_point p) c × (constraint_value (at_point p) c ≡ some true))

  IsTrueAt-Step :
      {ctx ctx' : AffineContext}
      → Step laws ctx ctx'
      → (cs : List AffineConstraint) → All (IsTrueAt ctx) cs
      → All (IsTrueAt ctx') cs
  IsTrueAt-Step s [] h = tt
  IsTrueAt-Step {ctx} {ctx'} s (c ∷ cs) (first, rest) = (
    (
      IsDeclaredConstraint-grow ctx ctx' c s.variables_grow s.constants_grow first.0,
      λ valid. first.1 (s.earlier (at_point p) valid),
    ),
    IsTrueAt-Step s cs rest,
  )

  keep-IsTrueAt :
      (e : Expression) (ctx ctx' ctx'' : AffineContext) (o : Option AffineConstraint)
      (cs : List AffineConstraint)
      → ConstraintExtraction laws e ctx ctx' o
      → Step laws ctx' ctx''
      → IsFact e
      → All (IsTrueAt ctx'') cs
      → All (IsTrueAt ctx'') (keep o cs)
  keep-IsTrueAt e ctx ctx' ctx'' none cs x s fact h = h
  keep-IsTrueAt e ctx ctx' ctx'' (some c) cs x s (plain, holds) h = (
    (
      IsDeclaredConstraint-grow ctx' ctx'' c s.variables_grow s.constants_grow (x.declared c refl),
      λ valid.
          let before = s.earlier (at_point p) valid in
          (
            x.exact c (at_point p) refl before plain,
            x.valued c (at_point p) true refl before holds,
          ),
    ),
    h,
  )

  abbrev AreTrue : List Expression → AffineContext → List AffineConstraint × AffineContext → Type 0
  AreTrue axioms ctx (cs, ctx') = Step laws ctx ctx' × (All IsFact axioms → All (IsTrueAt ctx') cs)

  affine_axioms-AreTrue :
      (axioms : List Expression) (ctx : AffineContext) (out : List AffineConstraint × AffineContext)
      → IsNumbered ctx
      → affine_axioms same_double same_float isl images axioms ctx ≡ ok out
      → AreTrue axioms ctx out
  unfolding affine_axioms
  affine_axioms-AreTrue [] ctx out n h =
      subst (AreTrue [] ctx) (ok-injective h) (same_step laws n, λ facts. tt)
  affine_axioms-AreTrue (e ∷ es) ctx out n h =
      let ((c, ctx₁), p₁, h₁) =
        >>=-eq-ok (try_extract_affine_constraint same_double same_float e ctx) _ h in
      let ((cs, ctx₂), p₂, h₂) =
        >>=-eq-ok (affine_axioms same_double same_float isl images es ctx₁) _ h₁ in
      let first = try_extract_affine_constraint-Extraction laws e ctx (c, ctx₁) n p₁ in
      let (rest, facts) = affine_axioms-AreTrue es ctx₁ (cs, ctx₂) first.step.numbered p₂ in
      subst (AreTrue (e ∷ es) ctx) (ok-injective h₂) (
        then_step laws first.step rest,
        λ (fact, others). keep-IsTrueAt e ctx ctx₁ ctx₂ c cs first rest fact (facts others),
      )

  narrow-contains :
      (ctx : AffineContext) (cs : List AffineConstraint) (domain d : isl.Region)
      → IsNumbered ctx
      → IsValuation meaning (at_point p) ctx
      → All (IsTrueAt ctx) cs
      → r.contains domain p ≡ true
      → narrow isl (construct_corresponding_space isl ctx) cs domain ≡ ok d
      → r.contains d p ≡ true
  unfolding narrow
  narrow-contains ctx [] domain d n valid facts inside h =
      ap (λ e. r.contains e p) (sym (ok-injective h)) ∙ inside
  narrow-contains ctx (c ∷ cs) domain d n valid ((declared, fact), facts) inside h =
      let (e, p₁, h₁) =
        >>=-eq-ok (convert_to_isl_set isl c (construct_corresponding_space isl ctx)) _ h in
      let (exact, holds) = fact valid in
      narrow-contains ctx cs (isl.intersect domain e) d n valid facts
        (lawful.contains-intersect domain e p
          ∙ rw (inside, convert_to_isl_set-contains lawful ctx n p c e true declared exact p₁ holds)
              refl)
        h₁

  -- What a set of values has of an expression, at the point.
  abbrev pub Covers : Expression → List Expression → images.Values → Type 0
  Covers e axioms v =
      All IsFact axioms
      → IsPlain meaning e
      → (z : ℤ) → meaning e ≡ ok (int z)
      → i.has v (p param) z ≡ true

  abbrev IsOutcome :
      Expression → List Expression → AffineContext → images.Values × AffineContext → Type 0
  IsOutcome e axioms ctx (v, ctx') =
      Step laws ctx ctx' × (IsValuation meaning (at_point p) ctx' → Covers e axioms v)

  values_of-Covers :
      (e : Expression) (a : AffineExpr) (axioms : List Expression) (ctx₀ ctx : AffineContext)
      (out : images.Values × AffineContext)
      → Extraction laws e ctx₀ ctx (some a)
      → values_of same_double same_float isl images a axioms ctx ≡ ok out
      → IsOutcome e axioms ctx out
  unfolding values_of
  values_of-Covers e a axioms ctx₀ ctx out x h =
      let ((cs, ctx₁), p₁, h₁) =
        >>=-eq-ok (affine_axioms same_double same_float isl images axioms ctx) _ h in
      let (step, facts) = affine_axioms-AreTrue axioms ctx (cs, ctx₁) x.step.numbered p₁ in
      let (d, p₂, h₂) =
        >>=-eq-ok
          (narrow isl (construct_corresponding_space isl ctx₁) cs
            (isl.universe (construct_corresponding_space isl ctx₁)))
          _ h₁ in
      let (f, p₃, h₃) =
        >>=-eq-ok (convert_to_isl_aff_expr isl a (construct_corresponding_space isl ctx₁)) _ h₂ in
      subst (IsOutcome e axioms ctx) (ok-injective h₃) (
        step,
        λ valid all plain z means.
            let before = step.earlier (at_point p) valid in
            i.has-image f (images.simplify d) p z
              (i.contains-simplify d p
                ∙ narrow-contains ctx₁ cs _ d step.numbered valid (facts all)
                    (lawful.contains-universe _ p) p₂)
              (convert_to_isl_aff_expr-value lawful ctx₁ step.numbered p a f z
                (IsDeclared-grow ctx ctx₁ a step.variables_grow step.constants_grow
                  (x.declared a refl))
                (x.exact a (at_point p) refl before plain) p₃
                (x.valued a (at_point p) z refl before means)),
      )

  values_if_affine-Covers :
      (e : Expression) (o : Option AffineExpr) (axioms : List Expression) (ctx₀ ctx : AffineContext)
      (out : images.Values × AffineContext)
      → Extraction laws e ctx₀ ctx o
      → values_if_affine same_double same_float isl images o axioms ctx ≡ ok out
      → IsOutcome e axioms ctx out
  values_if_affine-Covers e (some a) axioms ctx₀ ctx out x h =
      values_of-Covers e a axioms ctx₀ ctx out x h
  values_if_affine-Covers e none axioms ctx₀ ctx out x h =
      subst (IsOutcome e axioms ctx) (ok-injective h)
        (same_step laws x.step.numbered, λ valid all plain z means. i.has-everything (p param) z)

  abbrev pub AllCover : List (Expression × List Expression) → List images.Values → Type 0
  AllCover ((e, axioms) ∷ es) (v ∷ vs) = Covers e axioms v × AllCover es vs
  AllCover [] [] = Unit
  AllCover _ _ = ⊥

  abbrev AreOutcomes :
      List (Expression × List Expression)
      → AffineContext
      → List images.Values × AffineContext
      → Type 0
  AreOutcomes es ctx (vs, ctx') =
      Step laws ctx ctx' × (IsValuation meaning (at_point p) ctx' → AllCover es vs)

  pub determine_value_sets-AllCover :
      (es : List (Expression × List Expression)) (ctx : AffineContext)
      (out : List images.Values × AffineContext)
      → IsNumbered ctx
      → determine_value_sets same_double same_float isl images es ctx ≡ ok out
      → AreOutcomes es ctx out
  unfolding determine_value_sets
  determine_value_sets-AllCover [] ctx out n h =
      subst (AreOutcomes [] ctx) (ok-injective h) (same_step laws n, λ valid. tt)
  determine_value_sets-AllCover ((e, axioms) ∷ es) ctx out n h =
      let ((a, ctx₁), p₁, h₁) =
        >>=-eq-ok (try_construct_affine_expr same_double same_float e ctx) _ h in
      let ((v, ctx₂), p₂, h₂) =
        >>=-eq-ok (values_if_affine same_double same_float isl images a axioms ctx₁) _ h₁ in
      let ((vs, ctx₃), p₃, h₃) =
        >>=-eq-ok (determine_value_sets same_double same_float isl images es ctx₂) _ h₂ in
      let first = try_construct_affine_expr-Extraction laws e ctx (a, ctx₁) n p₁ in
      let (step, covers) = values_if_affine-Covers e a axioms ctx ctx₁ (v, ctx₂) first p₂ in
      let (rest, others) = determine_value_sets-AllCover es ctx₂ (vs, ctx₃) step.numbered p₃ in
      subst (AreOutcomes ((e, axioms) ∷ es) ctx) (ok-injective h₃) (
        then_step laws first.step (then_step laws step rest),
        λ valid. (covers (rest.earlier (at_point p) valid), others valid),
      )
