-- ===== src/Analysis/Affine/Constraints.antt =====
-- What affine constraints say of the conditions they were extracted from,
-- `try_extract_affine_constraint` of qubus/src/affine_constraints.cpp.
use qubus.Base.{
  ℕ, Bool, true, Option, none, some, ◌≡◌, refl, ap, sym, subst, ◌∙◌, Bool-cases, inl, inr,
}
use mathlib.Core.Option.{some-injective}
use qubus.Base.Int.{ℤ}
use qubus.Base.Results.{Result, ok, ◌>>=◌, >>=-eq-ok, ok-injective}
use qubus.Ir.Expressions.{
  Expression, BinaryOpTag, UnaryOpTag, binary_operator as binary, unary_operator as unary,
}
use qubus.Ir.Semantics.{Value, truth}
use qubus.Analysis.Affine.{
  AffineExpr, AffineConstraint, AffineContext, both, one, is_comparison, is_connective,
  compare_wrapped, connect, negated, try_construct_affine_expr, try_extract_affine_constraint,
}
use qubus.Analysis.Affine.Meaning.{Valuation, constraint_value, IsMeaning, IsValuation}
use qubus.Analysis.Affine.Plain.{IsExactConstraint, IsPlainCondition}
use qubus.Analysis.Affine.Numbering.{
  IsNumbered, IsDeclaredConstraint, IsDeclared-grow, IsDeclaredConstraint-grow,
}
use qubus.Analysis.Affine.Declaring.{Step, same_step, then_step}
use qubus.Analysis.Affine.Extraction.{Extraction, try_construct_affine_expr-Extraction}
use qubus.Analysis.Affine.Connectives.{
  apply_binary-compares, apply_binary-connects, apply_unary-negates, constraint_value-connect,
  compare-IsExact, connect-IsExact,
}

module _ {same_double same_float : ℕ → ℕ → Bool} {floor : ℤ → ℤ → Result ℤ}
    {meaning : Expression → Result Value}
    (laws : IsMeaning same_double same_float floor meaning) where
  -- What an extraction from a condition does and finds.
  pub record ConstraintExtraction (e : Expression) (ctx ctx' : AffineContext)
      (o : Option AffineConstraint) : Type 0 where
    pub step : Step laws ctx ctx'
    pub declared : (c : AffineConstraint) → o ≡ some c → IsDeclaredConstraint ctx' c
    pub valued :
        (c : AffineConstraint) (ν : Valuation) (b : Bool)
        → o ≡ some c
        → IsValuation meaning ν ctx'
        → meaning e ≡ ok (truth b)
        → constraint_value ν c ≡ some b
    pub exact :
        (c : AffineConstraint) (ν : Valuation)
        → o ≡ some c
        → IsValuation meaning ν ctx'
        → IsPlainCondition meaning e
        → IsExactConstraint ν c

  nothing :
      (e : Expression) (ctx ctx' : AffineContext)
      → Step laws ctx ctx'
      → ConstraintExtraction e ctx ctx' none
  nothing e ctx ctx' s = record {
    step = s;
    declared = λ c h. cc h;
    valued = λ c ν b h _ _. cc h;
    exact = λ c ν h _ _. cc h;
  }

  compare-Extraction :
      (t : BinaryOpTag) (l r : Expression) (ctx₀ ctx₁ ctx₂ : AffineContext) (x y : AffineExpr)
      → is_comparison t ≡ true
      → Extraction laws l ctx₀ ctx₁ (some x)
      → Extraction laws r ctx₁ ctx₂ (some y)
      → ConstraintExtraction (binary t l r) ctx₀ ctx₂ (compare_wrapped t x y)
  unfolding constraint_value
  compare-Extraction t l r ctx₀ ctx₁ ctx₂ x y compares p q = record {
    step = then_step laws p.step q.step;
    declared = λ c h. subst (IsDeclaredConstraint ctx₂) (some-injective _ c h) (
      IsDeclared-grow ctx₁ ctx₂ x q.step.variables_grow q.step.constants_grow (p.declared x refl),
      q.declared y refl,
    );
    valued = λ c ν b h valid means.
        let (vx, left, m₁) = >>=-eq-ok (meaning l) _ (sym (laws.of_binary t l r) ∙ means) in
        let (vy, right, m₂) = >>=-eq-ok (meaning r) _ m₁ in
        let (i, j, vx_is, vy_is, applied) = apply_binary-compares floor t vx vy b compares m₂ in
        let lhs = p.valued x ν i refl (q.step.earlier ν valid) (left ∙ ap ok vx_is) in
        let rhs = q.valued y ν j refl valid (right ∙ ap ok vy_is) in
        subst (λ d. constraint_value ν d ≡ some b) (some-injective _ c h) (rw (lhs, rhs) applied);
    exact = λ c ν h valid plain.
        let earlier = q.step.earlier ν valid in
        subst (IsExactConstraint ν) (some-injective _ c h) (
          compare-IsExact meaning ν t l r x y compares plain (p.exact x ν refl earlier)
            (q.exact y ν refl valid));
  }

  connect-Extraction :
      (t : BinaryOpTag) (l r : Expression) (ctx₀ ctx₁ ctx₂ : AffineContext) (x y : AffineConstraint)
      → is_connective t ≡ true
      → ConstraintExtraction l ctx₀ ctx₁ (some x)
      → ConstraintExtraction r ctx₁ ctx₂ (some y)
      → ConstraintExtraction (binary t l r) ctx₀ ctx₂ (connect t x y)
  connect-Extraction t l r ctx₀ ctx₁ ctx₂ x y connects p q = record {
    step = then_step laws p.step q.step;
    declared = λ c h. subst (IsDeclaredConstraint ctx₂) (some-injective _ c h) (
      IsDeclaredConstraint-grow ctx₁ ctx₂ x q.step.variables_grow q.step.constants_grow
          (p.declared x refl),
      q.declared y refl,
    );
    valued = λ c ν b h valid means.
        let (vx, left, m₁) = >>=-eq-ok (meaning l) _ (sym (laws.of_binary t l r) ∙ means) in
        let (vy, right, m₂) = >>=-eq-ok (meaning r) _ m₁ in
        let (i, j, vx_is, vy_is, applied) = apply_binary-connects floor t vx vy b connects m₂ in
        let lhs = p.valued x ν i refl (q.step.earlier ν valid) (left ∙ ap ok vx_is) in
        let rhs = q.valued y ν j refl valid (right ∙ ap ok vy_is) in
        subst (λ d. constraint_value ν d ≡ some b) (some-injective _ c h)
          (constraint_value-connect ν t x y i j lhs rhs ∙ applied);
    exact = λ c ν h valid plain.
        let earlier = q.step.earlier ν valid in
        subst (IsExactConstraint ν) (some-injective _ c h) (
          connect-IsExact meaning ν t l r x y connects plain (p.exact x ν refl earlier)
            (q.exact y ν refl valid));
  }

  negated-Extraction :
      (e : Expression) (ctx₀ ctx₁ : AffineContext) (x : AffineConstraint)
      → ConstraintExtraction e ctx₀ ctx₁ (some x)
      → ConstraintExtraction (unary UnaryOpTag.logical_not e) ctx₀ ctx₁ (negated x)
  unfolding constraint_value
  negated-Extraction e ctx₀ ctx₁ x p = record {
    step = p.step;
    declared = λ c h. subst (IsDeclaredConstraint ctx₁) (some-injective _ c h) (p.declared x refl);
    valued = λ c ν b h valid means.
        let (v, arg, m) =
          >>=-eq-ok (meaning e) _ (sym (laws.of_unary UnaryOpTag.logical_not e) ∙ means) in
        let (i, v_is, applied) = apply_unary-negates v b m in
        let value = p.valued x ν i refl valid (arg ∙ ap ok v_is) in
        subst (λ d. constraint_value ν d ≡ some b) (some-injective _ c h)
          (rw value (ap some applied));
    exact = λ c ν h valid plain.
        subst (IsExactConstraint ν) (some-injective _ c h) (p.exact x ν refl valid plain);
  }

  both_compared :
      (t : BinaryOpTag) (l r : Expression) (ctx₀ ctx₁ ctx₂ : AffineContext)
      (x y : Option AffineExpr)
      → is_comparison t ≡ true
      → Extraction laws l ctx₀ ctx₁ x
      → Extraction laws r ctx₁ ctx₂ y
      → ConstraintExtraction (binary t l r) ctx₀ ctx₂ (both (compare_wrapped t) x y)
  both_compared t l r ctx₀ ctx₁ ctx₂ (some x) (some y) c p q =
      compare-Extraction t l r ctx₀ ctx₁ ctx₂ x y c p q
  both_compared t l r ctx₀ ctx₁ ctx₂ _ _ c p q = nothing _ _ _ (then_step laws p.step q.step)

  both_connected :
      (t : BinaryOpTag) (l r : Expression) (ctx₀ ctx₁ ctx₂ : AffineContext)
      (x y : Option AffineConstraint)
      → is_connective t ≡ true
      → ConstraintExtraction l ctx₀ ctx₁ x
      → ConstraintExtraction r ctx₁ ctx₂ y
      → ConstraintExtraction (binary t l r) ctx₀ ctx₂ (both (connect t) x y)
  both_connected t l r ctx₀ ctx₁ ctx₂ (some x) (some y) c p q =
      connect-Extraction t l r ctx₀ ctx₁ ctx₂ x y c p q
  both_connected t l r ctx₀ ctx₁ ctx₂ _ _ c p q = nothing _ _ _ (then_step laws p.step q.step)

  one-negated :
      (e : Expression) (ctx₀ ctx₁ : AffineContext) (x : Option AffineConstraint)
      → ConstraintExtraction e ctx₀ ctx₁ x
      → ConstraintExtraction (unary UnaryOpTag.logical_not e) ctx₀ ctx₁ (one negated x)
  one-negated e ctx₀ ctx₁ (some x) p = negated-Extraction e ctx₀ ctx₁ x p
  one-negated e ctx₀ ctx₁ none p = nothing _ _ _ p.step

  abbrev IsExtraction :
      Expression → AffineContext → Option AffineConstraint × AffineContext → Type 0
  IsExtraction e ctx (o, ctx') = ConstraintExtraction e ctx ctx' o

  compared :
      (t : BinaryOpTag) (l r : Expression) (ctx : AffineContext)
      (out : Option AffineConstraint × AffineContext)
      → IsNumbered ctx
      → is_comparison t ≡ true
      → (do
        (lhs, ctx₁) ← try_construct_affine_expr same_double same_float l ctx
        (rhs, ctx₂) ← try_construct_affine_expr same_double same_float r ctx₁
        ok (both (compare_wrapped t) lhs rhs, ctx₂))
        ≡ ok out
      → IsExtraction (binary t l r) ctx out
  compared t l r ctx out n c h =
      let ((lhs, ctx₁), p, h₁) =
        >>=-eq-ok (try_construct_affine_expr same_double same_float l ctx) _ h in
      let ((rhs, ctx₂), q, h₂) =
        >>=-eq-ok (try_construct_affine_expr same_double same_float r ctx₁) _ h₁ in
      let left = try_construct_affine_expr-Extraction laws l ctx (lhs, ctx₁) n p in
      let right =
        try_construct_affine_expr-Extraction laws r ctx₁ (rhs, ctx₂) left.step.numbered q in
      subst (IsExtraction (binary t l r) ctx) (ok-injective h₂)
        (both_compared t l r ctx ctx₁ ctx₂ lhs rhs c left right)

  pub try_extract_affine_constraint-Extraction :
      (e : Expression) (ctx : AffineContext) (out : Option AffineConstraint × AffineContext)
      → IsNumbered ctx
      → try_extract_affine_constraint same_double same_float e ctx ≡ ok out
      → IsExtraction e ctx out
  unfolding try_extract_affine_constraint
  try_extract_affine_constraint-Extraction (binary t l r) ctx out n h =
      elim (Bool-cases (is_comparison t)) [
        | inl c ↦ compared t l r ctx out n c (rw c at h)
        | inr o ↦ elim (Bool-cases (is_connective t)) [
          | inl c ↦
              let ((lhs, ctx₁), p, h₁) =
                >>=-eq-ok (try_extract_affine_constraint same_double same_float l ctx) _
                  (rw (o, c) at h) in
              let ((rhs, ctx₂), q, h₂) =
                >>=-eq-ok (try_extract_affine_constraint same_double same_float r ctx₁) _ h₁ in
              let left = try_extract_affine_constraint-Extraction l ctx (lhs, ctx₁) n p in
              let right =
                try_extract_affine_constraint-Extraction r ctx₁ (rhs, ctx₂) left.step.numbered q in
              subst (IsExtraction (binary t l r) ctx) (ok-injective h₂)
                (both_connected t l r ctx ctx₁ ctx₂ lhs rhs c left right)
          | inr c ↦
              subst (IsExtraction (binary t l r) ctx) (ok-injective (rw (o, c) at h))
                (nothing _ _ _ (same_step laws n))
        ]
      ]
  try_extract_affine_constraint-Extraction (unary UnaryOpTag.logical_not e) ctx out n h =
      let ((arg, ctx₁), p, h₁) =
        >>=-eq-ok (try_extract_affine_constraint same_double same_float e ctx) _ h in
      subst (IsExtraction (unary UnaryOpTag.logical_not e) ctx) (ok-injective h₁) (
        one-negated e ctx ctx₁ arg (try_extract_affine_constraint-Extraction e ctx (arg, ctx₁) n p))
  try_extract_affine_constraint-Extraction e ctx out n h =
      subst (IsExtraction e ctx) (ok-injective h) (nothing _ _ _ (same_step laws n))
