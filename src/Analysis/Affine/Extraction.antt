-- ===== src/Analysis/Affine/Extraction.antt =====
-- What affine expressions say of the expressions they were extracted from,
-- `try_construct_affine_expr` of qubus/src/affine_constraints.cpp.
use qubus.Base.{
  suc, false, ℕ, Bool, true, false, Option, none, some, ◌≡◌, refl, ap, sym, subst, ◌∙◌, Bool-cases,
  inl, inr, if◌then◌else◌,
}
use mathlib.Core.Option.{some-injective}
use qubus.Base.Int.{pos, ℤ}
use qubus.Base.Results.{Result, ok, >>=-eq-ok, ok-injective}
use qubus.Ir.Types.{type_eq, integer}
use qubus.Ir.Expressions.{
  Expression, Variable, BinaryOpTag, UnaryOpTag, variable_ref, binary_operator as binary,
  unary_operator as unary, integer_literal as literal,
}
use qubus.Ir.Semantics.{Value, int}
use qubus.Analysis.Affine.{
  AffineExpr, integer_literal, AffineContext, declare_variable, define_constant, construct_variable,
  construct_constant, try_construct_affine_expr, combine, combine_unary, both, one,
}
use qubus.Analysis.Affine.Meaning.{Valuation, affine_value, IsMeaning, IsValuation}
use qubus.Analysis.Affine.Numbering.{IsNumbered, IsDeclared, IsDeclared-grow}
use qubus.Analysis.Affine.Plain.{
  is_literal, is_literal_expr, IsPositiveLiteral, IsPositiveLiteralExpr, IsExact, IsPlain,
}
use qubus.Analysis.Affine.Operators.{
  combine-IsExact, combine_unary-IsExact, combine_unary-IsDeclared, combine-eq-some,
  apply_binary-affine, apply_unary-affine,
}
use qubus.Analysis.Affine.Ast.{convert_isl_ast_expr_to_qir}
use qubus.Analysis.Affine.ReadBack.{ReadsBack}
use qubus.Analysis.Affine.Keeping.{ReadsBack-keeps, combine-ReadsBack, combine_unary-ReadsBack}
use qubus.Analysis.Affine.Declaring.{
  Step, Outcome, same_step, then_step, declare_variable-Outcome, define_constant-Outcome,
}

module _ {same_double same_float : ℕ → ℕ → Bool} {floor : ℤ → ℤ → Result ℤ}
    {meaning : Expression → Result Value}
    (laws : IsMeaning same_double same_float floor meaning) where
  -- What an extraction from an expression does and finds.
  pub record Extraction (e : Expression) (ctx ctx' : AffineContext) (o : Option AffineExpr)
      : Type 0 where
    pub step : Step laws ctx ctx'
    pub declared : (a : AffineExpr) → o ≡ some a → IsDeclared ctx' a
    pub valued :
        (a : AffineExpr) (ν : Valuation) (z : ℤ)
        → o ≡ some a
        → IsValuation meaning ν ctx'
        → meaning e ≡ ok (int z)
        → affine_value ν a ≡ some z
    pub read_back : (a : AffineExpr) → o ≡ some a → ReadsBack meaning e ctx' a
    pub literal_kept :
        (a : AffineExpr) → o ≡ some a → is_literal_expr e ≡ true → is_literal a ≡ true
    pub positive_kept :
        (a : AffineExpr) → o ≡ some a → IsPositiveLiteralExpr e → IsPositiveLiteral a
    pub exact :
        (a : AffineExpr) (ν : Valuation)
        → o ≡ some a
        → IsValuation meaning ν ctx'
        → IsPlain meaning e
        → IsExact ν a

  nothing :
      (e : Expression) (ctx ctx' : AffineContext) → Step laws ctx ctx' → Extraction e ctx ctx' none
  nothing e ctx ctx' s = record {
    step = s;
    declared = λ a h. cc h;
    valued = λ a ν z h _ _. cc h;
    read_back = λ a h. cc h;
    literal_kept = λ a h _. cc h;
    positive_kept = λ a h _. cc h;
    exact = λ a ν h _ _. cc h;
  }

  found-Extraction :
      (e : Expression) (ctx ctx' : AffineContext) (a : AffineExpr)
      → (is_literal_expr e ≡ true → is_literal a ≡ true)
      → (IsPositiveLiteralExpr e → IsPositiveLiteral a)
      → Outcome laws e ctx ctx' a
      → Extraction e ctx ctx' (some a)
  found-Extraction e ctx ctx' a of_literal of_positive out = record {
    step = out.step;
    declared = λ b h. subst (IsDeclared ctx') (some-injective a b h) out.declared;
    valued = λ b ν z h valid means.
        subst (λ c. affine_value ν c ≡ some z) (some-injective a b h) (out.valued ν z valid means);
    read_back = λ b h. subst (ReadsBack meaning e ctx') (some-injective a b h) out.read_back;
    literal_kept = λ b h l. subst (λ c. is_literal c ≡ true) (some-injective a b h) (of_literal l);
    positive_kept = λ b h l. subst IsPositiveLiteral (some-injective a b h) (of_positive l);
    exact = λ b ν h _ _. subst (IsExact ν) (some-injective a b h) (out.exact ν);
  }

  combine-Extraction :
      (t : BinaryOpTag) (l r : Expression) (ctx₀ ctx₁ ctx₂ : AffineContext) (x y : AffineExpr)
      → Extraction l ctx₀ ctx₁ (some x)
      → Extraction r ctx₁ ctx₂ (some y)
      → Extraction (binary t l r) ctx₀ ctx₂ (combine t x y)
  unfolding affine_value
  combine-Extraction t l r ctx₀ ctx₁ ctx₂ x y p q = record {
    step = then_step laws p.step q.step;
    declared = λ a h. subst (IsDeclared ctx₂) (sym (combine-eq-some t x y a h)) (
      IsDeclared-grow ctx₁ ctx₂ x q.step.variables_grow q.step.constants_grow (p.declared x refl),
      q.declared y refl,
    );
    valued = λ a ν z h valid means.
        let (vx, left, m₁) = >>=-eq-ok (meaning l) _ (sym (laws.of_binary t l r) ∙ means) in
        let (vy, right, m₂) = >>=-eq-ok (meaning r) _ m₁ in
        let (i, j, vx_is, vy_is, applied) = apply_binary-affine floor t x y a vx vy z h m₂ in
        let lhs = p.valued x ν i refl (q.step.earlier ν valid) (left ∙ ap ok vx_is) in
        let rhs = q.valued y ν j refl valid (right ∙ ap ok vy_is) in
        subst (λ b. affine_value ν b ≡ some z) (sym (combine-eq-some t x y a h))
          (rw (lhs, rhs) applied);
    read_back = λ a h.
        combine-ReadsBack laws ctx₂ t l r x y a h
          (ReadsBack-keeps ctx₁ ctx₂ p.step.numbered q.step.numbered q.step.keeps_variables
            q.step.keeps_constants meaning l x (p.declared x refl) (p.read_back x refl))
          (q.read_back y refl);
    literal_kept = λ a h l. cc l;
    positive_kept = λ a h l. absurd l;
    exact = λ a ν h valid plain.
        let earlier = q.step.earlier ν valid in
        combine-IsExact meaning ν t l r x y a h (p.exact x ν refl earlier) (q.exact y ν refl valid)
          (p.literal_kept x refl) (q.literal_kept y refl) (q.positive_kept y refl)
          (λ z means. p.valued x ν z refl earlier means) plain;
  }

  combine_unary-Extraction :
      (t : UnaryOpTag) (e : Expression) (ctx₀ ctx₁ : AffineContext) (x : AffineExpr)
      → Extraction e ctx₀ ctx₁ (some x)
      → Extraction (unary t e) ctx₀ ctx₁ (combine_unary t x)
  combine_unary-Extraction t e ctx₀ ctx₁ x p = record {
    step = p.step;
    declared = λ a h. combine_unary-IsDeclared ctx₁ t x a h (p.declared x refl);
    valued = λ a ν z h valid means.
        let (v, arg, m) = >>=-eq-ok (meaning e) _ (sym (laws.of_unary t e) ∙ means) in
        let (i, v_is, applied) = apply_unary-affine t x a v z h m in
        applied ν (p.valued x ν i refl valid (arg ∙ ap ok v_is));
    read_back = λ a h. combine_unary-ReadsBack laws ctx₁ t e x a h (p.read_back x refl);
    literal_kept = λ a h l. cc l;
    positive_kept = λ a h l. absurd l;
    exact =
        λ a ν h valid plain. combine_unary-IsExact meaning ν t x a h (p.exact x ν refl valid plain);
  }

  both-Extraction :
      (t : BinaryOpTag) (l r : Expression) (ctx₀ ctx₁ ctx₂ : AffineContext)
      (x y : Option AffineExpr)
      → Extraction l ctx₀ ctx₁ x
      → Extraction r ctx₁ ctx₂ y
      → Extraction (binary t l r) ctx₀ ctx₂ (both (combine t) x y)
  both-Extraction t l r ctx₀ ctx₁ ctx₂ (some x) (some y) p q =
      combine-Extraction t l r ctx₀ ctx₁ ctx₂ x y p q
  both-Extraction t l r ctx₀ ctx₁ ctx₂ _ _ p q = nothing _ _ _ (then_step laws p.step q.step)

  one-Extraction :
      (t : UnaryOpTag) (e : Expression) (ctx₀ ctx₁ : AffineContext) (x : Option AffineExpr)
      → Extraction e ctx₀ ctx₁ x
      → Extraction (unary t e) ctx₀ ctx₁ (one (combine_unary t) x)
  one-Extraction t e ctx₀ ctx₁ (some x) p = combine_unary-Extraction t e ctx₀ ctx₁ x p
  one-Extraction t e ctx₀ ctx₁ none p = nothing _ _ _ p.step

  abbrev IsExtraction : Expression → AffineContext → Option AffineExpr × AffineContext → Type 0
  IsExtraction e ctx (o, ctx') = Extraction e ctx ctx' o

  chosen-Extraction :
      (b : Bool) (v : Variable) (ctx : AffineContext)
      → IsNumbered ctx
      → let out =
          (if b
            then define_constant same_double same_float (variable_ref v) ctx
            else declare_variable v ctx) in
        Extraction (variable_ref v) ctx out.1 (some out.0)
  chosen-Extraction true v ctx n =
      found-Extraction _ _ _ _ (λ l. cc l) (λ l. absurd l)
        (define_constant-Outcome laws (variable_ref v) ctx n)
  chosen-Extraction false v ctx n =
      found-Extraction _ _ _ _ (λ l. cc l) (λ l. absurd l) (declare_variable-Outcome laws v ctx n)

  construct_variable-Extraction :
      (v : Variable) (ctx : AffineContext) (out : Option AffineExpr × AffineContext)
      → IsNumbered ctx
      → construct_variable same_double same_float v ctx ≡ ok out
      → IsExtraction (variable_ref v) ctx out
  unfolding construct_variable
  construct_variable-Extraction v ctx out n h = elim (Bool-cases (type_eq v.var_type integer)) [
    | inr p ↦
        subst (IsExtraction (variable_ref v) ctx) (ok-injective (rw p at h))
          (nothing _ _ _ (same_step laws n))
    | inl p ↦
        let (invariant, q, found) =
          >>=-eq-ok (ctx.invariant_checker (variable_ref v)) _ (rw p at h) in
        subst (IsExtraction (variable_ref v) ctx) (ok-injective found)
          (chosen-Extraction invariant v ctx n)
  ]

  positive_literal : (e : Expression) → IsPositiveLiteralExpr e → ¬ (is_literal_expr e ≡ false)
  positive_literal (literal z) h other = cc other
  positive_literal _ h other = absurd h

  construct_constant-Extraction :
      (e : Expression) (ctx : AffineContext) (out : Option AffineExpr × AffineContext)
      → IsNumbered ctx
      → is_literal_expr e ≡ false
      → construct_constant same_double same_float e ctx ≡ ok out
      → IsExtraction e ctx out
  unfolding construct_constant
  construct_constant-Extraction e ctx out n other h =
      let (invariant, q, found) = >>=-eq-ok (ctx.invariant_checker e) _ h in
      elim (Bool-cases invariant) [
        | inl p ↦ subst (IsExtraction e ctx) (ok-injective (rw p at found)) (
            found-Extraction _ _ _ _ (λ l. cc (l, other)) (λ l. absurd (positive_literal e l other))
              (define_constant-Outcome laws e ctx n))
        | inr p ↦
            subst (IsExtraction e ctx) (ok-injective (rw p at found))
              (nothing _ _ _ (same_step laws n))
      ]

  kept : (z : ℤ) → IsPositiveLiteralExpr (literal z) → IsPositiveLiteral (integer_literal z)
  kept (pos (suc m)) h = tt
  kept _ h = absurd h

  literal-Extraction :
      (z : ℤ) (ctx : AffineContext)
      → IsNumbered ctx
      → Extraction (literal z) ctx ctx (some (integer_literal z))
  unfolding affine_value convert_isl_ast_expr_to_qir
  literal-Extraction z ctx n =
      found-Extraction _ _ _ _ (λ l. refl) (λ l. kept z l)
        (record {
          step = same_step laws n;
          declared = tt;
          valued = λ ν y valid means. cc (laws.of_literal z, means);
          exact = λ ν. tt;
          read_back = record { result = literal z; converts = refl; means = λ y h. h };
        })

  pub try_construct_affine_expr-Extraction :
      (e : Expression) (ctx : AffineContext) (out : Option AffineExpr × AffineContext)
      → IsNumbered ctx
      → try_construct_affine_expr same_double same_float e ctx ≡ ok out
      → IsExtraction e ctx out
  unfolding try_construct_affine_expr
  try_construct_affine_expr-Extraction (binary t l r) ctx out n h =
      let ((lhs, ctx₁), p, h₁) =
        >>=-eq-ok (try_construct_affine_expr same_double same_float l ctx) _ h in
      let ((rhs, ctx₂), q, h₂) =
        >>=-eq-ok (try_construct_affine_expr same_double same_float r ctx₁) _ h₁ in
      let left = try_construct_affine_expr-Extraction l ctx (lhs, ctx₁) n p in
      let right = try_construct_affine_expr-Extraction r ctx₁ (rhs, ctx₂) left.step.numbered q in
      subst (IsExtraction (binary t l r) ctx) (ok-injective h₂)
        (both-Extraction t l r ctx ctx₁ ctx₂ lhs rhs left right)
  try_construct_affine_expr-Extraction (unary t e) ctx out n h =
      let ((arg, ctx₁), p, h₁) =
        >>=-eq-ok (try_construct_affine_expr same_double same_float e ctx) _ h in
      subst (IsExtraction (unary t e) ctx) (ok-injective h₁) (
        one-Extraction t e ctx ctx₁ arg
          (try_construct_affine_expr-Extraction e ctx (arg, ctx₁) n p))
  try_construct_affine_expr-Extraction (literal z) ctx out n h =
      subst (IsExtraction (literal z) ctx) (ok-injective h) (literal-Extraction z ctx n)
  try_construct_affine_expr-Extraction (variable_ref v) ctx out n h =
      construct_variable-Extraction v ctx out n h
  try_construct_affine_expr-Extraction e ctx out n h =
      construct_constant-Extraction e ctx out n refl h
