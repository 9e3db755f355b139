-- ===== src/Analysis/Affine/Declaring.antt =====
-- What `declare_variable` and `define_constant` of qubus/src/affine_constraints.cpp do to the tables
-- of a context, and what they return.
use qubus.Base.{
  ℕ, suc, ◌≤◌, Bool, some, [], ◌∷◌, ◌++◌, ◌≡◌, refl, ap, sym, subst, ◌∙◌, arith, length-append,
  All-append, All-Mem, Option-cases, inl, inr,
}
use qubus.Base.Int.{ℤ}
use qubus.Base.Results.{Result, ok}
use qubus.Ir.Expressions.{Expression, Variable, same_variable, variable_ref}
use qubus.Ir.Expressions.Equality.{equal}
use qubus.Ir.Semantics.{Value, int}
use qubus.Analysis.Affine.{
  Name, variable_name, constant_name, AffineExpr, affine_variable, affine_constant, AffineContext,
  find_name, find_named, lookup_variable, get_constant, declare_variable, define_constant,
}
use mathlib.Core.List.{Memᴰ}
use mathlib.Core.List.Memᴰ.{append_right}
use qubus.Analysis.Affine.ReadBack.{ReadsBack, reads_variable, reads_constant, find_named-Mem}
use qubus.Analysis.Affine.Meaning.{
  Valuation, affine_value, IsMeaning, IsVariableEntry, IsConstantEntry, IsValuation,
}
use qubus.Analysis.Affine.Plain.{IsExact}
use qubus.Analysis.Affine.Numbering.{
  IsNumberedFrom-Mem, find_name-eq-some, find_named-append, IsNumberedFrom-append, IsNumbered,
  IsVariableName, IsConstantName, IsDeclared,
}

module _ {same_double same_float : ℕ → ℕ → Bool} {floor : ℤ → ℤ → Result ℤ}
    {meaning : Expression → Result Value}
    (laws : IsMeaning same_double same_float floor meaning) where
  -- What declaring a name does to a context.
  pub record Step (ctx ctx' : AffineContext) : Type 0 where
    pub numbered : IsNumbered ctx'
    pub variables_grow : ctx.free_variable_id ≤ ctx'.free_variable_id
    pub constants_grow : ctx.free_constant_id ≤ ctx'.free_constant_id
    pub keeps_variables :
        (n : Name) (v : Variable) → lookup_variable n ctx ≡ some v → lookup_variable n ctx' ≡ some v
    pub keeps_constants :
        (n : Name) (e : Expression) → get_constant n ctx ≡ some e → get_constant n ctx' ≡ some e
    pub earlier : (ν : Valuation) → IsValuation meaning ν ctx' → IsValuation meaning ν ctx

  pub record Outcome (e : Expression) (ctx ctx' : AffineContext) (a : AffineExpr) : Type 0 where
    pub step : Step ctx ctx'
    pub declared : IsDeclared ctx' a
    pub valued :
        (ν : Valuation) (z : ℤ)
        → IsValuation meaning ν ctx'
        → meaning e ≡ ok (int z)
        → affine_value ν a ≡ some z
    pub read_back : ReadsBack meaning e ctx' a
    pub exact : (ν : Valuation) → IsExact ν a

  pub same_step : {ctx : AffineContext} → IsNumbered ctx → Step ctx ctx
  same_step h = record {
    numbered = h;
    variables_grow = omega arith;
    constants_grow = omega arith;
    keeps_variables = λ n v h. h;
    keeps_constants = λ n e h. h;
    earlier = λ ν v. v;
  }

  pub then_step :
      {ctx₀ ctx₁ ctx₂ : AffineContext} → Step ctx₀ ctx₁ → Step ctx₁ ctx₂ → Step ctx₀ ctx₂
  then_step p q = record {
    numbered = q.numbered;
    variables_grow = omega (arith, p.variables_grow, q.variables_grow);
    constants_grow = omega (arith, p.constants_grow, q.constants_grow);
    keeps_variables = λ n v h. q.keeps_variables n v (p.keeps_variables n v h);
    keeps_constants = λ n e h. q.keeps_constants n e (p.keeps_constants n e h);
    earlier = λ ν v. p.earlier ν (q.earlier ν v);
  }

  declare_variable-new :
      (v : Variable) (ctx : AffineContext)
      → IsNumbered ctx
      → Outcome
          (variable_ref v)
          ctx
          (record ctx {
            free_variable_id = suc ctx.free_variable_id;
            variable_table = ctx.variable_table ++ ((v, variable_name ctx.free_variable_id) ∷ []);
          })
          (affine_variable (variable_name ctx.free_variable_id))
  unfolding affine_value lookup_variable get_constant
  declare_variable-new v ctx h =
      let step : Step ctx (record ctx {
        free_variable_id = suc ctx.free_variable_id;
        variable_table = ctx.variable_table ++ ((v, variable_name ctx.free_variable_id) ∷ []);
      }) =
        (record {
          numbered = record {
            variables_counted = omega (
              arith,
              h.variables_counted,
              length-append ctx.variable_table ((v, variable_name ctx.free_variable_id) ∷ []),
            );
            constants_counted = h.constants_counted;
            variables_numbered =
                IsNumberedFrom-append variable_name 0 ctx.variable_table v ctx.free_variable_id
                  (omega (arith, h.variables_counted)) h.variables_numbered;
            constants_numbered = h.constants_numbered;
          };
          variables_grow = omega arith;
          constants_grow = omega arith;
          keeps_variables = λ m w found. find_named-append m ctx.variable_table _ w found;
          keeps_constants = λ m w found. found;
          earlier = λ ν valid. (
            (All-append (IsVariableEntry meaning ν) ctx.variable_table
                ((v, variable_name ctx.free_variable_id) ∷ []) valid.0).0,
            valid.1,
          );
        }) in
      (record {
        step = step;
        exact = λ ν. tt;
        read_back =
            reads_variable meaning (variable_ref v) _ (variable_name ctx.free_variable_id) v
              (find_named-Mem variable_name (λ i j e. cc) 0 _ v _ step.numbered.variables_numbered
                (append_right ctx.variable_table (Memᴰ.head refl)))
              refl;
        declared = omega arith;
        valued = λ ν z valid means. ap some (
            (All-append (IsVariableEntry meaning ν) ctx.variable_table
                ((v, variable_name ctx.free_variable_id) ∷ []) valid.0).1.0
              z means);
      })

  declare_variable-known :
      (v : Variable) (ctx : AffineContext) (n : Name)
      → IsNumbered ctx
      → find_name (λ w. same_variable w v) ctx.variable_table ≡ some n
      → Outcome (variable_ref v) ctx ctx (affine_variable n)
  unfolding affine_value lookup_variable
  declare_variable-known v ctx n h p =
      let (w, q, mem) = find_name-eq-some (λ w. same_variable w v) ctx.variable_table n p in
      let (j, r, bound) =
        IsNumberedFrom-Mem variable_name 0 ctx.variable_table w n h.variables_numbered mem in
      (record {
        step = same_step h;
        exact = λ ν. tt;
        read_back =
            reads_variable meaning (variable_ref v) ctx n w
              (find_named-Mem variable_name (λ i j e. cc) 0 ctx.variable_table w n
                h.variables_numbered mem)
              (laws.of_variable w v q);
        declared = subst (IsVariableName ctx) (sym r) (omega (arith, bound, h.variables_counted));
        valued = λ ν z valid means. ap some (
            All-Mem (IsVariableEntry meaning ν) ctx.variable_table (w, n) valid.0 mem z
              (laws.of_variable w v q ∙ means));
      })

  pub declare_variable-Outcome :
      (v : Variable) (ctx : AffineContext)
      → IsNumbered ctx
      → let out = declare_variable v ctx in Outcome (variable_ref v) ctx out.1 out.0
  unfolding declare_variable
  declare_variable-Outcome v ctx h =
      elim (Option-cases (find_name (λ w. same_variable w v) ctx.variable_table)) [
        | inl p ↦ rw (declare_variable, p) (declare_variable-new v ctx h)
        | inr (n, p) ↦ rw (declare_variable, p) (declare_variable-known v ctx n h p)
      ]

  define_constant-new :
      (e : Expression) (ctx : AffineContext)
      → IsNumbered ctx
      → Outcome e ctx
          (record ctx {
            free_constant_id = suc ctx.free_constant_id;
            constant_table = ctx.constant_table ++ ((e, constant_name ctx.free_constant_id) ∷ []);
          })
          (affine_constant (constant_name ctx.free_constant_id))
  unfolding affine_value lookup_variable get_constant
  define_constant-new e ctx h =
      let step : Step ctx (record ctx {
        free_constant_id = suc ctx.free_constant_id;
        constant_table = ctx.constant_table ++ ((e, constant_name ctx.free_constant_id) ∷ []);
      }) =
        (record {
          numbered = record {
            constants_counted = omega (
              arith,
              h.constants_counted,
              length-append ctx.constant_table ((e, constant_name ctx.free_constant_id) ∷ []),
            );
            variables_counted = h.variables_counted;
            constants_numbered =
                IsNumberedFrom-append constant_name 0 ctx.constant_table e ctx.free_constant_id
                  (omega (arith, h.constants_counted)) h.constants_numbered;
            variables_numbered = h.variables_numbered;
          };
          variables_grow = omega arith;
          constants_grow = omega arith;
          keeps_variables = λ m w found. found;
          keeps_constants = λ m w found. find_named-append m ctx.constant_table _ w found;
          earlier = λ ν valid. (
            valid.0,
            (All-append (IsConstantEntry meaning ν) ctx.constant_table
                ((e, constant_name ctx.free_constant_id) ∷ []) valid.1).0,
          );
        }) in
      (record {
        step = step;
        exact = λ ν. tt;
        read_back =
            reads_constant meaning e e _ ctx.free_constant_id h.variables_numbered
              (find_named-Mem constant_name (λ i j e. cc) 0 _ e _ step.numbered.constants_numbered
                (append_right ctx.constant_table (Memᴰ.head refl)))
              refl;
        declared = omega arith;
        valued = λ ν z valid means. ap some (
            (All-append (IsConstantEntry meaning ν) ctx.constant_table
                ((e, constant_name ctx.free_constant_id) ∷ []) valid.1).1.0
              z means);
      })

  define_constant-known :
      (e : Expression) (ctx : AffineContext) (n : Name)
      → IsNumbered ctx
      → find_name (λ f. equal same_double same_float f e) ctx.constant_table ≡ some n
      → Outcome e ctx ctx (affine_constant n)
  unfolding affine_value get_constant
  define_constant-known e ctx n h p =
      let (w, q, mem) =
        find_name-eq-some (λ f. equal same_double same_float f e) ctx.constant_table n p in
      let (j, r, bound) =
        IsNumberedFrom-Mem constant_name 0 ctx.constant_table w n h.constants_numbered mem in
      (record {
        step = same_step h;
        exact = λ ν. tt;
        read_back =
            subst (λ m. ReadsBack meaning e ctx (affine_constant m)) (sym r)
              (reads_constant meaning e w ctx j h.variables_numbered
                (subst (λ m. find_named m ctx.constant_table ≡ some w) r
                  (find_named-Mem constant_name (λ i j e. cc) 0 ctx.constant_table w n
                    h.constants_numbered mem))
                (laws.of_equal w e q));
        declared = subst (IsConstantName ctx) (sym r) (omega (arith, bound, h.constants_counted));
        valued = λ ν z valid means. ap some (
            All-Mem (IsConstantEntry meaning ν) ctx.constant_table (w, n) valid.1 mem z
              (laws.of_equal w e q ∙ means));
      })

  pub define_constant-Outcome :
      (e : Expression) (ctx : AffineContext)
      → IsNumbered ctx
      → let out = define_constant same_double same_float e ctx in Outcome e ctx out.1 out.0
  unfolding define_constant
  define_constant-Outcome e ctx h =
      elim (Option-cases (find_name (λ f. equal same_double same_float f e) ctx.constant_table)) [
        | inl p ↦ rw (define_constant, p) (define_constant-new e ctx h)
        | inr (n, p) ↦ rw (define_constant, p) (define_constant-known e ctx n h p)
      ]
