-- ===== src/Analysis/Affine/Keeping.antt =====
-- Reading an affine expression of qubus/src/affine_constraints.cpp back in a context that has grown
-- since, and under an operator.
use qubus.Base.{ℕ, Bool, some, ◌≡◌, refl, sym, ap, subst, ◌∙◌, Option-cases, inl, inr}
use mathlib.Core.Option.{some-injective}
use qubus.Base.Int.{ℤ}
use qubus.Base.Results.{Result, ok, ◌>>=◌, >>=-eq-ok}
use qubus.Ir.Expressions.{
  Expression, Variable, BinaryOpTag, UnaryOpTag, binary_operator as binary, unary_operator as unary,
}
use qubus.Ir.Semantics.{Value, int, truth, apply_unary}
use qubus.Analysis.Affine.{
  Name, variable_name, constant_name, AffineExpr, affine_variable, affine_constant, integer_literal,
  AffineContext, lookup_variable, get_constant, combine, combine_unary,
}
use qubus.Analysis.Affine.Meaning.{IsMeaning}
use qubus.Analysis.Affine.Numbering.{IsNumbered, IsDeclared}
use qubus.Analysis.Affine.Operators.{combine-eq-some, apply_binary-affine}
use qubus.Analysis.Affine.Ast.{
  convert_isl_ast_expr_to_qir, convert_name, convert_op, binary_of, and_then, no_more,
}
use qubus.Analysis.Affine.ReadBack.{
  ReadsBack, tree_of, operator_of, no_other, convert_name-variable, convert_name-constant,
}

-- An operator that stays affine is read back as itself.
tree_of-binary :
    (ctx : AffineContext) (t : BinaryOpTag) (l r a : AffineExpr)
    → combine t l r ≡ some a
    → convert_isl_ast_expr_to_qir (tree_of (AffineExpr.binary_operator t l r)) ctx ≡ (
        convert_isl_ast_expr_to_qir (tree_of l) ctx >>= λ x.
        convert_isl_ast_expr_to_qir (tree_of r) ctx >>= λ y. ok (binary t x y))
unfolding convert_isl_ast_expr_to_qir
tree_of-binary ctx BinaryOpTag.plus l r a h = refl
tree_of-binary ctx BinaryOpTag.minus l r a h = refl
tree_of-binary ctx BinaryOpTag.multiplies l r a h = refl
tree_of-binary ctx BinaryOpTag.divides l r a h = refl
tree_of-binary ctx BinaryOpTag.modulus l r a h = refl
tree_of-binary ctx _ l r a h = cc h

binary_of-keeps :
    (t : BinaryOpTag) (x y x' y' : Result Expression) (e : Expression)
    → ((u : Expression) → x ≡ ok u → x' ≡ ok u)
    → ((u : Expression) → y ≡ ok u → y' ≡ ok u)
    → binary_of t (and_then x (and_then y no_more)) ≡ ok e
    → binary_of t (and_then x' (and_then y' no_more)) ≡ ok e
binary_of-keeps t x y x' y' e p q h =
    let (u, a, h₁) = >>=-eq-ok x _ h in let (v, b, h₂) = >>=-eq-ok y _ h₁ in rw (p u a, q v b) h₂

operator_of-keeps :
    (t : BinaryOpTag) (x y x' y' : Result Expression) (e : Expression)
    → ((u : Expression) → x ≡ ok u → x' ≡ ok u)
    → ((u : Expression) → y ≡ ok u → y' ≡ ok u)
    → convert_op (operator_of t) (and_then x (and_then y no_more)) ≡ ok e
    → convert_op (operator_of t) (and_then x' (and_then y' no_more)) ≡ ok e
operator_of-keeps BinaryOpTag.plus x y x' y' e p q h = binary_of-keeps _ x y x' y' e p q h
operator_of-keeps BinaryOpTag.minus x y x' y' e p q h = binary_of-keeps _ x y x' y' e p q h
operator_of-keeps BinaryOpTag.multiplies x y x' y' e p q h = binary_of-keeps _ x y x' y' e p q h
operator_of-keeps BinaryOpTag.divides x y x' y' e p q h = binary_of-keeps _ x y x' y' e p q h
operator_of-keeps BinaryOpTag.modulus x y x' y' e p q h = binary_of-keeps _ x y x' y' e p q h
operator_of-keeps _ x y x' y' e p q h = cc h

unary_plus : (v : Value) (z : ℤ) → apply_unary UnaryOpTag.plus v ≡ ok (int z) → ok v ≡ ok (int z)
unfolding apply_unary
unary_plus (int i) z h = h
unary_plus (truth b) z h = cc h

negated_is :
    (v : Value) (z : ℤ) → apply_unary UnaryOpTag.negate v ≡ ok (int z) → (i : ℤ) × (v ≡ int i)
unfolding apply_unary
negated_is (int i) z h = (i, refl)
negated_is (truth b) z h = cc h

-- The lookups that succeed in one context succeed in the other.
module _ (ctx ctx' : AffineContext) (numbered : IsNumbered ctx) (numbered' : IsNumbered ctx')
    (keeps_variables : (n : Name) (v : Variable)
      → lookup_variable n ctx ≡ some v
      → lookup_variable n ctx' ≡ some v)
    (keeps_constants : (n : Name) (e : Expression)
      → get_constant n ctx ≡ some e
      → get_constant n ctx' ≡ some e) where
  convert_variable-keeps :
      (k : ℕ) (e : Expression)
      → convert_name (variable_name k) ctx ≡ ok e
      → convert_name (variable_name k) ctx' ≡ ok e
  unfolding get_constant convert_name
  convert_variable-keeps k e h = elim (Option-cases (lookup_variable (variable_name k) ctx)) [
    | inl p ↦ cc (
        rw
          (
            convert_name,
            p,
            no_other constant_name (variable_name k) 0 ctx.constant_table (λ i. refl)
                numbered.constants_numbered,
          )
          at h)
    | inr (v, p) ↦
        convert_name-variable ctx' _ v (keeps_variables _ v p)
        ∙ sym (convert_name-variable ctx _ v p)
        ∙ h
  ]

  convert_constant-keeps :
      (k : ℕ) (e : Expression)
      → convert_name (constant_name k) ctx ≡ ok e
      → convert_name (constant_name k) ctx' ≡ ok e
  unfolding lookup_variable convert_name
  convert_constant-keeps k e h =
      let absent =
        no_other variable_name (constant_name k) 0 ctx.variable_table (λ i. refl)
          numbered.variables_numbered in
      let absent' =
        no_other variable_name (constant_name k) 0 ctx'.variable_table (λ i. refl)
          numbered'.variables_numbered in
      elim (Option-cases (get_constant (constant_name k) ctx)) [
        | inl p ↦ cc (rw (convert_name, absent, p) at h)
        | inr (f, p) ↦
            convert_name-constant ctx' _ f absent' (keeps_constants _ f p)
            ∙ sym (convert_name-constant ctx _ f absent p)
            ∙ h
      ]

  tree-keeps :
      (a : AffineExpr) (e : Expression)
      → IsDeclared ctx a
      → convert_isl_ast_expr_to_qir (tree_of a) ctx ≡ ok e
      → convert_isl_ast_expr_to_qir (tree_of a) ctx' ≡ ok e
  unfolding convert_isl_ast_expr_to_qir
  tree-keeps (affine_variable (variable_name k)) e d h = convert_variable-keeps k e h
  tree-keeps (affine_constant (constant_name k)) e d h = convert_constant-keeps k e h
  tree-keeps (integer_literal z) e d h = h
  tree-keeps (AffineExpr.binary_operator t l r) e d h =
      operator_of-keeps t _ _ _ _ e (λ u p. tree-keeps l u d.0 p) (λ u p. tree-keeps r u d.1 p) h
  tree-keeps (AffineExpr.unary_operator UnaryOpTag.plus a) e d h = tree-keeps a e d h
  tree-keeps (AffineExpr.unary_operator t a) e d h =
      let (u, p, q) = >>=-eq-ok (convert_isl_ast_expr_to_qir (tree_of a) ctx) _ h in
      rw (tree-keeps a u d p) q
  tree-keeps _ e d h = absurd d

  pub ReadsBack-keeps :
      (meaning : Expression → Result Value) (e : Expression) (a : AffineExpr)
      → IsDeclared ctx a
      → ReadsBack meaning e ctx a
      → ReadsBack meaning e ctx' a
  ReadsBack-keeps meaning e a d back = record {
    result = back.result;
    converts = tree-keeps a back.result d back.converts;
    means = back.means;
  }

module _ {same_double same_float : ℕ → ℕ → Bool} {floor : ℤ → ℤ → Result ℤ}
    {meaning : Expression → Result Value} (laws : IsMeaning same_double same_float floor meaning)
    (ctx : AffineContext) where
  pub combine-ReadsBack :
      (t : BinaryOpTag) (l r : Expression) (x y a : AffineExpr)
      → combine t x y ≡ some a
      → ReadsBack meaning l ctx x
      → ReadsBack meaning r ctx y
      → ReadsBack meaning (binary t l r) ctx a
  combine-ReadsBack t l r x y a h p q =
      subst (ReadsBack meaning (binary t l r) ctx) (sym (combine-eq-some t x y a h)) (record {
        result = binary t p.result q.result;
        converts = tree_of-binary ctx t x y a h ∙ rw (p.converts, q.converts) refl;
        means = λ z means.
            let (vx, left, m₁) = >>=-eq-ok (meaning l) _ (sym (laws.of_binary t l r) ∙ means) in
            let (vy, right, m₂) = >>=-eq-ok (meaning r) _ m₁ in
            let (i, j, vx_is, vy_is, applied) = apply_binary-affine floor t x y a vx vy z h m₂ in
            laws.of_binary t p.result q.result
            ∙ rw (p.means i (left ∙ ap ok vx_is), q.means j (right ∙ ap ok vy_is))
                (rw (vx_is, vy_is) at m₂);
      })

  pub combine_unary-ReadsBack :
      (t : UnaryOpTag) (e : Expression) (x a : AffineExpr)
      → combine_unary t x ≡ some a
      → ReadsBack meaning e ctx x
      → ReadsBack meaning (unary t e) ctx a
  unfolding convert_isl_ast_expr_to_qir
  combine_unary-ReadsBack UnaryOpTag.plus e x a h p =
      subst (ReadsBack meaning (unary UnaryOpTag.plus e) ctx) (some-injective x a h) (record {
        result = p.result;
        converts = p.converts;
        means = λ z means.
            let (v, arg, m) =
              >>=-eq-ok (meaning e) _ (sym (laws.of_unary UnaryOpTag.plus e) ∙ means) in
            p.means z (arg ∙ unary_plus v z m);
      })
  combine_unary-ReadsBack UnaryOpTag.negate e x a h p =
      subst (ReadsBack meaning (unary UnaryOpTag.negate e) ctx) (some-injective _ a h) (record {
        result = unary UnaryOpTag.negate p.result;
        converts = rw p.converts refl;
        means = λ z means.
            let (v, arg, m) =
              >>=-eq-ok (meaning e) _ (sym (laws.of_unary UnaryOpTag.negate e) ∙ means) in
            let (i, v_is) = negated_is v z m in
            laws.of_unary UnaryOpTag.negate p.result
            ∙ rw (p.means i (arg ∙ ap ok v_is)) (rw v_is at m);
      })
  combine_unary-ReadsBack t e x a h p = cc h
