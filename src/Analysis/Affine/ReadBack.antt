-- ===== src/Analysis/Affine/ReadBack.antt =====
-- Affine expressions read back as expressions of the IR, qubus/src/affine_constraints.cpp: what
-- `convert_isl_ast_expr_to_qir` makes of a syntax tree with their operators and names.
use qubus.Base.{
  ℕ, suc, ==_iff, ◌≤◌, true, false, none, some, List, [], ◌∷◌, ◌≡◌, refl, sym, ap, ◌∙◌, arith,
  Bool-cases, inl, inr, subst,
}
use mathlib.Core.List.{Memᴰ}
use mathlib.Core.List.Memᴰ.{not-nil}
use qubus.Base.Int.{ℤ}
use qubus.Base.Results.{Result, ok}
use qubus.Ir.Expressions.{Expression, Variable, BinaryOpTag, UnaryOpTag, variable_ref}
use qubus.Ir.Semantics.{Value, int}
use qubus.Analysis.Affine.{
  Name, variable_name, constant_name, same_name, AffineExpr, affine_variable, affine_constant,
  integer_literal, AffineContext, find_named, lookup_variable, get_constant,
}
use qubus.Analysis.Affine.Numbering.{IsNumberedFrom}
use qubus.Analysis.Affine.Ast.{
  AstOp, AstExpr, expr_id, expr_int, expr_op, no_args, and_arg, op_add, op_sub, op_mul, op_div,
  op_pdiv_r, op_minus, op_other, convert_isl_ast_expr_to_qir, convert_name,
}

-- The tree of the same operators.
abbrev pub operator_of : BinaryOpTag → AstOp
operator_of BinaryOpTag.plus = op_add
operator_of BinaryOpTag.minus = op_sub
operator_of BinaryOpTag.multiplies = op_mul
operator_of BinaryOpTag.divides = op_div
operator_of BinaryOpTag.modulus = op_pdiv_r
operator_of _ = op_other

abbrev pub tree_of_unary : UnaryOpTag → AstExpr → AstExpr
tree_of_unary UnaryOpTag.plus a = a
tree_of_unary _ a = expr_op op_minus (and_arg a no_args)

abbrev pub tree_of : AffineExpr → AstExpr
tree_of (affine_variable n) = expr_id n
tree_of (affine_constant n) = expr_id n
tree_of (integer_literal z) = expr_int z
tree_of (AffineExpr.binary_operator t l r) =
    expr_op (operator_of t) (and_arg (tree_of l) (and_arg (tree_of r) no_args))
tree_of (AffineExpr.unary_operator t e) = tree_of_unary t (tree_of e)

-- Read back, it has the integer that the expression has.
pub record ReadsBack (meaning : Expression → Result Value) (e : Expression) (ctx : AffineContext)
    (a : AffineExpr) : Type 0 where
  pub result : Expression
  pub converts : convert_isl_ast_expr_to_qir (tree_of a) ctx ≡ ok result
  pub means : (z : ℤ) → meaning e ≡ ok (int z) → meaning result ≡ ok (int z)

same_name_eq : (m n : Name) → same_name m n ≡ true → m ≡ n
same_name_eq (variable_name i) (variable_name j) h = ap variable_name ((==_iff i j).0 h)
same_name_eq (constant_name i) (constant_name j) h = ap constant_name ((==_iff i j).0 h)
same_name_eq _ _ h = cc h

same_name_self : (n : Name) → same_name n n ≡ true
same_name_self (variable_name i) = (==_iff i i).1 refl
same_name_self (constant_name i) = (==_iff i i).1 refl

module _ {ℓ} {A : Type ℓ} (make : ℕ → Name) (injective : (i j : ℕ) → make i ≡ make j → i ≡ j) where
  numbered_beyond :
      (k : ℕ) (table : List (A × Name)) (a : A) (n : Name)
      → IsNumberedFrom make k table
      → Memᴰ (a, n) table
      → (j : ℕ) × (n ≡ make j) × (k ≤ j)
  numbered_beyond k ((b, m) ∷ table) a n (named, rest) (Memᴰ.head eq) =
      (k, ap (λ e. e.1) eq ∙ named, omega arith)
  numbered_beyond k ((b, m) ∷ table) a n (named, rest) (Memᴰ.tail mem) =
      let (j, p, q) = numbered_beyond (suc k) table a n rest mem in (j, p, omega (arith, q))
  numbered_beyond k [] a n h mem = absurd (not-nil mem)

  pub find_named-Mem :
      (k : ℕ) (table : List (A × Name)) (a : A) (n : Name)
      → IsNumberedFrom make k table
      → Memᴰ (a, n) table
      → find_named n table ≡ some a
  unfolding find_named
  find_named-Mem k ((b, m) ∷ table) a n (named, rest) (Memᴰ.head eq) =
      rw (subst (λ x. same_name m x ≡ true) (sym (ap (λ e. e.1) eq)) (same_name_self m))
        (ap (λ e. some e.0) (sym eq))
  find_named-Mem k ((b, m) ∷ table) a n (named, rest) (Memᴰ.tail mem) =
      elim (Bool-cases (same_name m n)) [
        | inl p ↦
            let (j, q, l) = numbered_beyond (suc k) table a n rest mem in
            let e : k ≡ j = injective k j (sym named ∙ same_name_eq m n p ∙ q) in
            absurd (omega (arith, e, l))
        | inr p ↦ rw p (find_named-Mem (suc k) table a n rest mem)
      ]
  find_named-Mem k [] a n h mem = absurd (not-nil mem)

-- A table has no names of the other kind.
pub no_other {ℓ} :
    {A : Type ℓ} (make : ℕ → Name) (n : Name) (k : ℕ) (table : List (A × Name))
    → ((j : ℕ) → same_name (make j) n ≡ false)
    → IsNumberedFrom make k table
    → find_named n table ≡ none
unfolding find_named
no_other make n k [] other h = refl
no_other make n k ((a, m) ∷ table) other (named, rest) =
    rw (named, other k, no_other make n (suc k) table other rest) refl

pub convert_name-variable :
    (ctx : AffineContext) (n : Name) (v : Variable)
    → lookup_variable n ctx ≡ some v
    → convert_name n ctx ≡ ok (variable_ref v)
unfolding convert_name
convert_name-variable ctx n v found = rw (convert_name, found) refl

pub convert_name-constant :
    (ctx : AffineContext) (n : Name) (e : Expression)
    → lookup_variable n ctx ≡ none
    → get_constant n ctx ≡ some e
    → convert_name n ctx ≡ ok e
unfolding convert_name
convert_name-constant ctx n e other found = rw (convert_name, other, found) refl

pub reads_variable :
    (meaning : Expression → Result Value) (e : Expression) (ctx : AffineContext) (n : Name)
    (v : Variable)
    → lookup_variable n ctx ≡ some v
    → meaning (variable_ref v) ≡ meaning e
    → ReadsBack meaning e ctx (affine_variable n)
unfolding convert_isl_ast_expr_to_qir
reads_variable meaning e ctx n v found same = record {
  result = variable_ref v;
  converts = convert_name-variable ctx n v found;
  means = λ z h. same ∙ h;
}

pub reads_constant :
    (meaning : Expression → Result Value) (e f : Expression) (ctx : AffineContext) (j : ℕ)
    → IsNumberedFrom variable_name 0 ctx.variable_table
    → get_constant (constant_name j) ctx ≡ some f
    → meaning f ≡ meaning e
    → ReadsBack meaning e ctx (affine_constant (constant_name j))
unfolding convert_isl_ast_expr_to_qir lookup_variable
reads_constant meaning e f ctx j numbered found same = record {
  result = f;
  converts =
      convert_name-constant ctx (constant_name j) f
        (no_other variable_name (constant_name j) 0 ctx.variable_table (λ i. refl) numbered) found;
  means = λ z h. same ∙ h;
}
