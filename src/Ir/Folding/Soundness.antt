-- ===== src/Ir/Folding/Soundness.antt =====
-- Constant folding keeps the meaning of an expression.
use qubus.Base.{if◌then◌else◌, Bool, true, false, ℕ, zero, suc, ◌≡◌, sym, ap, ◌∙◌, arith}
use qubus.Base.Int.{ℤ}
use qubus.Base.Results.{Result, ok, >>=-eq-ok}
use qubus.Ir.Types.{integer, type_eq}
use qubus.Ir.Inference.{typeof_}
use qubus.Ir.Expressions.{
  Expression, Expressions, BinaryOpTag, UnaryOpTag, integer_literal, binary_operator,
  unary_operator, nil, cons, plus,
}
use qubus.Ir.Expressions.Children.{sub_expressions, substitute_subexpressions}
use qubus.Ir.Semantics.{Env, Value, eval, apply_binary, apply_unary, int}
use qubus.Ir.Folding.{
  fold_div_floor, fold_binary, fold_unary, fold_operator, fold_impl, transform_all,
  fold_constant_expressions,
}

abbrev pub meaning : Env → Expression → Result Value
meaning env e = eval fold_div_floor env e

ok-injective : {a b : Expression} → ok a ≡ ok b → a ≡ b
ok-injective h = cc

module _ (env : Env) where
  fold_binary-meaning :
      (t : BinaryOpTag) (a b : ℤ) {e' : Expression}
      → fold_binary t a b ≡ ok e'
      → meaning env e' ≡ apply_binary fold_div_floor t (int a) (int b)
  unfolding fold_binary eval apply_binary
  fold_binary-meaning plus a b h = ground arith
  fold_binary-meaning _ a b h = ground arith

  fold_unary-meaning :
      (t : UnaryOpTag) (a : ℤ) {e' : Expression}
      → fold_unary t a ≡ ok e'
      → meaning env e' ≡ apply_unary t (int a)
  unfolding fold_unary eval apply_unary
  fold_unary-meaning t a h = ground arith

  fold_operator-meaning :
      (e : Expression) {e' : Expression} → fold_operator e ≡ ok e' → meaning env e' ≡ meaning env e
  unfolding fold_operator eval
  fold_operator-meaning (binary_operator t (integer_literal a) (integer_literal b)) h =
      fold_binary-meaning t a b h
  fold_operator-meaning (unary_operator t (integer_literal a)) h = fold_unary-meaning t a h
  fold_operator-meaning _ h = ground arith

  folded_if-meaning :
      (b : Bool) (e : Expression) {e' : Expression}
      → (if b then fold_operator e else ok e) ≡ ok e'
      → meaning env e' ≡ meaning env e
  folded_if-meaning true e h = fold_operator-meaning e h
  folded_if-meaning false e h = ground arith

  fold_impl-meaning :
      (e : Expression) {e' : Expression} → fold_impl e ≡ ok e' → meaning env e' ≡ meaning env e
  unfolding fold_impl
  fold_impl-meaning e h =
      let (t, p, q) = >>=-eq-ok (typeof_ e) _ h in folded_if-meaning (type_eq t integer) e q

  -- The children with their meanings kept.
  abbrev SameMeanings : Expressions → Expressions → Type 0
  SameMeanings nil nil = Unit
  SameMeanings (cons e es) (cons e' es') = (meaning env e' ≡ meaning env e) × SameMeanings es es'
  SameMeanings _ _ = ⊥

  transform_all-SameMeanings :
      (f : Expression → Result Expression)
      → ((e e' : Expression) → f e ≡ ok e' → meaning env e' ≡ meaning env e)
      → (es : Expressions) (es' : Expressions) → transform_all f es ≡ ok es'
      → SameMeanings es es'
  unfolding transform_all
  transform_all-SameMeanings f keep nil nil h = tt
  transform_all-SameMeanings f keep nil (cons e' es') h = cc
  transform_all-SameMeanings f keep (cons e es) nil h = absurd (ground arith)
  transform_all-SameMeanings f keep (cons e es) (cons e' es') h =
      (ground (arith, keep e e'), transform_all-SameMeanings f keep es es' (ground arith))

  substitute_subexpressions-meaning :
      (e : Expression) (es : Expressions) {e' : Expression}
      → substitute_subexpressions e es ≡ ok e'
      → SameMeanings (sub_expressions e) es
      → meaning env e' ≡ meaning env e
  unfolding substitute_subexpressions sub_expressions eval
  substitute_subexpressions-meaning (binary_operator t l r) (cons l' (cons r' nil)) h k =
      rw (← k.0, ← k.1.0) (ap (meaning env) (sym (ok-injective h)))
  substitute_subexpressions-meaning (unary_operator t e) (cons e₁ nil) h k =
      rw (← k.0) (ap (meaning env) (sym (ok-injective h)))
  substitute_subexpressions-meaning _ es h k = ground arith

  -- When folding succeeds, an expression of integer and Boolean literals, variables, and unary and
  -- binary operators keeps its meaning, a value or the same failure. div_floor is read as the folding
  -- computes it. Any other expression has no meaning here, so nothing is said of what is in it.
  pub fold_meaning :
      (fuel : ℕ) (e e' : Expression)
      → fold_constant_expressions fuel e ≡ ok e'
      → meaning env e' ≡ meaning env e
  unfolding fold_constant_expressions
  fold_meaning zero e e' h = cc
  fold_meaning (suc fuel) e e' h =
      let (es, p, q) =
        >>=-eq-ok (transform_all (fold_constant_expressions fuel) (sub_expressions e)) _ h in
      let (e₁, r, s) = >>=-eq-ok (substitute_subexpressions e es) _ q in
      fold_impl-meaning e₁ s
      ∙ substitute_subexpressions-meaning e es r
          (transform_all-SameMeanings _ (fold_meaning fuel) _ es p)
