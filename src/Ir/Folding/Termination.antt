-- ===== src/Ir/Folding/Termination.antt =====
-- Folding ends within the depth of the expression.
use qubus.Base.{ℕ, zero, suc, ◌<◌, arith}
use qubus.Base.Int.{ℤ}
use qubus.Base.Results.{Result, IsFueled, >>=-IsFueled, if-IsFueled}
use qubus.Ir.Types.{type_eq, integer}
use qubus.Ir.Inference.{typeof_}
use qubus.Ir.Inference.Totality.{typeof_-IsFueled}
use qubus.Ir.Expressions.{
  Expression, Expressions, BinaryOpTag, UnaryOpTag, nil, cons, integer_literal, binary_operator,
  unary_operator, double_literal, plus,
}
use qubus.Ir.Expressions.Children.{sub_expressions, substitute_subexpressions}
use qubus.Ir.Expressions.Depth.{depth, depth_all, depth_all-sub_expressions-lt}
use qubus.Ir.Folding.{
  fold_binary, fold_unary, fold_operator, fold_impl, transform_all, fold_constant_expressions,
}

fold_binary-IsFueled : (t : BinaryOpTag) (a b : ℤ) → IsFueled (fold_binary t a b)
unfolding fold_binary
fold_binary-IsFueled plus a b = ground arith
fold_binary-IsFueled _ a b = ground arith

fold_unary-IsFueled : (t : UnaryOpTag) (a : ℤ) → IsFueled (fold_unary t a)
unfolding fold_unary
fold_unary-IsFueled t a = ground arith

fold_operator-IsFueled : (e : Expression) → IsFueled (fold_operator e)
unfolding fold_operator
fold_operator-IsFueled (binary_operator t (integer_literal a) (integer_literal b)) =
    fold_binary-IsFueled t a b
fold_operator-IsFueled (unary_operator t (integer_literal a)) = fold_unary-IsFueled t a
fold_operator-IsFueled _ = tt

fold_impl-IsFueled : (e : Expression) → IsFueled (fold_impl e)
unfolding fold_impl
fold_impl-IsFueled e =
    >>=-IsFueled (typeof_ e) _ (typeof_-IsFueled e)
      λ t _. if-IsFueled (type_eq t integer) _ _ (fold_operator-IsFueled e) tt

pub substitute_subexpressions-IsFueled :
    (e : Expression) (es : Expressions) → IsFueled (substitute_subexpressions e es)
unfolding substitute_subexpressions
substitute_subexpressions-IsFueled (double_literal x) es = ground arith
substitute_subexpressions-IsFueled _ es = ground arith

pub transform_all-IsFueled :
    (f : Expression → Result Expression) (n : ℕ)
    → ((e : Expression) → depth e < n → IsFueled (f e))
    → (es : Expressions) → depth_all es < n
    → IsFueled (transform_all f es)
unfolding transform_all depth
transform_all-IsFueled f n rec nil h = tt
transform_all-IsFueled f n rec (cons e es) h = >>=-IsFueled (f e) _ (rec e (omega arith)) λ e' _.
    >>=-IsFueled (transform_all f es) _ (transform_all-IsFueled f n rec es (omega arith)) λ _ _. tt

-- Fuel beyond the depth of the expression is enough: folding never runs out of it.
pub fold-IsFueled :
    (fuel : ℕ) (e : Expression) → depth e < fuel → IsFueled (fold_constant_expressions fuel e)
unfolding fold_constant_expressions
fold-IsFueled zero e h = absurd (omega arith)
fold-IsFueled (suc fuel) e h =
    >>=-IsFueled (transform_all (fold_constant_expressions fuel) (sub_expressions e)) _
      (transform_all-IsFueled _ fuel (fold-IsFueled fuel) (sub_expressions e)
        (omega (arith, depth_all-sub_expressions-lt e)))
      λ es _.
        >>=-IsFueled (substitute_subexpressions e es) _ (substitute_subexpressions-IsFueled e es)
          λ e' _. fold_impl-IsFueled e'
