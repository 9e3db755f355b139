-- ===== src/Ir/Folding.antt =====
-- Constant folding: qubus/src/IR/constant_folding.cpp. `undefined_behaviour` is what the compiler's
-- own C++ arithmetic runs into: signed overflow, or a division by zero.
pub mod Soundness
pub mod Shape
pub mod Termination
pub mod Constants
pub mod DivFloor
use qubus.Base.{ℕ, zero, suc, Bool, true, false, ◌||◌, if◌then◌else◌}
use qubus.Base.Int.{ℤ, pos, ◌+ℤ◌, ◌-ℤ◌, ◌*ℤ◌, quot, rem, ltb_ℤ}
use qubus.Base.Results.{Result, ok, fail, out_of_fuel, ◌>>=◌}
use qubus.Ir.Types.{integer, type_eq}
use qubus.Ir.Expressions.{
  Expression, Expressions, BinaryOpTag, UnaryOpTag, integer_literal, binary_operator,
  unary_operator, plus, minus, multiplies, divides, modulus, div_floor, nil, cons,
}
use qubus.Ir.Expressions.Children.{sub_expressions, substitute_subexpressions}
use qubus.Ir.Inference.{typeof_}
use qubus.Ir.Semantics.{checked, guarded, is_zero, eqb_bool}

-- The case of `div_floor`; the reduced quotient is computed in any case.
unfoldable pub fold_div_floor : ℤ → ℤ → Result ℤ
fold_div_floor a b = do
  quotient ← checked (quot a b)
  remainder ← checked (rem a b)
  let is_exact = is_zero remainder
  let is_positive = eqb_bool (ltb_ℤ remainder (pos 0)) (ltb_ℤ quotient (pos 0))
  reduced_quotient ← checked (quotient -ℤ pos 1)
  ok (if is_exact || is_positive then quotient else reduced_quotient)

abbrev pub literal : Result ℤ → Result Expression
literal r = do z ← r; ok (integer_literal z)

unfoldable pub fold_binary : BinaryOpTag → ℤ → ℤ → Result Expression
unfolding fold_div_floor
fold_binary plus a b = literal (checked (a +ℤ b))
fold_binary minus a b = literal (checked (a -ℤ b))
fold_binary multiplies a b = literal (checked (a *ℤ b))
fold_binary divides a b = literal (guarded b (checked (quot a b)))
fold_binary modulus a b = literal (guarded b (checked (quot a b) >>= λ _. checked (rem a b)))
fold_binary div_floor a b = literal (guarded b (fold_div_floor a b))
fold_binary t a b = ok (binary_operator t (integer_literal a) (integer_literal b))

unfoldable pub fold_unary : UnaryOpTag → ℤ → Result Expression
fold_unary UnaryOpTag.plus a = ok (integer_literal a)
fold_unary UnaryOpTag.negate a = literal (checked (pos 0 -ℤ a))
fold_unary t a = ok (unary_operator t (integer_literal a))

-- The matcher of `fold_impl`.
unfoldable pub fold_operator : Expression → Result Expression
unfolding fold_binary fold_unary
fold_operator (binary_operator t (integer_literal a) (integer_literal b)) = fold_binary t a b
fold_operator (unary_operator t (integer_literal a)) = fold_unary t a
fold_operator e = ok e

unfoldable pub fold_impl : Expression → Result Expression
unfolding fold_operator typeof_ type_eq
fold_impl e = do t ← typeof_ e; if type_eq t integer then fold_operator e else ok e

-- A loop that rewrites every child.
unfoldable pub transform_all : (Expression → Result Expression) → Expressions → Result Expressions
transform_all f nil = ok nil
transform_all f (cons e es) = do e' ← f e; es' ← transform_all f es; ok (cons e' es')

-- The recursion goes down the tree; the fuel bounds its depth.
unfoldable pub fold_constant_expressions : ℕ → Expression → Result Expression
unfolding fold_impl transform_all sub_expressions substitute_subexpressions
fold_constant_expressions zero e = fail out_of_fuel
fold_constant_expressions (suc fuel) e = do
  simplified_children ← transform_all (fold_constant_expressions fuel) (sub_expressions e)
  new_expr ← substitute_subexpressions e simplified_children
  fold_impl new_expr
