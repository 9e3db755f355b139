-- ===== src/Ir/Expressions/Depth.antt =====
-- The depth of an expression: what the recursions over its tree are bounded by.
use qubus.Base.{ℕ, suc, ◌<◌, ◌≤◌, max, arith}
use qubus.Ir.Expressions.{
  Expression, Expressions, binary_operator, unary_operator, type_conversion, intrinsic_function,
  subscription, member_access, construct, integer_range, compound, for_loop, if_then, if_else,
  local_variable_def, macro, sum, delta, nil, cons, double_literal,
}
use qubus.Ir.Expressions.Children.{sub_expressions, copies}

unfoldable mutual
  pub depth : Expression → ℕ
  depth (binary_operator t l r) = suc (max (depth l) (depth r))
  depth (unary_operator t e) = suc (depth e)
  depth (type_conversion t e) = suc (depth e)
  depth (intrinsic_function f es) = suc (depth_all es)
  depth (subscription e es) = suc (max (depth e) (depth_all es))
  depth (member_access e m) = suc (depth e)
  depth (construct t es) = suc (depth_all es)
  depth (integer_range b e s) = suc (max (depth b) (max (depth e) (depth s)))
  depth (compound o es) = suc (depth_all es)
  depth (for_loop o v l u i b) = suc (max (max (depth l) (depth u)) (max (depth i) (depth b)))
  depth (if_then c t) = suc (max (depth c) (depth t))
  depth (if_else c t f) = suc (max (depth c) (max (depth t) (depth f)))
  depth (local_variable_def v e) = suc (depth e)
  depth (macro ps e) = suc (depth e)
  depth (sum vs a e) = suc (depth e)
  depth (delta n i j) = suc (max (depth i) (depth j))
  depth _ = 1

  pub depth_all : Expressions → ℕ
  depth_all nil = 0
  depth_all (cons e es) = max (depth e) (depth_all es)

depth_all-copies-le : (e : Expression) (es : Expressions) → depth_all (copies e es) ≤ depth e
unfolding depth
depth_all-copies-le e nil = omega arith
depth_all-copies-le e (cons f fs) = omega (arith, depth_all-copies-le e fs)

pub depth_all-sub_expressions-lt : (e : Expression) → depth_all (sub_expressions e) < depth e
unfolding depth sub_expressions
depth_all-sub_expressions-lt (double_literal x) = omega arith
depth_all-sub_expressions-lt (construct t nil) = omega arith
depth_all-sub_expressions-lt (construct t (cons e es)) = omega (arith, depth_all-copies-le e es)
depth_all-sub_expressions-lt _ = omega arith
