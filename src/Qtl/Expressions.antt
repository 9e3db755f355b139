-- ===== src/Qtl/Expressions.antt =====
-- The expressions of a kernel: the classes of qubus/src/qtl/IR and those of qubus/src/IR that a kernel
-- has, and `pattern::substitute` on them.
use qubus.Base.{ℕ, suc, max, String, Option, none, some, List}
use qubus.Base.Int.{ℤ}
use qubus.Ir.Types.{index, type_eq}
use qubus.Base.{Bool}
use qubus.Ir.Expressions.{Variable, BinaryOpTag, UnaryOpTag}

-- `kronecker_delta` has an extent; `sum` and `for_all` have a list of indices.
mutual
  pub data QtlExpression : Type 0 where
    integer_literal : ℤ → QtlExpression
    variable_ref : Variable → QtlExpression
    binary_operator : BinaryOpTag → QtlExpression → QtlExpression → QtlExpression
    unary_operator : UnaryOpTag → QtlExpression → QtlExpression
    intrinsic_function : String → QtlExpressions → QtlExpression
    subscription : QtlExpression → QtlExpressions → QtlExpression
    kronecker_delta : ℕ → QtlExpression → QtlExpression → QtlExpression
    sum : List Variable → QtlExpression → QtlExpression
    for_all : List Variable → QtlExpression → QtlExpression

  pub data QtlExpressions : Type 0 where
    nil : QtlExpressions
    cons : QtlExpression → QtlExpressions → QtlExpressions

-- The pattern `index`: an index variable.
unfoldable pub is_index : Variable → Bool
unfolding type_eq
is_index v = type_eq v.var_type index

abbrev pub or_leaf : Option QtlExpression → QtlExpression → QtlExpression
or_leaf (some leaf) e = leaf
or_leaf none e = e

-- `pattern::substitute` with a matcher whose replacements have no children.
unfoldable mutual
  pub substitute_leaves : (QtlExpression → Option QtlExpression) → QtlExpression → QtlExpression
  substitute_leaves f (binary_operator t l r) =
      or_leaf (f (binary_operator t l r))
        (binary_operator t (substitute_leaves f l) (substitute_leaves f r))
  substitute_leaves f (unary_operator t e) =
      or_leaf (f (unary_operator t e)) (unary_operator t (substitute_leaves f e))
  substitute_leaves f (intrinsic_function n es) =
      or_leaf (f (intrinsic_function n es)) (intrinsic_function n (substitute_all f es))
  substitute_leaves f (subscription e es) =
      or_leaf (f (subscription e es)) (subscription (substitute_leaves f e) (substitute_all f es))
  substitute_leaves f (kronecker_delta n l r) =
      or_leaf (f (kronecker_delta n l r))
        (kronecker_delta n (substitute_leaves f l) (substitute_leaves f r))
  substitute_leaves f (sum is e) = or_leaf (f (sum is e)) (sum is (substitute_leaves f e))
  substitute_leaves f (for_all is e) =
      or_leaf (f (for_all is e)) (for_all is (substitute_leaves f e))
  substitute_leaves f e = or_leaf (f e) e

  pub substitute_all : (QtlExpression → Option QtlExpression) → QtlExpressions → QtlExpressions
  substitute_all f nil = nil
  substitute_all f (cons e es) = cons (substitute_leaves f e) (substitute_all f es)

unfoldable mutual
  pub depth : QtlExpression → ℕ
  depth (binary_operator t l r) = suc (max (depth l) (depth r))
  depth (unary_operator t e) = suc (depth e)
  depth (intrinsic_function n es) = suc (depth_all es)
  depth (subscription e es) = suc (max (depth e) (depth_all es))
  depth (kronecker_delta n l r) = suc (max (depth l) (depth r))
  depth (sum is e) = suc (depth e)
  depth (for_all is e) = suc (depth e)
  depth e = 1

  pub depth_all : QtlExpressions → ℕ
  depth_all nil = 0
  depth_all (cons e es) = max (depth e) (depth_all es)
