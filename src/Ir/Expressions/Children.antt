-- ===== src/Ir/Expressions/Children.antt =====
-- The uniform access to the children of an expression: `arity`, `child` and
-- `substitute_subexpressions` of each class.
use qubus.Base.{ℕ, suc, if◌then◌else◌, Bool, true, false, Option}
use qubus.Base.Results.{Result, ok, fail, exception, undefined_behaviour}
use qubus.Base.{String, List}
use qubus.Base.Int.{ℤ}
use qubus.Ir.Types.{IrType}
use qubus.Ir.Expressions.{
  Variable, BinaryOpTag, UnaryOpTag, ExecutionOrder, Expression, Expressions, double_literal,
  float_literal, integer_literal, bool_literal, variable_ref, binary_operator, unary_operator,
  type_conversion, intrinsic_function, subscription, member_access, construct, integer_range,
  compound, for_loop, if_then, if_else, local_variable_def, macro, sum, delta, nil, cons,
}

abbrev pub count : Expressions → ℕ
count nil = 0
count (cons e es) = suc (count es)

-- As many copies of an expression as the list has elements.
abbrev pub copies : Expression → Expressions → Expressions
copies e nil = nil
copies e (cons f fs) = cons e (copies e fs)

-- `child(0)`, ..., `child(arity() - 1)`. The parameters of a construction are all read at index 0.
unfoldable pub sub_expressions : Expression → Expressions
sub_expressions (binary_operator t l r) = cons l (cons r nil)
sub_expressions (unary_operator t e) = cons e nil
sub_expressions (type_conversion t e) = cons e nil
sub_expressions (intrinsic_function f es) = es
sub_expressions (subscription e es) = cons e es
sub_expressions (member_access e m) = cons e nil
sub_expressions (construct t nil) = nil
sub_expressions (construct t (cons e es)) = cons e (copies e es)
sub_expressions (integer_range b e s) = cons b (cons e (cons s nil))
sub_expressions (compound o es) = es
sub_expressions (for_loop o v l u i b) = cons l (cons u (cons i (cons b nil)))
sub_expressions (if_then c t) = cons c (cons t nil)
sub_expressions (if_else c t f) = cons c (cons t (cons f nil))
sub_expressions (local_variable_def v e) = cons e nil
sub_expressions (macro ps e) = cons e nil
sub_expressions (sum vs a e) = cons e nil
sub_expressions (delta n i j) = cons i (cons j nil)
sub_expressions _ = nil

-- `dynamic_cast<access_expr*>`.
abbrev pub is_access : Expression → Bool
is_access (variable_ref v) = true
is_access (member_access e m) = true
is_access (subscription e es) = true
is_access _ = false

-- `substitute_subexpressions` of each class, with its exceptions.
abbrev pub replace_binary_operator : BinaryOpTag → Expressions → Result Expression
replace_binary_operator t (cons l (cons r nil)) = ok (binary_operator t l r)
replace_binary_operator t _ = fail exception

abbrev pub replace_unary_operator : UnaryOpTag → Expressions → Result Expression
replace_unary_operator t (cons e nil) = ok (unary_operator t e)
replace_unary_operator t _ = fail exception

abbrev pub replace_type_conversion : IrType → Expressions → Result Expression
replace_type_conversion t (cons e nil) = ok (type_conversion t e)
replace_type_conversion t _ = fail exception

abbrev pub replace_subscription : Expressions → Result Expression
replace_subscription nil = fail exception
replace_subscription (cons e es) = if is_access e then ok (subscription e es) else fail exception

-- The first child is read before the children are counted.
abbrev pub replace_member_access : String → Expressions → Result Expression
replace_member_access m nil = fail undefined_behaviour
replace_member_access m (cons e nil) =
    if is_access e then ok (member_access e m) else fail exception
replace_member_access m _ = fail exception

abbrev pub replace_integer_range : Expressions → Result Expression
replace_integer_range (cons b (cons e (cons s nil))) = ok (integer_range b e s)
replace_integer_range _ = fail exception

abbrev pub replace_for : ExecutionOrder → Variable → Expressions → Result Expression
replace_for o v (cons l (cons u (cons i (cons b nil)))) = ok (for_loop o v l u i b)
replace_for o v _ = fail exception

-- The number of the new children decides whether there is an else-branch.
abbrev pub replace_if : Expressions → Result Expression
replace_if (cons c (cons t nil)) = ok (if_then c t)
replace_if (cons c (cons t (cons f nil))) = ok (if_else c t f)
replace_if _ = fail exception

abbrev pub replace_local_variable_def : Variable → Expressions → Result Expression
replace_local_variable_def v (cons e nil) = ok (local_variable_def v e)
replace_local_variable_def v _ = fail exception

abbrev pub replace_macro : List Variable → Expressions → Result Expression
replace_macro ps (cons e nil) = ok (macro ps e)
replace_macro ps _ = fail exception

abbrev pub replace_sum : List Variable → Option Variable → Expressions → Result Expression
replace_sum vs a (cons e nil) = ok (sum vs a e)
replace_sum vs a _ = fail exception

abbrev pub replace_delta : ℤ → Expressions → Result Expression
replace_delta n (cons i (cons j nil)) = ok (delta n i j)
replace_delta n _ = fail exception

-- A literal or a reference to a variable.
abbrev pub replace_leaf : Expression → Expressions → Result Expression
replace_leaf e nil = ok e
replace_leaf e _ = fail exception

unfoldable pub substitute_subexpressions : Expression → Expressions → Result Expression
substitute_subexpressions (binary_operator t _ _) es = replace_binary_operator t es
substitute_subexpressions (unary_operator t _) es = replace_unary_operator t es
substitute_subexpressions (type_conversion t _) es = replace_type_conversion t es
substitute_subexpressions (intrinsic_function f _) es = ok (intrinsic_function f es)
substitute_subexpressions (subscription _ _) es = replace_subscription es
substitute_subexpressions (member_access _ m) es = replace_member_access m es
substitute_subexpressions (construct t _) es = ok (construct t es)
substitute_subexpressions (integer_range _ _ _) es = replace_integer_range es
substitute_subexpressions (compound o _) es = ok (compound o es)
substitute_subexpressions (for_loop o v _ _ _ _) es = replace_for o v es
substitute_subexpressions (if_then _ _) es = replace_if es
substitute_subexpressions (if_else _ _ _) es = replace_if es
substitute_subexpressions (local_variable_def v _) es = replace_local_variable_def v es
substitute_subexpressions (macro ps _) es = replace_macro ps es
substitute_subexpressions (sum vs a _) es = replace_sum vs a es
substitute_subexpressions (delta n _ _) es = replace_delta n es
substitute_subexpressions (double_literal x) es = replace_leaf (double_literal x) es
substitute_subexpressions (float_literal x) es = replace_leaf (float_literal x) es
substitute_subexpressions (integer_literal x) es = replace_leaf (integer_literal x) es
substitute_subexpressions (bool_literal x) es = replace_leaf (bool_literal x) es
substitute_subexpressions (variable_ref v) es = replace_leaf (variable_ref v) es
