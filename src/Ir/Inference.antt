-- ===== src/Ir/Inference.antt =====
-- Type inference: qubus/src/IR/type_inference.cpp. The annotation that `typeof_` caches a type in
-- is left out: it always holds the type that is inferred again here.
pub mod CommonType
pub mod Intrinsics
pub mod Totality
use qubus.Base.{ℕ, suc, ◌-◌, Bool, true, false, List, [], ◌∷◌, ltb, if◌then◌else◌, String}
use qubus.Base.Results.{Result, ok, fail, exception, ◌>>=◌}
use qubus.Ir.Types.{
  IrType, Members, unknown, double, float, integer, bool, integer_range, array_slice, struct,
  type_eq, value_type, member_type,
}
use qubus.Ir.Expressions.{
  Expression, Expressions, BinaryOpTag, double_literal, float_literal, integer_literal,
  bool_literal, variable_ref, binary_operator, unary_operator, type_conversion, intrinsic_function,
  subscription, member_access, construct, integer_range as range_expr, compound, for_loop, if_then,
  if_else, local_variable_def, nil, cons, equal_to, less_equal, less, greater_equal, greater,
}
use qubus.Ir.Expressions.Children.{count}
use qubus.Ir.Inference.CommonType.{common_type}
use qubus.Ir.Inference.Intrinsics.{lookup_intrinsic_result_type}

-- The comparisons that `infer_type_binary_op_expr` gives the type bool.
unfoldable pub is_comparison : BinaryOpTag → Bool
is_comparison equal_to = true
is_comparison less_equal = true
is_comparison less = true
is_comparison greater_equal = true
is_comparison greater = true
is_comparison _ = false

-- `--rank` for each index of type integer.
unfoldable pub sliced_rank : ℕ → List IrType → ℕ
sliced_rank rank [] = rank
sliced_rank rank (t ∷ ts) = sliced_rank (if type_eq t integer then rank - 1 else rank) ts

unfoldable pub type_of_struct : IrType → Result Members
type_of_struct (struct id ms) = ok ms
type_of_struct _ = fail exception

unfoldable mutual
  unfolding is_comparison

  pub typeof_ : Expression → Result IrType
  typeof_ (binary_operator t l r) =
      let operands = (typeof_ l >>= λ a. typeof_ r >>= λ b. common_type a b) in
      if is_comparison t then ok bool else operands
  typeof_ (unary_operator t e) = typeof_ e
  typeof_ (for_loop o v l u i b) = ok unknown
  typeof_ (if_then c t) = ok unknown
  typeof_ (if_else c t f) = ok unknown
  typeof_ (subscription e es) = do
    tensor_type ← typeof_ e
    val_type ← value_type tensor_type
    index_types ← typeof_all es
    let rank = sliced_rank (count es) index_types
    if ltb 0 rank then ok (array_slice val_type rank) else ok val_type
  typeof_ (type_conversion t e) = ok t
  typeof_ (double_literal x) = ok double
  typeof_ (float_literal x) = ok float
  typeof_ (integer_literal x) = ok integer
  typeof_ (bool_literal x) = ok bool
  typeof_ (intrinsic_function f es) = do
    arg_types ← typeof_all es
    lookup_intrinsic_result_type f arg_types
  typeof_ (compound o es) = ok unknown
  typeof_ (variable_ref v) = ok v.var_type
  typeof_ (local_variable_def v e) = ok unknown
  typeof_ (construct t es) = ok t
  typeof_ (member_access e m) = do
    obj_type ← typeof_ e
    members ← type_of_struct obj_type
    member_type members m
  typeof_ (range_expr b e s) = ok integer_range
  typeof_ _ = fail exception

  pub typeof_all : Expressions → Result (List IrType)
  typeof_all nil = ok []
  typeof_all (cons e es) = do t ← typeof_ e; ts ← typeof_all es; ok (t ∷ ts)
