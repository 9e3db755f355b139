-- ===== src/Analysis/Affine/Ast.antt =====
-- Expressions of isl's generated syntax trees as expressions of the IR,
-- `convert_isl_ast_expr_to_qir` of qubus/src/affine_constraints.cpp.
use qubus.Base.{ℕ, zero, suc, String, none, some}
use qubus.Base.Int.{ℤ}
use qubus.Base.Results.{Result, ok, fail, exception, undefined_behaviour, ◌>>=◌}
use qubus.Ir.Expressions.{
  Expression, BinaryOpTag, UnaryOpTag, variable_ref, integer_literal, binary_operator,
  unary_operator, intrinsic_function, nil, cons,
}
use qubus.Analysis.Affine.{Name, AffineContext, lookup_variable, get_constant}

-- `isl_ast_op_type`; `op_other` is an operator that the switch does not name.
pub data AstOp : Type 0 where
  op_add op_sub op_mul op_div op_fdiv_q op_pdiv_q op_pdiv_r op_minus op_min op_max op_cond op_select
        op_eq op_le op_lt op_ge op_gt op_and op_or op_other :
      AstOp

mutual
  pub data AstExpr : Type 0 where
    expr_id : Name → AstExpr
    expr_int : ℤ → AstExpr
    expr_op : AstOp → AstExprs → AstExpr
    expr_error : AstExpr

  pub data AstExprs : Type 0 where
    no_args : AstExprs
    and_arg : AstExpr → AstExprs → AstExprs

-- The arguments that an operator looks at; isl has no argument beyond the last.
pub data Converted : Type 0 where
  no_more : Converted
  and_then : Result Expression → Converted → Converted

abbrev pub get_arg : Converted → ℕ → Result Expression
get_arg (and_then e es) zero = e
get_arg (and_then e es) (suc i) = get_arg es i
get_arg no_more i = fail undefined_behaviour

abbrev pub binary_of : BinaryOpTag → Converted → Result Expression
binary_of t es = do lhs ← get_arg es 0; rhs ← get_arg es 1; ok (binary_operator t lhs rhs)

abbrev pub select_of : Converted → Result Expression
select_of es = do
  a ← get_arg es 0
  b ← get_arg es 1
  c ← get_arg es 2
  ok (intrinsic_function "select" (cons a (cons b (cons c nil))))

abbrev pub intrinsic_of : String → Converted → Result Expression
intrinsic_of name es = do
  a ← get_arg es 0
  b ← get_arg es 1
  ok (intrinsic_function name (cons a (cons b nil)))

abbrev pub convert_op : AstOp → Converted → Result Expression
convert_op op_add es = binary_of BinaryOpTag.plus es
convert_op op_sub es = binary_of BinaryOpTag.minus es
convert_op op_mul es = binary_of BinaryOpTag.multiplies es
convert_op op_div es = binary_of BinaryOpTag.divides es
convert_op op_fdiv_q es = binary_of BinaryOpTag.div_floor es
convert_op op_pdiv_q es = binary_of BinaryOpTag.divides es
convert_op op_pdiv_r es = binary_of BinaryOpTag.modulus es
convert_op op_minus es = get_arg es 0 >>= λ a. ok (unary_operator UnaryOpTag.negate a)
convert_op op_min es = intrinsic_of "min" es
convert_op op_max es = intrinsic_of "max" es
convert_op op_cond es = select_of es
convert_op op_select es = select_of es
convert_op op_eq es = binary_of BinaryOpTag.equal_to es
convert_op op_le es = binary_of BinaryOpTag.less_equal es
convert_op op_lt es = binary_of BinaryOpTag.less es
convert_op op_ge es = binary_of BinaryOpTag.greater_equal es
convert_op op_gt es = binary_of BinaryOpTag.greater es
convert_op op_and es = binary_of BinaryOpTag.logical_and es
convert_op op_or es = binary_of BinaryOpTag.logical_or es
convert_op op_other es = fail undefined_behaviour

-- A name is a variable's before it is a constant's.
unfoldable pub convert_name : Name → AffineContext → Result Expression
unfolding lookup_variable get_constant
convert_name name ctx = elim (lookup_variable name ctx) [
  | some v ↦ ok (variable_ref v)
  | none ↦ elim (get_constant name ctx) [ some e ↦ ok e | none ↦ fail exception ]
]

unfoldable mutual
  unfolding convert_name

  pub convert_isl_ast_expr_to_qir : AstExpr → AffineContext → Result Expression
  convert_isl_ast_expr_to_qir (expr_id name) ctx = convert_name name ctx
  convert_isl_ast_expr_to_qir (expr_int z) ctx = ok (integer_literal z)
  convert_isl_ast_expr_to_qir (expr_op t es) ctx = convert_op t (converted es ctx)
  convert_isl_ast_expr_to_qir expr_error ctx = fail undefined_behaviour

  pub converted : AstExprs → AffineContext → Converted
  converted no_args ctx = no_more
  converted (and_arg e es) ctx = and_then (convert_isl_ast_expr_to_qir e ctx) (converted es ctx)
