-- ===== src/Analysis/Affine/Conversion.antt =====
-- Affine expressions and constraints as affine functions and sets of isl,
-- qubus/src/affine_constraints.cpp.
use qubus.Base.{ℕ, suc, if◌then◌else◌, none, some, List, [], ◌∷◌, length}
use qubus.Base.Int.{pos}
use qubus.Base.Results.{Result, ok, fail, exception, undefined_behaviour, ◌>>=◌}
use qubus.Ir.Expressions.{BinaryOpTag, UnaryOpTag}
use qubus.Analysis.Affine.{
  Name, AffineExpr, affine_variable, affine_constant, integer_literal, AffineConstraint, wrapped,
  AffineContext,
}
use qubus.Analysis.Affine.Isl.{DimType, param, set_dim, Isl}

module _ (isl : Isl) where
  -- A dimension of the space by its name; the assertion is that there is one.
  abbrev pub named_dim : isl.Space → DimType → Name → Result isl.Aff
  named_dim s t n = elim (isl.find_dim_by_name s t n) [
    | some k ↦ ok (isl.dimension s t k)
    | none ↦ fail undefined_behaviour
  ]

  abbrev pub convert_binary : BinaryOpTag → isl.Aff → isl.Aff → Result isl.Aff
  convert_binary BinaryOpTag.plus l r = ok (isl.add l r)
  convert_binary BinaryOpTag.minus l r = ok (isl.sub l r)
  convert_binary BinaryOpTag.multiplies l r = ok (isl.mul l r)
  convert_binary BinaryOpTag.divides l r = ok (isl.div l r)
  convert_binary BinaryOpTag.modulus l r =
      if isl.is_cst r then ok (isl.mod_val l (isl.constant_value r)) else fail undefined_behaviour
  convert_binary _ l r = fail undefined_behaviour

  abbrev pub convert_unary : UnaryOpTag → isl.Aff → Result isl.Aff
  convert_unary UnaryOpTag.plus a = ok a
  convert_unary UnaryOpTag.negate a = ok (isl.neg a)
  convert_unary _ a = fail undefined_behaviour

  unfoldable pub convert_to_isl_aff_expr : AffineExpr → isl.Space → Result isl.Aff
  convert_to_isl_aff_expr (AffineExpr.binary_operator t l r) s = do
    lhs ← convert_to_isl_aff_expr l s
    rhs ← convert_to_isl_aff_expr r s
    convert_binary t lhs rhs
  convert_to_isl_aff_expr (AffineExpr.unary_operator t e) s = do
    arg ← convert_to_isl_aff_expr e s
    convert_unary t arg
  convert_to_isl_aff_expr (integer_literal z) s = ok (isl.literal s z)
  convert_to_isl_aff_expr (affine_constant n) s = named_dim s param n
  convert_to_isl_aff_expr (affine_variable n) s = named_dim s set_dim n

  abbrev one_equality : isl.Space → isl.Aff → isl.Region
  one_equality s a = isl.add_equality (isl.universe s) a

  abbrev one_inequality : isl.Space → isl.Aff → isl.Region
  one_inequality s a = isl.add_inequality (isl.universe s) a

  -- The set of a comparison; any other operator on two wrapped expressions is not matched.
  abbrev pub compare_region : BinaryOpTag → isl.Space → isl.Aff → isl.Aff → Result isl.Region
  compare_region BinaryOpTag.equal_to s l r = ok (one_equality s (isl.sub l r))
  compare_region BinaryOpTag.not_equal_to s l r = ok (isl.complement (one_equality s (isl.sub l r)))
  compare_region BinaryOpTag.less s l r =
      ok (one_inequality s (isl.neg (isl.add_constant (isl.sub l r) (pos 1))))
  compare_region BinaryOpTag.greater s l r =
      ok (one_inequality s (isl.add_constant (isl.sub l r) (pos 1)))
  compare_region BinaryOpTag.less_equal s l r = ok (one_inequality s (isl.neg (isl.sub l r)))
  compare_region BinaryOpTag.greater_equal s l r = ok (one_inequality s (isl.sub l r))
  compare_region _ s l r = fail exception

  abbrev pub connect_regions : BinaryOpTag → isl.Region → isl.Region → Result isl.Region
  connect_regions BinaryOpTag.logical_and l r = ok (isl.intersect l r)
  connect_regions BinaryOpTag.logical_or l r = ok (isl.union_ l r)
  connect_regions _ l r = fail exception

  unfoldable pub convert_to_isl_set : AffineConstraint → isl.Space → Result isl.Region
  unfolding convert_to_isl_aff_expr
  convert_to_isl_set (AffineConstraint.binary_operator t (wrapped l) (wrapped r)) s = do
    lhs ← convert_to_isl_aff_expr l s
    rhs ← convert_to_isl_aff_expr r s
    compare_region t s lhs rhs
  convert_to_isl_set (AffineConstraint.binary_operator t l r) s = do
    lhs ← convert_to_isl_set l s
    rhs ← convert_to_isl_set r s
    connect_regions t lhs rhs
  convert_to_isl_set (AffineConstraint.unary_operator UnaryOpTag.logical_not c) s = do
    arg ← convert_to_isl_set c s
    ok (isl.complement arg)
  convert_to_isl_set c s = fail exception

  -- The loop over a table, from a position on.
  unfoldable pub name_dims {ℓ} :
      {A : Type ℓ} → DimType → ℕ → List (A × Name) → isl.Space → isl.Space
  name_dims t k [] s = s
  name_dims t k ((a, n) ∷ table) s = name_dims t (suc k) table (isl.set_dim_name s t k n)

  unfoldable pub construct_corresponding_space : AffineContext → isl.Space
  unfolding name_dims
  construct_corresponding_space ctx = name_dims set_dim 0 ctx.variable_table (
      name_dims param 0 ctx.constant_table
        (isl.new_space (length ctx.constant_table) (length ctx.variable_table)))
