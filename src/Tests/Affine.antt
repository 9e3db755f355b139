-- ===== src/Tests/Affine.antt =====
-- Extraction, conversion and read-back of qubus/src/affine_constraints.cpp on one expression and
-- one condition.
pub mod SmallIsl
use qubus.Base.{
  ℕ, suc, ◌%◌, ◌==◌, ==_iff, Bool, true, false, not, ◌&&◌, ◌||◌, if◌then◌else◌, Option, none, some,
  List, [], ◌∷◌, ◌≡◌, refl, sym, ap, ◌∙◌, subst, arith, Bool-cases, inl, inr,
}
use mathlib.Core.Path.{ap₂}
use mathlib.Core.Option.{some-injective}
use qubus.Base.Int.{ℤ, pos, negsuc, ◌+ℤ◌, ◌-ℤ◌, ◌*ℤ◌, quot, rem, eqb_ℤ, leb_ℤ}
use qubus.Base.Results.{Result, ok, ◌>>=◌, ok-injective}
use qubus.Ir.Types.{integer}
use qubus.Ir.Expressions.{
  Expression, Variable, BinaryOpTag, UnaryOpTag, same_variable, variable_ref, binary_operator,
  unary_operator, integer_literal,
}
use qubus.Ir.Semantics.{Value, int, truth, Env, eval, apply_binary, apply_unary}
use qubus.Analysis.Affine.{
  Name, variable_name, constant_name, same_name, AffineExpr, affine_variable, affine_constant,
  AffineConstraint, wrapped, AffineContext, try_construct_affine_expr,
  try_extract_affine_constraint,
}
use qubus.Analysis.Affine.Meaning.{affine_value, IsMeaning, IsValuation}
use qubus.Analysis.Affine.Evaluation.{eval-IsMeaning}
use qubus.Analysis.Affine.Numbering.{IsNumbered, IsDeclared}
use qubus.Analysis.Affine.Conversion.{
  convert_to_isl_aff_expr, convert_to_isl_set, construct_corresponding_space,
}
use qubus.Analysis.Affine.Exactness.{at_point}
use qubus.Analysis.Affine.Ast.{convert_isl_ast_expr_to_qir}
use qubus.Analysis.Affine.ReadBack.{tree_of}
use qubus.Analysis.Affine.Conditions.{
  function_of_expression, convert_isl_ast_expr_to_qir-tree_of, region_of_condition,
  try_construct_affine_expr-IsNumbered, convert_to_isl_set-greater,
}
use qubus.Analysis.Affine.Isl.{DimType, param, set_dim, same_dim, Point, Isl, Reading, Lawful}
use qubus.Tests.Affine.SmallIsl.{
  Function, varying, value_at, remainder, small_isl, small_reading, small_isl-Lawful,
}

abbrev pub i : Variable
i = record { id = 0; var_type = integer }

abbrev pub n : Variable
n = record { id = 1; var_type = integer }

-- Only `n` is invariant.
abbrev pub checker : Expression → Result Bool
checker (variable_ref v) = ok (v.id == 1)
checker _ = ok false

abbrev pub empty_context : AffineContext
empty_context = record {
  invariant_checker = checker;
  free_variable_id = 0;
  variable_table = [];
  free_constant_id = 0;
  constant_table = [];
}

abbrev pub full_context : AffineContext
full_context = record {
  invariant_checker = checker;
  free_variable_id = 1;
  variable_table = (i, variable_name 0) ∷ [];
  free_constant_id = 1;
  constant_table = (variable_ref n, constant_name 0) ∷ [];
}

pub empty_context-IsNumbered : IsNumbered empty_context
empty_context-IsNumbered = record {
  variables_counted = refl;
  constants_counted = refl;
  variables_numbered = tt;
  constants_numbered = tt;
}

pub full_context-IsNumbered : IsNumbered full_context
full_context-IsNumbered = record {
  variables_counted = refl;
  constants_counted = refl;
  variables_numbered = (refl, tt);
  constants_numbered = (refl, tt);
}

abbrev pub never : ℕ → ℕ → Bool
never x y = false

abbrev pub env : Env
env v = ok (int (if v.id == 0 then pos 3 else pos 4))

env_by_identity : (v w : Variable) → same_variable v w ≡ true → env v ≡ env w
env_by_identity v w h =
    ap (λ k. ok (int (if k == 0 then pos 3 else pos 4))) ((==_iff v.id w.id).0 h)

abbrev pub floor : ℤ → ℤ → Result ℤ
floor x y = ok x

abbrev meaning : Expression → Result Value
meaning e = eval floor env e

pub env-IsMeaning : IsMeaning never never floor (eval floor env)
env-IsMeaning = eval-IsMeaning never never floor env env_by_identity

-- Where i is 3 and n is 4.
abbrev pub here : Point
here set_dim k = pos 3
here param k = pos 4

-- (2 * i + n) % 3.
abbrev element : Expression
element =
    binary_operator BinaryOpTag.modulus
      (binary_operator BinaryOpTag.plus
        (binary_operator BinaryOpTag.multiplies (integer_literal (pos 2)) (variable_ref i))
        (variable_ref n))
      (integer_literal (pos 3))

abbrev affine_element : AffineExpr
affine_element =
    AffineExpr.binary_operator BinaryOpTag.modulus
      (AffineExpr.binary_operator BinaryOpTag.plus
        (AffineExpr.binary_operator BinaryOpTag.multiplies (AffineExpr.integer_literal (pos 2))
          (affine_variable (variable_name 0)))
        (affine_constant (constant_name 0)))
      (AffineExpr.integer_literal (pos 3))

-- i <= n && !(i == n).
abbrev condition : Expression
condition =
    binary_operator BinaryOpTag.logical_and
      (binary_operator BinaryOpTag.less_equal (variable_ref i) (variable_ref n))
      (unary_operator UnaryOpTag.logical_not
        (binary_operator BinaryOpTag.equal_to (variable_ref i) (variable_ref n)))

abbrev wrapped_i : AffineConstraint
wrapped_i = wrapped (affine_variable (variable_name 0))

abbrev wrapped_n : AffineConstraint
wrapped_n = wrapped (affine_constant (constant_name 0))

abbrev affine_condition : AffineConstraint
affine_condition =
    AffineConstraint.binary_operator BinaryOpTag.logical_and
      (AffineConstraint.binary_operator BinaryOpTag.less_equal wrapped_i wrapped_n)
      (AffineConstraint.unary_operator UnaryOpTag.logical_not
        (AffineConstraint.binary_operator BinaryOpTag.equal_to wrapped_i wrapped_n))

abbrev element_function : Function
element_function = varying (λ p. remainder (pos 2 *ℤ p set_dim 0 +ℤ (p param 0 +ℤ pos 0)) (pos 3))

abbrev condition_region : Point → Bool
condition_region p =
    leb_ℤ (pos 0) (pos 0 -ℤ (p set_dim 0 -ℤ (p param 0 +ℤ pos 0)))
    && not (eqb_ℤ (p set_dim 0 -ℤ (p param 0 +ℤ pos 0)) (pos 0))

element_extracted :
    try_construct_affine_expr never never element empty_context
    ≡ ok (some affine_element, full_context)
unfolding try_construct_affine_expr
element_extracted = refl

element_means : eval floor env element ≡ ok (int (pos 1))
unfolding eval apply_binary ◌*ℤ◌ ◌+ℤ◌ quot rem
element_means = refl

pub names_valid : IsValuation (eval floor env) (at_point here) full_context
unfolding eval
names_valid = ((λ z h. ap int_or (ok-injective h), tt), (λ z h. ap int_or (ok-injective h), tt))
  where
    int_or : Value → ℤ
    int_or (int z) = z
    int_or (truth b) = pos 0

function_of_expression_example : some (value_at element_function here) ≡ some (pos 1)
unfolding try_construct_affine_expr convert_to_isl_aff_expr construct_corresponding_space
    affine_value eval apply_binary ◌*ℤ◌ ◌+ℤ◌
function_of_expression_example =
    function_of_expression env-IsMeaning small_isl-Lawful element empty_context full_context
      affine_element element_function here (pos 1) empty_context-IsNumbered element_extracted refl
      names_valid (((tt, tt, refl), tt), (10, refl), tt) element_means

convert_isl_ast_expr_to_qir-tree_of_example :
    (convert_isl_ast_expr_to_qir (tree_of affine_element) full_context >>= eval floor env)
    ≡ ok (int (pos 1))
convert_isl_ast_expr_to_qir-tree_of_example =
    convert_isl_ast_expr_to_qir-tree_of env-IsMeaning element empty_context full_context
      affine_element (pos 1) empty_context-IsNumbered element_extracted element_means

region_of_condition_example : condition_region here ≡ true
unfolding try_extract_affine_constraint convert_to_isl_set construct_corresponding_space eval
    apply_binary apply_unary
region_of_condition_example =
    region_of_condition env-IsMeaning small_isl-Lawful condition empty_context full_context
      affine_condition condition_region here true empty_context-IsNumbered refl refl names_valid
      ((tt, tt), (tt, tt)) refl

-- At n = i + 1, where `i > n` is false.
abbrev greater_region : Point → Bool
greater_region p = leb_ℤ (pos 0) (p set_dim 0 -ℤ (p param 0 +ℤ pos 0) +ℤ pos 1)
