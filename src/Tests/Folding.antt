-- ===== src/Tests/Folding.antt =====
-- Folding of concrete expressions.
use qubus.Base.{◌≡◌, refl, ◌↔◌, arith}
use qubus.Base.Int.{pos, negsuc, quot, rem, ◌+ℤ◌, ◌-ℤ◌}
use qubus.Base.Results.{ok, fail, undefined_behaviour}
use qubus.Ir.Types.{integer, array, value_type}
use qubus.Ir.Inference.{typeof_, sliced_rank}
use qubus.Ir.Inference.CommonType.{common_type}
use qubus.Ir.Expressions.{
  Expression, BinaryOpTag, integer_literal, variable_ref, binary_operator, subscription, nil, cons,
}
use qubus.Ir.Expressions.Children.{sub_expressions, substitute_subexpressions}
use qubus.Ir.Expressions.Rebuilding.{IsRebuilt, substitute_subexpressions-sub_expressions_iff}
use qubus.Ir.Semantics.{Env, int}
use qubus.Ir.Folding.{fold_constant_expressions, fold_div_floor}
use qubus.Ir.Folding.Soundness.{meaning, fold_meaning}
use qubus.Ir.Folding.Shape.{Folds, fold-Folds}
use qubus.Ir.Folding.DivFloor.{IsRoundedDown, IsSafeDividend, div_floor-IsRoundedDown_iff}

abbrev seven : Expression
seven = binary_operator BinaryOpTag.plus (integer_literal (pos 3)) (integer_literal (pos 4))

abbrev x : Expression
x = variable_ref (record { id = 0; var_type = integer })

abbrev product : Expression
product = binary_operator BinaryOpTag.multiplies seven x

abbrev folded_product : Expression
folded_product = binary_operator BinaryOpTag.multiplies (integer_literal (pos 7)) x

abbrev two : Env
two v = ok (int (pos 2))

product_folds : fold_constant_expressions 3 product ≡ ok folded_product
unfolding fold_constant_expressions ◌+ℤ◌ typeof_ common_type
product_folds = refl

-- A division by zero is carried out by the compiler.
division_fails :
    fold_constant_expressions 2
      (binary_operator BinaryOpTag.divides (integer_literal (pos 3)) (integer_literal (pos 0)))
    ≡ fail undefined_behaviour
unfolding fold_constant_expressions typeof_ common_type
division_fails = refl

fold_meaning_example : meaning two folded_product ≡ meaning two product
fold_meaning_example = fold_meaning two 3 product folded_product product_folds

-- v(3 + 4) * (3 + 4), where v has numbers.
abbrev numbers : Expression
numbers = variable_ref (record { id = 1; var_type = array integer 1 })

abbrev scaled : Expression
scaled = binary_operator BinaryOpTag.multiplies (subscription numbers (cons seven nil)) seven

abbrev folded_scaled : Expression
folded_scaled =
    binary_operator BinaryOpTag.multiplies
      (subscription numbers (cons (integer_literal (pos 7)) nil)) (integer_literal (pos 7))

scaled_folds : fold_constant_expressions 4 scaled ≡ ok folded_scaled
unfolding fold_constant_expressions ◌+ℤ◌ typeof_ common_type value_type sliced_rank
scaled_folds = refl

fold-Folds_example : Folds scaled folded_scaled
fold-Folds_example = fold-Folds 4 scaled folded_scaled scaled_folds

-- -7 divided by 2, rounded down, is -4; the folding gives -3.
seven_halves : fold_div_floor (negsuc 6) (pos 2) ≡ ok (negsuc 2)
unfolding fold_div_floor quot rem ◌-ℤ◌
seven_halves = refl

div_floor-IsRoundedDown_iff_example :
    (IsRoundedDown (negsuc 2) (negsuc 6) 2) ↔ (IsSafeDividend (negsuc 6) 2)
div_floor-IsRoundedDown_iff_example =
    div_floor-IsRoundedDown_iff (negsuc 6) 2 (negsuc 2) (omega arith) seven_halves

abbrev element : Expression
element = subscription x (cons seven nil)

substitute_subexpressions-sub_expressions_iff_example :
    (substitute_subexpressions element (sub_expressions element) ≡ ok element) ↔ IsRebuilt element
substitute_subexpressions-sub_expressions_iff_example =
    substitute_subexpressions-sub_expressions_iff element
