-- ===== src/Tests/Conversions.antt =====
-- Explicit conversions of 2 + 1.5, whose second operand is a double.
use qubus.Base.{◌≡◌, refl, arith}
use qubus.Base.Int.{pos}
use qubus.Base.Results.{ok, IsFueled}
use qubus.Ir.Types.{double, type_eq}
use qubus.Ir.Expressions.{
  Expression, BinaryOpTag, double_literal, integer_literal, binary_operator, type_conversion,
}
use qubus.Ir.Expressions.Children.{sub_expressions, substitute_subexpressions}
use qubus.Ir.Expressions.Depth.{depth}
use qubus.Ir.Inference.{typeof_, is_comparison}
use qubus.Ir.Inference.CommonType.{common_type}
use qubus.Ir.Folding.{transform_all}
use qubus.Ir.Conversions.{substitute, convert, convert_operands, make_implicit_conversions_explicit}
use qubus.Ir.Conversions.Typing.{make_implicit_conversions_explicit_keeps_type}
use qubus.Ir.Conversions.Explicit.{IsExplicit, make_implicit_conversions_explicit-IsExplicit}
use qubus.Ir.Conversions.Termination.{make_implicit_conversions_explicit-IsFueled}

abbrev mixed : Expression
mixed = binary_operator BinaryOpTag.plus (integer_literal (pos 2)) (double_literal 15)

abbrev converted : Expression
converted =
    binary_operator BinaryOpTag.plus (type_conversion double (integer_literal (pos 2)))
      (double_literal 15)

mixed_is_converted : make_implicit_conversions_explicit 5 mixed ≡ ok converted
unfolding make_implicit_conversions_explicit substitute convert_operands convert transform_all
    sub_expressions substitute_subexpressions typeof_ is_comparison common_type type_eq
mixed_is_converted = refl

mixed_is_double : typeof_ mixed ≡ ok double
unfolding typeof_ is_comparison common_type
mixed_is_double = refl

make_implicit_conversions_explicit_keeps_type_example : typeof_ converted ≡ ok double
make_implicit_conversions_explicit_keeps_type_example =
    make_implicit_conversions_explicit_keeps_type 5 mixed converted double mixed_is_converted
      mixed_is_double

make_implicit_conversions_explicit-IsExplicit_example : IsExplicit converted
make_implicit_conversions_explicit-IsExplicit_example =
    make_implicit_conversions_explicit-IsExplicit 5 mixed converted mixed_is_converted

make_implicit_conversions_explicit-IsFueled_example :
    IsFueled (make_implicit_conversions_explicit 5 mixed)
unfolding depth
make_implicit_conversions_explicit-IsFueled_example =
    make_implicit_conversions_explicit-IsFueled 5 mixed (omega arith)
