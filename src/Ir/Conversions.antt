-- ===== src/Ir/Conversions.antt =====
-- Conversions made explicit: qubus/src/make_implicit_conversions_explicit.cpp, by the substitution of
-- qubus/include/qubus/pattern/substitute.hpp.
pub mod Operands
pub mod Typing
pub mod Explicit
pub mod Termination
use qubus.Base.{ℕ, zero, suc, Bool, true, false, if◌then◌else◌, Option, none, some}
use qubus.Base.Results.{Result, ok, fail, out_of_fuel, ◌>>=◌}
use qubus.Ir.Types.{IrType, type_eq}
use qubus.Ir.Expressions.{Expression, Expressions, binary_operator, unary_operator, type_conversion}
use qubus.Ir.Expressions.Children.{sub_expressions, substitute_subexpressions}
use qubus.Ir.Inference.{typeof_, is_comparison}
use qubus.Ir.Folding.{transform_all}

-- The matched expression in place of the given one.
abbrev pub or_self : Expression → Option Expression → Expression
or_self e none = e
or_self e (some e') = e'

-- `pattern::substitute`: the replacement is searched in its turn, from its children on. The fuel
-- bounds the depth.
unfoldable pub substitute :
    (Expression → Result (Option Expression)) → ℕ → Expression → Result Expression
unfolding transform_all sub_expressions substitute_subexpressions
substitute matcher zero e = fail out_of_fuel
substitute matcher (suc fuel) e = do
  matched ← matcher e
  let new_expr = or_self e matched
  transformed ← transform_all (substitute matcher fuel) (sub_expressions new_expr)
  substitute_subexpressions new_expr transformed

-- The operand, converted unless it has the type.
unfoldable pub convert : IrType → IrType → Expression → Expression
unfolding type_eq
convert result_type own_type e =
    if type_eq own_type result_type then e else type_conversion result_type e

-- The matcher.
unfoldable pub convert_operands : Expression → Result (Option Expression)
unfolding convert typeof_ is_comparison
convert_operands (binary_operator t l r) =
    let converted = (do
      result_type ← typeof_ (binary_operator t l r)
      lhs_type ← typeof_ l
      rhs_type ← typeof_ r
      ok (
          some (
            binary_operator t (convert result_type lhs_type l)
              (convert result_type rhs_type r)))) in
    if is_comparison t then ok (some (binary_operator t l r)) else converted
convert_operands (unary_operator t e) = do
  result_type ← typeof_ (unary_operator t e)
  arg_type ← typeof_ e
  ok (some (unary_operator t (convert result_type arg_type e)))
convert_operands _ = ok none

unfoldable pub make_implicit_conversions_explicit : ℕ → Expression → Result Expression
unfolding substitute convert_operands
make_implicit_conversions_explicit fuel e = substitute convert_operands fuel e
