-- ===== src/Jit/Operators.antt =====
-- The instructions of an operator: qubus/src/jit/operators.cpp, on the loaded operands.
pub mod Refinement
use qubus.Base.{ℕ, true, false}
use qubus.Base.Int.{pos}
use qubus.Base.Results.{Result, ok, fail, exception, ◌>>=◌}
use qubus.Ir.Types.{IrType, double, float, integer, bool, complex}
use qubus.Ir.Expressions.{BinaryOpTag, UnaryOpTag}
use qubus.Jit.Builder.{Builder}

module _ (b : Builder) where
  -- What is stored through the reference of the left operand, or in a variable of a type for the
  -- result.
  pub data Emitted : Type 0 where
    stored : b.V → Emitted
    computed : b.V → IrType → Emitted

  abbrev pub real : b.V → b.V
  real v = b.extract_value v 0

  abbrev pub imag : b.V → b.V
  imag v = b.extract_value v 1

  abbrev complex_of : b.V → b.V → b.V → b.V
  complex_of like r i = b.insert_value (b.insert_value (b.undef_like like) r 0) i 1

  abbrev pub complex_add : b.V → b.V → b.V
  complex_add l r = complex_of l (b.f_add (real l) (real r)) (b.f_add (imag l) (imag r))

  abbrev pub complex_sub : b.V → b.V → b.V
  complex_sub l r = complex_of l (b.f_sub (real l) (real r)) (b.f_sub (imag l) (imag r))

  abbrev pub complex_mul : b.V → b.V → b.V
  complex_mul l r =
      complex_of l (b.f_sub (b.f_mul (real l) (real r)) (b.f_mul (imag l) (imag r)))
        (b.f_add (b.f_mul (real l) (imag r)) (b.f_mul (imag l) (real r)))

  abbrev norm : b.V → b.V
  norm r = b.f_add (b.f_mul (real r) (real r)) (b.f_mul (imag r) (imag r))

  abbrev pub complex_div : b.V → b.V → b.V
  complex_div l r =
      complex_of l
        (b.f_div (b.f_add (b.f_mul (real l) (real r)) (b.f_mul (imag l) (imag r))) (norm r))
        (b.f_div (b.f_sub (b.f_mul (imag l) (real r)) (b.f_mul (real l) (imag r))) (norm r))

  -- Each matches the type of the left operand; a type that has no case is an exception.
  abbrev pub emit_plus_assign : IrType → b.V → b.V → Result b.V
  emit_plus_assign float l r = ok (b.f_add l r)
  emit_plus_assign double l r = ok (b.f_add l r)
  emit_plus_assign integer l r = ok (b.add false false l r)
  emit_plus_assign (complex t) l r = ok (complex_add l r)
  emit_plus_assign _ l r = fail exception

  abbrev pub emit_plus : IrType → b.V → b.V → Result b.V
  emit_plus float l r = ok (b.f_add l r)
  emit_plus double l r = ok (b.f_add l r)
  emit_plus integer l r = ok (b.add true true l r)
  emit_plus (complex t) l r = ok (complex_add l r)
  emit_plus _ l r = fail exception

  abbrev pub emit_minus : IrType → b.V → b.V → Result b.V
  emit_minus float l r = ok (b.f_sub l r)
  emit_minus double l r = ok (b.f_sub l r)
  emit_minus integer l r = ok (b.sub true true l r)
  emit_minus (complex t) l r = ok (complex_sub l r)
  emit_minus _ l r = fail exception

  abbrev pub emit_multiplies : IrType → b.V → b.V → Result b.V
  emit_multiplies float l r = ok (b.f_mul l r)
  emit_multiplies double l r = ok (b.f_mul l r)
  emit_multiplies integer l r = ok (b.mul true true l r)
  emit_multiplies (complex t) l r = ok (complex_mul l r)
  emit_multiplies _ l r = fail exception

  abbrev pub emit_divides : IrType → b.V → b.V → Result b.V
  emit_divides float l r = ok (b.f_div l r)
  emit_divides double l r = ok (b.f_div l r)
  emit_divides integer l r = ok (b.s_div l r)
  emit_divides (complex t) l r = ok (complex_div l r)
  emit_divides _ l r = fail exception

  abbrev pub emit_modulus : IrType → b.V → b.V → Result b.V
  emit_modulus float l r = ok (b.f_rem l r)
  emit_modulus double l r = ok (b.f_rem l r)
  emit_modulus integer l r = ok (b.s_rem l r)
  emit_modulus _ l r = fail exception

  abbrev pub floor_of : b.V → b.V → b.V
  floor_of quotient remainder =
      b.select
        (b.bit_or (b.icmp_eq remainder (b.const_int (pos 0))) (
          b.icmp_eq (b.icmp_slt remainder (b.const_int (pos 0)))
            (b.icmp_slt quotient (b.const_int (pos 0)))))
        quotient (b.sub false false quotient (b.const_int (pos 1)))

  abbrev pub emit_div_floor : IrType → b.V → b.V → Result b.V
  emit_div_floor integer l r = ok (floor_of (b.s_div l r) (b.s_rem l r))
  emit_div_floor _ l r = fail exception

  abbrev pub on_integer_or_bool : IrType → b.V → Result b.V
  on_integer_or_bool integer v = ok v
  on_integer_or_bool bool v = ok v
  on_integer_or_bool _ v = fail exception

  abbrev pub on_bool : IrType → b.V → Result b.V
  on_bool bool v = ok v
  on_bool _ v = fail exception

  abbrev pub emit_value : BinaryOpTag → IrType → b.V → b.V → Result b.V
  emit_value BinaryOpTag.plus t l r = emit_plus t l r
  emit_value BinaryOpTag.minus t l r = emit_minus t l r
  emit_value BinaryOpTag.multiplies t l r = emit_multiplies t l r
  emit_value BinaryOpTag.divides t l r = emit_divides t l r
  emit_value BinaryOpTag.modulus t l r = emit_modulus t l r
  emit_value BinaryOpTag.div_floor t l r = emit_div_floor t l r
  emit_value BinaryOpTag.equal_to t l r = on_integer_or_bool t (b.icmp_eq l r)
  emit_value BinaryOpTag.less t l r = on_integer_or_bool t (b.icmp_slt l r)
  emit_value BinaryOpTag.less_equal t l r = on_integer_or_bool t (b.icmp_sle l r)
  emit_value BinaryOpTag.greater t l r = on_integer_or_bool t (b.icmp_sgt l r)
  emit_value BinaryOpTag.greater_equal t l r = on_integer_or_bool t (b.icmp_sge l r)
  emit_value BinaryOpTag.logical_and t l r = on_bool t (b.bit_and l r)
  emit_value BinaryOpTag.logical_or t l r = on_bool t (b.bit_or l r)
  emit_value _ t l r = fail exception

  -- The variable of the result has the type of the left operand, whatever the operator is.
  unfoldable pub emit_binary_operator : BinaryOpTag → IrType → b.V → b.V → Result Emitted
  emit_binary_operator BinaryOpTag.assign t l r = ok (stored r)
  emit_binary_operator BinaryOpTag.plus_assign t l r = emit_plus_assign t l r >>= λ v. ok (stored v)
  emit_binary_operator tag t l r = emit_value tag t l r >>= λ v. ok (computed v t)

  abbrev pub emit_negate : IrType → b.V → Result b.V
  emit_negate float v = ok (b.f_neg v)
  emit_negate double v = ok (b.f_neg v)
  emit_negate integer v = ok (b.neg v)
  emit_negate (complex t) v = ok (complex_of v (b.f_neg (real v)) (b.f_neg (imag v)))
  emit_negate _ v = fail exception

  unfoldable pub emit_unary_operator : UnaryOpTag → IrType → b.V → Result Emitted
  emit_unary_operator UnaryOpTag.negate t v = emit_negate t v >>= λ w. ok (computed w t)
  emit_unary_operator UnaryOpTag.plus t v = ok (computed v t)
  emit_unary_operator _ t v = fail exception
