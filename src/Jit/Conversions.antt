-- ===== src/Jit/Conversions.antt =====
-- The instructions of a conversion between types: qubus/src/jit/type_conversion.cpp.
pub mod Widening
pub mod Parts
use qubus.Base.Results.{Result, ok, fail, exception, ◌>>=◌}
use qubus.Ir.Types.{IrType, double, float, integer, complex}
use qubus.Jit.Builder.{Builder}
use qubus.Jit.Operators.{Emitted, computed, real, imag}

module _ (b : Builder) where
  -- A complex number of the type, with the real part and no imaginary part.
  abbrev pub embed : IrType → b.V → b.V
  embed target_type r = b.insert_value (b.zero_of target_type) r 0

  -- Each matches the target type.
  abbrev pub from_double : IrType → b.V → Result b.V
  from_double (complex double) v = ok (embed (complex double) v)
  from_double double v = ok v
  from_double _ v = fail exception

  abbrev pub from_float : IrType → b.V → Result b.V
  from_float (complex double) v = ok (embed (complex double) (b.fp_ext double v))
  from_float (complex float) v = ok (embed (complex float) v)
  from_float double v = ok (b.fp_ext double v)
  from_float float v = ok v
  from_float _ v = fail exception

  abbrev pub from_integer : IrType → b.V → Result b.V
  from_integer (complex t) v = ok (embed (complex t) (b.si_to_fp t v))
  from_integer float v = ok (b.si_to_fp float v)
  from_integer double v = ok (b.si_to_fp double v)
  from_integer integer v = ok v
  from_integer _ v = fail exception

  abbrev pub from_complex_float : IrType → b.V → Result b.V
  from_complex_float (complex double) v = ok (
      b.insert_value (b.insert_value (b.undef_of (complex double)) (b.fp_ext double (real b v)) 0)
        (b.fp_ext double (imag b v)) 1)
  from_complex_float (complex float) v = ok v
  from_complex_float _ v = fail exception

  abbrev pub from_complex_double : IrType → b.V → Result b.V
  from_complex_double (complex double) v = ok v
  from_complex_double _ v = fail exception

  abbrev pub converted : IrType → IrType → b.V → Result b.V
  converted double target_type v = from_double target_type v
  converted float target_type v = from_float target_type v
  converted integer target_type v = from_integer target_type v
  converted (complex float) target_type v = from_complex_float target_type v
  converted (complex double) target_type v = from_complex_double target_type v
  converted _ target_type v = fail exception

  -- The type of the argument is matched, then the target type; what has no case is an exception.
  unfoldable pub emit_type_conversion : IrType → IrType → b.V → Result (Emitted b)
  emit_type_conversion target_type arg_type v =
      converted arg_type target_type v >>= λ w. ok (computed w target_type)
