-- ===== src/Jit/Conversions/Widening.antt =====
-- The conversions of qubus/src/jit/type_conversion.cpp, against those that the expressions of the IR
-- are given.
use qubus.Base.{◌≡◌, false, subst}
use qubus.Base.Results.{Result, ok, fail, ok-injective}
use qubus.Ir.Types.{IrType, double, float, integer, complex}
use qubus.Ir.Expressions.{Expression, BinaryOpTag, binary_operator}
use qubus.Ir.Inference.{typeof_, is_comparison}
use qubus.Ir.Inference.CommonType.{common_type}
use qubus.Jit.Builder.{Builder}
use qubus.Jit.Conversions.{emit_type_conversion}

-- The numbers that the instructions know.
pub data Number : Type 0 where
  an_integer a_float a_double a_complex_float a_complex_double : Number

abbrev pub number_type : Number → IrType
number_type Number.an_integer = integer
number_type Number.a_float = float
number_type Number.a_double = double
number_type Number.a_complex_float = complex float
number_type Number.a_complex_double = complex double

abbrev pub IsEmitted {ℓ} : {A : Type ℓ} → Result A → Type 0
IsEmitted (ok v) = Unit
IsEmitted (fail e) = ⊥

module _ (b : Builder) where
  -- What both conversions to a type are.
  abbrev BothEmitted : IrType → IrType → b.V → b.V → IrType → Type 0
  BothEmitted s t v w u =
      IsEmitted (emit_type_conversion b u s v) × IsEmitted (emit_type_conversion b u t w)

  moved :
      (s t : IrType) (v w : b.V) {u u' : IrType}
      → ok u' ≡ ok u
      → BothEmitted s t v w u'
      → BothEmitted s t v w u
  moved s t v w h = subst (BothEmitted s t v w) (ok-injective h)

  BothEmitted-common_type :
      (s t : Number) (v w : b.V) (u : IrType)
      → common_type (number_type s) (number_type t) ≡ ok u
      → BothEmitted (number_type s) (number_type t) v w u
  unfolding emit_type_conversion common_type
  BothEmitted-common_type Number.an_integer Number.an_integer v w u h =
      moved integer integer v w h (tt, tt)
  BothEmitted-common_type Number.an_integer Number.a_float v w u h =
      moved integer float v w h (tt, tt)
  BothEmitted-common_type Number.an_integer Number.a_double v w u h =
      moved integer double v w h (tt, tt)
  BothEmitted-common_type Number.an_integer Number.a_complex_float v w u h =
      moved integer (complex float) v w h (tt, tt)
  BothEmitted-common_type Number.an_integer Number.a_complex_double v w u h =
      moved integer (complex double) v w h (tt, tt)
  BothEmitted-common_type Number.a_float Number.an_integer v w u h =
      moved float integer v w h (tt, tt)
  BothEmitted-common_type Number.a_float Number.a_float v w u h = moved float float v w h (tt, tt)
  BothEmitted-common_type Number.a_float Number.a_double v w u h = moved float double v w h (tt, tt)
  BothEmitted-common_type Number.a_float Number.a_complex_float v w u h =
      moved float (complex float) v w h (tt, tt)
  BothEmitted-common_type Number.a_float Number.a_complex_double v w u h =
      moved float (complex double) v w h (tt, tt)
  BothEmitted-common_type Number.a_double Number.an_integer v w u h =
      moved double integer v w h (tt, tt)
  BothEmitted-common_type Number.a_double Number.a_float v w u h = moved double float v w h (tt, tt)
  BothEmitted-common_type Number.a_double Number.a_double v w u h =
      moved double double v w h (tt, tt)
  BothEmitted-common_type Number.a_double Number.a_complex_float v w u h =
      moved double (complex float) v w h (tt, tt)
  BothEmitted-common_type Number.a_double Number.a_complex_double v w u h =
      moved double (complex double) v w h (tt, tt)
  BothEmitted-common_type Number.a_complex_float Number.an_integer v w u h =
      moved (complex float) integer v w h (tt, tt)
  BothEmitted-common_type Number.a_complex_float Number.a_float v w u h =
      moved (complex float) float v w h (tt, tt)
  BothEmitted-common_type Number.a_complex_float Number.a_double v w u h =
      moved (complex float) double v w h (tt, tt)
  BothEmitted-common_type Number.a_complex_float Number.a_complex_float v w u h =
      moved (complex float) (complex float) v w h (tt, tt)
  BothEmitted-common_type Number.a_complex_float Number.a_complex_double v w u h =
      moved (complex float) (complex double) v w h (tt, tt)
  BothEmitted-common_type Number.a_complex_double Number.an_integer v w u h =
      moved (complex double) integer v w h (tt, tt)
  BothEmitted-common_type Number.a_complex_double Number.a_float v w u h =
      moved (complex double) float v w h (tt, tt)
  BothEmitted-common_type Number.a_complex_double Number.a_double v w u h =
      moved (complex double) double v w h (tt, tt)
  BothEmitted-common_type Number.a_complex_double Number.a_complex_float v w u h =
      moved (complex double) (complex float) v w h (tt, tt)
  BothEmitted-common_type Number.a_complex_double Number.a_complex_double v w u h =
      moved (complex double) (complex double) v w h (tt, tt)

  -- The operands that the pass converts to the type of the whole expression can be converted by the
  -- code generator, for an operator that is no comparison and operands that are numbers.
  pub emit_type_conversion-common_type :
      (s t : Number) (tag : BinaryOpTag) (l r : Expression) (v w : b.V) (u : IrType)
      → is_comparison tag ≡ false
      → typeof_ l ≡ ok (number_type s)
      → typeof_ r ≡ ok (number_type t)
      → typeof_ (binary_operator tag l r) ≡ ok u
      → IsEmitted (emit_type_conversion b u (number_type s) v)
        × IsEmitted (emit_type_conversion b u (number_type t) w)
  unfolding typeof_
  emit_type_conversion-common_type s t tag l r v w u c p q h =
      BothEmitted-common_type s t v w u (rw (c, p, q) at h)
