-- ===== src/Jit/Conversions/Parts.antt =====
-- What a conversion of qubus/src/jit/type_conversion.cpp stores: the real and the imaginary part of a
-- number, each converted.
use qubus.Base.{
  ℕ, leb, Bool, true, false, not, ◌&&◌, ◌||◌, if◌then◌else◌, ◌≡◌, ◌≢◌, refl, ◌∙◌, arith,
}
use qubus.Base.Results.{ok, fail, exception}
use qubus.Ir.Types.{IrType, double, float, integer, complex}
use qubus.Jit.Builder.{Builder}
use qubus.Jit.Operators.{computed, real, imag}
use qubus.Jit.Conversions.{embed, emit_type_conversion}
use qubus.Jit.Conversions.Widening.{Number, number_type}

-- The language reference of LLVM on `insertvalue`, `extractvalue` and `zeroinitializer`.
pub record HasParts (b : Builder) : Type 0 where
  pub same_part : (u v : b.V) (k : ℕ) → b.extract_value (b.insert_value u v k) k ≡ v
  pub other_part :
      (u v : b.V) (j k : ℕ) → j ≢ k → b.extract_value (b.insert_value u v j) k ≡ b.extract_value u k
  pub zero_part : (t : IrType) (k : ℕ) → b.extract_value (b.zero_of (complex t)) k ≡ b.zero_of t

-- The type of the parts of a number.
abbrev pub part_type : Number → IrType
part_type Number.an_integer = integer
part_type Number.a_float = float
part_type Number.a_double = double
part_type Number.a_complex_float = float
part_type Number.a_complex_double = double

abbrev pub is_complex : Number → Bool
is_complex Number.a_complex_float = true
is_complex Number.a_complex_double = true
is_complex _ = false

-- Integers go to floats and floats to doubles.
abbrev pub rank : Number → ℕ
rank Number.an_integer = 0
rank Number.a_float = 1
rank Number.a_complex_float = 1
rank Number.a_double = 2
rank Number.a_complex_double = 2

-- A part of the same or a higher rank, and no loss of an imaginary part.
abbrev pub is_wider : Number → Number → Bool
is_wider s t = leb (rank s) (rank t) && (not (is_complex s) || is_complex t)

module _ (b : Builder) where
  abbrev pub real_part : Number → b.V → b.V
  real_part Number.a_complex_float v = real b v
  real_part Number.a_complex_double v = real b v
  real_part _ v = v

  -- A real number has the imaginary part 0.
  abbrev pub imag_part : Number → b.V → b.V
  imag_part Number.a_complex_float v = imag b v
  imag_part Number.a_complex_double v = imag b v
  imag_part s v = b.zero_of (part_type s)

  -- One part, from a type of parts to another.
  abbrev pub part_as : IrType → IrType → b.V → b.V
  part_as integer float v = b.si_to_fp float v
  part_as integer double v = b.si_to_fp double v
  part_as float double v = b.fp_ext double v
  part_as s t v = v

  abbrev pub imag_as : Number → Number → b.V → b.V
  imag_as s t v =
      if is_complex s
      then part_as (part_type s) (part_type t) (imag b v)
      else b.zero_of (part_type t)

  -- The parts of what is stored are the converted parts.
  abbrev pub IsCarried : Number → Number → b.V → Type 0
  IsCarried s t v =
      (w : b.V) × (emit_type_conversion b (number_type t) (number_type s) v
        ≡ ok (computed w (number_type t)))
      × (real_part t w ≡ part_as (part_type s) (part_type t) (real_part s v))
      × (imag_part t w ≡ imag_as s t v)

  abbrev IsRefused : Number → Number → b.V → Type 0
  IsRefused s t v = emit_type_conversion b (number_type t) (number_type s) v ≡ fail exception

  abbrev Outcome : Bool → Number → Number → b.V → Type 0
  Outcome true s t v = IsCarried s t v
  Outcome false s t v = IsRefused s t v

  -- A number goes to a wider type with its parts converted, and to no other type.
  abbrev pub Carries : Number → Number → b.V → Type 0
  Carries s t v = Outcome (is_wider s t) s t v

module _ {b : Builder} (laws : HasParts b) where
  embedded_real : (t : IrType) (r : b.V) → real b (embed b (complex t) r) ≡ r
  embedded_real t r = laws.same_part _ r 0

  embedded_imag : (t : IrType) (r : b.V) → imag b (embed b (complex t) r) ≡ b.zero_of t
  embedded_imag t r = laws.other_part _ r 0 1 (λ e. omega (arith, e)) ∙ laws.zero_part t 1

  rebuilt_real : (u r i : b.V) → real b (b.insert_value (b.insert_value u r 0) i 1) ≡ r
  rebuilt_real u r i = laws.other_part _ i 1 0 (λ e. omega (arith, e)) ∙ laws.same_part u r 0

  rebuilt_imag : (u r i : b.V) → imag b (b.insert_value (b.insert_value u r 0) i 1) ≡ i
  rebuilt_imag u r i = laws.same_part _ i 1

  -- With the aggregates of LLVM, the conversion of a number to a type of numbers stores the number whose
  -- real and imaginary parts are the converted parts of the operand, an imaginary part 0 for a real one,
  -- if the rank of the type is not lower (integer, float, double) and no imaginary part would be lost,
  -- and is refused otherwise. An integer converted to float or double may be rounded.
  pub emit_type_conversion-Carries : (s t : Number) (v : b.V) → Carries b s t v
  unfolding emit_type_conversion
  emit_type_conversion-Carries Number.an_integer Number.an_integer v = (_, refl, refl, refl)
  emit_type_conversion-Carries Number.an_integer Number.a_float v = (_, refl, refl, refl)
  emit_type_conversion-Carries Number.an_integer Number.a_double v = (_, refl, refl, refl)
  emit_type_conversion-Carries Number.an_integer Number.a_complex_float v =
      (_, refl, embedded_real _ _, embedded_imag _ _)
  emit_type_conversion-Carries Number.an_integer Number.a_complex_double v =
      (_, refl, embedded_real _ _, embedded_imag _ _)
  emit_type_conversion-Carries Number.a_float Number.an_integer v = refl
  emit_type_conversion-Carries Number.a_float Number.a_float v = (_, refl, refl, refl)
  emit_type_conversion-Carries Number.a_float Number.a_double v = (_, refl, refl, refl)
  emit_type_conversion-Carries Number.a_float Number.a_complex_float v =
      (_, refl, embedded_real _ _, embedded_imag _ _)
  emit_type_conversion-Carries Number.a_float Number.a_complex_double v =
      (_, refl, embedded_real _ _, embedded_imag _ _)
  emit_type_conversion-Carries Number.a_double Number.an_integer v = refl
  emit_type_conversion-Carries Number.a_double Number.a_float v = refl
  emit_type_conversion-Carries Number.a_double Number.a_double v = (_, refl, refl, refl)
  emit_type_conversion-Carries Number.a_double Number.a_complex_float v = refl
  emit_type_conversion-Carries Number.a_double Number.a_complex_double v =
      (_, refl, embedded_real _ _, embedded_imag _ _)
  emit_type_conversion-Carries Number.a_complex_float Number.an_integer v = refl
  emit_type_conversion-Carries Number.a_complex_float Number.a_float v = refl
  emit_type_conversion-Carries Number.a_complex_float Number.a_double v = refl
  emit_type_conversion-Carries Number.a_complex_float Number.a_complex_float v =
      (_, refl, refl, refl)
  emit_type_conversion-Carries Number.a_complex_float Number.a_complex_double v =
      (_, refl, rebuilt_real _ _ _, rebuilt_imag _ _ _)
  emit_type_conversion-Carries Number.a_complex_double Number.an_integer v = refl
  emit_type_conversion-Carries Number.a_complex_double Number.a_float v = refl
  emit_type_conversion-Carries Number.a_complex_double Number.a_double v = refl
  emit_type_conversion-Carries Number.a_complex_double Number.a_complex_float v = refl
  emit_type_conversion-Carries Number.a_complex_double Number.a_complex_double v =
      (_, refl, refl, refl)
