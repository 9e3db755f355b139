-- ===== src/Tests/Parts.antt =====
-- A float converted to a complex double, with an instruction builder that keeps numbered parts.
use qubus.Base.{ℕ, ◌==◌, if◌then◌else◌, ◌≡◌, ◌≢◌, refl, arith}
use qubus.Jit.Builder.{Builder}
use qubus.Jit.Conversions.Widening.{Number}
use qubus.Jit.Conversions.Parts.{HasParts, Carries, emit_type_conversion-Carries}

-- A number, or its parts.
data Stored : Type 0 where
  bits : ℕ → Stored
  extended : Stored → Stored
  parts : (ℕ → Stored) → Stored

abbrev part_of : Stored → ℕ → Stored
part_of (parts f) k = f k
part_of (bits n) k = bits n
part_of (extended u) k = extended u

abbrev keeper : Builder
keeper = record {
  V = Stored;
  f_add = λ u v. u;
  f_sub = λ u v. u;
  f_mul = λ u v. u;
  f_div = λ u v. u;
  f_rem = λ u v. u;
  f_neg = λ u. u;
  add = λ nuw nsw u v. u;
  sub = λ nuw nsw u v. u;
  mul = λ nuw nsw u v. u;
  s_div = λ u v. u;
  s_rem = λ u v. u;
  neg = λ u. u;
  icmp_eq = λ u v. u;
  icmp_slt = λ u v. u;
  icmp_sle = λ u v. u;
  icmp_sgt = λ u v. u;
  icmp_sge = λ u v. u;
  bit_and = λ u v. u;
  bit_or = λ u v. u;
  select = λ c u v. u;
  const_int = λ z. bits 0;
  undef_like = λ u. bits 0;
  undef_of = λ t. bits 0;
  zero_of = λ t. bits 0;
  fp_ext = λ t u. extended u;
  si_to_fp = λ t u. extended u;
  extract_value = part_of;
  insert_value = λ u v k. parts (λ l. if k == l then v else part_of u l);
}

keeper-HasParts : HasParts keeper
keeper-HasParts = record {
  same_part = λ u v k. same u v k;
  other_part = λ u v j k d. other u v j k d;
  zero_part = λ t k. refl;
}
  where
    same : (u v : Stored) (k : ℕ) → (if k == k then v else part_of u k) ≡ v
    same u v k = ground arith

    other : (u v : Stored) (j k : ℕ) → j ≢ k → (if j == k then v else part_of u k) ≡ part_of u k
    other u v j k d = ground arith

emit_type_conversion-Carries_example :
    Carries keeper Number.a_float Number.a_complex_double (bits 7)
emit_type_conversion-Carries_example =
    emit_type_conversion-Carries keeper-HasParts Number.a_float Number.a_complex_double (bits 7)
