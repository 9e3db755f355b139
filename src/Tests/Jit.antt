-- ===== src/Tests/Jit.antt =====
-- An instruction builder that computes the values, and the operators at concrete operands.
use qubus.Base.{
  ℕ, ◌+◌, ◌*◌, List, [], ◌∷◌, Bool, true, false, ◌&&◌, ◌||◌, if◌then◌else◌, Option, none, some, ◌≡◌,
  refl, arith,
}
use qubus.Base.Int.{ℤ, pos, negsuc, ◌+ℤ◌, ◌-ℤ◌, ◌*ℤ◌, quot, rem, eqb_ℤ, ltb_ℤ, leb_ℤ}
use qubus.Base.Results.{ok}
use qubus.Ir.Types.{float, integer, complex}
use qubus.Ir.Inference.{typeof_, is_comparison}
use qubus.Ir.Inference.CommonType.{common_type}
use qubus.Ir.Expressions.{Expression, BinaryOpTag, binary_operator, variable_ref}
use qubus.Ir.Semantics.{Value, int, truth, in_range, is_zero, eqb_bool, apply_binary}
use qubus.Ir.Folding.{fold_div_floor}
use qubus.Jit.Conversions.{emit_type_conversion}
use qubus.Jit.Conversions.Widening.{Number, IsEmitted, emit_type_conversion-common_type}
use qubus.Jit.Loops.{Label, Machine, Reaches, IsUndefinedAt}
use qubus.Jit.Loops.Execution.{keeping, Turns, repeated, emit_loop-Reaches, emit_loop-IsUndefinedAt}
use qubus.Jit.Builder.{Builder, Reading, add_fits, sub_fits, mul_fits, may}
use qubus.Jit.Operators.{computed, emit_binary_operator}
use qubus.Jit.Operators.Refinement.{emit_binary_operator-meaning, emit_binary_operator-wraps}

abbrev Slot : Type 0
Slot = Option Value

abbrev defined_if : Bool → ℤ → Slot
defined_if true z = some (int z)
defined_if false z = none

abbrev on_ints : (ℤ → ℤ → Slot) → Slot → Slot → Slot
on_ints f (some (int x)) (some (int y)) = f x y
on_ints f _ _ = none

abbrev on_truths : (Bool → Bool → Bool) → Slot → Slot → Slot
on_truths f (some (truth x)) (some (truth y)) = some (truth (f x y))
on_truths f _ _ = none

abbrev equals : Slot → Slot → Slot
equals (some (int x)) (some (int y)) = some (truth (eqb_ℤ x y))
equals (some (truth x)) (some (truth y)) = some (truth (eqb_bool x y))
equals _ _ = none

abbrev compares : (ℤ → ℤ → Bool) → Slot → Slot → Slot
compares f = on_ints (λ x y. some (truth (f x y)))

abbrev negated : Slot → Slot
negated (some (int x)) = defined_if (in_range (pos 0 -ℤ x)) (pos 0 -ℤ x)
negated _ = none

abbrev chosen : Slot → Slot → Slot → Slot
chosen (some (truth c)) u v = if c then u else v
chosen _ u v = none

abbrev calculator : Builder
calculator = record {
  V = Slot;
  f_add = λ u v. none;
  f_sub = λ u v. none;
  f_mul = λ u v. none;
  f_div = λ u v. none;
  f_rem = λ u v. none;
  f_neg = λ u. none;
  add =
      λ nuw nsw. on_ints (λ x y. defined_if (in_range (x +ℤ y) && may nuw (add_fits x y)) (x +ℤ y));
  sub =
      λ nuw nsw. on_ints (λ x y. defined_if (in_range (x -ℤ y) && may nuw (sub_fits x y)) (x -ℤ y));
  mul =
      λ nuw nsw. on_ints (λ x y. defined_if (in_range (x *ℤ y) && may nuw (mul_fits x y)) (x *ℤ y));
  s_div = on_ints (λ x y. if is_zero y then none else defined_if (in_range (quot x y)) (quot x y));
  s_rem = on_ints (λ x y. if is_zero y then none else defined_if (in_range (quot x y)) (rem x y));
  neg = negated;
  icmp_eq = equals;
  icmp_slt = compares ltb_ℤ;
  icmp_sle = compares leb_ℤ;
  icmp_sgt = compares (λ x y. ltb_ℤ y x);
  icmp_sge = compares (λ x y. leb_ℤ y x);
  bit_and = on_truths (λ x y. x && y);
  bit_or = on_truths (λ x y. x || y);
  select = chosen;
  const_int = λ z. some (int z);
  undef_like = λ u. none;
  undef_of = λ t. none;
  zero_of = λ t. none;
  fp_ext = λ t u. none;
  si_to_fp = λ t u. none;
  extract_value = λ u n. none;
  insert_value = λ u v n. none;
}

both_hold : (a b : Bool) → a ≡ true → b ≡ true → (a && b) ≡ true
both_hold a b p q = rw (p, q)

if_both : (a b : Bool) (z : ℤ) → a ≡ true → b ≡ true → defined_if (a && b) z ≡ some (int z)
if_both a b z p q = rw (both_hold a b p q)

if_carries : (a b : Bool) (z : ℤ) → b ≡ false → defined_if (a && b) z ≡ none
if_carries true b z q = rw q
if_carries false b z q = refl

nonzero :
    (a b : Bool) (z : ℤ)
    → a ≡ false
    → b ≡ true
    → (if a then none else defined_if b z) ≡ some (int z)
nonzero a b z p q = rw (p, q)

select_of : (c : Bool) (y z : Value) → (if c then some y else some z) ≡ some (if c then y else z)
select_of true y z = refl
select_of false y z = refl

abbrev calculation : Reading calculator
calculation = record {
  value = λ u. u;
  value-add = λ nuw nsw u v x y p q r s.
      rw (p, q) (if_both (in_range (x +ℤ y)) (may nuw (add_fits x y)) (x +ℤ y) r s);
  value-sub = λ nuw nsw u v x y p q r s.
      rw (p, q) (if_both (in_range (x -ℤ y)) (may nuw (sub_fits x y)) (x -ℤ y) r s);
  value-mul = λ nuw nsw u v x y p q r s.
      rw (p, q) (if_both (in_range (x *ℤ y)) (may nuw (mul_fits x y)) (x *ℤ y) r s);
  add_wraps =
      λ nsw u v x y p q s. rw (p, q) (if_carries (in_range (x +ℤ y)) (add_fits x y) (x +ℤ y) s);
  value-s_div =
      λ u v x y p q r s. rw (p, q) (nonzero (is_zero y) (in_range (quot x y)) (quot x y) r s);
  value-s_rem =
      λ u v x y p q r s. rw (p, q) (nonzero (is_zero y) (in_range (quot x y)) (rem x y) r s);
  value-neg = λ u x p r. rw (p, r);
  value-icmp_eq = λ u v x y p q. rw (p, q);
  value-icmp_slt = λ u v x y p q. rw (p, q);
  value-icmp_sle = λ u v x y p q. rw (p, q);
  value-icmp_sgt = λ u v x y p q. rw (p, q);
  value-icmp_sge = λ u v x y p q. rw (p, q);
  same_truth = λ u v x y p q. rw (p, q);
  value-bit_and = λ u v x y p q. rw (p, q);
  value-bit_or = λ u v x y p q. rw (p, q);
  value-select = λ c u v x y z p q r. rw (p, q, r) (select_of x y z);
  value-const_int = λ z r. refl;
}

floors :
    apply_binary fold_div_floor BinaryOpTag.div_floor (int (pos 7)) (int (pos 2)) ≡ ok (int (pos 3))
unfolding apply_binary fold_div_floor quot rem ◌-ℤ◌
floors = refl

emit_binary_operator-meaning_example :
    (w : Slot) × (emit_binary_operator calculator BinaryOpTag.div_floor integer
        (some (int (pos 7)))
        (some (int (pos 2)))
      ≡ ok (computed w integer))
    × (w ≡ some (int (pos 3)))
emit_binary_operator-meaning_example =
    emit_binary_operator-meaning calculation BinaryOpTag.div_floor (some (int (pos 7)))
      (some (int (pos 2))) (int (pos 7)) (int (pos 2)) (int (pos 3)) refl refl (λ e. cc e) refl
      floors

emit_binary_operator-wraps_example :
    (apply_binary fold_div_floor BinaryOpTag.plus (int (negsuc 0)) (int (pos 1)) ≡ ok (int (pos 0)))
    × (w : Slot) × (emit_binary_operator calculator BinaryOpTag.plus integer
          (some (int (negsuc 0)))
          (some (int (pos 1)))
        ≡ ok (computed w integer))
    × (w ≡ none)
emit_binary_operator-wraps_example =
    emit_binary_operator-wraps calculation (some (int (negsuc 0))) (some (int (pos 1))) 0 1 refl
      refl (omega arith) refl

abbrev a_count : Expression
a_count = variable_ref (record { id = 0; var_type = integer })

abbrev a_phase : Expression
a_phase = variable_ref (record { id = 1; var_type = complex float })

product_type : typeof_ (binary_operator BinaryOpTag.multiplies a_count a_phase) ≡ ok (complex float)
unfolding typeof_ common_type
product_type = refl

count_type : typeof_ a_count ≡ ok integer
unfolding typeof_
count_type = refl

phase_type : typeof_ a_phase ≡ ok (complex float)
unfolding typeof_
phase_type = refl

emit_type_conversion-common_type_example :
    IsEmitted (emit_type_conversion calculator (complex float) integer none)
    × IsEmitted (emit_type_conversion calculator (complex float) (complex float) none)
unfolding is_comparison
emit_type_conversion-common_type_example =
    emit_type_conversion-common_type calculator Number.an_integer Number.a_complex_float
      BinaryOpTag.multiplies a_count a_phase none none (complex float) refl count_type phase_type
      product_type

-- A body that notes the value of the induction variable.
abbrev noting : ℤ → List ℤ → List ℤ
noting z seen = z ∷ seen

abbrev nothing_seen : Machine (List ℤ)
nothing_seen = record { induction = pos 0; memory = [] }

emit_loop-Reaches_example :
    (n : ℕ) × Turns noting 3 8 n 2
    × Reaches
        (keeping noting 3 8)
        (pos 2)
        (pos 8)
        (pos 3)
        Label.entry
        nothing_seen
        Label.exit
        (record { induction = pos (2 + n * 3); memory = repeated noting 3 8 n 2 [] })
emit_loop-Reaches_example = emit_loop-Reaches noting 3 8 2 nothing_seen (omega arith) (omega arith)

emit_loop-IsUndefinedAt_example :
    Reaches
      (keeping noting 1 8)
      (negsuc 0)
      (pos 8)
      (pos 1)
      Label.entry
      nothing_seen
      Label.body
      (record { induction = negsuc 0; memory = [] })
    × IsUndefinedAt
        (keeping noting 1 8)
        (negsuc 0)
        (pos 8)
        (pos 1)
        Label.body
        (record { induction = negsuc 0; memory = [] })
emit_loop-IsUndefinedAt_example = emit_loop-IsUndefinedAt noting 1 8 0 nothing_seen (omega arith)
