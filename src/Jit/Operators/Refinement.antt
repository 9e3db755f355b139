-- ===== src/Jit/Operators/Refinement.antt =====
-- The instructions of qubus/src/jit/operators.cpp compute what the operators mean, as far as the
-- flags of the instructions allow.
use qubus.Base.{
  ℕ, suc, ◌-◌, ◌≤◌, ◌<◌, ltb, lt→ltb, ltb→lt, arith, none, Bool, true, false, if◌then◌else◌, some,
  ◌≡◌, ◌≢◌, refl, ap, ◌∙◌, Bool-cases, inl, inr,
}
use qubus.Base.Int.{ℤ, pos, ◌+ℤ◌, ◌-ℤ◌, ◌*ℤ◌, quot, rem, negsuc}
use qubus.Base.Results.{Result, ok, ◌>>=◌, >>=-eq-ok, ok-injective}
use qubus.Ir.Types.{IrType, integer, bool}
use qubus.Ir.Expressions.{BinaryOpTag}
use qubus.Ir.Semantics.{
  Value, int, truth, in_range, index_limit, is_zero, checked, guarded, apply_binary,
}
use qubus.Ir.Folding.{fold_div_floor}
use qubus.Jit.Builder.{Builder, Reading, add_fits-negsuc, add_fits, sub_fits, mul_fits}
use qubus.Jit.Operators.{computed, emit_binary_operator, floor_of}

abbrev pub type_of_value : Value → IrType
type_of_value (int z) = integer
type_of_value (truth b) = bool

-- The unsigned sum, difference or product of the operands does not wrap.
abbrev pub fits_unsigned : BinaryOpTag → Value → Value → Bool
fits_unsigned BinaryOpTag.plus (int x) (int y) = add_fits x y
fits_unsigned BinaryOpTag.minus (int x) (int y) = sub_fits x y
fits_unsigned BinaryOpTag.multiplies (int x) (int y) = mul_fits x y
fits_unsigned _ x y = true

checked-value :
    (w : ℤ) (z : Value) → (checked w >>= λ u. ok (int u)) ≡ ok z → (in_range w ≡ true) × (int w ≡ z)
checked-value w z h = elim (Bool-cases (in_range w)) [
  | inl p ↦ (p, ok-injective (rw p at h))
  | inr p ↦ cc (rw p at h)
]

checked-eq : (w z : ℤ) → checked w ≡ ok z → (in_range w ≡ true) × (w ≡ z)
checked-eq w z h = elim (Bool-cases (in_range w)) [
  | inl p ↦ (p, ok-injective (rw p at h))
  | inr p ↦ cc (rw p at h)
]

guarded-eq : (y : ℤ) (r : Result ℤ) (z : ℤ) → guarded y r ≡ ok z → (is_zero y ≡ false) × (r ≡ ok z)
guarded-eq y r z h = elim (Bool-cases (is_zero y)) [
  | inl p ↦ cc (rw p at h)
  | inr p ↦ (p, rw p at h)
]

quotient_range : (x y z : ℤ) → fold_div_floor x y ≡ ok z → in_range (quot x y) ≡ true
unfolding fold_div_floor
quotient_range x y z h =
    let (quotient, p, h₁) = >>=-eq-ok (checked (quot x y)) _ h in
    (checked-eq (quot x y) quotient p).0

module _ {b : Builder} (r : Reading b) where
  floor_of-value :
      (q m : b.V) (x y z : ℤ)
      → r.value q ≡ some (int (quot x y))
      → r.value m ≡ some (int (rem x y))
      → fold_div_floor x y ≡ ok z
      → r.value (floor_of b q m) ≡ some (int z)
  unfolding fold_div_floor
  floor_of-value q m x y z hq hm h =
      let (quotient, p₁, h₁) = >>=-eq-ok (checked (quot x y)) _ h in
      let (remainder, p₂, h₂) = >>=-eq-ok (checked (rem x y)) _ h₁ in
      let (reduced, p₃, h₃) = >>=-eq-ok (checked (quotient -ℤ pos 1)) _ h₂ in
      let quotient_is = (checked-eq (quot x y) quotient p₁).1 in
      let remainder_is = (checked-eq (rem x y) remainder p₂).1 in
      let (fits, reduced_is) = checked-eq (quotient -ℤ pos 1) reduced p₃ in
      let hq' : r.value q ≡ some (int quotient) = hq ∙ ap (λ k. some (int k)) quotient_is in
      let hm' : r.value m ≡ some (int remainder) = hm ∙ ap (λ k. some (int k)) remainder_is in
      let zero = r.value-const_int (pos 0) refl in
      let one = r.value-const_int (pos 1) refl in
      let less =
        r.value-sub false false q (b.const_int (pos 1)) quotient (pos 1) hq' one fits refl in
      let exact = r.value-icmp_eq m (b.const_int (pos 0)) remainder (pos 0) hm' zero in
      let positive =
        r.same_truth _ _ _ _ (r.value-icmp_slt m (b.const_int (pos 0)) remainder (pos 0) hm' zero)
          (r.value-icmp_slt q (b.const_int (pos 0)) quotient (pos 0) hq' zero) in
      r.value-select _ q _ _ (int quotient) (int (quotient -ℤ pos 1))
        (r.value-bit_or _ _ _ _ exact positive) hq' less
      ∙ ap some (chosen _ quotient (quotient -ℤ pos 1) reduced reduced_is)
      ∙ ap (λ k. some (int k)) (ok-injective h₃)
    where
      chosen :
          (c : Bool) (k l l' : ℤ)
          → l ≡ l'
          → (if c then int k else int l) ≡ int (if c then k else l')
      chosen true k l l' e = refl
      chosen false k l l' e = ap int e

  divided :
      (u v : b.V) (x y w z : ℤ) (next : b.V)
      → (is_zero y ≡ false → in_range (quot x y) ≡ true → r.value next ≡ some (int w))
      → guarded y (checked (quot x y) >>= λ _. checked w) ≡ ok z
      → r.value next ≡ some (int z)
  divided u v x y w z next defined h =
      let (nonzero, h₁) = guarded-eq y _ z h in
      let (quotient, p, h₂) = >>=-eq-ok (checked (quot x y)) _ h₁ in
      defined nonzero (checked-eq (quot x y) quotient p).0
      ∙ ap (λ k. some (int k)) (checked-eq w z h₂).1

  -- Where folding two constants gives a value and the operator is not !=, the instructions that are
  -- emitted for values of these types give it too.
  pub emit_binary_operator-meaning :
      (t : BinaryOpTag) (u v : b.V) (x y z : Value)
      → r.value u ≡ some x
      → r.value v ≡ some y
      → t ≢ BinaryOpTag.not_equal_to
      → fits_unsigned t x y ≡ true
      → apply_binary fold_div_floor t x y ≡ ok z
      → (w : b.V) × (emit_binary_operator b t (type_of_value x) u v
          ≡ ok (computed w (type_of_value x)))
        × (r.value w ≡ some z)
  unfolding emit_binary_operator apply_binary
  emit_binary_operator-meaning BinaryOpTag.plus u v (int x) (int y) z p q ne fit h =
      let (range, is) = checked-value (x +ℤ y) z h in
      (b.add true true u v, refl, r.value-add true true u v x y p q range fit ∙ ap some is)
  emit_binary_operator-meaning BinaryOpTag.minus u v (int x) (int y) z p q ne fit h =
      let (range, is) = checked-value (x -ℤ y) z h in
      (b.sub true true u v, refl, r.value-sub true true u v x y p q range fit ∙ ap some is)
  emit_binary_operator-meaning BinaryOpTag.multiplies u v (int x) (int y) z p q ne fit h =
      let (range, is) = checked-value (x *ℤ y) z h in
      (b.mul true true u v, refl, r.value-mul true true u v x y p q range fit ∙ ap some is)
  emit_binary_operator-meaning BinaryOpTag.divides u v (int x) (int y) z p q ne fit h =
      let (k, h₁, is) = >>=-eq-ok (guarded y (checked (quot x y))) _ h in
      let (nonzero, h₂) = guarded-eq y _ k h₁ in
      let (range, same) = checked-eq (quot x y) k h₂ in
      (
        b.s_div u v,
        refl,
        r.value-s_div u v x y p q nonzero range
            ∙ ap (λ k. some (int k)) same
            ∙ ap some (ok-injective is),
      )
  emit_binary_operator-meaning BinaryOpTag.modulus u v (int x) (int y) z p q ne fit h =
      let (k, h₁, is) = >>=-eq-ok (guarded y (checked (quot x y) >>= λ _. checked (rem x y))) _ h in
      (
        b.s_rem u v,
        refl,
        divided u v x y (rem x y) k (b.s_rem u v) (r.value-s_rem u v x y p q) h₁
            ∙ ap some (ok-injective is),
      )
  emit_binary_operator-meaning BinaryOpTag.div_floor u v (int x) (int y) z p q ne fit h =
      let (k, h₁, is) = >>=-eq-ok (guarded y (fold_div_floor x y)) _ h in
      let (nonzero, h₂) = guarded-eq y _ k h₁ in
      let range = quotient_range x y k h₂ in
      (
        floor_of b (b.s_div u v) (b.s_rem u v),
        refl,
        floor_of-value (b.s_div u v) (b.s_rem u v) x y k (r.value-s_div u v x y p q nonzero range)
              (r.value-s_rem u v x y p q nonzero range) h₂
            ∙ ap some (ok-injective is),
      )
  emit_binary_operator-meaning BinaryOpTag.equal_to u v (int x) (int y) z p q ne fit h =
      (b.icmp_eq u v, refl, r.value-icmp_eq u v x y p q ∙ ap some (ok-injective h))
  emit_binary_operator-meaning BinaryOpTag.not_equal_to u v x y z p q ne fit h = elim (ne refl) [ ]
  emit_binary_operator-meaning BinaryOpTag.less u v (int x) (int y) z p q ne fit h =
      (b.icmp_slt u v, refl, r.value-icmp_slt u v x y p q ∙ ap some (ok-injective h))
  emit_binary_operator-meaning BinaryOpTag.greater u v (int x) (int y) z p q ne fit h =
      (b.icmp_sgt u v, refl, r.value-icmp_sgt u v x y p q ∙ ap some (ok-injective h))
  emit_binary_operator-meaning BinaryOpTag.less_equal u v (int x) (int y) z p q ne fit h =
      (b.icmp_sle u v, refl, r.value-icmp_sle u v x y p q ∙ ap some (ok-injective h))
  emit_binary_operator-meaning BinaryOpTag.greater_equal u v (int x) (int y) z p q ne fit h =
      (b.icmp_sge u v, refl, r.value-icmp_sge u v x y p q ∙ ap some (ok-injective h))
  emit_binary_operator-meaning BinaryOpTag.logical_and u v (truth x) (truth y) z p q ne fit h =
      (b.bit_and u v, refl, r.value-bit_and u v x y p q ∙ ap some (ok-injective h))
  emit_binary_operator-meaning BinaryOpTag.logical_or u v (truth x) (truth y) z p q ne fit h =
      (b.bit_or u v, refl, r.value-bit_or u v x y p q ∙ ap some (ok-injective h))
  emit_binary_operator-meaning _ u v x y z p q ne fit h = cc h

  folded_sum : (limit m n : ℕ) → suc m ≤ n → ltb n limit ≡ true → ltb (n - suc m) limit ≡ true
  folded_sum limit m n h k = lt→ltb (n - suc m) limit (difference (ltb→lt n limit k))
    where
      difference : n < limit → n - suc m < limit
      difference l = omega arith

  -- The sum of a negative integer and one that is not less than its absolute value has a value
  -- when it is folded, and none when it is computed by the instructions that are emitted.
  pub emit_binary_operator-wraps :
      (u v : b.V) (m n : ℕ)
      → r.value u ≡ some (int (negsuc m))
      → r.value v ≡ some (int (pos n))
      → suc m ≤ n
      → in_range (pos n) ≡ true
      → (apply_binary fold_div_floor BinaryOpTag.plus (int (negsuc m)) (int (pos n))
          ≡ ok (int (pos (n - suc m))))
        × (w : b.V) × (emit_binary_operator b BinaryOpTag.plus integer u v
            ≡ ok (computed w integer))
        × (r.value w ≡ none)
  unfolding emit_binary_operator apply_binary ◌+ℤ◌
  emit_binary_operator-wraps u v m n p q le range = (
    rw (sum_of, apply_binary) (fits (n - suc m) (folded_sum index_limit m n le range)),
    b.add true true u v,
    refl,
    r.add_wraps true u v (negsuc m) (pos n) p q (add_fits-negsuc m n le),
  )
    where
      sum_of : negsuc m +ℤ pos n ≡ pos (n - suc m)
      sum_of = grind arith

      fits :
          (k : ℕ)
          → ltb k index_limit ≡ true
          → (checked (pos k) >>= λ w. ok (int w)) ≡ ok (int (pos k))
      fits k e = rw e
