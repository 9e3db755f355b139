-- ===== src/Tests/Qtl.antt =====
-- A product of a delta and an index, summed over one of the indices of the delta.
use qubus.Base.{
  ℕ, zero, suc, ◌<◌, true, false, if◌then◌else◌, [], ◌∷◌, ◌≡◌, ◌≢◌, refl, ap, ap₂, arith,
}
use native.Mathlib.Nat.{zero-div}
use qubus.Base.Int.{ℤ, pos, negsuc, ◌+ℤ◌, ◌-ℤ◌, ◌*ℤ◌, quot, neg_ℕ, eqb_ℤ, int_laws}
use qubus.Base.Results.{ok}
use qubus.Ir.Types.{index}
use qubus.Ir.Expressions.{Variable, BinaryOpTag}
use qubus.Qtl.Expressions.{
  QtlExpression, integer_literal, binary_operator, variable_ref, sum, for_all, is_index, depth,
}
use qubus.Qtl.Meaning.{Scalars, HasDeltas, Indices, sum_to, eval}
use qubus.Qtl.Deltas.{fold_sum, fold_kronecker_deltas}
use qubus.Qtl.Deltas.Naming.{IsWellNamed}
use qubus.Qtl.Deltas.Pass.{eval-fold_kronecker_deltas}
use qubus.Qtl.Deltas.Stale.{delta_of, fold_sum-stale}

abbrev computed : BinaryOpTag → ℤ → ℤ → ℤ
computed BinaryOpTag.plus a b = a +ℤ b
computed BinaryOpTag.minus a b = a -ℤ b
computed BinaryOpTag.multiplies a b = a *ℤ b
computed BinaryOpTag.divides a b = quot a b
computed _ a b = a

-- Every value, with the place of one weighed by 10.
abbrev digits : ℕ → (ℕ → ℤ) → ℤ
digits zero f = pos 0
digits (suc n) f = (pos 10 *ℤ digits n f) +ℤ f n

abbrev integers : Scalars
integers = record {
  V = ℤ;
  literal = λ z. z;
  position = λ k. pos k;
  symbol = λ v. pos v.id;
  binary = computed;
  unary = λ t x. x;
  invoke = λ n xs. pos 0;
  element = λ x xs. x;
  delta = λ n a b. if eqb_ℤ a b then pos 1 else pos 0;
  each = digits;
}

digits-below : (n : ℕ) (f g : ℕ → ℤ) → ((k : ℕ) → k < n → f k ≡ g k) → digits n f ≡ digits n g
digits-below zero f g h = refl
digits-below (suc n) f g h =
    ap₂ (λ a b. (pos 10 *ℤ a) +ℤ b) (digits-below n f g (λ k l. h k (omega (arith, l))))
      (h n (omega arith))

zero_plus : (x : ℤ) → pos 0 +ℤ x ≡ x
zero_plus x = grind int_laws

plus_zero : (x : ℤ) → x +ℤ pos 0 ≡ x
plus_zero x = grind int_laws

zero_times : (x : ℤ) → pos 0 *ℤ x ≡ pos 0
unfolding ◌*ℤ◌
zero_times (pos n) = ground arith
zero_times (negsuc n) = ground arith

times_zero : (x : ℤ) → x *ℤ pos 0 ≡ pos 0
unfolding ◌*ℤ◌
times_zero (pos n) = ground arith
times_zero (negsuc n) = ground arith

zero_divided : (x : ℤ) → quot (pos 0) x ≡ pos 0
unfolding quot
zero_divided (pos n) = ap pos (zero-div n)
zero_divided (negsuc n) = ap neg_ℕ (zero-div (suc n))

integers-HasDeltas : HasDeltas integers
integers-HasDeltas = record {
  nought_plus = zero_plus;
  plus_nought = plus_zero;
  minus_nought = zero_minus;
  nought_times = zero_times;
  times_nought = times_zero;
  nought_divided = zero_divided;
  same_delta = λ n k. same k;
  other_delta = λ n k l d. other k l d;
  each_below = digits-below;
}
  where
    zero_minus : pos 0 -ℤ pos 0 ≡ pos 0
    zero_minus = grind int_laws

    same : (k : ℕ) → (if eqb_ℤ (pos k) (pos k) then pos 1 else pos 0) ≡ pos 1
    same k = ground arith

    other : (k l : ℕ) → k ≢ l → (if eqb_ℤ (pos k) (pos l) then pos 1 else pos 0) ≡ pos 0
    other k l d = ground arith

abbrev index_of : ℕ → Variable
index_of n = record { id = n; var_type = index }

-- for_all i. Σ j. δ(i, j) * j
abbrev body : QtlExpression
body =
    binary_operator BinaryOpTag.multiplies (delta_of 3 (index_of 0) (index_of 1))
      (variable_ref (index_of 1))

abbrev contraction : QtlExpression
contraction = for_all (index_of 0 ∷ []) (sum (index_of 1 ∷ []) body)

abbrev three : Indices
three n = 3

known : (n : ℕ) → is_index (index_of n) ≡ true
unfolding is_index
known n = refl

contraction-depth : depth contraction ≡ 5
unfolding depth
contraction-depth = refl

contraction-IsWellNamed : IsWellNamed three contraction (λ v. false)
unfolding IsWellNamed is_index
contraction-IsWellNamed = ((refl, tt), (refl, ((λ e. refl, λ e. refl, refl), λ e. refl)))

eval-fold_kronecker_deltas_example :
    (e' : QtlExpression) × (fold_kronecker_deltas 5 contraction ≡ ok e')
    × (eval integers three e' (λ v. 0) ≡ eval integers three contraction (λ v. 0))
eval-fold_kronecker_deltas_example =
    eval-fold_kronecker_deltas integers-HasDeltas three 5 contraction (λ v. false) (λ v. 0)
      (omega (arith, contraction-depth)) contraction-IsWellNamed (λ i. omega arith)

-- The value, and what the loop is folded to.
contraction-value : eval integers three contraction (λ v. 0) ≡ pos 12
unfolding eval is_index ◌+ℤ◌ ◌*ℤ◌
contraction-value = refl

fold_sum-stale_example :
    (fold_sum (sum (index_of 0 ∷ index_of 1 ∷ []) (delta_of 3 (index_of 0) (index_of 1)))
      ≡ integer_literal (pos 1))
    × (eval integers three
          (sum (index_of 0 ∷ index_of 1 ∷ []) (delta_of 3 (index_of 0) (index_of 1)))
          (λ v. 0)
        ≡ sum_to integers 3 (λ k. pos 1))
fold_sum-stale_example =
    fold_sum-stale 3 (index_of 0) (index_of 1) (known 0) (known 1) (λ e. omega (arith, e))
      integers-HasDeltas three (λ v. 0) refl
