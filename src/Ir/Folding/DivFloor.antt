-- ===== src/Ir/Folding/DivFloor.antt =====
-- The folding of `div_floor` against the quotient rounded down, for positive divisors.
use qubus.Base.{
  ℕ_discrete, dec_lt, ℕ, suc, ◌+◌, ◌*◌, ◌/◌, ◌%◌, ◌≤◌, ◌<◌, ◌≡◌, ◌≢◌, ◌↔◌, ◌⊎◌, inl, inr, arith,
}
use qubus.Base.Int.{ℤ, pos, negsuc, pos_part, neg_part, quot, rem, ◌-ℤ◌}
use qubus.Base.Results.{ok}
use qubus.Ir.Folding.{fold_div_floor}
use native.Mathlib.Nat.{div-add-mod, mod-lt, mod-eq_of_lt}

-- q * b ≤ a < q * b + b, with the negative parts moved across.
abbrev pub IsRoundedDown : ℤ → ℤ → ℕ → Type 0
IsRoundedDown q a b =
    (pos_part q * b + neg_part a ≤ pos_part a + neg_part q * b)
    × (pos_part a + neg_part q * b < pos_part q * b + b + neg_part a)

-- The dividend is not negative, or is a multiple, or is smaller than the divisor in size.
abbrev pub IsSafeDividend : ℤ → ℕ → Type 0
IsSafeDividend (pos m) b = Unit
IsSafeDividend (negsuc m) b = (suc m % b ≡ 0) ⊎ (suc m < b)

folded_pos : (m b : ℕ) {q : ℤ} → 0 < b → fold_div_floor (pos m) (pos b) ≡ ok q → q ≡ pos (m / b)
unfolding fold_div_floor quot rem
folded_pos m b h e = ground arith

folded_exact :
    (m b : ℕ) {q : ℤ}
    → suc m % b ≡ 0
    → fold_div_floor (negsuc m) (pos b) ≡ ok q
    → (pos_part q ≡ 0) × (neg_part q ≡ suc m / b)
unfolding fold_div_floor quot rem
folded_exact m b h e = ground arith

folded_small :
    (m b : ℕ) {q : ℤ}
    → suc m % b ≢ 0
    → suc m / b ≡ 0
    → fold_div_floor (negsuc m) (pos b) ≡ ok q
    → (pos_part q ≡ 0) × (neg_part q ≡ 1)
unfolding fold_div_floor quot rem ◌-ℤ◌
folded_small m b h k e = ground arith

folded_large :
    (m b : ℕ) {q : ℤ}
    → suc m % b ≢ 0
    → suc m / b ≢ 0
    → fold_div_floor (negsuc m) (pos b) ≡ ok q
    → (pos_part q ≡ 0) × (neg_part q ≡ suc m / b)
unfolding fold_div_floor quot rem
folded_large m b h k e = ground arith

-- The facts on `/` and `%` that decide the bounds.
quotient_small : (m b : ℕ) → m < b → m / b ≡ 0
quotient_small m b h = grind (arith, div-add-mod m b)

quotient_large : (m b : ℕ) → b ≤ m → 0 < b → m / b ≢ 0
quotient_large m b h p = λ e. grind (arith, div-add-mod m b, mod-lt m p)

module _ (m b : ℕ) {q : ℤ} (positive : 0 < b) where
  floor_of_pos : (q ≡ pos (m / b)) → IsRoundedDown q (pos m) b
  floor_of_pos e = rw e (omega (arith, div-add-mod m b, mod-lt m positive))

  floor_of_exact :
      suc m % b ≡ 0 → fold_div_floor (negsuc m) (pos b) ≡ ok q → IsRoundedDown q (negsuc m) b
  floor_of_exact exact e =
      let (p, n) = folded_exact m b exact e in
      rw (p, n) (omega (arith, exact, div-add-mod (suc m) b))

  floor_of_small :
      suc m < b → fold_div_floor (negsuc m) (pos b) ≡ ok q → IsRoundedDown q (negsuc m) b
  floor_of_small small e =
      let inexact : suc m % b ≢ 0 = λ z. omega (arith, z, mod-eq_of_lt small) in
      let (p, n) = folded_small m b inexact (quotient_small (suc m) b small) e in
      rw (p, n) (omega arith)

  -- An inexact quotient of a dividend that is no smaller than the divisor is not rounded down.
  not_floor_of_large :
      suc m % b ≢ 0
      → b ≤ suc m
      → fold_div_floor (negsuc m) (pos b) ≡ ok q
      → ¬ IsRoundedDown q (negsuc m) b
  not_floor_of_large inexact large e = λ f.
      let (p, n) = folded_large m b inexact (quotient_large (suc m) b large positive) e in
      inexact (omega (arith, p, n, rw (p, n) at f.0, div-add-mod (suc m) b))

-- What folding makes of `div_floor` by a positive divisor is the quotient rounded down exactly if
-- the dividend is safe.
pub div_floor-IsRoundedDown_iff :
    (a : ℤ) (b : ℕ) (q : ℤ)
    → 0 < b
    → fold_div_floor a (pos b) ≡ ok q
    → (IsRoundedDown q a b) ↔ (IsSafeDividend a b)
div_floor-IsRoundedDown_iff (pos m) b q p e =
    (λ _. tt, λ _. floor_of_pos m b p (folded_pos m b p e))
div_floor-IsRoundedDown_iff (negsuc m) b q p e = (safe, floor)
  where
    floor : IsSafeDividend (negsuc m) b → IsRoundedDown q (negsuc m) b
    floor (inl exact) = floor_of_exact m b p exact e
    floor (inr small) = floor_of_small m b p small e

    safe : IsRoundedDown q (negsuc m) b → IsSafeDividend (negsuc m) b
    safe f = elim (ℕ_discrete (suc m % b) 0) [
      | yes exact ↦ inl exact
      | no inexact ↦ elim (dec_lt (suc m) b) [
        | yes small ↦ inr small
        | no large ↦ absurd (not_floor_of_large m b p inexact (omega arith) e f)
      ]
    ]
