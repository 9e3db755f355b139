-- ===== src/Base/Lists.antt =====
-- Lists measured by the native numbers.
use Prim.Native.Nat.{ℕ, zero, suc, ◌+◌}
use mathlib.Core.Path.{◌≡◌, sym, subst}
use mathlib.Core.Option.{Option, none, some}
use mathlib.Core.List.{List, [], ◌∷◌, ◌++◌}
use mathlib.Core.List.{Memᴰ}
use mathlib.Core.List.Memᴰ.{not-nil}
use native.Mathlib.Omega.{arith}

module _ {ℓ} {A : Type ℓ} where
  abbrev pub length : List A → ℕ
  length [] = 0
  length (x ∷ xs) = suc (length xs)

  abbrev pub get_elem? : List A → ℕ → Option A
  get_elem? [] i = none
  get_elem? (x ∷ xs) zero = some x
  get_elem? (x ∷ xs) (suc i) = get_elem? xs i

  module _ {κ} (Holds : A → Type κ) where
    abbrev pub All : List A → Type κ
    All (first ∷ rest) = Holds first × All rest
    All [] = Unit

    pub All-append : (xs ys : List A) → All (xs ++ ys) → All xs × All ys
    All-append (x ∷ xs) ys (first, rest) =
        let (left, right) = All-append xs ys rest in ((first, left), right)
    All-append [] ys h = (tt, h)

    pub All-Mem : (xs : List A) (x : A) → All xs → Memᴰ x xs → Holds x
    All-Mem (y ∷ xs) x (first, rest) (Memᴰ.head eq) = subst Holds (sym eq) first
    All-Mem (y ∷ xs) x (first, rest) (Memᴰ.tail mem) = All-Mem xs x rest mem
    All-Mem [] x h mem = absurd (not-nil mem)

  pub length-append : (xs ys : List A) → length (xs ++ ys) ≡ length xs + length ys
  length-append [] ys = omega arith
  length-append (x ∷ xs) ys = omega (arith, length-append xs ys)
