-- ===== src/Tests/Caches.antt =====
-- A cache for the doubles of numbers, with room for one record.
use qubus.Base.{
  true, ℕ, ◌*◌, ◌≤◌, ◌==◌, ==_iff, List, [], ◌∷◌, some, ◌≡◌, refl, arith, length, get_elem?,
}
use qubus.Util.LfuCache.{Entry, Cache, has_key, call}
use qubus.Util.LfuCache.Memo.{IsMemo, call-IsMemo}

abbrev double_of : ℕ → ℕ
double_of k = k * 2

abbrev first_one : List (Entry ℕ ℕ) → ℕ
first_one es = 0

abbrev of_five : Cache ℕ ℕ
of_five = record {
  eviction_queue = record { use_count = 1; key = 5; value = 10 } ∷ [];
  key_entry_map = 5 ∷ [];
}

of_five-IsMemo : IsMemo (λ a b. a == b) double_of 1 3 of_five
unfolding has_key
of_five-IsMemo = record {
  same_keys = refl;
  distinct = (refl, tt);
  values = (refl, tt);
  counts = (omega arith, tt);
  bounded = omega arith;
}

first_there :
    (es : List (Entry ℕ ℕ))
    → 1 ≤ length es
    → (e : Entry ℕ ℕ) × (get_elem? es (first_one es) ≡ some e)
first_there [] h = absurd (impossible h)
  where
    impossible : 1 ≤ 0 → ⊥
    impossible l = omega arith
first_there (e ∷ es) h = (e, refl)

same_self : (a : ℕ) → (a == a) ≡ true
same_self a = (==_iff a a).1 refl

call-IsMemo_example :
    (c : Cache ℕ ℕ) × (call (λ a b. a == b) double_of 1 3 first_one 7 of_five ≡ some (14, c))
    × IsMemo (λ a b. a == b) double_of 1 3 c
call-IsMemo_example =
    call-IsMemo (λ a b. a == b) double_of 1 3 (λ a b. (==_iff a b).0) same_self first_one
      first_there (omega arith) 7 of_five of_five-IsMemo
