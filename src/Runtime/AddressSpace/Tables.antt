-- ===== src/Runtime/AddressSpace/Tables.antt =====
-- The table of an address space as a finite map.
use qubus.Base.{ℕ, suc, ==_iff, none, some, [], ◌∷◌, length, ◌≡◌, ◌≢◌, refl, arith}
use qubus.Runtime.AddressSpace.{Entry, Table, find, erase}

-- Every address stands in the table at most once.
abbrev pub IsDistinct : Table → Type 0
IsDistinct [] = Unit
IsDistinct ((k, e) ∷ table) = (find k table ≡ none) × IsDistinct table

pub find-erase-other :
    (addr other : ℕ) (table : Table)
    → addr ≢ other
    → find addr (erase other table) ≡ find addr table
unfolding find erase
find-erase-other addr other [] ne = refl
find-erase-other addr other ((k, e) ∷ table) ne =
    ground (arith, find-erase-other addr other table ne, ==_iff k addr, ==_iff k other)

pub find-erase : (addr : ℕ) (table : Table) → IsDistinct table → find addr (erase addr table) ≡ none
unfolding find erase
find-erase addr [] d = refl
find-erase addr ((k, e) ∷ table) d = ground (arith, find-erase addr table d.1, ==_iff k addr, d.0)

find-erase-none :
    (addr other : ℕ) (table : Table) → find addr table ≡ none → find addr (erase other table) ≡ none
unfolding find erase
find-erase-none addr other [] h = refl
find-erase-none addr other ((k, e) ∷ table) h =
    ground (arith, find-erase-none addr other table, ==_iff k addr, ==_iff k other)

pub IsDistinct-erase : (addr : ℕ) (table : Table) → IsDistinct table → IsDistinct (erase addr table)
unfolding erase
IsDistinct-erase addr [] d = tt
IsDistinct-erase addr ((k, e) ∷ table) d =
    ground (arith, IsDistinct-erase addr table d.1, find-erase-none k addr table d.0, d.1)

pub length-erase :
    (addr : ℕ) (table : Table) {e : Entry}
    → find addr table ≡ some e
    → suc (length (erase addr table)) ≡ length table
unfolding find erase
length-erase addr [] h = absurd (ground arith)
length-erase addr ((k, e) ∷ table) {e = f} h =
    ground (arith, λ (g : find addr table ≡ some f). length-erase addr table g)

-- What stands in the second table is found in the first.
abbrev pub AllFound : Table → Table → Type 0
AllFound table [] = Unit
AllFound table ((k, e) ∷ entries) = (find k table ≡ some e) × AllFound table entries

AllFound-cons :
    (k : ℕ) (e : Entry) (table entries : Table)
    → find k table ≡ none
    → AllFound table entries
    → AllFound ((k, e) ∷ table) entries
unfolding find
AllFound-cons k e table [] free h = tt
AllFound-cons k e table ((j, f) ∷ entries) free h =
    (ground (arith, free, h.0, ==_iff k j), AllFound-cons k e table entries free h.1)

pub AllFound-self : (table : Table) → IsDistinct table → AllFound table table
unfolding find
AllFound-self [] d = tt
AllFound-self ((k, e) ∷ table) d =
    (ground (arith, ==_iff k k), AllFound-cons k e table table d.0 (AllFound-self table d.1))
