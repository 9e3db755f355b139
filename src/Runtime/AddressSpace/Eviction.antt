-- ===== src/Runtime/AddressSpace/Eviction.antt =====
-- What an eviction does: it gives back one page that nobody holds, or finds none.
use qubus.Base.{
  ℕ, ◌==◌, ==_iff, Bool, true, false, some, [], ◌∷◌, All, ◌≡◌, ◌≢◌, arith, inl, inr, Bool-cases,
}
use qubus.Base.Results.{ok}
use qubus.Runtime.AddressSpace.{
  Page, Entry, pending, failed, ready, Table, Allocator, AddressSpace, find, erase, use_count,
  collect, free_object, evict_entry, evict_from, evict_objects,
}
use qubus.Runtime.AddressSpace.Tables.{IsDistinct, AllFound, AllFound-self}

module _ {Memory : Type 0} (allocator : Allocator Memory) where
  collect-table :
      (p : Page) (s : AddressSpace Memory)
      → ((collect allocator p s).entry_table ≡ s.entry_table)
        × ((collect allocator p s).held ≡ s.held)
  unfolding collect
  collect-table p s = ground arith

  -- Freeing an object takes its entry out of the table, and no handle from a client.
  pub free_object-table :
      (addr : ℕ) (s : AddressSpace Memory)
      → ((free_object allocator addr s).entry_table ≡ erase addr s.entry_table)
        × ((free_object allocator addr s).held ≡ s.held)
  unfolding free_object
  free_object-table addr s =
      ground
        (arith, λ (p : Page). collect-table p (record s { entry_table = erase addr s.entry_table }))

  -- The page of the entry is in use, or has not arrived.
  abbrev pub IsPinned : AddressSpace Memory → ℕ × Entry → Type 0
  IsPinned s (k, pending) = Unit
  IsPinned s (k, failed) = ⊥
  IsPinned s (k, ready p) = use_count allocator p.page_id s ≢ 1

  -- A page that only the table holds went, or every entry of the list is pinned.
  abbrev pub Evicts : AddressSpace Memory → Table → Bool → AddressSpace Memory → Type 0
  Evicts s entries true s' =
      (addr : ℕ) × (p : Page) × (find addr s.entry_table ≡ some (ready p))
      × (use_count allocator p.page_id s ≡ 1)
      × (s' ≡ free_object allocator addr s)
  Evicts s entries false s' = (s' ≡ s) × All (IsPinned s) entries

  Evicts-cons :
      (s : AddressSpace Memory) (k : ℕ) (e : Entry) (entries : Table) (b : Bool)
      (s' : AddressSpace Memory)
      → IsPinned s (k, e)
      → Evicts s entries b s'
      → Evicts s ((k, e) ∷ entries) b s'
  Evicts-cons s k e entries true s' pinned h = h
  Evicts-cons s k e entries false s' pinned h = (h.0, (pinned, h.1))

  evict_entry_unique :
      (s : AddressSpace Memory) (addr : ℕ) (p : Page) (b : Bool) (s' : AddressSpace Memory)
      → evict_entry allocator 0 addr p s ≡ ok (b, s')
      → (b ≡ true) × (s' ≡ free_object allocator addr s)
  evict_entry_unique s addr p b s' h = ground arith

  evict_from_lem :
      (s : AddressSpace Memory) (entries : Table) (b : Bool) (s' : AddressSpace Memory)
      → AllFound s.entry_table entries
      → evict_from allocator 0 s entries ≡ ok (b, s')
      → Evicts s entries b s'
  unfolding evict_from
  evict_from_lem s [] true s' found h = absurd (ground arith)
  evict_from_lem s [] false s' found h = (cc, tt)
  evict_from_lem s ((k, pending) ∷ entries) b s' found h =
      Evicts-cons s k pending entries b s' tt (evict_from_lem s entries b s' found.1 h)
  evict_from_lem s ((k, failed) ∷ entries) b s' found h = cc h
  evict_from_lem s ((k, ready p) ∷ entries) b s' found h =
      elim (Bool-cases (use_count allocator p.page_id s == 1)) [
        | inl alone ↦
            let (went, same) = evict_entry_unique s k p b s' (ground (arith, alone)) in
            rw went (k, p, found.0, (==_iff (use_count allocator p.page_id s) 1).0 alone, same)
        | inr shared ↦
            Evicts-cons s k (ready p) entries b s'
              (λ e. ground (arith, shared, (==_iff (use_count allocator p.page_id s) 1).1 e))
              (evict_from_lem s entries b s' found.1 (ground (arith, shared)))
      ]

  -- An eviction takes one page that only the table holds out of the table, or finds every page in
  -- use or still to arrive, and then leaves the address space as it is.
  pub evict_objects_lem :
      (s : AddressSpace Memory) (b : Bool) (s' : AddressSpace Memory)
      → IsDistinct s.entry_table
      → evict_objects allocator 0 s ≡ ok (b, s')
      → Evicts s s.entry_table b s'
  unfolding evict_objects
  evict_objects_lem s b s' distinct h =
      evict_from_lem s s.entry_table b s' (AllFound-self s.entry_table distinct) h
