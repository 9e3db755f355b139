-- ===== src/Runtime/AddressSpace/Allocation.antt =====
-- Allocation with eviction: it ends, it takes no page from a client, and it gives up only when
-- nothing is left to evict.
use qubus.Base.{
  ℕ, zero, suc, ◌<◌, ◌==◌, ==_iff, Bool, true, false, if◌then◌else◌, Option, none, some, [], ◌∷◌,
  length, All, ◌≡◌, ◌≢◌, refl, sym, subst, ap, ◌∙◌, arith, ◌⊎◌, inl, inr,
}
use qubus.Base.Results.{ok, ◌>>=◌, >>=-eq-ok, IsFueled, >>=-IsFueled, if-IsFueled}
use qubus.Runtime.AddressSpace.{
  Page, Entry, pending, failed, ready, Table, Allocator, AddressSpace, find, uses_in_table,
  uses_in_handles, use_count, evict_from, evict_objects, evict_entry, allocate,
}
use qubus.Runtime.AddressSpace.Tables.{IsDistinct, find-erase-other, IsDistinct-erase, length-erase}
use qubus.Runtime.AddressSpace.Eviction.{IsPinned, Evicts, evict_objects_lem, free_object-table}

ok-injective {ℓ} : {A : Type ℓ} {a b : A} → ok a ≡ ok b → a ≡ b
ok-injective h = cc

some-not-none {ℓ} : {A : Type ℓ} {a : A} → none ≢ some a
some-not-none h = cc

module _ {Memory : Type 0} (allocator : Allocator Memory) where
  -- The object is still to arrive, or a client holds a handle of its page.
  abbrev pub IsKept : AddressSpace Memory → Entry → Type 0
  IsKept s pending = Unit
  IsKept s failed = ⊥
  IsKept s (ready p) = 0 < uses_in_handles p.page_id s.held

  uses_in_table_found :
      (addr : ℕ) (p : Page) (table : Table)
      → find addr table ≡ some (ready p)
      → 0 < uses_in_table p.page_id table
  unfolding find uses_in_table
  uses_in_table_found addr p [] h = absurd (ground arith)
  uses_in_table_found addr p ((k, ready q) ∷ table) h =
      ground (arith, uses_in_table_found addr p table, ==_iff q.page_id q.page_id)
  uses_in_table_found addr p ((k, pending) ∷ table) h =
      ground (arith, uses_in_table_found addr p table)
  uses_in_table_found addr p ((k, failed) ∷ table) h =
      ground (arith, uses_in_table_found addr p table)

  -- The address space after some evictions: clients keep what they hold.
  abbrev pub Keeps : AddressSpace Memory → AddressSpace Memory → Type 0
  Keeps s s' =
      IsDistinct s'.entry_table
      × (s'.held ≡ s.held)
      × ((addr : ℕ) (e : Entry)
          → find addr s.entry_table ≡ some e
          → IsKept s e
          → find addr s'.entry_table ≡ some e)

  Keeps-self : (s : AddressSpace Memory) → IsDistinct s.entry_table → Keeps s s
  Keeps-self s d = (d, refl, λ addr e h k. h)

  IsKept-held :
      (s s' : AddressSpace Memory) (e : Entry) → s'.held ≡ s.held → IsKept s e → IsKept s' e
  IsKept-held s s' pending h k = tt
  IsKept-held s s' failed h k = k
  IsKept-held s s' (ready p) h k = rw h k

  Keeps-trans : (s t u : AddressSpace Memory) → Keeps s t → Keeps t u → Keeps s u
  Keeps-trans s t u h k = (
    k.0,
    k.1 ∙ h.1,
    λ addr e found kept. k.2 addr e (h.2 addr e found kept) (IsKept-held s t e h.1 kept),
  )

  not_evicted :
      (s : AddressSpace Memory) (addr : ℕ) (p : Page) (e : Entry)
      → find addr s.entry_table ≡ some (ready p)
      → use_count allocator p.page_id s ≡ 1
      → find addr s.entry_table ≡ some e
      → ¬ IsKept s e
  unfolding use_count
  not_evicted s addr p pending h u g k = cc
  not_evicted s addr p failed h u g k = k
  not_evicted s addr p (ready q) h u g k =
      let same : p ≡ q = cc in
      omega (arith, u, uses_in_table_found addr p s.entry_table h, rw (← same) at k)

  Keeps-eviction :
      (s s' : AddressSpace Memory) (b : Bool)
      → IsDistinct s.entry_table
      → Evicts allocator s s.entry_table b s'
      → Keeps s s'
  Keeps-eviction s s' true d (addr, p, found, alone, same) =
      let (table, held) = free_object-table allocator addr s in
      rw same (
        rw table (IsDistinct-erase addr s.entry_table d),
        held,
        λ other e h k. rw table (
            find-erase-other other addr s.entry_table
              (λ eq. not_evicted s addr p e found alone (rw eq at h) k)
            ∙ h),
      )
  Keeps-eviction s s' false d h = rw h.0 (Keeps-self s d)

  -- An eviction shortens the table.
  length-eviction :
      (s s' : AddressSpace Memory)
      → Evicts allocator s s.entry_table true s'
      → suc (length s'.entry_table) ≡ length s.entry_table
  length-eviction s s' (addr, p, found, alone, same) =
      rw (same, (free_object-table allocator addr s).0) (length-erase addr s.entry_table found)

  -- One round of the loop, taken apart.
  round :
      (fuel size alignment : ℕ) (s : AddressSpace Memory) {result : Option ℕ × AddressSpace Memory}
      → allocate allocator (suc fuel) size alignment s ≡ ok result
      → ((block : ℕ) × (memory : Memory) × (allocator.allocate s.memory size alignment
            ≡ ok (some (block, memory)))
          × (result ≡ (some block, record s { memory = memory })))
        ⊎ ((b : Bool) × (s' : AddressSpace Memory) × (allocator.allocate s.memory size alignment
              ≡ ok none)
            × (evict_objects allocator 0 s ≡ ok (b, s'))
            × ((if b then allocate allocator fuel size alignment s' else ok (none, s'))
                ≡ ok result))
  unfolding allocate
  round fuel size alignment s {result = result} h =
      let (attempt, p, q) = >>=-eq-ok (allocator.allocate s.memory size alignment) _ h in
      of_attempt attempt p q
    where
      of_attempt :
          (attempt : Option (ℕ × Memory))
          → allocator.allocate s.memory size alignment ≡ ok attempt
          → (elim attempt [
            | some (block, memory) ↦ ok (some block, record s { memory = memory })
            | none ↦ do
              evicted ← evict_objects allocator 0 s
              let retried = allocate allocator fuel size alignment evicted.1
              if evicted.0 then retried else ok (none, evicted.1)
          ])
            ≡ ok result
          → ((block : ℕ) × (memory : Memory) × (allocator.allocate s.memory size alignment
                ≡ ok (some (block, memory)))
              × (result ≡ (some block, record s { memory = memory })))
            ⊎ ((b : Bool) × (s' : AddressSpace Memory) × (allocator.allocate s.memory size alignment
                  ≡ ok none)
                × (evict_objects allocator 0 s ≡ ok (b, s'))
                × ((if b then allocate allocator fuel size alignment s' else ok (none, s'))
                    ≡ ok result))
      of_attempt (some (block, memory)) p q = inl (block, memory, p, cc)
      of_attempt none p q =
          let (evicted, e, rest) = >>=-eq-ok (evict_objects allocator 0 s) _ q in
          inr (evicted.0, evicted.1, p, e, rest)

  -- Allocation takes no object from a client: what a client holds a handle of, or what is still to
  -- arrive, stands at its address afterwards, and addresses stay distinct.
  pub allocate-Keeps :
      (fuel size alignment : ℕ) (s s' : AddressSpace Memory) (block : Option ℕ)
      → IsDistinct s.entry_table
      → allocate allocator fuel size alignment s ≡ ok (block, s')
      → Keeps s s'
  unfolding allocate
  allocate-Keeps zero size alignment s s' block d h = cc h
  allocate-Keeps (suc fuel) size alignment s s' block d h = elim (round fuel size alignment s h) [
    | inl (size', memory, p, same) ↦ rw (ap (λ r. r.1) same) (Keeps-self s d)
    | inr (true, t, p, e, rest) ↦
        let kept = Keeps-eviction s t true d (evict_objects_lem allocator s true t d e) in
        Keeps-trans s t s' kept (allocate-Keeps fuel size alignment t s' block kept.0 rest)
    | inr (false, t, p, e, rest) ↦
        let kept = Keeps-eviction s t false d (evict_objects_lem allocator s false t d e) in
        subst (Keeps s) (ap (λ r. r.1) (ok-injective rest)) kept
  ]

  -- Allocation fails only when the allocator has no memory and every page is in use or still to
  -- arrive.
  pub allocate-exhausted :
      (fuel size alignment : ℕ) (s s' : AddressSpace Memory)
      → IsDistinct s.entry_table
      → allocate allocator fuel size alignment s ≡ ok (none, s')
      → (allocator.allocate s'.memory size alignment ≡ ok none)
        × All (IsPinned allocator s') s'.entry_table
  unfolding allocate
  allocate-exhausted zero size alignment s s' d h = cc h
  allocate-exhausted (suc fuel) size alignment s s' d h = elim (round fuel size alignment s h) [
    | inl (size', memory, p, same) ↦ absurd (some-not-none (ap (λ r. r.0) same))
    | inr (true, t, p, e, rest) ↦
        let kept = Keeps-eviction s t true d (evict_objects_lem allocator s true t d e) in
        allocate-exhausted fuel size alignment t s' kept.0 rest
    | inr (false, t, p, e, rest) ↦
        let (same, pinned) = evict_objects_lem allocator s false t d e in
        let last : s' ≡ s = ap (λ r. r.1) (ok-injective (sym rest)) ∙ same in rw last (p, pinned)
  ]

  evict_entry-IsFueled :
      (addr : ℕ) (p : Page) (s : AddressSpace Memory) → IsFueled (evict_entry allocator 0 addr p s)
  evict_entry-IsFueled addr p s = ground arith

  evict_from-IsFueled :
      (s : AddressSpace Memory) (entries : Table) → IsFueled (evict_from allocator 0 s entries)
  unfolding evict_from
  evict_from-IsFueled s [] = tt
  evict_from-IsFueled s ((k, pending) ∷ entries) = evict_from-IsFueled s entries
  evict_from-IsFueled s ((k, failed) ∷ entries) = tt
  evict_from-IsFueled s ((k, ready p) ∷ entries) =
      if-IsFueled (use_count allocator p.page_id s == 1) _ _ (evict_entry-IsFueled k p s)
        (evict_from-IsFueled s entries)

  after_eviction :
      (fuel size alignment : ℕ) (s : AddressSpace Memory)
      → IsDistinct s.entry_table
      → length s.entry_table < suc fuel
      → ((t : AddressSpace Memory)
          → IsDistinct t.entry_table
          → length t.entry_table < fuel
          → IsFueled (allocate allocator fuel size alignment t))
      → (b : Bool) (s' : AddressSpace Memory) → evict_objects allocator 0 s ≡ ok (b, s')
      → IsFueled (if b then allocate allocator fuel size alignment s' else ok (none, s'))
  after_eviction fuel size alignment s d h again false s' e = tt
  after_eviction fuel size alignment s d h again true s' e =
      let went = evict_objects_lem allocator s true s' d e in
      again s' (Keeps-eviction s s' true d went).0 (omega (arith, length-eviction s s' went))

  -- The loop ends within one round more than there are entries, if the allocator returns.
  pub allocate-IsFueled :
      ((m : Memory) (size alignment : ℕ) → IsFueled (allocator.allocate m size alignment))
      → (fuel size alignment : ℕ) (s : AddressSpace Memory) → IsDistinct s.entry_table
      → length s.entry_table < fuel
      → IsFueled (allocate allocator fuel size alignment s)
  unfolding allocate evict_objects
  allocate-IsFueled returns zero size alignment s d h = absurd (omega arith)
  allocate-IsFueled returns (suc fuel) size alignment s d h =
      >>=-IsFueled (allocator.allocate s.memory size alignment) _ (returns s.memory size alignment)
        λ attempt _. of_attempt (allocate-IsFueled returns fuel size alignment) attempt
    where
      of_attempt :
          ((t : AddressSpace Memory)
            → IsDistinct t.entry_table
            → length t.entry_table < fuel
            → IsFueled (allocate allocator fuel size alignment t))
          → (attempt : Option (ℕ × Memory))
          → IsFueled (elim attempt [
            | some (block, memory) ↦ ok (some block, record s { memory = memory })
            | none ↦ do
              evicted ← evict_objects allocator 0 s
              let retried = allocate allocator fuel size alignment evicted.1
              if evicted.0 then retried else ok (none, evicted.1)
          ])
      of_attempt again (some (block, memory)) = tt
      of_attempt again none =
          >>=-IsFueled (evict_objects allocator 0 s) _ (evict_from-IsFueled s s.entry_table)
            λ evicted e. after_eviction fuel size alignment s d h again evicted.0 evicted.1 e
