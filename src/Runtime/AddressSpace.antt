-- ===== src/Runtime/AddressSpace.antt =====
-- The address space of a device: qubus/src/local_address_space.cpp, with the allocator of
-- qubus/src/evicting_allocator.cpp. The table of a hash map is a list of its entries in the order of
-- iteration. An allocator is an interface; that of the host is modelled.
pub mod Tables
pub mod Eviction
pub mod Allocation
pub mod Host
use qubus.Base.{
  ℕ, zero, suc, ◌+◌, ◌==◌, leb, Bool, true, false, not, if◌then◌else◌, Option, none, some, List, [],
  ◌∷◌, ◌%◌,
}
use qubus.Base.Results.{Result, ok, fail, exception, undefined_behaviour, out_of_fuel, ◌>>=◌}

-- An `address_entry`; its block, of some size, is missing where the allocation failed.
pub record Page : Type 0 where
  pub page_id : ℕ
  pub block : Option ℕ

-- A `shared_future<handle>`.
pub data Entry : Type 0 where
  pending failed : Entry
  ready : Page → Entry

abbrev pub Table : Type 0
Table = List (ℕ × Entry)

-- The interface `allocator`: it gives the size of the block, if there is one, or throws.
pub record Allocator (Memory : Type 0) : Type 0 where
  pub allocate : Memory → ℕ → ℕ → Result (Option (ℕ × Memory))
  pub deallocate : Memory → ℕ → Memory

-- `held` lists the page of every handle that a client holds.
pub record AddressSpace (Memory : Type 0) : Type 0 where
  pub memory : Memory
  pub entry_table : Table
  pub held : List ℕ
  pub next_page : ℕ

unfoldable pub find : ℕ → Table → Option Entry
find addr [] = none
find addr ((k, e) ∷ table) = let rest = find addr table in if k == addr then some e else rest

unfoldable pub erase : ℕ → Table → Table
erase addr [] = []
erase addr ((k, e) ∷ table) =
    let rest = erase addr table in if k == addr then table else (k, e) ∷ rest

unfoldable pub uses_in_table : ℕ → Table → ℕ
uses_in_table p [] = 0
uses_in_table p ((k, ready q) ∷ table) = (if q.page_id == p then 1 else 0) + uses_in_table p table
uses_in_table p ((k, _) ∷ table) = uses_in_table p table

unfoldable pub uses_in_handles : ℕ → List ℕ → ℕ
uses_in_handles p [] = 0
uses_in_handles p (q ∷ qs) = (if q == p then 1 else 0) + uses_in_handles p qs

unfoldable pub remove_one : ℕ → List ℕ → List ℕ
remove_one p [] = []
remove_one p (q ∷ qs) = let rest = remove_one p qs in if q == p then qs else q ∷ rest

-- `emplace`, and the assertion that the address was free.
unfoldable pub emplace : ℕ → Entry → Table → Result Table
unfolding find
emplace addr e table = elim (find addr table) [
  | none ↦ ok ((addr, e) ∷ table)
  | some _ ↦ fail exception
]

module _ {Memory : Type 0} (allocator : Allocator Memory) where
  -- `use_count()` of the shared page.
  unfoldable pub use_count : ℕ → AddressSpace Memory → ℕ
  use_count p s = uses_in_table p s.entry_table + uses_in_handles p s.held

  -- The block of a page goes back to the allocator with its last handle.
  unfoldable pub collect : Page → AddressSpace Memory → AddressSpace Memory
  unfolding use_count
  collect p s = elim p.block [
    | none ↦ s
    | some size ↦
        if use_count p.page_id s == 0
        then record s { memory = allocator.deallocate s.memory size }
        else s
  ]

  abbrev pub collect_entry : Option Entry → AddressSpace Memory → AddressSpace Memory
  collect_entry (some (ready p)) s = collect p s
  collect_entry _ s = s

  -- `free_object`.
  unfoldable pub free_object : ℕ → AddressSpace Memory → AddressSpace Memory
  unfolding collect find erase
  free_object addr s =
      collect_entry (find addr s.entry_table) (record s { entry_table = erase addr s.entry_table })

  -- `handle::free`, by a client that holds a handle of the page.
  unfoldable pub release : Page → AddressSpace Memory → AddressSpace Memory
  unfolding collect
  release p s = collect p (record s { held = remove_one p.page_id s.held })

  -- A unique page is evicted. If more memory is asked for, the loop goes on with an iterator that
  -- the erasure has invalidated.
  abbrev pub evict_entry : ℕ → ℕ → Page → AddressSpace Memory → Result (Bool × AddressSpace Memory)
  evict_entry hint addr p s = elim p.block [
    | none ↦ fail undefined_behaviour
    | some size ↦ if leb hint size then ok (true, free_object addr s) else fail undefined_behaviour
  ]

  -- The loop of `evict_objects`. `get` throws on a failed future.
  unfoldable pub evict_from : ℕ → AddressSpace Memory → Table → Result (Bool × AddressSpace Memory)
  unfolding use_count
  evict_from hint s [] = ok (false, s)
  evict_from hint s ((addr, pending) ∷ entries) = evict_from hint s entries
  evict_from hint s ((addr, failed) ∷ entries) = fail exception
  evict_from hint s ((addr, ready p) ∷ entries) =
      let rest = evict_from hint s entries in
      if use_count p.page_id s == 1 then evict_entry hint addr p s else rest

  unfoldable pub evict_objects : ℕ → AddressSpace Memory → Result (Bool × AddressSpace Memory)
  unfolding evict_from
  evict_objects hint s = evict_from hint s s.entry_table

  -- `evicting_allocator::allocate`; the fuel bounds the rounds of its loop.
  unfoldable pub allocate :
      ℕ → ℕ → ℕ → AddressSpace Memory → Result (Option ℕ × AddressSpace Memory)
  unfolding evict_objects
  allocate zero size alignment s = fail out_of_fuel
  allocate (suc fuel) size alignment s = do
    attempt ← allocator.allocate s.memory size alignment
    elim attempt [
      | some (block, memory) ↦ ok (some block, record s { memory = memory })
      | none ↦ do
        evicted ← evict_objects 0 s
        let retried = allocate fuel size alignment evicted.1
        if evicted.0 then retried else ok (none, evicted.1)
    ]

  -- `allocate_page`: a new page, held by the caller, whatever came of the allocation.
  unfoldable pub allocate_page :
      ℕ → ℕ → ℕ → AddressSpace Memory → Result (Page × AddressSpace Memory)
  unfolding allocate
  allocate_page fuel size alignment s = do
    outcome ← allocate fuel size alignment s
    let s' = outcome.1
    ok (
      record { page_id = s'.next_page; block = outcome.0 },
      record s' { held = s'.next_page ∷ s'.held; next_page = suc s'.next_page },
    )

  -- `register_page`: the handle moves into the table.
  unfoldable pub register_page : ℕ → Page → AddressSpace Memory → Result (AddressSpace Memory)
  unfolding emplace
  register_page addr p s = do
    table ← emplace addr (ready p) s.entry_table
    ok (record s { entry_table = table; held = remove_one p.page_id s.held })

  abbrev pub hold : Page → AddressSpace Memory → AddressSpace Memory
  hold p s = record s { held = p.page_id ∷ s.held }

  -- `try_resolve_object`: a handle, if the entry is there and its future has arrived.
  unfoldable pub try_resolve_object :
      ℕ → AddressSpace Memory → Result (Option Page × AddressSpace Memory)
  try_resolve_object addr s = elim (find addr s.entry_table) [
    | some (ready p) ↦ ok (some p, hold p s)
    | some failed ↦ fail exception
    | _ ↦ ok (none, s)
  ]

  -- `resolve_object`: `none` is a future that has not arrived. The handler of page faults may use
  -- the address space before it returns the entry.
  unfoldable pub resolve_object :
      (ℕ → AddressSpace Memory → Result (Entry × AddressSpace Memory))
      → ℕ
      → AddressSpace Memory
      → Result (Option Page × AddressSpace Memory)
  unfolding find emplace
  resolve_object on_page_fault addr s = elim (find addr s.entry_table) [
    | some (ready p) ↦ ok (some p, hold p s)
    | some pending ↦ ok (none, s)
    | some failed ↦ fail exception
    | none ↦ do
      fault ← on_page_fault addr s
      let s' = fault.1
      table ← emplace addr fault.0 s'.entry_table
      ok (none, record s' { entry_table = table })
  ]
