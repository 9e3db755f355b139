-- ===== src/Tests/Runtime/Memory.antt =====
-- An address space over a heap that counts its free bytes.
use qubus.Base.{ℕ, ◌+◌, ◌-◌, ◌≡◌, refl, arith, leb, true, if◌then◌else◌, none, some, [], ◌∷◌, All}
use qubus.Base.Results.{ok, IsFueled}
use qubus.Runtime.AddressSpace.{
  Page, pending, failed, ready, Allocator, AddressSpace, find, evict_objects, free_object, allocate,
  uses_in_table, uses_in_handles,
}
use qubus.Runtime.AddressSpace.Tables.{IsDistinct}
use qubus.Runtime.AddressSpace.Eviction.{IsPinned}
use qubus.Runtime.AddressSpace.Allocation.{
  Keeps, allocate-Keeps, allocate-exhausted, allocate-IsFueled,
}
use qubus.Runtime.AddressSpace.Host.{Heap}

abbrev counting : Allocator ℕ
counting = record {
  allocate =
      λ free size alignment. if leb size free then ok (some (size, free - size)) else ok none;
  deallocate = λ free size. free + size;
}

abbrev page : ℕ → Page
page p = record { page_id = p; block = some 8 }

-- A page that is held, one that is not, and one that is still to arrive; four bytes are free.
abbrev space : AddressSpace ℕ
space = record {
  memory = 4;
  entry_table = (10, ready (page 0)) ∷ (11, ready (page 1)) ∷ (12, pending) ∷ [];
  held = 0 ∷ [];
  next_page = 2;
}

space-IsDistinct : IsDistinct space.entry_table
unfolding find
space-IsDistinct = (refl, (refl, (refl, tt)))

abbrev evicted : AddressSpace ℕ
evicted = record {
  memory = 12;
  entry_table = (10, ready (page 0)) ∷ (12, pending) ∷ [];
  held = 0 ∷ [];
  next_page = 2;
}

space_evicts : evict_objects counting 0 space ≡ ok (true, evicted)
unfolding evict_objects uses_in_table uses_in_handles free_object
space_evicts = refl

abbrev allocated : AddressSpace ℕ
allocated = record evicted { memory = 2 }

space_allocates : allocate counting 4 10 8 space ≡ ok (some 10, allocated)
unfolding allocate uses_in_table uses_in_handles free_object
space_allocates = refl

allocate-Keeps_example : Keeps counting space allocated
allocate-Keeps_example =
    allocate-Keeps counting 4 10 8 space allocated (some 10) space-IsDistinct space_allocates

space_is_exhausted : allocate counting 4 100 8 space ≡ ok (none, evicted)
unfolding allocate uses_in_table uses_in_handles free_object
space_is_exhausted = refl

allocate-exhausted_example :
    (counting.allocate 12 100 8 ≡ ok none) × All (IsPinned counting evicted) evicted.entry_table
allocate-exhausted_example =
    allocate-exhausted counting 4 100 8 space evicted space-IsDistinct space_is_exhausted

counting_returns : (m size alignment : ℕ) → IsFueled (counting.allocate m size alignment)
counting_returns m size alignment = ground arith

allocate-IsFueled_example : IsFueled (allocate counting 4 100 8 space)
allocate-IsFueled_example =
    allocate-IsFueled counting counting_returns 4 100 8 space space-IsDistinct (omega arith)

abbrev heap : Heap ℕ
heap = record {
  posix_memalign = λ free alignment size. if leb size free then some (free - size) else none;
  release = λ free size. free + size;
}

abbrev poisoned : AddressSpace ℕ
poisoned = record space { entry_table = (9, failed) ∷ space.entry_table }
