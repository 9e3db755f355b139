-- ===== src/Runtime/AddressSpace/Host.antt =====
-- The allocator of the host, qubus/src/host_allocator.cpp, behind the evicting allocator. What
-- `posix_memalign` and `free` do is a parameter.
use qubus.Base.{
  ℕ, zero, suc, ◌%◌, ◌/◌, ◌+◌, ◌*◌, ◌-◌, not, ◌==◌, Bool, ◌&&◌, if◌then◌else◌, Option, none, some,
  ◌≡◌, refl, arith, List, ◌∷◌,
}
use qubus.Base.Results.{IsFueled, Result, ok, fail, exception}
use qubus.Runtime.AddressSpace.{
  Entry, failed, Allocator, AddressSpace, allocate, evict_objects, evict_from,
}

-- `posix_memalign` fails, or gives a block of the size.
pub record Heap (Memory : Type 0) : Type 0 where
  pub posix_memalign : Memory → ℕ → ℕ → Option Memory
  pub release : Memory → ℕ → Memory

-- `&` on 64-bit words: the fuel is the number of bits.
unfoldable pub bit_and : ℕ → ℕ → ℕ → ℕ
bit_and zero a b = 0
bit_and (suc bits) a b = (a % 2) * (b % 2) + 2 * bit_and bits (a / 2) (b / 2)

unfoldable pub is_power_of_two : ℕ → Bool
unfolding bit_and
is_power_of_two x = not (x == 0) && bit_and 64 x (x - 1) == 0

module _ {Memory : Type 0} (heap : Heap Memory) where
  -- `host_allocator::allocate`, with its assertions on the alignment; a pointer has 8 bytes.
  unfoldable pub host_allocate : Memory → ℕ → ℕ → Result (Option (ℕ × Memory))
  host_allocate m size alignment =
      if (alignment % 8 == 0) && is_power_of_two alignment
      then elim (heap.posix_memalign m alignment size) [
        | none ↦ fail exception
        | some m' ↦ ok (some (size, m'))
      ]
      else fail exception

  abbrev pub host_allocator : Allocator Memory
  host_allocator = record { allocate = host_allocate; deallocate = heap.release }

  pub host_allocate-IsFueled :
      (m : Memory) (size alignment : ℕ) → IsFueled (host_allocate m size alignment)
  unfolding host_allocate
  host_allocate-IsFueled m size alignment = ground arith

  -- On the host nothing is ever evicted: when the heap has no block left, the allocator throws, and
  -- the allocation fails whatever the address space could give back.
  pub allocate-host_allocator :
      (fuel size alignment : ℕ) (s : AddressSpace Memory)
      → heap.posix_memalign s.memory alignment size ≡ none
      → allocate host_allocator (suc fuel) size alignment s ≡ fail exception
  unfolding allocate host_allocate
  allocate-host_allocator fuel size alignment s h = ground (arith, h)

-- A failed page fault stays in the table: each later attempt to evict that meets it throws.
pub evict_objects-failed :
    {Memory : Type 0} (allocator : Allocator Memory) (hint addr : ℕ) (s : AddressSpace Memory)
    (rest : List (ℕ × Entry))
    → s.entry_table ≡ (addr, failed) ∷ rest
    → evict_objects allocator hint s ≡ fail exception
unfolding evict_objects evict_from
evict_objects-failed allocator hint addr s rest h = rw h refl
