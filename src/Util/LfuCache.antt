-- ===== src/Util/LfuCache.antt =====
-- The cache of a function that evicts the least frequently used record,
-- util/include/qubus/util/lfu_cache.hpp. A handle of the map is the entry of its key.
pub mod Memo
use qubus.Base.{
  ℕ, suc, zero, Bool, true, false, ◌==◌, ltb, if◌then◌else◌, Option, none, some, List, [], ◌∷◌,
  length, get_elem?,
}

pub record Entry (K V : Type 0) : Type 0 where
  pub use_count : ℕ
  pub key : K
  pub value : V

-- `eviction_queue_` and `key_entry_map_`.
pub record Cache (K V : Type 0) : Type 0 where
  pub eviction_queue : List (Entry K V)
  pub key_entry_map : List K

module _ {K : Type 0} (same : K → K → Bool) where
  unfoldable pub has_key : K → List K → Bool
  has_key k [] = false
  has_key k (l ∷ ls) = let rest = has_key k ls in if same l k then true else rest

  unfoldable pub erase : K → List K → List K
  erase k [] = []
  erase k (l ∷ ls) = let rest = erase k ls in if same l k then ls else l ∷ rest

module _ {K V : Type 0} where
  unfoldable pub remove_nth : ℕ → List (Entry K V) → List (Entry K V)
  remove_nth n [] = []
  remove_nth zero (e ∷ es) = es
  remove_nth (suc n) (e ∷ es) = e ∷ remove_nth n es

  module _ (same : K → K → Bool) where
    -- What a handle points to, and the queue after `increase` has been called with it.
    unfoldable pub dereference : K → List (Entry K V) → Option V
    dereference k [] = none
    dereference k (e ∷ es) =
        let rest = dereference k es in if same e.key k then some e.value else rest

    unfoldable pub count_use : ℕ → K → List (Entry K V) → List (Entry K V)
    count_use threshold k [] = []
    count_use threshold k (e ∷ es) =
        let rest = count_use threshold k es in
        if same e.key k
        then (if ltb e.use_count threshold
            then record e { use_count = suc e.use_count } ∷ es
            else e ∷ es)
        else e ∷ rest

    -- The place in the queue of what the heap holds for its top is a parameter.
    module _ (fn : K → V) (capacity threshold : ℕ) (top : List (Entry K V) → ℕ) where
      abbrev pub without : Option (Entry K V) → Cache K V → Cache K V
      without none c = c
      without (some e) c = record {
        eviction_queue = remove_nth (top c.eviction_queue) c.eviction_queue;
        key_entry_map = erase same e.key c.key_entry_map;
      }

      unfoldable pub evict : Cache K V → Cache K V
      unfolding remove_nth erase
      evict c = without (get_elem? c.eviction_queue (top c.eviction_queue)) c

      abbrev pub push : K → V → Cache K V → Cache K V
      push k v c = record {
        eviction_queue = record { use_count = 1; key = k; value = v } ∷ c.eviction_queue;
        key_entry_map = k ∷ c.key_entry_map;
      }

      unfoldable pub insert : K → V → Cache K V → Cache K V
      unfolding evict
      insert k v c = if length c.eviction_queue == capacity then push k v (evict c) else push k v c

      abbrev pub used : K → Option V → Cache K V → Option (V × Cache K V)
      used k none c = none
      used k (some v) c =
          some (v, record c { eviction_queue = count_use threshold k c.eviction_queue })

      unfoldable pub call : K → Cache K V → Option (V × Cache K V)
      unfolding insert has_key dereference count_use
      call k c =
          if has_key same k c.key_entry_map
          then used k (dereference k c.eviction_queue) c
          else some (fn k, insert k (fn k) c)
