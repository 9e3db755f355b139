-- ===== src/Util/LfuCache/Memo.antt =====
-- The cache of util/include/qubus/util/lfu_cache.hpp answers what its function does, and keeps to its
-- capacity.
use qubus.Base.{
  ℕ, suc, zero, ◌≤◌, ◌==◌, ==_iff, Bool, true, false, some, List, [], ◌∷◌, map, length, get_elem?,
  All, ◌≡◌, refl, sym, ap, subst, ◌∙◌, arith, inl, inr, Bool-cases, ltb, ltb→lt,
}
use qubus.Util.LfuCache.{
  Entry, Cache, has_key, erase, remove_nth, dereference, count_use, evict, push, insert, call,
}

module _ {K V : Type 0} (same : K → K → Bool) (fn : K → V) (capacity threshold : ℕ) where
  abbrev pub keys : List (Entry K V) → List K
  keys es = map (λ e. e.key) es

  abbrev pub AreDistinct : List K → Type 0
  AreDistinct [] = Unit
  AreDistinct (k ∷ ks) = (has_key same k ks ≡ false) × AreDistinct ks

  -- The map and the queue have the same keys, no key twice, within the capacity; each record has the
  -- value of the function, and was used no more often than the threshold counts.
  pub record IsMemo (c : Cache K V) : Type 0 where
    pub same_keys : c.key_entry_map ≡ keys c.eviction_queue
    pub distinct : AreDistinct (keys c.eviction_queue)
    pub values : All (λ e. e.value ≡ fn e.key) c.eviction_queue
    pub counts : All (λ e. e.use_count ≤ suc threshold) c.eviction_queue
    pub bounded : length c.eviction_queue ≤ capacity

  keys-count_use : (k : K) (es : List (Entry K V)) → keys (count_use same threshold k es) ≡ keys es
  unfolding count_use
  keys-count_use k [] = refl
  keys-count_use k (e ∷ es) = elim (Bool-cases (same e.key k)) [
    | inl p ↦ elim (Bool-cases (ltb e.use_count threshold)) [
      | inl q ↦ rw (p, q) refl
      | inr q ↦ rw (p, q) refl
    ]
    | inr p ↦ rw p (ap (λ ks. e.key ∷ ks) (keys-count_use k es))
  ]

  length-keys : (es : List (Entry K V)) → length (keys es) ≡ length es
  length-keys [] = refl
  length-keys (e ∷ es) = ap suc (length-keys es)

  length-count_use :
      (k : K) (es : List (Entry K V)) → length (count_use same threshold k es) ≡ length es
  length-count_use k es =
      sym (length-keys (count_use same threshold k es))
      ∙ ap length (keys-count_use k es)
      ∙ length-keys es

  values-count_use :
      (k : K) (es : List (Entry K V))
      → All (λ e. e.value ≡ fn e.key) es
      → All (λ e. e.value ≡ fn e.key) (count_use same threshold k es)
  unfolding count_use
  values-count_use k [] h = tt
  values-count_use k (e ∷ es) h = elim (Bool-cases (same e.key k)) [
    | inl p ↦ elim (Bool-cases (ltb e.use_count threshold)) [
      | inl q ↦ rw (p, q) h
      | inr q ↦ rw (p, q) h
    ]
    | inr p ↦ rw p (h.0, values-count_use k es h.1)
  ]

  counts-count_use :
      (k : K) (es : List (Entry K V))
      → All (λ e. e.use_count ≤ suc threshold) es
      → All (λ e. e.use_count ≤ suc threshold) (count_use same threshold k es)
  unfolding count_use
  counts-count_use k [] h = tt
  counts-count_use k (e ∷ es) h = elim (Bool-cases (same e.key k)) [
    | inl p ↦ elim (Bool-cases (ltb e.use_count threshold)) [
      | inl q ↦ rw (p, q) (omega (arith, ltb→lt e.use_count threshold q), h.1)
      | inr q ↦ rw (p, q) h
    ]
    | inr p ↦ rw p (h.0, counts-count_use k es h.1)
  ]

  All-remove_nth :
      (P : Entry K V → Type 0) (n : ℕ) (es : List (Entry K V)) → All P es → All P (remove_nth n es)
  unfolding remove_nth
  All-remove_nth P n [] h = tt
  All-remove_nth P zero (e ∷ es) h = h.1
  All-remove_nth P (suc n) (e ∷ es) h = (h.0, All-remove_nth P n es h.1)

  length-remove_nth :
      (n : ℕ) (es : List (Entry K V)) (e : Entry K V)
      → get_elem? es n ≡ some e
      → suc (length (remove_nth n es)) ≡ length es
  unfolding remove_nth
  length-remove_nth n [] e h = cc
  length-remove_nth zero (x ∷ es) e h = refl
  length-remove_nth (suc n) (x ∷ es) e h = ap suc (length-remove_nth n es e h)

  has_key_rest :
      (k l : K) (ks : List K)
      → has_key same k (l ∷ ks) ≡ false
      → (same l k ≡ false) × (has_key same k ks ≡ false)
  unfolding has_key
  has_key_rest k l ks h = elim (Bool-cases (same l k)) [
    | inl p ↦ cc (rw p at h)
    | inr p ↦ (p, rw p at h)
  ]

  has_key-remove_nth :
      (k : K) (n : ℕ) (es : List (Entry K V))
      → has_key same k (keys es) ≡ false
      → has_key same k (keys (remove_nth n es)) ≡ false
  unfolding remove_nth has_key
  has_key-remove_nth k n [] h = h
  has_key-remove_nth k zero (e ∷ es) h = (has_key_rest k e.key (keys es) h).1
  has_key-remove_nth k (suc n) (e ∷ es) h =
      let (other, rest) = has_key_rest k e.key (keys es) h in
      rw other (has_key-remove_nth k n es rest)

  AreDistinct-remove_nth :
      (n : ℕ) (es : List (Entry K V)) → AreDistinct (keys es) → AreDistinct (keys (remove_nth n es))
  unfolding remove_nth
  AreDistinct-remove_nth n [] h = tt
  AreDistinct-remove_nth zero (e ∷ es) h = h.1
  AreDistinct-remove_nth (suc n) (e ∷ es) h =
      (has_key-remove_nth e.key n es h.0, AreDistinct-remove_nth n es h.1)

  not_there :
      (k : K) (n : ℕ) (es : List (Entry K V)) (e : Entry K V)
      → get_elem? es n ≡ some e
      → has_key same k (keys es) ≡ false
      → same e.key k ≡ false
  not_there k n [] e h f = cc
  not_there k zero (x ∷ es) e h f =
      ap (λ u. same u k) (sym (key_of x e h)) ∙ (has_key_rest k x.key (keys es) f).0
    where
      key_of : (x e : Entry K V) → some x ≡ some e → x.key ≡ e.key
      key_of x e h = cc h
  not_there k (suc n) (x ∷ es) e h f = not_there k n es e h (has_key_rest k x.key (keys es) f).1

  module _ (same_eq : (a b : K) → same a b ≡ true → a ≡ b)
      (same_self : (a : K) → same a a ≡ true) where
    erase-remove_nth :
        (n : ℕ) (es : List (Entry K V)) (e : Entry K V)
        → get_elem? es n ≡ some e
        → AreDistinct (keys es)
        → erase same e.key (keys es) ≡ keys (remove_nth n es)
    unfolding remove_nth erase
    erase-remove_nth n [] e h d = cc
    erase-remove_nth zero (x ∷ es) e h d = rw here refl
      where
        here : same x.key e.key ≡ true
        here = cc (h, same_self x.key)
    erase-remove_nth (suc n) (x ∷ es) e h d =
        rw other (ap (λ ks. x.key ∷ ks) (erase-remove_nth n es e h d.1))
      where
        other : same x.key e.key ≡ false
        other = elim (Bool-cases (same x.key e.key)) [
          | inl p ↦ cc (same_eq x.key e.key p, not_there x.key n es e h d.0, same_self x.key)
          | inr p ↦ p
        ]

    dereference-has_key :
        (k : K) (es : List (Entry K V))
        → All (λ e. e.value ≡ fn e.key) es
        → has_key same k (keys es) ≡ true
        → dereference same k es ≡ some (fn k)
    unfolding has_key dereference
    dereference-has_key k [] v h = cc
    dereference-has_key k (e ∷ es) v h = elim (Bool-cases (same e.key k)) [
      | inl p ↦ rw p (ap some (v.0 ∙ ap fn (same_eq e.key k p)))
      | inr p ↦ rw p (dereference-has_key k es v.1 (rw p at h))
    ]

    module _ (top : List (Entry K V) → ℕ)
        (picks : (es : List (Entry K V))
          → 1 ≤ length es
          → (e : Entry K V) × (get_elem? es (top es) ≡ some e))
        (positive : 1 ≤ capacity) where
      -- What an eviction leaves has room for a record of another key.
      abbrev HasRoom : K → Cache K V → Type 0
      HasRoom k c =
          IsMemo c
          × (has_key same k (keys c.eviction_queue) ≡ false)
          × (suc (length c.eviction_queue) ≤ capacity)

      evict-HasRoom :
          (k : K) (c : Cache K V)
          → IsMemo c
          → has_key same k (keys c.eviction_queue) ≡ false
          → length c.eviction_queue ≡ capacity
          → HasRoom k (evict same fn capacity threshold top c)
      unfolding evict
      evict-HasRoom k c m absent full =
          let (e, there) = picks c.eviction_queue (omega (arith, positive, full)) in
          let shorter = length-remove_nth (top c.eviction_queue) c.eviction_queue e there in
          rw there (
            record {
              same_keys =
                  ap (erase same e.key) m.same_keys
                  ∙ erase-remove_nth (top c.eviction_queue) c.eviction_queue e there m.distinct;
              distinct = AreDistinct-remove_nth (top c.eviction_queue) c.eviction_queue m.distinct;
              values = All-remove_nth _ (top c.eviction_queue) c.eviction_queue m.values;
              counts = All-remove_nth _ (top c.eviction_queue) c.eviction_queue m.counts;
              bounded = omega (arith, m.bounded, shorter);
            },
            has_key-remove_nth k (top c.eviction_queue) c.eviction_queue absent,
            omega (arith, m.bounded, shorter),
          )

      push-IsMemo :
          (k : K) (c : Cache K V)
          → HasRoom k c
          → IsMemo (push same fn capacity threshold top k (fn k) c)
      push-IsMemo k c (m, absent, room) = record {
        same_keys = ap (λ ks. k ∷ ks) m.same_keys;
        distinct = (absent, m.distinct);
        values = (refl, m.values);
        counts = (omega arith, m.counts);
        bounded = room;
      }

      insert-IsMemo :
          (k : K) (c : Cache K V)
          → IsMemo c
          → has_key same k (keys c.eviction_queue) ≡ false
          → IsMemo (insert same fn capacity threshold top k (fn k) c)
      unfolding insert
      insert-IsMemo k c m absent = elim (Bool-cases (length c.eviction_queue == capacity)) [
        | inl p ↦ rw p (
            push-IsMemo k _
              (evict-HasRoom k c m absent ((==_iff (length c.eviction_queue) capacity).0 p)))
        | inr p ↦ rw p (push-IsMemo k c (m, absent, smaller (length c.eviction_queue) p m.bounded))
      ]
        where
          smaller : (l : ℕ) → (l == capacity) ≡ false → l ≤ capacity → suc l ≤ capacity
          smaller l p q = ground arith

      -- Whatever element of the queue the heap has on top, a call of a cache that keeps to its capacity
      -- answers with the value of the function and leaves such a cache.
      pub call-IsMemo :
          (k : K) (c : Cache K V)
          → IsMemo c
          → (c' : Cache K V) × (call same fn capacity threshold top k c ≡ some (fn k, c'))
            × IsMemo c'
      unfolding call
      call-IsMemo k c m = elim (Bool-cases (has_key same k c.key_entry_map)) [
        | inl p ↦
            let there =
              dereference-has_key k c.eviction_queue m.values
                (ap (has_key same k) (sym m.same_keys) ∙ p) in
            (
              record c { eviction_queue = count_use same threshold k c.eviction_queue },
              rw (p, there) refl,
              record {
                same_keys = m.same_keys ∙ sym (keys-count_use k c.eviction_queue);
                distinct = subst AreDistinct (sym (keys-count_use k c.eviction_queue)) m.distinct;
                values = values-count_use k c.eviction_queue m.values;
                counts = counts-count_use k c.eviction_queue m.counts;
                bounded =
                    subst (λ l. l ≤ capacity) (sym (length-count_use k c.eviction_queue)) m.bounded;
              },
            )
        | inr p ↦ (
          insert same fn capacity threshold top k (fn k) c,
          rw p refl,
          insert-IsMemo k c m (ap (has_key same k) (sym m.same_keys) ∙ p),
        )
      ]
