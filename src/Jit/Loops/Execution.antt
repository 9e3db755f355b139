-- ===== src/Jit/Loops/Execution.antt =====
-- The blocks of qubus/src/jit/loops.cpp run the body once for each value of the loop.
use qubus.Base.{
  Bool, ℕ, zero, suc, ◌+◌, ◌*◌, ◌^◌, ◌≤◌, ◌<◌, true, false, ◌&&◌, lt→ltb, Option, none, some, ◌≡◌,
  refl, ap, arith, dec_lt, if◌then◌else◌,
}
use qubus.Base.Int.{ℤ, pos, negsuc, ◌+ℤ◌, ltb_ℤ}
use qubus.Ir.Semantics.{in_range, index_limit}
use qubus.Jit.Builder.{add_fits, add_fits-negsuc}
use qubus.Jit.Loops.{
  Label, Machine, step, Reaches, here, after, execute_all, stored_if, increased, IsUndefinedAt,
  then_do,
}

pub pos_sum : (i j : ℕ) → pos i +ℤ pos j ≡ pos (i + j)
unfolding ◌+ℤ◌
pos_sum i j = ground arith

module _ {M : Type 0} (effect : ℤ → M → M) (increment upper : ℕ) where
  -- A body that does not assign to the induction variable.
  abbrev pub keeping : Machine M → Option (Machine M)
  keeping m = some (record { induction = m.induction; memory = effect m.induction m.memory })

  -- The body for the values that lie that often one increment apart, in their order.
  abbrev pub repeated : ℕ → ℕ → M → M
  repeated zero i m = m
  repeated (suc n) i m = repeated n (i + increment) (effect (pos i) m)

  abbrev at : ℕ → M → Machine M
  at i m = record { induction = pos i; memory = m }

  abbrev stored_as : Bool → ℤ → Machine M → Option (Machine M)
  stored_as = stored_if keeping (pos 0) (pos upper) (pos increment)

  stored_sum :
      (i : ℕ) (m : M) (sum : ℤ) (j : ℕ) (fits : Bool)
      → sum ≡ pos j
      → j < index_limit
      → fits ≡ true
      → stored_as (in_range sum && fits) sum (at i m) ≡ some (at j m)
  stored_sum i m sum j fits e h p = rw (e, lt→ltb j index_limit h, p)

  increased-pos :
      (i : ℕ) (m : M)
      → i + increment < index_limit
      → increased keeping (pos 0) (pos upper) (pos increment) (at i m) ≡ some (at (i + increment) m)
  increased-pos i m h =
      stored_sum i m (pos i +ℤ pos increment) (i + increment) (add_fits (pos i) (pos increment))
        (pos_sum i increment) h (lt→ltb (i + increment) (2 ^ 64) larger)
    where
      larger : i + increment < 2 ^ 64
      larger = omega arith

  -- Enough turns.
  abbrev pub Turns : ℕ → ℕ → Type 0
  Turns zero i = upper ≤ i
  Turns (suc n) i = (i < upper) × Turns n (i + increment)

  abbrev Runs : ℕ → ℕ → M → Type 0
  Runs lower i m =
      (n : ℕ) × Turns n i
      × Reaches keeping (pos lower) (pos upper) (pos increment) Label.header (at i m) Label.exit
          (at (i + n * increment) (repeated n i m))

  leaving : (lower i : ℕ) (m : M) → upper ≤ i → Runs lower i m
  unfolding execute_all
  leaving lower i m h = (
    0,
    h,
    rw stays (
        after (step _ _ _ _ refl (ap (λ c. some (if c then Label.body else Label.exit)) done))
          (here _ _)),
  )
    where
      stays : i + 0 * increment ≡ i
      stays = omega arith

      done : ltb_ℤ (pos i) (pos upper) ≡ false
      done = ground arith

  turning :
      (lower i : ℕ) (m : M)
      → i < upper
      → upper + increment ≤ index_limit
      → Runs lower (i + increment) (effect (pos i) m)
      → Runs lower i m
  unfolding execute_all
  turning lower i m h fits (n, turns, rest) = (
    suc n,
    (h, turns),
    rw moves (
        after (step _ _ _ _ refl (ap (λ c. some (if c then Label.body else Label.exit)) continues))
          (after (step _ _ _ _ (rw (increased-pos i (effect (pos i) m) small)) refl) rest)),
  )
    where
      moves : i + suc n * increment ≡ i + increment + n * increment
      moves = omega arith

      continues : ltb_ℤ (pos i) (pos upper) ≡ true
      continues = ground arith

      small : i + increment < index_limit
      small = omega arith

  running :
      (turns lower i : ℕ) (m : M)
      → upper ≤ i + turns
      → 1 ≤ increment
      → upper + increment ≤ index_limit
      → Runs lower i m
  running zero lower i m h one fits = leaving lower i m (omega (arith, h))
  running (suc turns) lower i m h one fits =
      let rest = running turns lower (i + increment) (effect (pos i) m) in
      elim (dec_lt i upper) [
        | yes before ↦ turning lower i m before fits (rest (omega (arith, h, one)) one fits)
        | no reached ↦ leaving lower i m (omega (arith, reached))
      ]

  -- Where the lower bound is a natural number, the increment is positive and the upper bound leaves
  -- room for a last increment, the blocks of a loop lead to the exit, and the body has run once for
  -- each value from the lower bound on, one increment apart, as long as it is below the upper bound.
  pub emit_loop-Reaches :
      (lower : ℕ) (start : Machine M)
      → 1 ≤ increment
      → upper + increment ≤ index_limit
      → (n : ℕ) × Turns n lower
        × Reaches keeping
            (pos lower)
            (pos upper)
            (pos increment)
            Label.entry
            start
            Label.exit
            (at (lower + n * increment) (repeated n lower start.memory))
  unfolding execute_all
  emit_loop-Reaches lower start one fits =
      let (n, turns, run) = running upper lower lower start.memory (omega arith) one fits in
      (n, turns, after (step _ _ _ _ refl refl) run)

  -- A loop from a negative number whose increment leads to a natural number has no value in its
  -- first turn.
  pub emit_loop-IsUndefinedAt :
      (k : ℕ) (start : Machine M)
      → suc k ≤ increment
      → Reaches keeping
          (negsuc k)
          (pos upper)
          (pos increment)
          Label.entry
          start
          Label.body
          (record { induction = negsuc k; memory = start.memory })
        × IsUndefinedAt keeping
            (negsuc k)
            (pos upper)
            (pos increment)
            Label.body
            (record { induction = negsuc k; memory = start.memory })
  unfolding execute_all
  emit_loop-IsUndefinedAt k start h = (
    after (step _ _ _ _ refl refl) (
        after (step _ _ _ _ refl (ap (λ c. some (if c then Label.body else Label.exit)) below))
          (here _ _)),
    undefined _ _ (add_fits-negsuc k increment h),
  )
    where
      below : ltb_ℤ (negsuc k) (pos upper) ≡ true
      below = ground arith

      undefined :
          (fits carries : Bool)
          → carries ≡ false
          → then_do keeping
              (pos 0)
              (pos upper)
              (pos increment)
              (stored_as
                (fits && carries)
                (negsuc k +ℤ pos increment)
                (record { induction = negsuc k; memory = effect (negsuc k) start.memory }))
              some
            ≡ none
      undefined true carries e = rw e
      undefined false carries e = refl
