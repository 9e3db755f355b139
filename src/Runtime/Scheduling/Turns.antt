-- ===== src/Runtime/Scheduling/Turns.antt =====
-- Each processing unit has its turn.
use qubus.Base.{
  ℕ, zero, suc, ◌+◌, ◌%◌, ◌<◌, some, List, [], ◌∷◌, length, get_elem?, ◌≡◌, refl, sym, ap, ◌∙◌,
  arith,
}
use qubus.Base.Results.{Result, ok, ◌>>=◌}
use qubus.Runtime.Scheduling.{RoundRobin, schedule_round_robin}
use native.Mathlib.Nat.{mod-lt, mod-eq_of_lt, mod-add-mod}

-- The units of a number of successive calls.
unfoldable pub schedule_many : ℕ → RoundRobin → Result (List ℕ)
unfolding schedule_round_robin
schedule_many zero s = ok []
schedule_many (suc n) s = do
  first ← schedule_round_robin s
  rest ← schedule_many n first.1
  ok (first.0 ∷ rest)

-- The next unit is one of the resources, of which there is at least one.
abbrev pub IsInTurn : RoundRobin → Type 0
IsInTurn s = s.next_endpoint < length s.execution_resources

get_elem?-lt :
    {A : Type 0} (xs : List A) (i : ℕ) → i < length xs → (x : A) × (get_elem? xs i ≡ some x)
get_elem?-lt [] i h = absurd (omega arith)
get_elem?-lt (x ∷ xs) zero h = (x, refl)
get_elem?-lt (x ∷ xs) (suc i) h = get_elem?-lt xs i (omega arith)

after : RoundRobin → RoundRobin
after s = record s { next_endpoint = (s.next_endpoint + 1) % length s.execution_resources }

one_turn :
    (s : RoundRobin)
    → IsInTurn s
    → (unit : ℕ) × (get_elem? s.execution_resources s.next_endpoint ≡ some unit)
      × (schedule_round_robin s ≡ ok (unit, after s))
unfolding schedule_round_robin after
one_turn s h =
    let (unit, e) = get_elem?-lt s.execution_resources s.next_endpoint h in
    (unit, e, ground (arith, e))

-- Successive calls go round the resources: the call with the number i, counted from zero, runs on the
-- resource i places behind the next one, wrapped around.
pub schedule_many-get_elem? :
    (n : ℕ) (s : RoundRobin)
    → IsInTurn s
    → (units : List ℕ) × (schedule_many n s ≡ ok units)
      × (length units ≡ n)
      × ((i : ℕ)
          → i < n
          → get_elem? units i
            ≡ get_elem? s.execution_resources
                ((s.next_endpoint + i) % length s.execution_resources))
unfolding schedule_many after
schedule_many-get_elem? zero s h = ([], refl, refl, λ i l. absurd (omega arith))
schedule_many-get_elem? (suc n) s h =
    let (unit, e, step) = one_turn s h in
    let (units, p, l, q) =
      schedule_many-get_elem? n (after s) (mod-lt (s.next_endpoint + 1) (omega (arith, h))) in
    (unit ∷ units, rw (step, p) refl, omega (arith, l), turn unit units e q)
  where
    count : ℕ
    count = length s.execution_resources

    turn :
        (unit : ℕ) (units : List ℕ)
        → get_elem? s.execution_resources s.next_endpoint ≡ some unit
        → ((i : ℕ)
            → i < n
            → get_elem? units i
              ≡ get_elem? s.execution_resources (((s.next_endpoint + 1) % count + i) % count))
        → (i : ℕ) → i < suc n
        → get_elem? (unit ∷ units) i
          ≡ get_elem? s.execution_resources ((s.next_endpoint + i) % count)
    turn unit units e q zero l =
        let same : (s.next_endpoint + 0) % count ≡ s.next_endpoint =
          ap (λ k. k % count) (omega arith) ∙ mod-eq_of_lt h in
        rw same (sym e)
    turn unit units e q (suc i) l =
        let same : ((s.next_endpoint + 1) % count + i) % count ≡ (s.next_endpoint + suc i) % count =
          mod-add-mod (s.next_endpoint + 1) count i ∙ ap (λ k. k % count) (omega arith) in
        q i (omega arith) ∙ ap (λ k. get_elem? s.execution_resources k) same
