-- ===== src/Runtime/Scheduling.antt =====
-- The schedulers: qubus/src/scheduling/round_robin_scheduler.cpp and
-- qubus/src/scheduling/uniform_fill_scheduler.cpp. A processing unit is a number; what it does is
-- left out, but for its estimate of the time of a task.
pub mod Turns
pub mod Balance
use qubus.Base.{
  ℕ, zero, suc, ◌+◌, ◌-◌, ◌%◌, ◌^◌, ltb, leb, Bool, true, false, if◌then◌else◌, Option, none, some,
  List, [], ◌∷◌, ◌++◌, length, get_elem?,
}
use qubus.Base.Results.{Result, ok, fail, undefined_behaviour, ◌>>=◌}

pub record RoundRobin : Type 0 where
  pub execution_resources : List ℕ
  pub next_endpoint : ℕ

-- `round_robin_scheduler::schedule`: the unit that executes, and the new state. Without a resource
-- it reads out of bounds.
unfoldable pub schedule_round_robin : RoundRobin → Result (ℕ × RoundRobin)
schedule_round_robin s = elim (get_elem? s.execution_resources s.next_endpoint) [
  | none ↦ fail undefined_behaviour
  | some unit ↦
      ok (unit, record s { next_endpoint = (s.next_endpoint + 1) % length s.execution_resources })
]

unfoldable pub add_round_robin : ℕ → RoundRobin → RoundRobin
add_round_robin unit s = record s { execution_resources = s.execution_resources ++ unit ∷ [] }

-- `workload`, in microseconds.
pub record Workload : Type 0 where
  pub unit : ℕ
  pub load : ℕ

-- `top` and `pop` of the priority queue: a least workload, and the rest.
unfoldable pub pop_least : Workload → List Workload → Workload × List Workload
pop_least w [] = (w, [])
pop_least w (v ∷ vs) =
    let other = pop_least v vs in
    if leb w.load other.0.load then (w, v ∷ vs) else (other.0, w ∷ other.1)

unfoldable pub rescale : ℕ → List Workload → List Workload
rescale least [] = []
rescale least (w ∷ ws) = record w { load = w.load - least } ∷ rescale least ws

-- The workloads after a task of the given estimate; ticks are signed 64-bit numbers.
unfoldable pub charge : Option ℕ → Workload → List Workload → List Workload
unfolding rescale
charge none least others = least ∷ others
charge (some runtime) least others =
    if ltb (least.load + runtime) (2 ^ 63)
    then record least { load = least.load + runtime } ∷ others
    else record least { load = 0 } ∷ rescale least.load others

-- `uniform_fill_scheduler::schedule`.
unfoldable pub schedule_uniform_fill : (ℕ → Option ℕ) → List Workload → Result (ℕ × List Workload)
unfolding pop_least charge
schedule_uniform_fill estimate [] = fail undefined_behaviour
schedule_uniform_fill estimate (w ∷ ws) =
    let popped = pop_least w ws in
    ok (popped.0.unit, charge (estimate popped.0.unit) popped.0 popped.1)

unfoldable pub add_uniform_fill : ℕ → List Workload → List Workload
add_uniform_fill unit ws = record { unit = unit; load = 0 } ∷ ws
