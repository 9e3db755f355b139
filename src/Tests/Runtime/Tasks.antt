-- ===== src/Tests/Runtime/Tasks.antt =====
-- Tokens and schedules.
use qubus.Base.{ℕ, ◌≡◌, refl, arith, true, none, some, List, [], ◌∷◌, All, ◌⊎◌}
use qubus.Base.Results.{ok}
use qubus.Runtime.Dataflow.{
  Request, Graph, empty_graph, schedule_modification, is_available, finish, finalize_returns,
}
use qubus.Runtime.Dataflow.Order.{
  Reachable, start, scheduled, destroyed, AllDone, schedule_modification-AllDone,
}
use qubus.Runtime.Dataflow.Progress.{
  IsDone, CanProceed, schedule_modification-CanProceed, finalize-IsDone,
}
use qubus.Runtime.Scheduling.{RoundRobin, Workload, schedule_uniform_fill}
use qubus.Runtime.Scheduling.Balance.{IsBalanced, schedule_uniform_fill-IsBalanced}

-- Two modifications of one object, the first of which is finished.
abbrev first_request : Request
first_request = record { token = 0; object = 5; after = none }

abbrev second_request : Request
second_request = record { token = 1; object = 5; after = some 0 }

abbrev handed_over : Graph
handed_over = finish 0 (schedule_modification 5 (schedule_modification 5 empty_graph))

handed_over_reached : Reachable handed_over
unfolding schedule_modification is_available
handed_over_reached =
    destroyed 0 (scheduled 5 (scheduled 5 start))
      (omega arith, (λ e. absurd (omega (arith, e)), (λ e. refl, tt)))

handed_over_issued : handed_over.issued ≡ second_request ∷ first_request ∷ []
unfolding schedule_modification
handed_over_issued = refl

second_available : is_available second_request handed_over.finished ≡ true
unfolding is_available
second_available = refl

schedule_modification-AllDone_example : AllDone 5 handed_over.finished (first_request ∷ [])
schedule_modification-AllDone_example =
    schedule_modification-AllDone handed_over [] (first_request ∷ []) second_request
      handed_over_reached handed_over_issued second_available

schedule_modification-CanProceed_example :
    All (IsDone handed_over.finished) handed_over.issued
    ⊎ CanProceed handed_over.finished handed_over.issued
schedule_modification-CanProceed_example =
    schedule_modification-CanProceed handed_over handed_over_reached

abbrev one_done : Graph
one_done = finish 0 (schedule_modification 5 empty_graph)

one_done_reached : Reachable one_done
unfolding schedule_modification is_available
one_done_reached = destroyed 0 (scheduled 5 start) (omega arith, (λ e. refl, tt))

one_done_returns : finalize_returns one_done.wavefront one_done.finished ≡ true
unfolding schedule_modification finalize_returns
one_done_returns = refl

finalize-IsDone_example : All (IsDone one_done.finished) one_done.issued
finalize-IsDone_example = finalize-IsDone one_done one_done_reached one_done_returns

abbrev three_units : RoundRobin
three_units = record { execution_resources = 7 ∷ 8 ∷ 9 ∷ []; next_endpoint = 1 }

abbrev loads : ℕ → ℕ → List Workload
loads a b = record { unit = 0; load = a } ∷ record { unit = 1; load = b } ∷ []

uneven : schedule_uniform_fill (λ _. some 4) (loads 3 5) ≡ ok (0, loads 7 5)
unfolding schedule_uniform_fill
uneven = refl

schedule_uniform_fill-IsBalanced_example : IsBalanced 4 (loads 7 5)
schedule_uniform_fill-IsBalanced_example =
    schedule_uniform_fill-IsBalanced 4 (λ _. some 4) (loads 3 5) (loads 7 5) 0 (λ _. omega arith)
      (3, ((omega arith, omega arith), ((omega arith, omega arith), tt))) uneven
