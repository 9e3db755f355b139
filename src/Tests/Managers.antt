-- ===== src/Tests/Managers.antt =====
-- One analysis whose answer is the expression itself.
use qubus.Base.{ℕ, ◌≡◌, refl, sym, ap, ◌∙◌, some, none, [], ◌∷◌}
use qubus.Base.Results.{Result, ok, ok-injective}
use qubus.Analysis.Manager.{
  Node, Manager, find, store, get_analysis, invalidate, invalidate_nodes, not_preserved, contains,
}
use qubus.Analysis.Manager.Caching.{get_analysis-invalidate}

abbrev run : ℕ → ℕ → Manager ℕ → Result (ℕ × Manager ℕ)
run id e m = ok (e, m)

run_keeps :
    (id e : ℕ) (m m' : Manager ℕ) (a : ℕ) (n : Node ℕ)
    → find id m ≡ some n
    → run id e m ≡ ok (a, m')
    → (n' : Node ℕ) × (find id m' ≡ some n')
run_keeps id e m m' a n p h = (n, ap (find id) (sym (ap (λ r. r.1) (ok-injective h))) ∙ p)

abbrev empty_manager : Manager ℕ
empty_manager = record { id = 0; dependents = []; cached_result = none } ∷ []

abbrev filled_manager : Manager ℕ
filled_manager = record { id = 0; dependents = []; cached_result = some 7 } ∷ []

first_answer : get_analysis run 0 7 empty_manager ≡ ok (7, filled_manager)
unfolding get_analysis find store
first_answer = refl

invalidated : invalidate 3 [] filled_manager ≡ ok filled_manager
unfolding invalidate invalidate_nodes not_preserved find contains
invalidated = refl

get_analysis-invalidate_example : get_analysis run 0 9 filled_manager ≡ ok (7, filled_manager)
get_analysis-invalidate_example =
    get_analysis-invalidate run run_keeps 0 3 [] 7 9 7 empty_manager filled_manager filled_manager
      first_answer invalidated
