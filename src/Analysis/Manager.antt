-- ===== src/Analysis/Manager.antt =====
-- The analysis manager, qubus/src/pass_manager.cpp and qubus/include/qubus/pass_manager.hpp. An
-- analysis is a number, and what a pass computes is a parameter.
pub mod Caching
use qubus.Base.{
  ℕ, zero, suc, ◌==◌, Bool, true, false, not, ◌||◌, if◌then◌else◌, Option, none, some, List, [],
  ◌∷◌,
}
use qubus.Base.Results.{Result, ok, fail, exception, out_of_fuel, ◌>>=◌}

-- `analysis_node`: the analyses that depend on it, and its cached result.
pub record Node (Answer : Type 0) : Type 0 where
  pub id : ℕ
  pub dependents : List ℕ
  pub cached_result : Option Answer

abbrev pub Manager : Type 0 → Type 0
Manager Answer = List (Node Answer)

unfoldable pub contains : ℕ → List ℕ → Bool
contains id [] = false
contains id (k ∷ ks) = k == id || contains id ks

module _ {Answer : Type 0} where
  unfoldable pub find : ℕ → Manager Answer → Option (Node Answer)
  find id [] = none
  find id (n ∷ ns) = let rest = find id ns in if n.id == id then some n else rest

  unfoldable pub store : ℕ → Answer → Manager Answer → Manager Answer
  store id a [] = []
  store id a (n ∷ ns) =
      let rest = store id a ns in
      if n.id == id then record n { cached_result = some a } ∷ ns else n ∷ rest

  -- `get_analysis`: the pass runs if nothing is cached, and may ask for other analyses.
  unfoldable pub get_analysis :
      {Expr : Type 0}
      → (ℕ → Expr → Manager Answer → Result (Answer × Manager Answer))
      → ℕ
      → Expr
      → Manager Answer
      → Result (Answer × Manager Answer)
  unfolding find store
  get_analysis run id e m = elim (find id m) [
    | none ↦ fail exception
    | some n ↦ elim n.cached_result [
      | some a ↦ ok (a, m)
      | none ↦ do answer ← run id e m; ok (answer.0, store id answer.0 answer.1)
    ]
  ]

  -- `get_analysis_cached`.
  unfoldable pub get_analysis_cached : ℕ → Manager Answer → Result (Option Answer)
  unfolding find
  get_analysis_cached id m = elim (find id m) [
    | none ↦ fail exception
    | some n ↦ ok n.cached_result
  ]

  -- `analysis_node::invalidate` of each node of a list; the fuel bounds the chains of dependents.
  unfoldable pub invalidate_nodes : ℕ → List ℕ → Manager Answer → Result (Manager Answer)
  unfolding find
  invalidate_nodes zero ids m = fail out_of_fuel
  invalidate_nodes (suc fuel) [] m = ok m
  invalidate_nodes (suc fuel) (id ∷ ids) m = do
    m' ← elim (find id m) [ none ↦ fail exception | some n ↦ invalidate_nodes fuel n.dependents m ]
    invalidate_nodes fuel ids m'

  unfoldable pub not_preserved : List ℕ → Manager Answer → List ℕ
  unfolding contains
  not_preserved preserved [] = []
  not_preserved preserved (n ∷ ns) =
      let rest = not_preserved preserved ns in if contains n.id preserved then rest else n.id ∷ rest

  -- `analysis_manager::invalidate`.
  unfoldable pub invalidate : ℕ → List ℕ → Manager Answer → Result (Manager Answer)
  unfolding invalidate_nodes not_preserved
  invalidate fuel preserved m = invalidate_nodes fuel (not_preserved preserved m) m
