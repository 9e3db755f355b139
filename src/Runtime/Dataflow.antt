-- ===== src/Runtime/Dataflow.antt =====
-- The dataflow graph, qubus/src/dataflow.cpp: it hands out access tokens for the objects. A token
-- ends when its holder destroys it, which fulfils the future that the next token waits for.
pub mod Order
pub mod Progress
use qubus.Base.{
  ℕ, suc, ◌==◌, Bool, true, false, ◌&&◌, ◌||◌, if◌then◌else◌, Option, none, some, List, [], ◌∷◌,
  length,
}

-- A call of `schedule_modification`: its token, and the token whose future it waits for.
pub record Request : Type 0 where
  pub token : ℕ
  pub object : ℕ
  pub after : Option ℕ

-- `wavefront_map_` gives the last token of each object; `issued` lists the calls, the last first.
pub record Graph : Type 0 where
  pub wavefront : List (ℕ × ℕ)
  pub issued : List Request
  pub finished : List ℕ

unfoldable pub lookup : ℕ → List (ℕ × ℕ) → Option ℕ
lookup o [] = none
lookup o ((k, t) ∷ entries) = let rest = lookup o entries in if k == o then some t else rest

-- `search_result->second = ...`, or `emplace`.
unfoldable pub assign : ℕ → ℕ → List (ℕ × ℕ) → List (ℕ × ℕ)
assign o t [] = (o, t) ∷ []
assign o t ((k, u) ∷ entries) =
    let rest = assign o t entries in if k == o then (k, t) ∷ entries else (k, u) ∷ rest

abbrev pub empty_graph : Graph
empty_graph = record { wavefront = []; issued = []; finished = [] }

-- The new token is the number of the tokens before it.
unfoldable pub schedule_modification : ℕ → Graph → Graph
unfolding lookup assign
schedule_modification o g =
    let token = length g.issued in
    record {
      wavefront = assign o token g.wavefront;
      issued = record { token = token; object = o; after = lookup o g.wavefront } ∷ g.issued;
      finished = g.finished;
    }

abbrev pub schedule_read : ℕ → Graph → Graph
schedule_read = schedule_modification

unfoldable pub is_finished : ℕ → List ℕ → Bool
is_finished t [] = false
is_finished t (u ∷ us) = u == t || is_finished t us

-- The token of the request has been handed out.
unfoldable pub is_available : Request → List ℕ → Bool
unfolding is_finished
is_available r finished = elim r.after [ none ↦ true | some t ↦ is_finished t finished ]

-- The holder of the token destroys it.
abbrev pub finish : ℕ → Graph → Graph
finish t g = record g { finished = t ∷ g.finished }

-- `finalize` has returned: every future of the wavefront has arrived.
unfoldable pub finalize_returns : List (ℕ × ℕ) → List ℕ → Bool
unfolding is_finished
finalize_returns [] finished = true
finalize_returns ((o, t) ∷ entries) finished =
    is_finished t finished && finalize_returns entries finished
