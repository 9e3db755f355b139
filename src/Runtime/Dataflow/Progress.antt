-- ===== src/Runtime/Dataflow/Progress.antt =====
-- The tokens never deadlock, and `finalize` waits for all of them.
use qubus.Base.{
  ℕ, true, false, Option, none, some, List, [], ◌∷◌, ◌++◌, ◌≡◌, refl, arith, ◌⊎◌, inl, inr, All,
  Bool-cases, ap, ◌∙◌,
}
use qubus.Runtime.Dataflow.{Request, Graph, lookup, is_finished, is_available, finalize_returns}
use qubus.Runtime.Dataflow.Order.{
  latest, Reachable, AllDone, IsChained, IsClosed, consistent, AllDone-unrequested, AllDone-latest,
}

abbrev pub IsDone : List ℕ → Request → Type 0
IsDone finished r = is_finished r.token finished ≡ true

-- An unfinished request whose token has been handed out.
abbrev pub CanProceed : List ℕ → List Request → Type 0
CanProceed finished rs =
    (r : Request) × (newer : List Request) × (older : List Request) × (rs ≡ newer ++ r ∷ older)
    × (is_available r finished ≡ true)
    × (is_finished r.token finished ≡ false)

CanProceed-cons :
    (finished : List ℕ) (r : Request) (rs : List Request)
    → CanProceed finished rs
    → CanProceed finished (r ∷ rs)
CanProceed-cons finished r rs (q, newer, older, split, a, f) =
    (q, r ∷ newer, older, ap (λ l. r ∷ l) split, a, f)

available_after_done :
    (finished : List ℕ) (r : Request) (rs : List Request)
    → r.after ≡ latest r.object rs
    → All (IsDone finished) rs
    → is_available r finished ≡ true
unfolding is_available latest
available_after_done finished r rs link done = rw link (by_requests rs done)
  where
    by_requests :
        (qs : List Request)
        → All (IsDone finished) qs
        → elim (latest r.object qs) [ none ↦ true | some t ↦ is_finished t finished ] ≡ true
    by_requests [] d = refl
    by_requests (q ∷ qs) d = ground (arith, by_requests qs d.1, d.0)

IsDone-or_proceeds :
    (finished : List ℕ) (rs : List Request)
    → IsChained rs
    → All (IsDone finished) rs ⊎ CanProceed finished rs
IsDone-or_proceeds finished [] l = inl tt
IsDone-or_proceeds finished (r ∷ rs) l = elim (IsDone-or_proceeds finished rs l.1) [
  | inr more ↦ inr (CanProceed-cons finished r rs more)
  | inl done ↦ elim (Bool-cases (is_finished r.token finished)) [
    | inl yes' ↦ inl (yes', done)
    | inr no' ↦ inr (r, [], rs, refl, available_after_done finished r rs l.0 done, no')
  ]
]

-- In every reachable graph all requests are finished, or an unfinished one has its token: the
-- tokens never wait for each other in a circle.
pub schedule_modification-CanProceed :
    (g : Graph) → Reachable g → All (IsDone g.finished) g.issued ⊎ CanProceed g.finished g.issued
schedule_modification-CanProceed g reached =
    IsDone-or_proceeds g.finished g.issued (consistent g reached).0

All-of_each :
    (finished : List ℕ) (rs : List Request)
    → ((o : ℕ) → AllDone o finished rs)
    → All (IsDone finished) rs
All-of_each finished [] h = tt
All-of_each finished (r ∷ rs) h = ((h r.object).0 refl, All-of_each finished rs (λ o. (h o).1))

returned_lookup :
    (o t : ℕ) (entries : List (ℕ × ℕ)) (finished : List ℕ)
    → finalize_returns entries finished ≡ true
    → lookup o entries ≡ some t
    → is_finished t finished ≡ true
unfolding finalize_returns lookup
returned_lookup o t [] finished h l = cc l
returned_lookup o t ((k, u) ∷ entries) finished h l =
    ground (arith, returned_lookup o t entries finished)

-- In every reachable graph, when `finalize` returns, every request that has been made is finished.
pub finalize-IsDone :
    (g : Graph)
    → Reachable g
    → finalize_returns g.wavefront g.finished ≡ true
    → All (IsDone g.finished) g.issued
finalize-IsDone g reached h =
    let (chained, closed, wave, _) = consistent g reached in
    All-of_each g.finished g.issued λ o. by_latest o closed wave (latest o g.issued) refl
  where
    by_latest :
        (o : ℕ)
        → IsClosed g.finished g.issued
        → ((p : ℕ) → lookup p g.wavefront ≡ latest p g.issued)
        → (l : Option ℕ) → latest o g.issued ≡ l
        → AllDone o g.finished g.issued
    by_latest o closed wave none e = AllDone-unrequested o g.finished g.issued e
    by_latest o closed wave (some t) e =
        AllDone-latest o t g.finished g.issued closed e
          (returned_lookup o t g.wavefront g.finished h (wave o ∙ e))
