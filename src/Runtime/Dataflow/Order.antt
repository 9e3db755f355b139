-- ===== src/Runtime/Dataflow/Order.antt =====
-- The graph serialises the accesses of each object.
use qubus.Base.{
  ℕ, suc, ◌==◌, ==_iff, true, if◌then◌else◌, Option, none, some, List, [], ◌∷◌, ◌++◌, length, ◌<◌,
  ◌≡◌, refl, arith, inl, inr, All, Bool-cases, ap, ◌∙◌, sym, subst, ◌≤◌,
}
use qubus.Runtime.Dataflow.{
  Request, Graph, lookup, assign, empty_graph, schedule_modification, is_finished, is_available,
  finish,
}

-- The last token of an object.
unfoldable pub latest : ℕ → List Request → Option ℕ
latest o [] = none
latest o (r ∷ rs) = let rest = latest o rs in if r.object == o then some r.token else rest

-- A token is destroyed after it has been handed out.
abbrev pub HasBeenHandedOut : ℕ → Graph → Type 0
HasBeenHandedOut t g =
    (t < length g.issued)
    × All (λ (r : Request). r.token ≡ t → is_available r g.finished ≡ true) g.issued

pub data Reachable : Graph → Type 0 where
  start : Reachable empty_graph
  scheduled : (o : ℕ) {g : Graph} → Reachable g → Reachable (schedule_modification o g)
  destroyed : (t : ℕ) {g : Graph} → Reachable g → HasBeenHandedOut t g → Reachable (finish t g)

-- All the requests of the object are finished.
abbrev pub AllDone : ℕ → List ℕ → List Request → Type 0
AllDone o finished = All (λ (r : Request). r.object ≡ o → is_finished r.token finished ≡ true)

-- Each request waits for the last one of its object.
abbrev pub IsChained : List Request → Type 0
IsChained [] = Unit
IsChained (r ∷ rs) = (r.after ≡ latest r.object rs) × IsChained rs

-- What is finished has only finished requests of its object before it.
abbrev pub IsClosed : List ℕ → List Request → Type 0
IsClosed finished [] = Unit
IsClosed finished (r ∷ rs) =
    (is_finished r.token finished ≡ true → AllDone r.object finished rs) × IsClosed finished rs

abbrev pub IsConsistent : Graph → Type 0
IsConsistent g =
    IsChained g.issued
    × IsClosed g.finished g.issued
    × ((o : ℕ) → lookup o g.wavefront ≡ latest o g.issued)
    × All (λ t. t < length g.issued) g.finished

lookup-assign :
    (o p t : ℕ) (entries : List (ℕ × ℕ))
    → lookup p (assign o t entries) ≡ (if o == p then some t else lookup p entries)
unfolding lookup assign
lookup-assign o p t [] = refl
lookup-assign o p t ((k, u) ∷ entries) =
    ground (arith, lookup-assign o p t entries, ==_iff k o, ==_iff k p, ==_iff o p)

pub AllDone-unrequested :
    (o : ℕ) (finished : List ℕ) (rs : List Request) → latest o rs ≡ none → AllDone o finished rs
unfolding latest
AllDone-unrequested o finished [] h = tt
AllDone-unrequested o finished (r ∷ rs) h =
    (λ e. ground (arith, ==_iff r.object o, e), AllDone-unrequested o finished rs (ground arith))

pub AllDone-latest :
    (o t : ℕ) (finished : List ℕ) (rs : List Request)
    → IsClosed finished rs
    → latest o rs ≡ some t
    → is_finished t finished ≡ true
    → AllDone o finished rs
unfolding latest
AllDone-latest o t finished [] c h f = tt
AllDone-latest o t finished (r ∷ rs) c h f = elim (Bool-cases (r.object == o)) [
  | inl same ↦
      let is_object = (==_iff r.object o).0 same in
      let done : is_finished r.token finished ≡ true = ground (arith, same) in
      (λ _. done, rw is_object at c.0 done)
  | inr other ↦ (
    λ e. ground (arith, other, (==_iff r.object o).1 e),
    AllDone-latest o t finished rs c.1 (ground (arith, other)) f,
  )
]

-- What comes before an available request of the same object is finished.
AllDone-available :
    (finished : List ℕ) (r : Request) (rs : List Request)
    → r.after ≡ latest r.object rs
    → IsClosed finished rs
    → is_available r finished ≡ true
    → AllDone r.object finished rs
unfolding is_available
AllDone-available finished r rs link c h = by_latest (latest r.object rs) refl
  where
    by_latest : (l : Option ℕ) → latest r.object rs ≡ l → AllDone r.object finished rs
    by_latest none e = AllDone-unrequested r.object finished rs e
    by_latest (some t) e = AllDone-latest r.object t finished rs c e (ground (arith, link ∙ e))

AllDone-finish :
    (o t : ℕ) (finished : List ℕ) (rs : List Request)
    → AllDone o finished rs
    → AllDone o (t ∷ finished) rs
unfolding is_finished
AllDone-finish o t finished [] h = tt
AllDone-finish o t finished (r ∷ rs) h =
    (λ e. ground (arith, h.0 e), AllDone-finish o t finished rs h.1)

IsClosed-finish :
    (t : ℕ) (finished : List ℕ) (rs : List Request)
    → IsChained rs
    → All (λ (r : Request). r.token ≡ t → is_available r finished ≡ true) rs
    → IsClosed finished rs
    → IsClosed (t ∷ finished) rs
unfolding is_finished
IsClosed-finish t finished [] l a c = tt
IsClosed-finish t finished (r ∷ rs) l a c = (
  λ f. AllDone-finish r.object t finished rs (before f),
  IsClosed-finish t finished rs l.1 a.1 c.1,
)
  where
    before : is_finished r.token (t ∷ finished) ≡ true → AllDone r.object finished rs
    before f = elim (Bool-cases (t == r.token)) [
      | inl same ↦ AllDone-available finished r rs l.0 c.1 (a.0 (sym ((==_iff t r.token).0 same)))
      | inr other ↦ c.0 (ground (arith, other, f))
    ]

All-below : (m n : ℕ) (ts : List ℕ) → m ≤ n → All (λ t. t < m) ts → All (λ t. t < n) ts
All-below m n [] h a = tt
All-below m n (t ∷ ts) h a = (omega (arith, a.0), All-below m n ts h a.1)

is_finished_below : (t n : ℕ) (ts : List ℕ) → All (λ u. u < n) ts → is_finished t ts ≡ true → t < n
unfolding is_finished
is_finished_below t n [] a f = cc f
is_finished_below t n (u ∷ us) a f = ground (arith, is_finished_below t n us a.1, a.0, ==_iff u t)

pub consistent : (g : Graph) → Reachable g → IsConsistent g
unfolding lookup latest schedule_modification
consistent _ start = (tt, tt, λ o. refl, tt)
consistent _ (scheduled o {g = g} r) =
    let (chained, closed, wave, below) = consistent g r in
    (
      (wave o, chained),
      (
        λ f. absurd (omega (arith, is_finished_below (length g.issued) _ g.finished below f)),
        closed,
      ),
      λ p.
          lookup-assign o p (length g.issued) g.wavefront
          ∙ ap (λ l. if o == p then some (length g.issued) else l) (wave p),
      All-below (length g.issued) (suc (length g.issued)) g.finished (omega arith) below,
    )
consistent _ (destroyed t {g = g} r (issued, handed)) =
    let (chained, closed, wave, below) = consistent g r in
    (chained, IsClosed-finish t g.finished g.issued chained handed closed, wave, (issued, below))

serial :
    (finished : List ℕ) (newer older : List Request) (r : Request)
    → IsChained (newer ++ r ∷ older)
    → IsClosed finished (newer ++ r ∷ older)
    → is_available r finished ≡ true
    → AllDone r.object finished older
serial finished [] older r l c a = AllDone-available finished r older l.0 c.1 a
serial finished (n ∷ newer) older r l c a = serial finished newer older r l.1 c.1 a

-- In every reachable graph, the token of a request is handed out only after all earlier requests
-- of its object are finished.
pub schedule_modification-AllDone :
    (g : Graph) (newer older : List Request) (r : Request)
    → Reachable g
    → g.issued ≡ newer ++ r ∷ older
    → is_available r g.finished ≡ true
    → AllDone r.object g.finished older
schedule_modification-AllDone g newer older r reached split available =
    let (chained, closed, _, _) = consistent g reached in
    serial g.finished newer older r (subst IsChained split chained)
      (subst (IsClosed g.finished) split closed) available
