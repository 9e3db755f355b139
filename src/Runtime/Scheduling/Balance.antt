-- ===== src/Runtime/Scheduling/Balance.antt =====
-- The workloads stay balanced.
use qubus.Base.{
  ℕ, ◌+◌, ◌≤◌, ltb, leb, leb→le, Option, none, some, List, [], ◌∷◌, All, ◌≡◌, ap, subst, arith, ◌^◌,
  Bool-cases, inl, inr,
}
use qubus.Base.Results.{ok}
use qubus.Runtime.Scheduling.{Workload, pop_least, rescale, charge, schedule_uniform_fill}

ok-injective {ℓ} : {A : Type ℓ} {a b : A} → ok a ≡ ok b → a ≡ b
ok-injective h = cc

-- The workload stands between the bounds.
abbrev pub IsBetween : ℕ → ℕ → Workload → Type 0
IsBetween low high w = (low ≤ w.load) × (w.load ≤ high)

-- No two workloads differ by more than the given spread.
abbrev pub IsBalanced : ℕ → List Workload → Type 0
IsBalanced spread ws = (low : ℕ) × All (IsBetween low (low + spread)) ws

All-pop_least :
    (P : Workload → Type 0) (w : Workload) (ws : List Workload)
    → P w
    → All P ws
    → P (pop_least w ws).0 × All P (pop_least w ws).1
unfolding pop_least
All-pop_least P w [] h k = (h, tt)
All-pop_least P w (v ∷ vs) h k =
    let (p, q) = All-pop_least P v vs k.0 k.1 in
    elim (Bool-cases (leb w.load (pop_least v vs).0.load)) [
      | inl first ↦ rw first (h, k)
      | inr later ↦ rw later (p, (h, q))
    ]

All-of_popped :
    (P : Workload → Type 0) (w : Workload) (ws : List Workload)
    → P (pop_least w ws).0
    → All P (pop_least w ws).1
    → P w × All P ws
unfolding pop_least
All-of_popped P w [] h k = (h, tt)
All-of_popped P w (v ∷ vs) h k = elim (Bool-cases (leb w.load (pop_least v vs).0.load)) [
  | inl first ↦ (rw first at h, rw first at k)
  | inr later ↦ let rest = rw later at k in (rest.0, All-of_popped P v vs (rw later at h) rest.1)
]

All-above :
    (m n : ℕ) (ws : List Workload)
    → m ≤ n
    → All (λ (w : Workload). n ≤ w.load) ws
    → All (λ (w : Workload). m ≤ w.load) ws
All-above m n [] le k = tt
All-above m n (w ∷ ws) le k = (omega (arith, k.0), All-above m n ws le k.1)

pop_least-le :
    (w : Workload) (ws : List Workload)
    → All (λ (v : Workload). (pop_least w ws).0.load ≤ v.load) (pop_least w ws).1
unfolding pop_least
pop_least-le w [] = tt
pop_least-le w (v ∷ vs) =
    let least = (pop_least v vs).0 in
    let below = pop_least-le v vs in
    elim (Bool-cases (leb w.load least.load)) [
      | inl first ↦
          let le = leb→le w.load least.load first in
          rw first (
            All-of_popped (λ (u : Workload). w.load ≤ u.load) v vs le
              (All-above w.load least.load (pop_least v vs).1 le below))
      | inr later ↦ rw later (ground (arith, later), below)
    ]

IsBetween-charged :
    (low m spread : ℕ) (ws : List Workload)
    → low ≤ m
    → All (IsBetween low (low + spread)) ws
    → All (λ (w : Workload). m ≤ w.load) ws
    → All (IsBetween m (m + spread)) ws
IsBetween-charged low m spread [] l h k = tt
IsBetween-charged low m spread (w ∷ ws) l h k =
    ((k.0, omega (arith, h.0.1)), IsBetween-charged low m spread ws l h.1 k.1)

IsBetween-rescaled :
    (m spread : ℕ) (ws : List Workload)
    → All (IsBetween m (m + spread)) ws
    → All (IsBetween 0 (0 + spread)) (rescale m ws)
unfolding rescale
IsBetween-rescaled m spread [] h = tt
IsBetween-rescaled m spread (w ∷ ws) h = (omega (arith, h.0.1), IsBetween-rescaled m spread ws h.1)

-- An estimate of at most the spread, if there is one.
abbrev pub IsAtMost : ℕ → Option ℕ → Type 0
IsAtMost spread none = Unit
IsAtMost spread (some t) = t ≤ spread

charge-IsBalanced :
    (spread : ℕ) (estimate : Option ℕ) (least : Workload) (others : List Workload)
    → IsAtMost spread estimate
    → All (IsBetween least.load (least.load + spread)) others
    → IsBalanced spread (charge estimate least others)
unfolding charge
charge-IsBalanced spread none least others h k = (least.load, (omega arith, k))
charge-IsBalanced spread (some t) least others h k =
    elim (Bool-cases (ltb (least.load + t) (2 ^ 63))) [
      | inl fits ↦ rw fits (least.load, (omega arith, k))
      | inr wraps ↦ rw wraps (0, (omega arith, IsBetween-rescaled least.load spread others k))
    ]

-- Scheduling keeps the workloads within a spread that no estimate exceeds, also when the ticks
-- overflow and are rescaled.
pub schedule_uniform_fill-IsBalanced :
    (spread : ℕ) (estimate : ℕ → Option ℕ) (ws ws' : List Workload) (unit : ℕ)
    → ((u : ℕ) → IsAtMost spread (estimate u))
    → IsBalanced spread ws
    → schedule_uniform_fill estimate ws ≡ ok (unit, ws')
    → IsBalanced spread ws'
unfolding schedule_uniform_fill
schedule_uniform_fill-IsBalanced spread estimate [] ws' unit short (low, h) e = cc e
schedule_uniform_fill-IsBalanced spread estimate (w ∷ ws) ws' unit short (low, h) e =
    let popped = pop_least w ws in
    let (p, q) = All-pop_least (IsBetween low (low + spread)) w ws h.0 h.1 in
    let charged =
      charge-IsBalanced spread (estimate popped.0.unit) popped.0 popped.1 (short popped.0.unit)
        (IsBetween-charged low popped.0.load spread popped.1 p.0 q (pop_least-le w ws)) in
    subst (IsBalanced spread) (ap (λ r. r.1) (ok-injective e)) charged
