-- ===== src/Analysis/Manager/Caching.antt =====
-- What the cache of analyses does across an invalidation.
use qubus.Base.{
  ℕ, zero, suc, ◌==◌, some, List, [], ◌∷◌, ◌≡◌, refl, sym, ap, ◌∙◌, arith, Bool-cases, Option-cases,
  inl, inr,
}
use qubus.Base.Results.{ok-injective, Result, ok, >>=-eq-ok}
use qubus.Analysis.Manager.{
  Node, Manager, find, store, get_analysis, invalidate_nodes, not_preserved, invalidate,
}

module _ {Answer : Type 0} where
  invalidate_nodes_same :
      (fuel : ℕ) (ids : List ℕ) (m m' : Manager Answer)
      → invalidate_nodes fuel ids m ≡ ok m'
      → m' ≡ m
  unfolding invalidate_nodes
  invalidate_nodes_same zero ids m m' h = cc h
  invalidate_nodes_same (suc fuel) [] m m' h = ok-injective (sym h)
  invalidate_nodes_same (suc fuel) (id ∷ ids) m m' h =
      let (t, p, q) = >>=-eq-ok _ (invalidate_nodes fuel ids) h in
      let rest = invalidate_nodes_same fuel ids t m' q in
      elim (Option-cases (find id m)) [
        | inl missing ↦ cc (rw missing at p)
        | inr (n, e) ↦ rest ∙ invalidate_nodes_same fuel n.dependents m t (rw e at p)
      ]

  find-store :
      (id : ℕ) (a : Answer) (m : Manager Answer) (n : Node Answer)
      → find id m ≡ some n
      → (k : Node Answer) × (find id (store id a m) ≡ some k) × (k.cached_result ≡ some a)
  unfolding find store
  find-store id a [] n h = absurd (ground arith)
  find-store id a (n ∷ ns) k h = elim (Bool-cases (n.id == id)) [
    | inl here ↦ (record n { cached_result = some a }, ground (arith, here), refl)
    | inr there ↦
        let (j, p, q) = find-store id a ns k (ground (arith, there)) in
        (j, ground (arith, there, p), q)
  ]

  answer_of_cached :
      {Expr : Type 0} (run : ℕ → Expr → Manager Answer → Result (Answer × Manager Answer)) (id : ℕ)
      (e : Expr) (a : Answer) (m : Manager Answer) (n : Node Answer)
      → find id m ≡ some n
      → n.cached_result ≡ some a
      → get_analysis run id e m ≡ ok (a, m)
  unfolding get_analysis
  answer_of_cached run id e a m n p q = rw (get_analysis, p, q) refl

  cached_afterwards :
      {Expr : Type 0} (run : ℕ → Expr → Manager Answer → Result (Answer × Manager Answer))
      → ((id : ℕ) (e : Expr) (m m' : Manager Answer) (a : Answer) (n : Node Answer)
          → find id m ≡ some n
          → run id e m ≡ ok (a, m')
          → (n' : Node Answer) × (find id m' ≡ some n'))
      → (id : ℕ) (e : Expr) (a : Answer) (m m' : Manager Answer)
      → get_analysis run id e m ≡ ok (a, m')
      → (n : Node Answer) × (find id m' ≡ some n) × (n.cached_result ≡ some a)
  unfolding get_analysis
  cached_afterwards run keeps id e a m m' h = elim (Option-cases (find id m)) [
    | inl missing ↦ absurd (ground (arith, rw (get_analysis, missing) at h))
    | inr (n, p) ↦ elim (Option-cases n.cached_result) [
      | inr (b, q) ↦
          let same = ok-injective (rw (get_analysis, p, q) at h) in
          (n, ap (find id) (sym (ap (λ r. r.1) same)) ∙ p, q ∙ ap (λ r. some r.0) same)
      | inl empty ↦
          let (answer, r, t) = >>=-eq-ok (run id e m) _ (rw (get_analysis, p, empty) at h) in
          let (k, f) = keeps id e m answer.1 answer.0 n p r in
          let (j, u, v) = find-store id answer.0 answer.1 k f in
          let same = ok-injective t in
          (j, ap (find id) (sym (ap (λ r. r.1) same)) ∙ u, v ∙ ap (λ r. some r.0) same)
    ]
  ]

  -- After `get_analysis` has answered, whatever is invalidated, it answers the same for every other
  -- expression. The passes leave the node of the analysis in the table.
  pub get_analysis-invalidate :
      {Expr : Type 0} (run : ℕ → Expr → Manager Answer → Result (Answer × Manager Answer))
      → ((id : ℕ) (e : Expr) (m m' : Manager Answer) (a : Answer) (n : Node Answer)
          → find id m ≡ some n
          → run id e m ≡ ok (a, m')
          → (n' : Node Answer) × (find id m' ≡ some n'))
      → (id fuel : ℕ) (preserved : List ℕ) (e other : Expr) (a : Answer) (m m' m'' : Manager Answer)
      → get_analysis run id e m ≡ ok (a, m')
      → invalidate fuel preserved m' ≡ ok m''
      → get_analysis run id other m'' ≡ ok (a, m'')
  unfolding invalidate
  get_analysis-invalidate run keeps id fuel preserved e other a m m' m'' h k =
      let same = invalidate_nodes_same fuel (not_preserved preserved m') m' m'' k in
      let (n, p, q) = cached_afterwards run keeps id e a m m' h in
      rw same (answer_of_cached run id other a m' n p q)
