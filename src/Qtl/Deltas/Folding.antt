-- ===== src/Qtl/Deltas/Folding.antt =====
-- `fold_kronecker_deltas` of qubus/src/qtl/kronecker_delta_folding_pass.cpp on one sum.
use qubus.Base.{
  ℕ, ◌<◌, ==_iff, true, none, some, Option-cases, List, [], ◌∷◌, All, ◌≡◌, ◌≢◌, refl, sym, subst,
  ap, ◌∙◌, inl, inr, Bool-cases,
}
use mathlib.Core.Path.{fun_ext}
use qubus.Ir.Expressions.{Variable, same_variable}
use qubus.Qtl.Expressions.{QtlExpression, sum, is_index}
use qubus.Qtl.Meaning.{Scalars, HasDeltas, Indices, update, sum_to, sum_over, eval}
use qubus.Qtl.Deltas.{
  Bubble, collect_bubbles, contains_bubble_with_index, substitute_index, eliminate_trivial_deltas,
  fold_indices, fold_sum, with_sums,
}
use qubus.Qtl.Deltas.Vanishing.{Vanishes, collect_bubbles-All}
use qubus.Qtl.Deltas.Binders.{AllBound, AllBound-folded}
use qubus.Qtl.Deltas.Substitution.{IsOther, update_other}
use qubus.Qtl.Deltas.Contraction.{IsPartner, sum_over-substitute_index, Vanishes-folded}

-- Every index that has a partner is apart from it, and no partner is another index of the sum.
abbrev pub AreNamed : List Bubble → List Variable → QtlExpression → Type 0
AreNamed ps [] body = Unit
AreNamed ps (i ∷ is) body =
    ((j : Variable) → contains_bubble_with_index i ps ≡ some j → IsPartner i j is body)
    × All (λ v. v.id ≢ i.id) is
    × All (λ v. (j : Variable) → contains_bubble_with_index v ps ≡ some j → j.id ≢ i.id) is
    × AreNamed ps is body

-- The partners are in the range of their indices.
abbrev pub AreInRange : Indices → List Bubble → List Variable → Indices → Type 0
AreInRange extent ps is ρ =
    All (λ i. (j : Variable) → contains_bubble_with_index i ps ≡ some j → ρ j.id < extent i.id) is

survives :
    (ps : List Bubble) (i : Variable) (is : List Variable) (body : QtlExpression)
    → contains_bubble_with_index i ps ≡ none
    → fold_indices ps (i ∷ is) body ≡ ((fold_indices ps is body).0, i ∷ (fold_indices ps is body).1)
unfolding fold_indices
survives ps i is body e = rw (e, fold_indices) refl

pub is_folded :
    (ps : List Bubble) (i j : Variable) (is : List Variable) (body : QtlExpression)
    → contains_bubble_with_index i ps ≡ some j
    → fold_indices ps (i ∷ is) body
      ≡ fold_indices ps is (eliminate_trivial_deltas (substitute_index body i j))
unfolding fold_indices
is_folded ps i j is body e = rw (e, fold_indices) refl

module _ {s : Scalars} (laws : HasDeltas s) (extent : Indices) where
  abbrev AreLive : List Bubble → List Variable → QtlExpression → Type 0
  AreLive ps is body =
      All
        (λ i.
          (j : Variable)
          → contains_bubble_with_index i ps ≡ some j
          → Vanishes laws extent body (i, j))
        is

  AreNamed-folded :
      (ps : List Bubble) (is : List Variable) (body : QtlExpression) (i j : Variable)
      → AreNamed ps is body
      → AreNamed ps is (eliminate_trivial_deltas (substitute_index body i j))
  AreNamed-folded ps [] body i j n = tt
  AreNamed-folded ps (v ∷ is) body i j n = (
    (λ w e.
        let p = n.0 w e in
        record {
          index = p.index;
          apart = p.apart;
          later = p.later;
          inner = AllBound-folded (IsOther v w) body i j p.inner;
        }),
    n.1,
    n.2,
    AreNamed-folded ps is body i j n.3,
  )

  AreLive-folded :
      (ps : List Bubble) (is : List Variable) (body : QtlExpression) (i j : Variable)
      → is_index j ≡ true
      → AllBound (IsOther i j) body
      → All (λ v. v.id ≢ i.id) is
      → All (λ v. (j : Variable) → contains_bubble_with_index v ps ≡ some j → j.id ≢ i.id) is
      → AreLive ps is body
      → AreLive ps is (eliminate_trivial_deltas (substitute_index body i j))
  AreLive-folded ps [] body i j known bound p q z = tt
  AreLive-folded ps (v ∷ is) body i j known bound p q z = (
    λ w e. Vanishes-folded laws extent body i j v w known bound p.0 (q.0 w e) (z.0 w e),
    AreLive-folded ps is body i j known bound p.1 q.1 z.1,
  )

  AreInRange-update :
      (ps : List Bubble) (is : List Variable) (ρ : Indices) (i k : ℕ)
      → All (λ v. (j : Variable) → contains_bubble_with_index v ps ≡ some j → j.id ≢ i) is
      → AreInRange extent ps is ρ
      → AreInRange extent ps is (update ρ i k)
  AreInRange-update ps [] ρ i k p r = tt
  AreInRange-update ps (v ∷ is) ρ i k p r = (
    (λ j e.
        subst (λ x. x < extent v.id) (sym (update_other ρ i k j.id (λ g. p.0 j e (sym g))))
          (r.0 j e)),
    AreInRange-update ps is ρ i k p.1 r.1,
  )

  -- The meaning of a body and the indices that survive.
  abbrev total : QtlExpression × List Variable → Indices → s.V
  total out ρ = sum_over s extent out.1 (eval s extent out.0) ρ

  sum_over-fold_indices :
      (ps : List Bubble) (is : List Variable) (body : QtlExpression) (ρ : Indices)
      → AreNamed ps is body
      → AreLive ps is body
      → AreInRange extent ps is ρ
      → total (fold_indices ps is body) ρ ≡ sum_over s extent is (eval s extent body) ρ
  unfolding sum_over fold_indices
  sum_over-fold_indices ps [] body ρ n z r = refl
  sum_over-fold_indices ps (i ∷ is) body ρ n z r =
      elim (Option-cases (contains_bubble_with_index i ps)) [
        | inl e ↦
            ap (λ out. total out ρ) (survives ps i is body e)
            ∙ ap (sum_to s (extent i.id)) (
                fun_ext (λ k.
                  sum_over-fold_indices ps is body (update ρ i.id k) n.3 z.1
                    (AreInRange-update ps is ρ i.id k n.2 r.1)))
        | inr (j, e) ↦
            let p = n.0 j e in
            ap (λ out. total out ρ) (is_folded ps i j is body e)
            ∙ sum_over-fold_indices ps is (eliminate_trivial_deltas (substitute_index body i j)) ρ
                (AreNamed-folded ps is body i j n.3)
                (AreLive-folded ps is body i j p.index p.inner n.1 n.2 z.1) r.1
            ∙ sum_over-substitute_index laws extent i j is body ρ p (z.0 j e) (r.0 j e)
      ]

  contains-AreLive :
      (ps : List Bubble) (body : QtlExpression) (i j : Variable)
      → All (Vanishes laws extent body) ps
      → contains_bubble_with_index i ps ≡ some j
      → Vanishes laws extent body (i, j)
  unfolding contains_bubble_with_index
  contains-AreLive [] body i j z h = cc h
  contains-AreLive ((v, w) ∷ ps) body i j z h = elim (Bool-cases (same_variable v i)) [
    | inl p ↦ λ ρ d.
        z.0 ρ (λ e. d (ap ρ (sym (id_of v p)) ∙ e ∙ ap ρ (ap (λ u. u.id) (some_of (rw p at h)))))
    | inr p ↦ elim (Bool-cases (same_variable w i)) [
      | inl q ↦ λ ρ d. z.0 ρ (λ e.
          d (ap ρ (sym (id_of w q)) ∙ sym e ∙ ap ρ (ap (λ u. u.id) (some_of (rw (p, q) at h)))))
      | inr q ↦ contains-AreLive ps body i j z.1 (rw (p, q) at h)
    ]
  ]
    where
      id_of : (v : Variable) → same_variable v i ≡ true → v.id ≡ i.id
      id_of v p = (==_iff v.id i.id).0 p

      some_of : {u w : Variable} → some u ≡ some w → u ≡ w
      some_of h = cc h

  all_live :
      (ps : List Bubble) (is : List Variable) (body : QtlExpression)
      → All (Vanishes laws extent body) ps
      → AreLive ps is body
  all_live ps [] body z = tt
  all_live ps (i ∷ is) body z = (λ j e. contains-AreLive ps body i j z e, all_live ps is body z)

  eval-with_sums :
      (out : QtlExpression × List Variable) (ρ : Indices)
      → eval s extent (with_sums out) ρ ≡ sum_over s extent out.1 (eval s extent out.0) ρ
  unfolding eval sum_over
  eval-with_sums (body, []) ρ = refl
  eval-with_sums (body, i ∷ is) ρ = refl

  -- What replaces a sum means what the sum means, if the partners of its indices are in range, and no
  -- partner is bound in the body or is another index of the sum.
  pub eval-fold_sum :
      (is : List Variable) (body : QtlExpression) (ρ : Indices)
      → AreNamed (collect_bubbles body []) is body
      → AreInRange extent (collect_bubbles body []) is ρ
      → eval s extent (fold_sum (sum is body)) ρ ≡ eval s extent (sum is body) ρ
  unfolding fold_sum eval
  eval-fold_sum is body ρ n r =
      let ps = collect_bubbles body [] in
      let live =
        collect_bubbles-All laws extent body (Vanishes laws extent body) [] (λ p z. z) tt in
      eval-with_sums (fold_indices ps is body) ρ
      ∙ sum_over-fold_indices ps is body ρ n (all_live ps is body live) r
