-- ===== src/Qtl/Deltas/Stale.antt =====
-- A sum with two indices in qubus/src/qtl/kronecker_delta_folding_pass.cpp: the loop over the indices
-- reads bubbles of the body it started with.
use qubus.Base.{
  ℕ, ◌<◌, ltb, true, false, [], ◌∷◌, some, ◌≡◌, ◌≢◌, refl, sym, subst, ap, ap₂, ◌∙◌, arith, inl,
  inr, Bool-cases,
}
use qubus.Base.Int.{pos}
use qubus.Ir.Expressions.{Variable, same_variable}
use qubus.Qtl.Expressions.{
  QtlExpression, integer_literal, variable_ref, kronecker_delta, sum, is_index, substitute_leaves,
}
use qubus.Qtl.Meaning.{Scalars, HasDeltas, Indices, update, sum_to, sum_over, eval}
use qubus.Qtl.Deltas.{
  make_bubble, collect_bubbles, contains_bubble_with_index, substitute_index,
  eliminate_trivial_deltas, fold_indices, with_sums, fold_sum,
}
use qubus.Qtl.Deltas.Vanishing.{eval-variable_ref}
use qubus.Qtl.Deltas.Substitution.{update_other, update_same}
use qubus.Qtl.Deltas.Contraction.{sum_to-single}
use qubus.Qtl.Deltas.Folding.{is_folded}
use qubus.Qtl.Deltas.Pass.{sum_to-below}

abbrev pub delta_of : ℕ → Variable → Variable → QtlExpression
delta_of n i j = kronecker_delta n (variable_ref i) (variable_ref j)

differ : (i j : Variable) → i.id ≢ j.id → same_variable i j ≡ false
differ i j d = ground arith

same_itself : (i : Variable) → same_variable i i ≡ true
same_itself i = ground arith

collect_bubbles-delta :
    (n : ℕ) (i j : Variable)
    → is_index i ≡ true
    → is_index j ≡ true
    → i.id ≢ j.id
    → collect_bubbles (delta_of n i j) [] ≡ make_bubble i j ∷ []
unfolding collect_bubbles
collect_bubbles-delta n i j p q d = let apart = differ i j d in rw (p, q, apart) refl

partners :
    (i j : Variable)
    → i.id ≢ j.id
    → (contains_bubble_with_index i (make_bubble i j ∷ []) ≡ some j)
      × (contains_bubble_with_index j (make_bubble i j ∷ []) ≡ some i)
unfolding contains_bubble_with_index
partners i j d =
    let i_j = differ i j d in
    let j_i = differ j i (λ e. d (sym e)) in
    let i_i = same_itself i in
    let j_j = same_itself j in
    elim (Bool-cases (ltb i.id j.id)) [
      | inl p ↦ (rw (p, i_i) refl, rw (p, i_j, j_j) refl)
      | inr p ↦ (rw (p, j_i, i_i) refl, rw (p, j_j) refl)
    ]

folded-delta :
    (n : ℕ) (i j : Variable)
    → is_index i ≡ true
    → is_index j ≡ true
    → i.id ≢ j.id
    → eliminate_trivial_deltas (substitute_index (delta_of n i j) i j) ≡ integer_literal (pos 1)
unfolding eliminate_trivial_deltas substitute_index substitute_leaves
folded-delta n i j p q d =
    let j_i = differ j i (λ e. d (sym e)) in
    let i_i = same_itself i in let j_j = same_itself j in rw (p, q, i_i, j_i, q, j_j) refl

module _ (n : ℕ) (i j : Variable) (p : is_index i ≡ true) (q : is_index j ≡ true)
    (d : i.id ≢ j.id) where
  fold_sum-delta : fold_sum (sum (i ∷ j ∷ []) (delta_of n i j)) ≡ integer_literal (pos 1)
  unfolding fold_sum fold_indices eliminate_trivial_deltas substitute_index substitute_leaves
  fold_sum-delta =
      let ps = make_bubble i j ∷ [] in
      let (first, second) = partners i j d in
      ap (λ ps. with_sums (fold_indices ps (i ∷ j ∷ []) (delta_of n i j)))
        (collect_bubbles-delta n i j p q d)
      ∙ ap with_sums (
          is_folded ps i j (j ∷ []) (delta_of n i j) first
          ∙ ap (fold_indices ps (j ∷ [])) (folded-delta n i j p q d)
          ∙ is_folded ps j i [] (integer_literal (pos 1)) second)

  eval-delta-sum :
      {s : Scalars} (laws : HasDeltas s) (extent ρ : Indices)
      → extent i.id ≡ extent j.id
      → eval s extent (sum (i ∷ j ∷ []) (delta_of n i j)) ρ
        ≡ sum_to s (extent i.id) (λ k. s.literal (pos 1))
  unfolding eval sum_over
  eval-delta-sum {s} laws extent ρ alike =
      sum_to-below laws extent (extent i.id) _ _ (λ k l. inner k (subst (λ m. k < m) alike l))
    where
      at : ℕ → ℕ → Indices
      at k l = update (update ρ i.id k) j.id l

      value :
          (k l : ℕ)
          → eval s extent (delta_of n i j) (at k l) ≡ s.delta n (s.position k) (s.position l)
      value k l =
          ap₂ (s.delta n)
            (eval-variable_ref laws extent i (at k l) p
              ∙ ap s.position (
                  update_other (update ρ i.id k) j.id l i.id (λ e. d (sym e))
                  ∙ update_same ρ i.id k i.id refl))
            (eval-variable_ref laws extent j (at k l) q
              ∙ ap s.position (update_same (update ρ i.id k) j.id l j.id refl))

      inner :
          (k : ℕ)
          → k < extent j.id
          → sum_to s (extent j.id) (λ l. eval s extent (delta_of n i j) (at k l))
            ≡ s.literal (pos 1)
      inner k below =
          sum_to-single laws extent (extent j.id) (λ l. eval s extent (delta_of n i j) (at k l)) k
            below (λ l h. value k l ∙ laws.other_delta n k l (λ e. h (sym e)))
          ∙ value k k
          ∙ laws.same_delta n k

  -- With numbers that keep the laws of 0 and of deltas, the sum over two different indices of one range
  -- of their delta is folded to the number 1, but means 1 added up once for each value of an index.
  pub fold_sum-stale :
      {s : Scalars} (laws : HasDeltas s) (extent ρ : Indices)
      → extent i.id ≡ extent j.id
      → (fold_sum (sum (i ∷ j ∷ []) (delta_of n i j)) ≡ integer_literal (pos 1))
        × (eval s extent (sum (i ∷ j ∷ []) (delta_of n i j)) ρ
            ≡ sum_to s (extent i.id) (λ k. s.literal (pos 1)))
  fold_sum-stale laws extent ρ alike = (fold_sum-delta, eval-delta-sum laws extent ρ alike)
