-- ===== src/Qtl/Deltas/WellNamed.antt =====
-- What qubus/src/qtl/kronecker_delta_folding_pass.cpp collects and folds in an expression that is well
-- named.
use qubus.Base.{
  ℕ, ◌==◌, ==_iff, Bool, true, false, not, ◌&&◌, ◌||◌, ltb, &&_parts, some, Option-cases, List, [],
  ◌∷◌, All, ◌≡◌, ◌≢◌, sym, subst, ap, ◌∙◌, inl, inr, Bool-cases, arith,
}
use qubus.Ir.Expressions.{Variable, BinaryOpTag, same_variable}
use qubus.Qtl.Expressions.{
  QtlExpression, variable_ref, binary_operator, kronecker_delta, sum, is_index,
}
use qubus.Qtl.Meaning.{Indices}
use qubus.Qtl.Deltas.{
  Bubble, make_bubble, delta_bubble, collect_bubbles, contains_bubble_with_index, fold_indices,
  fold_sum,
}
use qubus.Qtl.Deltas.Vanishing.{All_map, All_join, IsFree, remove_all-All, common-All}
use qubus.Qtl.Deltas.Naming.{Scope, bind, bind_keeps, bind_other, IsWellNamed}
use qubus.Qtl.Deltas.Renaming.{folded-IsWellNamed}

module _ (extent : Indices) where
  -- Two indices in scope that run over one range.
  pub record AreKnown (scope : Scope) (p : Bubble) : Type 0 where
    pub first : is_index p.0 ≡ true
    pub second : is_index p.1 ≡ true
    pub first_here : scope p.0.id ≡ true
    pub second_here : scope p.1.id ≡ true
    pub apart : p.0.id ≢ p.1.id
    pub alike : extent p.0.id ≡ extent p.1.id

  swapped : (scope : Scope) (i j : Variable) → AreKnown scope (i, j) → AreKnown scope (j, i)
  swapped scope i j k = record {
    first = k.second;
    second = k.first;
    first_here = k.second_here;
    second_here = k.first_here;
    apart = λ e. k.apart (sym e);
    alike = sym k.alike;
  }

  make_bubble-AreKnown :
      (scope : Scope) (i j : Variable) → AreKnown scope (i, j) → AreKnown scope (make_bubble i j)
  make_bubble-AreKnown scope i j k = elim (Bool-cases (ltb i.id j.id)) [
    | inl p ↦ rw p k
    | inr p ↦ rw p (swapped scope i j k)
  ]

  delta_bubble-AreKnown :
      (n : ℕ) (l r : QtlExpression) (scope : Scope)
      → IsWellNamed extent (kronecker_delta n l r) scope
      → All (AreKnown scope) (delta_bubble l r)
  unfolding IsWellNamed
  delta_bubble-AreKnown n (variable_ref i) (variable_ref j) scope w =
      elim (Bool-cases (is_index i && is_index j && not (same_variable i j))) [
        | inl p ↦
            let (indices, differ) =
              &&_parts (is_index i && is_index j) (not (same_variable i j)) p in
            let (first, second) = &&_parts (is_index i) (is_index j) indices in
            rw p (
              make_bubble-AreKnown scope i j (record {
                first = first;
                second = second;
                first_here = w.0 first;
                second_here = w.1 second;
                apart = λ e. let same = (==_iff i.id j.id).1 e in cc (rw same at differ);
                alike = rw (first, second) at w.2;
              }),
              tt,
            )
        | inr p ↦ rw p tt
      ]
  delta_bubble-AreKnown n _ _ scope w = tt

  wider : (i : Variable) (scope : Scope) (p : Bubble) → AreKnown scope p → AreKnown (bind i scope) p
  wider i scope p k = record {
    first = k.first;
    second = k.second;
    first_here = bind_keeps i scope p.0.id k.first_here;
    second_here = bind_keeps i scope p.1.id k.second_here;
    apart = k.apart;
    alike = k.alike;
  }

  narrower :
      (i : Variable) (scope : Scope) (p : Bubble)
      → AreKnown (bind i scope) p
      → IsFree (i ∷ []) p
      → AreKnown scope p
  narrower i scope (v, w) k f =
      let (out_v, out_w) = both_other (same_variable i v) (same_variable i w) f.0 in
      record {
        first = k.first;
        second = k.second;
        first_here = unbound v.id out_v k.first_here;
        second_here = unbound w.id out_w k.second_here;
        apart = k.apart;
        alike = k.alike;
      }
    where
      both_other : (a b : Bool) → (a || b) ≡ false → (a ≡ false) × (b ≡ false)
      both_other a b e = ground arith

      unbound : (x : ℕ) → (i.id == x) ≡ false → bind i scope x ≡ true → scope x ≡ true
      unbound x e h = rw e at h

  collect_bubbles-AreKnown :
      (e : QtlExpression) (scope : Scope) (ps : List Bubble)
      → IsWellNamed extent e scope
      → All (AreKnown scope) ps
      → All (AreKnown scope) (collect_bubbles e ps)
  unfolding collect_bubbles IsWellNamed
  collect_bubbles-AreKnown (sum [] a) scope ps w h = absurd w
  collect_bubbles-AreKnown (sum (i ∷ []) a) scope ps w h =
      remove_all-All (i ∷ []) (AreKnown scope) (collect_bubbles a ps) (
        All_map (collect_bubbles a ps) (narrower i scope)
          (collect_bubbles-AreKnown a (bind i scope) ps w.1 (All_map ps (wider i scope) h)))
  collect_bubbles-AreKnown (sum (i ∷ j ∷ is) a) scope ps w h = absurd w
  collect_bubbles-AreKnown (binary_operator BinaryOpTag.plus a b) scope ps w h =
      All_join (AreKnown scope) ps _ h (
        common-All (AreKnown scope) (AreKnown scope) (AreKnown scope) _ _ (λ p q e k l. k)
          (collect_bubbles-AreKnown a scope [] w.0 tt) (collect_bubbles-AreKnown b scope [] w.1 tt))
  collect_bubbles-AreKnown (binary_operator BinaryOpTag.minus a b) scope ps w h =
      All_join (AreKnown scope) ps _ h (
        common-All (AreKnown scope) (AreKnown scope) (AreKnown scope) _ _ (λ p q e k l. k)
          (collect_bubbles-AreKnown a scope [] w.0 tt) (collect_bubbles-AreKnown b scope [] w.1 tt))
  collect_bubbles-AreKnown (binary_operator BinaryOpTag.divides a b) scope ps w h =
      collect_bubbles-AreKnown a scope ps w.0 h
  collect_bubbles-AreKnown (binary_operator BinaryOpTag.multiplies a b) scope ps w h =
      collect_bubbles-AreKnown b scope (collect_bubbles a ps) w.1
        (collect_bubbles-AreKnown a scope ps w.0 h)
  collect_bubbles-AreKnown (kronecker_delta n l r) scope ps w h =
      All_join (AreKnown scope) ps (delta_bubble l r) h (delta_bubble-AreKnown n l r scope w)
  collect_bubbles-AreKnown _ scope ps w h = h

  -- The partner that an index has among known bubbles.
  pub record IsKnownPartner (scope : Scope) (i j : Variable) : Type 0 where
    pub index : is_index j ≡ true
    pub here : scope j.id ≡ true
    pub apart : j.id ≢ i.id
    pub alike : extent j.id ≡ extent i.id

  contains-IsKnownPartner :
      (ps : List Bubble) (i j : Variable) (scope : Scope)
      → All (AreKnown scope) ps
      → contains_bubble_with_index i ps ≡ some j
      → IsKnownPartner scope i j
  unfolding contains_bubble_with_index
  contains-IsKnownPartner [] i j scope k h = cc h
  contains-IsKnownPartner ((v, w) ∷ ps) i j scope k h = elim (Bool-cases (same_variable v i)) [
    | inl p ↦ chosen v w k.0 p (rw p at h)
    | inr p ↦ elim (Bool-cases (same_variable w i)) [
      | inl q ↦ chosen w v (swapped scope v w k.0) q (rw (p, q) at h)
      | inr q ↦ contains-IsKnownPartner ps i j scope k.1 (rw (p, q) at h)
    ]
  ]
    where
      chosen :
          (v w : Variable)
          → AreKnown scope (v, w)
          → same_variable v i ≡ true
          → some w ≡ some j
          → IsKnownPartner scope i j
      chosen v w k p e =
          let ids : v.id ≡ i.id = (==_iff v.id i.id).0 p in
          subst (IsKnownPartner scope i) (the_same e) (record {
            index = k.second;
            here = k.second_here;
            apart = λ g. k.apart (ids ∙ sym g);
            alike = sym k.alike ∙ ap extent ids;
          })
        where
          the_same : {u w : Variable} → some u ≡ some w → u ≡ w
          the_same e = cc e

  -- The partner of the index of a sum.
  pub sum-IsKnownPartner :
      (i j : Variable) (body : QtlExpression) (scope : Scope)
      → IsWellNamed extent body (bind i scope)
      → contains_bubble_with_index i (collect_bubbles body []) ≡ some j
      → IsKnownPartner scope i j
  sum-IsKnownPartner i j body scope w e =
      let k =
        contains-IsKnownPartner (collect_bubbles body []) i j (bind i scope)
          (collect_bubbles-AreKnown body (bind i scope) [] w tt) e in
      record {
        index = k.index;
        here = bind_other i scope j.id k.apart k.here;
        apart = k.apart;
        alike = k.alike;
      }

  pub fold_sum-IsWellNamed :
      (e : QtlExpression) (scope : Scope)
      → IsWellNamed extent e scope
      → IsWellNamed extent (fold_sum e) scope
  unfolding fold_sum fold_indices IsWellNamed
  fold_sum-IsWellNamed (sum [] body) scope w = absurd w
  fold_sum-IsWellNamed (sum (i ∷ []) body) scope w =
      elim (Option-cases (contains_bubble_with_index i (collect_bubbles body []))) [
        | inl q ↦ rw (q, fold_indices) w
        | inr (j, q) ↦
            let k = sum-IsKnownPartner i j body scope w.1 q in
            rw (q, fold_indices)
              (folded-IsWellNamed extent body i j scope k.index k.alike k.here w.1)
      ]
  fold_sum-IsWellNamed (sum (i ∷ j ∷ is) body) scope w = absurd w
  fold_sum-IsWellNamed _ scope w = w
