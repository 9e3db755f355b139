-- ===== src/Qtl/Deltas/Pass.antt =====
-- `fold_kronecker_deltas` of qubus/src/qtl/kronecker_delta_folding_pass.cpp on every sum of an
-- expression.
use qubus.Base.{
  ℕ, zero, suc, ◌≤◌, ◌<◌, List, [], ◌∷◌, ◌≡◌, refl, subst, ap, ap₂, ◌∙◌, arith, inl, inr,
  Bool-cases, ◌==◌, ==_iff,
}
use qubus.Base.Results.{Result, ok}
use qubus.Ir.Expressions.{Variable, BinaryOpTag}
use qubus.Qtl.Expressions.{
  QtlExpression, QtlExpressions, integer_literal, variable_ref, binary_operator, unary_operator,
  intrinsic_function, subscription, kronecker_delta, sum, for_all, nil, cons, depth, depth_all,
}
use qubus.Qtl.Meaning.{
  Scalars, HasDeltas, Indices, update, sum_to, sum_over, each_over, eval, eval_all,
}
use qubus.Qtl.Deltas.{
  Bubble, collect_bubbles, fold_sum, transform_all, transform_children, fold_kronecker_deltas,
}
use qubus.Qtl.Deltas.Folding.{AreInRange, eval-fold_sum}
use qubus.Qtl.Deltas.Naming.{Scope, IsWellNamed}
use qubus.Qtl.Deltas.Bounded.{depth-fold_sum, depth_positive}
use qubus.Qtl.Deltas.Foldable.{
  EachOf, EachChild, AreAlike, IsNamed, IsFoldable, IsWellNamed-IsFoldable,
}

module _ (extent : Indices) where
  -- Every index has a value in its range.
  abbrev pub IsInRange : Indices → Type 0
  IsInRange ρ = (i : ℕ) → ρ i < extent i

  IsInRange-update : (ρ : Indices) (i k : ℕ) → IsInRange ρ → k < extent i → IsInRange (update ρ i k)
  IsInRange-update ρ i k r l j = elim (Bool-cases (i == j)) [
    | inl p ↦ rw p (subst (λ x. k < extent x) ((==_iff i j).0 p) l)
    | inr p ↦ rw p (r j)
  ]

  alike-AreInRange :
      (ps : List Bubble) (is : List Variable) (ρ : Indices)
      → IsInRange ρ
      → AreAlike extent ps is
      → AreInRange extent ps is ρ
  alike-AreInRange ps [] ρ r a = tt
  alike-AreInRange ps (i ∷ is) ρ r a =
      ((λ j e. subst (λ n. ρ j.id < n) (a.0 j e) (r j.id)), alike-AreInRange ps is ρ r a.1)

module _ {s : Scalars} (laws : HasDeltas s) (extent : Indices) where
  -- The same meaning wherever every index is in its range.
  abbrev AreEqual : (Indices → s.V) → (Indices → s.V) → Type 0
  AreEqual g h = (ρ : Indices) → IsInRange extent ρ → g ρ ≡ h ρ

  pub sum_to-below :
      (n : ℕ) (f g : ℕ → s.V) → ((k : ℕ) → k < n → f k ≡ g k) → sum_to s n f ≡ sum_to s n g
  unfolding sum_to
  sum_to-below zero f g h = refl
  sum_to-below (suc n) f g h =
      ap₂ (s.binary BinaryOpTag.plus) (sum_to-below n f g (λ k l. h k (omega (arith, l))))
        (h n (omega arith))

  sum_over-AreEqual :
      (is : List Variable) (g h : Indices → s.V)
      → AreEqual g h
      → AreEqual (sum_over s extent is g) (sum_over s extent is h)
  unfolding sum_over
  sum_over-AreEqual [] g h e ρ r = e ρ r
  sum_over-AreEqual (i ∷ is) g h e ρ r =
      sum_to-below (extent i.id) _ _
        (λ k l. sum_over-AreEqual is g h e (update ρ i.id k) (IsInRange-update extent ρ i.id k r l))

  each_over-AreEqual :
      (is : List Variable) (g h : Indices → s.V)
      → AreEqual g h
      → AreEqual (each_over s extent is g) (each_over s extent is h)
  unfolding each_over
  each_over-AreEqual [] g h e ρ r = e ρ r
  each_over-AreEqual (i ∷ is) g h e ρ r =
      laws.each_below (extent i.id) _ _ (λ k l.
        each_over-AreEqual is g h e (update ρ i.id k) (IsInRange-update extent ρ i.id k r l))

  -- The transformation gives an expression with the meaning of this one.
  abbrev IsKept : Result QtlExpression → QtlExpression → Type 0
  IsKept m e = (e' : QtlExpression) × (m ≡ ok e') × AreEqual (eval s extent e') (eval s extent e)

  module _ (f : QtlExpression → Result QtlExpression) (P : QtlExpression → Type 0) (n : ℕ)
      (keeps : (e : QtlExpression) → depth e ≤ n → P e → IsKept (f e) e) where
    transform_all-IsKept :
        (es : QtlExpressions)
        → depth_all es ≤ n
        → EachOf P es
        → (es' : QtlExpressions) × (transform_all f es ≡ ok es')
          × ((ρ : Indices) → IsInRange extent ρ → eval_all s extent es' ρ ≡ eval_all s extent es ρ)
    unfolding transform_all eval depth
    transform_all-IsKept nil l p = (nil, refl, λ ρ r. refl)
    transform_all-IsKept (cons e es) l p =
        let (e', q, same) = keeps e (omega (arith, l)) p.0 in
        let (es', qs, all_same) = transform_all-IsKept es (omega (arith, l)) p.1 in
        (cons e' es', rw (q, qs) refl, λ ρ r. ap₂ (λ x xs. x ∷ xs) (same ρ r) (all_same ρ r))

    transform_children-IsKept :
        (e : QtlExpression) → depth e ≤ suc n → EachChild P e → IsKept (transform_children f e) e
    unfolding transform_children eval depth
    transform_children-IsKept (integer_literal z) l p = (integer_literal z, refl, λ ρ r. refl)
    transform_children-IsKept (variable_ref v) l p = (variable_ref v, refl, λ ρ r. refl)
    transform_children-IsKept (binary_operator t a b) l p =
        let (a', q, left) = keeps a (omega (arith, l)) p.0 in
        let (b', q', right) = keeps b (omega (arith, l)) p.1 in
        (binary_operator t a' b', rw (q, q') refl, λ ρ r. ap₂ (s.binary t) (left ρ r) (right ρ r))
    transform_children-IsKept (unary_operator t e) l p =
        let (e', q, same) = keeps e (omega (arith, l)) p in
        (unary_operator t e', rw q refl, λ ρ r. ap (s.unary t) (same ρ r))
    transform_children-IsKept (intrinsic_function name es) l p =
        let (es', q, same) = transform_all-IsKept es (omega (arith, l)) p in
        (intrinsic_function name es', rw q refl, λ ρ r. ap (s.invoke name) (same ρ r))
    transform_children-IsKept (subscription e es) l p =
        let (e', q, same) = keeps e (omega (arith, l)) p.0 in
        let (es', q', all_same) = transform_all-IsKept es (omega (arith, l)) p.1 in
        (subscription e' es', rw (q, q') refl, λ ρ r. ap₂ s.element (same ρ r) (all_same ρ r))
    transform_children-IsKept (kronecker_delta m a b) l p =
        let (a', q, left) = keeps a (omega (arith, l)) p.0 in
        let (b', q', right) = keeps b (omega (arith, l)) p.1 in
        (kronecker_delta m a' b', rw (q, q') refl, λ ρ r. ap₂ (s.delta m) (left ρ r) (right ρ r))
    transform_children-IsKept (sum is e) l p =
        let (e', q, same) = keeps e (omega (arith, l)) p in
        (sum is e', rw q refl, sum_over-AreEqual is (eval s extent e') (eval s extent e) same)
    transform_children-IsKept (for_all is e) l p =
        let (e', q, same) = keeps e (omega (arith, l)) p in
        (for_all is e', rw q refl, each_over-AreEqual is (eval s extent e') (eval s extent e) same)

  fold_sum-AreEqual :
      (e : QtlExpression)
      → IsNamed extent e
      → AreEqual (eval s extent (fold_sum e)) (eval s extent e)
  unfolding fold_sum
  fold_sum-AreEqual (sum is body) n ρ r =
      let ps = collect_bubbles body [] in
      eval-fold_sum laws extent is body ρ n.0 (alike-AreInRange extent ps is ρ r n.1)
  fold_sum-AreEqual _ n ρ r = refl

  fold_kronecker_deltas-IsKept :
      (fuel : ℕ) (e : QtlExpression)
      → depth e ≤ fuel
      → IsFoldable extent fuel e
      → IsKept (fold_kronecker_deltas fuel e) e
  unfolding fold_kronecker_deltas IsFoldable
  fold_kronecker_deltas-IsKept zero e l p =
      let some_depth = depth_positive e in absurd (omega (arith, l, some_depth))
  fold_kronecker_deltas-IsKept (suc fuel) e l p =
      let bounded = depth-fold_sum e in
      let (e', q, same) =
        transform_children-IsKept (fold_kronecker_deltas fuel) (IsFoldable extent fuel) fuel
          (fold_kronecker_deltas-IsKept fuel) (fold_sum e) (omega (arith, l, bounded)) p.1 in
      (e', q, λ ρ r. same ρ r ∙ fold_sum-AreEqual e p.0 ρ r)

  -- With fuel for its depth, and with numbers that keep the laws of 0, of deltas and of loops, folding
  -- the deltas of an expression gives one with the same meaning where every index is in its range, if
  -- each sum has one index, each delta of two indices has indices of the same range, each index is in
  -- scope where it is used, and none is in scope where it is bound.
  pub eval-fold_kronecker_deltas :
      (fuel : ℕ) (e : QtlExpression) (scope : Scope) (ρ : Indices)
      → depth e ≤ fuel
      → IsWellNamed extent e scope
      → IsInRange extent ρ
      → (e' : QtlExpression) × (fold_kronecker_deltas fuel e ≡ ok e')
        × (eval s extent e' ρ ≡ eval s extent e ρ)
  eval-fold_kronecker_deltas fuel e scope ρ l w r =
      let (e', q, same) =
        fold_kronecker_deltas-IsKept fuel e l (IsWellNamed-IsFoldable extent fuel e scope w) in
      (e', q, same ρ r)
