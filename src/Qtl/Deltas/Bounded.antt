-- ===== src/Qtl/Deltas/Bounded.antt =====
-- The folding of qubus/src/qtl/kronecker_delta_folding_pass.cpp does not deepen an expression.
use qubus.Base.{ℕ, suc, ◌≤◌, Option, some, Option-cases, List, [], ◌∷◌, ◌≡◌, arith, inl, inr, subst}
use qubus.Ir.Expressions.{Variable}
use qubus.Qtl.Expressions.{
  QtlExpression, QtlExpressions, integer_literal, variable_ref, binary_operator, unary_operator,
  intrinsic_function, subscription, kronecker_delta, sum, for_all, nil, cons, or_leaf,
  substitute_leaves, substitute_all, depth, depth_all,
}
use qubus.Qtl.Deltas.Leaves.{trivial_delta-IsTrivial, reference_to-IsReference}
use qubus.Qtl.Deltas.{
  Bubble, trivial_delta, reference_to, eliminate_trivial_deltas, substitute_index,
  contains_bubble_with_index, fold_indices, with_sums, fold_sum, collect_bubbles,
}

-- Replacing leaves by leaves.
module _ (f : QtlExpression → Option QtlExpression)
    (flat : (e leaf : QtlExpression) → f e ≡ some leaf → depth leaf ≤ 1) where
  or_leaf-depth :
      (e rebuilt : QtlExpression) (n : ℕ)
      → depth rebuilt ≤ n
      → 1 ≤ n
      → depth (or_leaf (f e) rebuilt) ≤ n
  or_leaf-depth e rebuilt n h one = elim (Option-cases (f e)) [
    | inl q ↦ rw q h
    | inr (leaf, q) ↦ let thin = flat e leaf q in rw q (omega (arith, thin, one))
  ]

  mutual
    unfolding substitute_leaves depth

    depth-substitute_leaves : (e : QtlExpression) → depth (substitute_leaves f e) ≤ depth e
    depth-substitute_leaves (integer_literal z) =
        or_leaf-depth (integer_literal z) _ 1 (omega arith) (omega arith)
    depth-substitute_leaves (variable_ref v) =
        or_leaf-depth (variable_ref v) _ 1 (omega arith) (omega arith)
    depth-substitute_leaves (binary_operator t l r) =
        let left = depth-substitute_leaves l in
        let right = depth-substitute_leaves r in
        or_leaf-depth (binary_operator t l r) _ _ (omega (arith, left, right)) (omega arith)
    depth-substitute_leaves (unary_operator t e) =
        let inner = depth-substitute_leaves e in
        or_leaf-depth (unary_operator t e) _ _ (omega (arith, inner)) (omega arith)
    depth-substitute_leaves (intrinsic_function n es) =
        let inner = depth-substitute_all es in
        or_leaf-depth (intrinsic_function n es) _ _ (omega (arith, inner)) (omega arith)
    depth-substitute_leaves (subscription e es) =
        let left = depth-substitute_leaves e in
        let right = depth-substitute_all es in
        or_leaf-depth (subscription e es) _ _ (omega (arith, left, right)) (omega arith)
    depth-substitute_leaves (kronecker_delta n l r) =
        let left = depth-substitute_leaves l in
        let right = depth-substitute_leaves r in
        or_leaf-depth (kronecker_delta n l r) _ _ (omega (arith, left, right)) (omega arith)
    depth-substitute_leaves (sum is e) =
        let inner = depth-substitute_leaves e in
        or_leaf-depth (sum is e) _ _ (omega (arith, inner)) (omega arith)
    depth-substitute_leaves (for_all is e) =
        let inner = depth-substitute_leaves e in
        or_leaf-depth (for_all is e) _ _ (omega (arith, inner)) (omega arith)

    depth-substitute_all : (es : QtlExpressions) → depth_all (substitute_all f es) ≤ depth_all es
    depth-substitute_all nil = omega arith
    depth-substitute_all (cons e es) =
        let first = depth-substitute_leaves e in
        let rest = depth-substitute_all es in omega (arith, first, rest)

reference_to-flat :
    (i j : Variable) (e leaf : QtlExpression) → reference_to i j e ≡ some leaf → depth leaf ≤ 1
unfolding depth
reference_to-flat i j e leaf h =
    subst (λ e. depth e ≤ 1) (reference_to-IsReference i j e leaf h).target (omega arith)

trivial_delta-flat : (e leaf : QtlExpression) → trivial_delta e ≡ some leaf → depth leaf ≤ 1
unfolding depth
trivial_delta-flat e leaf h =
    subst (λ e. depth e ≤ 1) (trivial_delta-IsTrivial e leaf h).target (omega arith)

depth-folded :
    (e : QtlExpression) (i j : Variable)
    → depth (eliminate_trivial_deltas (substitute_index e i j)) ≤ depth e
unfolding eliminate_trivial_deltas substitute_index
depth-folded e i j =
    let once = depth-substitute_leaves (reference_to i j) (reference_to-flat i j) e in
    let twice =
      depth-substitute_leaves trivial_delta trivial_delta-flat
        (substitute_leaves (reference_to i j) e) in
    omega (arith, once, twice)

depth-fold_indices :
    (ps : List Bubble) (is : List Variable) (e : QtlExpression)
    → depth (fold_indices ps is e).0 ≤ depth e
unfolding fold_indices
depth-fold_indices ps [] e = omega arith
depth-fold_indices ps (i ∷ is) e = elim (Option-cases (contains_bubble_with_index i ps)) [
  | inl q ↦ rw (q, fold_indices) (depth-fold_indices ps is e)
  | inr (j, q) ↦
      let here = depth-folded e i j in
      let later = depth-fold_indices ps is (eliminate_trivial_deltas (substitute_index e i j)) in
      rw (q, fold_indices) (omega (arith, here, later))
]

depth-with_sums :
    (out : QtlExpression × List Variable) (n : ℕ) → depth out.0 ≤ n → depth (with_sums out) ≤ suc n
unfolding depth
depth-with_sums (e, []) n h = omega (arith, h)
depth-with_sums (e, i ∷ is) n h = omega (arith, h)

pub depth-fold_sum : (e : QtlExpression) → depth (fold_sum e) ≤ depth e
unfolding fold_sum depth
depth-fold_sum (sum is e) =
    depth-with_sums (fold_indices (collect_bubbles e []) is e) (depth e)
      (depth-fold_indices (collect_bubbles e []) is e)
depth-fold_sum _ = omega arith

pub depth_positive : (e : QtlExpression) → 1 ≤ depth e
unfolding depth
depth_positive (integer_literal z) = omega arith
depth_positive (variable_ref v) = omega arith
depth_positive (binary_operator t l r) = omega arith
depth_positive (unary_operator t e) = omega arith
depth_positive (intrinsic_function n es) = omega arith
depth_positive (subscription e es) = omega arith
depth_positive (kronecker_delta n l r) = omega arith
depth_positive (sum is e) = omega arith
depth_positive (for_all is e) = omega arith
