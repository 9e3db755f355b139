-- ===== src/Qtl/Deltas/Binders.antt =====
-- The variables that an expression binds, which qubus/src/qtl/kronecker_delta_folding_pass.cpp keeps
-- where it replaces index variables and trivial deltas.
use qubus.Base.{Option, some, Option-cases, List, [], ◌∷◌, All, ◌≡◌, subst, inl, inr}
use qubus.Ir.Expressions.{Variable}
use qubus.Qtl.Expressions.{
  QtlExpression, QtlExpressions, integer_literal, variable_ref, binary_operator, unary_operator,
  intrinsic_function, subscription, kronecker_delta, sum, for_all, nil, cons, or_leaf,
  substitute_leaves, substitute_all,
}
use qubus.Qtl.Deltas.Leaves.{trivial_delta-IsTrivial, reference_to-IsReference}
use qubus.Qtl.Deltas.{trivial_delta, reference_to, eliminate_trivial_deltas, substitute_index}

-- Every variable that a sum or a loop of the expression binds.
unfoldable mutual
  pub AllBound : (Variable → Type 0) → QtlExpression → Type 0
  AllBound P (binary_operator t l r) = AllBound P l × AllBound P r
  AllBound P (unary_operator t e) = AllBound P e
  AllBound P (intrinsic_function n es) = EachBound P es
  AllBound P (subscription e es) = AllBound P e × EachBound P es
  AllBound P (kronecker_delta n l r) = AllBound P l × AllBound P r
  AllBound P (sum is e) = All P is × AllBound P e
  AllBound P (for_all is e) = All P is × AllBound P e
  AllBound P _ = Unit

  pub EachBound : (Variable → Type 0) → QtlExpressions → Type 0
  EachBound P nil = Unit
  EachBound P (cons e es) = AllBound P e × EachBound P es

All_true : (is : List Variable) → All (λ v. Unit {0}) is
All_true [] = tt
All_true (i ∷ is) = (tt, All_true is)

mutual
  unfolding AllBound

  pub any_bound : (e : QtlExpression) → AllBound (λ v. Unit {0}) e
  any_bound (integer_literal z) = tt
  any_bound (variable_ref v) = tt
  any_bound (binary_operator t l r) = (any_bound l, any_bound r)
  any_bound (unary_operator t e) = any_bound e
  any_bound (intrinsic_function n es) = all_any_bound es
  any_bound (subscription e es) = (any_bound e, all_any_bound es)
  any_bound (kronecker_delta n l r) = (any_bound l, any_bound r)
  any_bound (sum is e) = (All_true is, any_bound e)
  any_bound (for_all is e) = (All_true is, any_bound e)

  all_any_bound : (es : QtlExpressions) → EachBound (λ v. Unit {0}) es
  all_any_bound nil = tt
  all_any_bound (cons e es) = (any_bound e, all_any_bound es)

-- Replacing leaves by leaves that bind nothing keeps what is bound.
module _ (f : QtlExpression → Option QtlExpression) (P : Variable → Type 0)
    (bare : (e leaf : QtlExpression) → f e ≡ some leaf → AllBound P leaf) where
  or_leaf-AllBound :
      (e rebuilt : QtlExpression) → AllBound P rebuilt → AllBound P (or_leaf (f e) rebuilt)
  or_leaf-AllBound e rebuilt h = elim (Option-cases (f e)) [
    | inl q ↦ rw q h
    | inr (leaf, q) ↦ rw q (bare e leaf q)
  ]

  mutual
    unfolding substitute_leaves AllBound

    AllBound-substitute_leaves :
        (e : QtlExpression) → AllBound P e → AllBound P (substitute_leaves f e)
    AllBound-substitute_leaves (integer_literal z) b = or_leaf-AllBound (integer_literal z) _ tt
    AllBound-substitute_leaves (variable_ref v) b = or_leaf-AllBound (variable_ref v) _ tt
    AllBound-substitute_leaves (binary_operator t l r) b =
        or_leaf-AllBound (binary_operator t l r) _
          (AllBound-substitute_leaves l b.0, AllBound-substitute_leaves r b.1)
    AllBound-substitute_leaves (unary_operator t e) b =
        or_leaf-AllBound (unary_operator t e) _ (AllBound-substitute_leaves e b)
    AllBound-substitute_leaves (intrinsic_function n es) b =
        or_leaf-AllBound (intrinsic_function n es) _ (EachBound-substitute_all es b)
    AllBound-substitute_leaves (subscription e es) b =
        or_leaf-AllBound (subscription e es) _
          (AllBound-substitute_leaves e b.0, EachBound-substitute_all es b.1)
    AllBound-substitute_leaves (kronecker_delta n l r) b =
        or_leaf-AllBound (kronecker_delta n l r) _
          (AllBound-substitute_leaves l b.0, AllBound-substitute_leaves r b.1)
    AllBound-substitute_leaves (sum is e) b =
        or_leaf-AllBound (sum is e) _ (b.0, AllBound-substitute_leaves e b.1)
    AllBound-substitute_leaves (for_all is e) b =
        or_leaf-AllBound (for_all is e) _ (b.0, AllBound-substitute_leaves e b.1)

    EachBound-substitute_all :
        (es : QtlExpressions) → EachBound P es → EachBound P (substitute_all f es)
    EachBound-substitute_all nil b = tt
    EachBound-substitute_all (cons e es) b =
        (AllBound-substitute_leaves e b.0, EachBound-substitute_all es b.1)

reference_to-bare :
    (P : Variable → Type 0) (i j : Variable) (e leaf : QtlExpression)
    → reference_to i j e ≡ some leaf
    → AllBound P leaf
unfolding AllBound
reference_to-bare P i j e leaf h =
    subst (AllBound P) (reference_to-IsReference i j e leaf h).target tt

trivial_delta-bare :
    (P : Variable → Type 0) (e leaf : QtlExpression) → trivial_delta e ≡ some leaf → AllBound P leaf
unfolding AllBound
trivial_delta-bare P e leaf h = subst (AllBound P) (trivial_delta-IsTrivial e leaf h).target tt

pub AllBound-folded :
    (P : Variable → Type 0) (e : QtlExpression) (i j : Variable)
    → AllBound P e
    → AllBound P (eliminate_trivial_deltas (substitute_index e i j))
unfolding eliminate_trivial_deltas substitute_index
AllBound-folded P e i j h =
    AllBound-substitute_leaves trivial_delta P (trivial_delta-bare P) _
      (AllBound-substitute_leaves (reference_to i j) P (reference_to-bare P i j) e h)
