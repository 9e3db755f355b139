-- ===== src/Qtl/Deltas/Foldable.antt =====
-- The sums that `fold_kronecker_deltas` of qubus/src/qtl/kronecker_delta_folding_pass.cpp comes to.
use qubus.Base.{ℕ, zero, suc, some, List, [], ◌∷◌, All, ◌≡◌}
use qubus.Ir.Expressions.{Variable}
use qubus.Qtl.Expressions.{
  QtlExpression, QtlExpressions, integer_literal, variable_ref, binary_operator, unary_operator,
  intrinsic_function, subscription, kronecker_delta, sum, for_all, nil, cons,
}
use qubus.Qtl.Meaning.{Indices}
use qubus.Qtl.Deltas.{Bubble, collect_bubbles, contains_bubble_with_index, fold_sum}
use qubus.Qtl.Deltas.Contraction.{IsPartner}
use qubus.Qtl.Deltas.Folding.{AreNamed}
use qubus.Qtl.Deltas.Naming.{
  Scope, bind, bind_all, bind_keeps, bind_same, IsWellNamed, AreWellNamed, IsWellNamed-AllBound,
}
use qubus.Qtl.Deltas.WellNamed.{sum-IsKnownPartner, fold_sum-IsWellNamed}

-- Each child is.
abbrev pub EachOf : (QtlExpression → Type 0) → QtlExpressions → Type 0
EachOf P nil = Unit
EachOf P (cons e es) = P e × EachOf P es

abbrev pub EachChild : (QtlExpression → Type 0) → QtlExpression → Type 0
EachChild P (binary_operator t l r) = P l × P r
EachChild P (unary_operator t e) = P e
EachChild P (intrinsic_function n es) = EachOf P es
EachChild P (subscription e es) = P e × EachOf P es
EachChild P (kronecker_delta n l r) = P l × P r
EachChild P (sum is e) = P e
EachChild P (for_all is e) = P e
EachChild P _ = Unit

module _ (extent : Indices) where
  -- An index and its partner run over the same range.
  abbrev pub AreAlike : List Bubble → List Variable → Type 0
  AreAlike ps is =
      All
        (λ i. (j : Variable) → contains_bubble_with_index i ps ≡ some j → extent j.id ≡ extent i.id)
        is

  abbrev pub IsNamed : QtlExpression → Type 0
  IsNamed (sum is body) =
      AreNamed (collect_bubbles body []) is body × AreAlike (collect_bubbles body []) is
  IsNamed _ = Unit

  -- Every sum that the pass comes to.
  unfoldable pub IsFoldable : ℕ → QtlExpression → Type 0
  IsFoldable zero e = Unit
  IsFoldable (suc fuel) e = IsNamed e × EachChild (IsFoldable fuel) (fold_sum e)

  IsWellNamed-IsNamed : (e : QtlExpression) (scope : Scope) → IsWellNamed extent e scope → IsNamed e
  unfolding IsWellNamed
  IsWellNamed-IsNamed (sum [] body) scope w = absurd w
  IsWellNamed-IsNamed (sum (i ∷ []) body) scope w =
      ((partner, tt, tt, tt), (λ j e. (sum-IsKnownPartner extent i j body scope w.1 e).alike, tt))
    where
      partner :
          (j : Variable)
          → contains_bubble_with_index i (collect_bubbles body []) ≡ some j
          → IsPartner i j [] body
      partner j e =
          let k = sum-IsKnownPartner extent i j body scope w.1 e in
          record {
            index = k.index;
            apart = k.apart;
            later = tt;
            inner =
                IsWellNamed-AllBound i.id j.id extent body (bind i scope)
                  (bind_same i scope, bind_keeps i scope j.id k.here) w.1;
          }
  IsWellNamed-IsNamed (sum (i ∷ j ∷ is) body) scope w = absurd w
  IsWellNamed-IsNamed _ scope w = tt

  module _ (P : QtlExpression → Type 0)
      (each : (e : QtlExpression) (scope : Scope) → IsWellNamed extent e scope → P e) where
    EachOf-AreWellNamed :
        (es : QtlExpressions) (scope : Scope) → AreWellNamed extent es scope → EachOf P es
    unfolding IsWellNamed
    EachOf-AreWellNamed nil scope w = tt
    EachOf-AreWellNamed (cons e es) scope w = (each e scope w.0, EachOf-AreWellNamed es scope w.1)

    EachChild-IsWellNamed :
        (e : QtlExpression) (scope : Scope) → IsWellNamed extent e scope → EachChild P e
    unfolding IsWellNamed
    EachChild-IsWellNamed (integer_literal z) scope w = tt
    EachChild-IsWellNamed (variable_ref v) scope w = tt
    EachChild-IsWellNamed (binary_operator t l r) scope w = (each l scope w.0, each r scope w.1)
    EachChild-IsWellNamed (unary_operator t e) scope w = each e scope w
    EachChild-IsWellNamed (intrinsic_function n es) scope w = EachOf-AreWellNamed es scope w
    EachChild-IsWellNamed (subscription e es) scope w =
        (each e scope w.0, EachOf-AreWellNamed es scope w.1)
    EachChild-IsWellNamed (kronecker_delta n l r) scope w = (each l scope w.0, each r scope w.1)
    EachChild-IsWellNamed (sum [] e) scope w = absurd w
    EachChild-IsWellNamed (sum (i ∷ []) e) scope w = each e (bind i scope) w.1
    EachChild-IsWellNamed (sum (i ∷ j ∷ is) e) scope w = absurd w
    EachChild-IsWellNamed (for_all is e) scope w = each e (bind_all is scope) w.1

  pub IsWellNamed-IsFoldable :
      (fuel : ℕ) (e : QtlExpression) (scope : Scope)
      → IsWellNamed extent e scope
      → IsFoldable fuel e
  unfolding IsFoldable
  IsWellNamed-IsFoldable zero e scope w = tt
  IsWellNamed-IsFoldable (suc fuel) e scope w = (
    IsWellNamed-IsNamed e scope w,
    EachChild-IsWellNamed (IsFoldable fuel) (IsWellNamed-IsFoldable fuel) (fold_sum e) scope
        (fold_sum-IsWellNamed extent e scope w),
  )
