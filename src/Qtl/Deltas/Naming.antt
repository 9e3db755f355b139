-- ===== src/Qtl/Deltas/Naming.antt =====
-- Expressions whose sums have one index each, as `expand_multi_indices` of
-- qubus/src/qtl/multi_index_handling.cpp leaves them, with names that are never bound twice: what
-- qubus/src/qtl/kronecker_delta_folding_pass.cpp is run on.
use qubus.Base.{
  ℕ, ◌==◌, Bool, true, false, ◌||◌, if◌then◌else◌, Option, none, some, List, [], ◌∷◌, All, ◌≡◌, ◌≢◌,
  ap, arith,
}
use qubus.Ir.Expressions.{Variable}
use qubus.Qtl.Expressions.{
  QtlExpression, QtlExpressions, integer_literal, variable_ref, binary_operator, unary_operator,
  intrinsic_function, subscription, kronecker_delta, sum, for_all, nil, cons, is_index,
}
use qubus.Qtl.Meaning.{Indices}
use qubus.Qtl.Deltas.Binders.{AllBound, EachBound}

-- The identities that are in scope.
abbrev pub Scope : Type 0
Scope = ℕ → Bool

abbrev pub bind : Variable → Scope → Scope
bind i scope v = i.id == v || scope v

abbrev pub bind_all : List Variable → Scope → Scope
bind_all [] scope = scope
bind_all (i ∷ is) scope = bind_all is (bind i scope)

-- Each index is new where it is bound.
abbrev pub AreNew : List Variable → Scope → Type 0
AreNew [] scope = Unit
AreNew (i ∷ is) scope = (scope i.id ≡ false) × AreNew is (bind i scope)

abbrev pub AgreeIfKnown : Option ℕ → Option ℕ → Type 0
AgreeIfKnown (some m) (some n) = m ≡ n
AgreeIfKnown _ _ = Unit

module _ (extent : Indices) where
  -- The extent of the range of an index.
  abbrev pub range_of : QtlExpression → Option ℕ
  range_of (variable_ref v) = if is_index v then some (extent v.id) else none
  range_of _ = none

  -- Indices are in scope, binders are new, sums have one index, and the two indices of a delta have
  -- the same range.
  unfoldable mutual
    pub IsWellNamed : QtlExpression → Scope → Type 0
    IsWellNamed (integer_literal z) scope = Unit
    IsWellNamed (variable_ref v) scope = is_index v ≡ true → scope v.id ≡ true
    IsWellNamed (binary_operator t l r) scope = IsWellNamed l scope × IsWellNamed r scope
    IsWellNamed (unary_operator t e) scope = IsWellNamed e scope
    IsWellNamed (intrinsic_function n es) scope = AreWellNamed es scope
    IsWellNamed (subscription e es) scope = IsWellNamed e scope × AreWellNamed es scope
    IsWellNamed (kronecker_delta n l r) scope =
        IsWellNamed l scope × IsWellNamed r scope × AgreeIfKnown (range_of l) (range_of r)
    IsWellNamed (sum [] e) scope = ⊥
    IsWellNamed (sum (i ∷ []) e) scope = (scope i.id ≡ false) × IsWellNamed e (bind i scope)
    IsWellNamed (sum (i ∷ j ∷ is) e) scope = ⊥
    IsWellNamed (for_all is e) scope = AreNew is scope × IsWellNamed e (bind_all is scope)

    pub AreWellNamed : QtlExpressions → Scope → Type 0
    AreWellNamed nil scope = Unit
    AreWellNamed (cons e es) scope = IsWellNamed e scope × AreWellNamed es scope

-- Binding keeps what is in scope there.
pub bind_keeps : (i : Variable) (scope : Scope) (v : ℕ) → scope v ≡ true → bind i scope v ≡ true
bind_keeps i scope v h = ground arith

pub bind_same : (i : Variable) (scope : Scope) → bind i scope i.id ≡ true
bind_same i scope = ground arith

pub bind_other :
    (i : Variable) (scope : Scope) (v : ℕ) → v ≢ i.id → bind i scope v ≡ true → scope v ≡ true
bind_other i scope v d h = ground arith

pub bind_fewer : (i : Variable) (scope : Scope) (v : ℕ) → bind i scope v ≡ false → scope v ≡ false
bind_fewer i scope v h = ground arith

pub bind_all_keeps :
    (is : List Variable) (scope : Scope) (v : ℕ) → scope v ≡ true → bind_all is scope v ≡ true
bind_all_keeps [] scope v h = h
bind_all_keeps (i ∷ is) scope v h = bind_all_keeps is (bind i scope) v (bind_keeps i scope v h)

-- What is in scope is not bound again.
module _ (x y : ℕ) where
  abbrev AreHere : Scope → Type 0
  AreHere scope = (scope x ≡ true) × (scope y ≡ true)

  abbrev IsApart : Variable → Type 0
  IsApart v = (v.id ≢ x) × (v.id ≢ y)

  new_is_other : (i : Variable) (scope : Scope) → AreHere scope → scope i.id ≡ false → IsApart i
  new_is_other i scope h n = ((λ e. cc (ap scope e, h.0, n)), (λ e. cc (ap scope e, h.1, n)))

  AreNew-other :
      (is : List Variable) (scope : Scope) → AreHere scope → AreNew is scope → All IsApart is
  AreNew-other [] scope h n = tt
  AreNew-other (i ∷ is) scope h n = (
    new_is_other i scope h n.0,
    AreNew-other is (bind i scope) (bind_keeps i scope x h.0, bind_keeps i scope y h.1) n.1,
  )

  module _ (extent : Indices) where
    mutual
      unfolding IsWellNamed AllBound

      pub IsWellNamed-AllBound :
          (e : QtlExpression) (scope : Scope)
          → AreHere scope
          → IsWellNamed extent e scope
          → AllBound IsApart e
      IsWellNamed-AllBound (integer_literal z) scope h w = tt
      IsWellNamed-AllBound (variable_ref v) scope h w = tt
      IsWellNamed-AllBound (binary_operator t l r) scope h w =
          (IsWellNamed-AllBound l scope h w.0, IsWellNamed-AllBound r scope h w.1)
      IsWellNamed-AllBound (unary_operator t e) scope h w = IsWellNamed-AllBound e scope h w
      IsWellNamed-AllBound (intrinsic_function n es) scope h w = AreWellNamed-EachBound es scope h w
      IsWellNamed-AllBound (subscription e es) scope h w =
          (IsWellNamed-AllBound e scope h w.0, AreWellNamed-EachBound es scope h w.1)
      IsWellNamed-AllBound (kronecker_delta n l r) scope h w =
          (IsWellNamed-AllBound l scope h w.0, IsWellNamed-AllBound r scope h w.1)
      IsWellNamed-AllBound (sum [] e) scope h w = absurd w
      IsWellNamed-AllBound (sum (i ∷ []) e) scope h w = (
        (new_is_other i scope h w.0, tt),
        IsWellNamed-AllBound e (bind i scope) (bind_keeps i scope x h.0, bind_keeps i scope y h.1)
            w.1,
      )
      IsWellNamed-AllBound (sum (i ∷ j ∷ is) e) scope h w = absurd w
      IsWellNamed-AllBound (for_all is e) scope h w = (
        AreNew-other is scope h w.0,
        IsWellNamed-AllBound e (bind_all is scope)
            (bind_all_keeps is scope x h.0, bind_all_keeps is scope y h.1) w.1,
      )

      AreWellNamed-EachBound :
          (es : QtlExpressions) (scope : Scope)
          → AreHere scope
          → AreWellNamed extent es scope
          → EachBound IsApart es
      AreWellNamed-EachBound nil scope h w = tt
      AreWellNamed-EachBound (cons e es) scope h w =
          (IsWellNamed-AllBound e scope h w.0, AreWellNamed-EachBound es scope h w.1)
