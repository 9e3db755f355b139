-- ===== src/Qtl/Deltas/Scoping.antt =====
-- `pattern::substitute` of qubus/include/qubus/pattern/substitute.hpp with replacements that have no
-- children keeps an expression well named, if what replaces a leaf does.
use qubus.Base.{true, false, Option, none, some, Option-cases, List, [], ◌∷◌, ◌≡◌, refl, inl, inr}
use qubus.Ir.Expressions.{Variable}
use qubus.Qtl.Expressions.{
  QtlExpression, QtlExpressions, integer_literal, variable_ref, binary_operator, unary_operator,
  intrinsic_function, subscription, kronecker_delta, sum, for_all, nil, cons, is_index, or_leaf,
  substitute_leaves, substitute_all,
}
use qubus.Qtl.Meaning.{Indices}
use qubus.Qtl.Deltas.Naming.{Scope, bind, bind_all, AreNew, range_of, IsWellNamed, AreWellNamed}

-- What a matcher does to names: from one scope to another, which binders respect.
pub record IsRenaming (extent : Indices) (f : QtlExpression → Option QtlExpression)
    (Into : Scope → Scope → Type 0) : Type 0 where
  pub under :
      (i : Variable) (scope scope' : Scope)
      → Into scope scope'
      → scope i.id ≡ false
      → (scope' i.id ≡ false) × Into (bind i scope) (bind i scope')
  pub on_leaf :
      (e leaf : QtlExpression) (scope scope' : Scope)
      → Into scope scope'
      → f e ≡ some leaf
      → IsWellNamed extent leaf scope'
  pub keeps_range :
      (e leaf : QtlExpression) → f e ≡ some leaf → range_of extent leaf ≡ range_of extent e
  pub on_variable :
      (v : Variable) (scope scope' : Scope)
      → Into scope scope'
      → f (variable_ref v) ≡ none
      → is_index v ≡ true
      → scope v.id ≡ true
      → scope' v.id ≡ true

module _ {extent : Indices} {f : QtlExpression → Option QtlExpression}
    {Into : Scope → Scope → Type 0} (m : IsRenaming extent f Into) where
  under_all :
      (is : List Variable) (scope scope' : Scope)
      → Into scope scope'
      → AreNew is scope
      → AreNew is scope' × Into (bind_all is scope) (bind_all is scope')
  under_all [] scope scope' r n = (tt, r)
  under_all (i ∷ is) scope scope' r n =
      let (here, inner) = m.under i scope scope' r n.0 in
      let (later, all) = under_all is (bind i scope) (bind i scope') inner n.1 in
      ((here, later), all)

  or_leaf-IsWellNamed :
      (e rebuilt : QtlExpression) (scope scope' : Scope)
      → Into scope scope'
      → (f e ≡ none → IsWellNamed extent rebuilt scope')
      → IsWellNamed extent (or_leaf (f e) rebuilt) scope'
  or_leaf-IsWellNamed e rebuilt scope scope' r h = elim (Option-cases (f e)) [
    | inl q ↦ rw q (h q)
    | inr (leaf, q) ↦ rw q (m.on_leaf e leaf scope scope' r q)
  ]

  or_leaf-range_of :
      (e rebuilt : QtlExpression)
      → range_of extent rebuilt ≡ range_of extent e
      → range_of extent (or_leaf (f e) rebuilt) ≡ range_of extent e
  or_leaf-range_of e rebuilt h = elim (Option-cases (f e)) [
    | inl q ↦ rw q h
    | inr (leaf, q) ↦ rw q (m.keeps_range e leaf q)
  ]

  range_of-substitute_leaves :
      (e : QtlExpression) → range_of extent (substitute_leaves f e) ≡ range_of extent e
  unfolding substitute_leaves
  range_of-substitute_leaves (integer_literal z) = or_leaf-range_of (integer_literal z) _ refl
  range_of-substitute_leaves (variable_ref v) = or_leaf-range_of (variable_ref v) _ refl
  range_of-substitute_leaves (binary_operator t l r) =
      or_leaf-range_of (binary_operator t l r) _ refl
  range_of-substitute_leaves (unary_operator t e) = or_leaf-range_of (unary_operator t e) _ refl
  range_of-substitute_leaves (intrinsic_function n es) =
      or_leaf-range_of (intrinsic_function n es) _ refl
  range_of-substitute_leaves (subscription e es) = or_leaf-range_of (subscription e es) _ refl
  range_of-substitute_leaves (kronecker_delta n l r) =
      or_leaf-range_of (kronecker_delta n l r) _ refl
  range_of-substitute_leaves (sum is e) = or_leaf-range_of (sum is e) _ refl
  range_of-substitute_leaves (for_all is e) = or_leaf-range_of (for_all is e) _ refl

  mutual
    unfolding substitute_leaves IsWellNamed

    pub substitute_leaves-IsWellNamed :
        (e : QtlExpression) (scope scope' : Scope)
        → Into scope scope'
        → IsWellNamed extent e scope
        → IsWellNamed extent (substitute_leaves f e) scope'
    substitute_leaves-IsWellNamed (integer_literal z) scope scope' r w =
        or_leaf-IsWellNamed (integer_literal z) _ scope scope' r (λ q. tt)
    substitute_leaves-IsWellNamed (variable_ref v) scope scope' r w =
        or_leaf-IsWellNamed (variable_ref v) _ scope scope' r
          (λ q known. m.on_variable v scope scope' r q known (w known))
    substitute_leaves-IsWellNamed (binary_operator t a b) scope scope' r w =
        or_leaf-IsWellNamed (binary_operator t a b) _ scope scope' r (λ q. (
          substitute_leaves-IsWellNamed a scope scope' r w.0,
          substitute_leaves-IsWellNamed b scope scope' r w.1,
        ))
    substitute_leaves-IsWellNamed (unary_operator t e) scope scope' r w =
        or_leaf-IsWellNamed (unary_operator t e) _ scope scope' r
          (λ q. substitute_leaves-IsWellNamed e scope scope' r w)
    substitute_leaves-IsWellNamed (intrinsic_function n es) scope scope' r w =
        or_leaf-IsWellNamed (intrinsic_function n es) _ scope scope' r
          (λ q. substitute_all-AreWellNamed es scope scope' r w)
    substitute_leaves-IsWellNamed (subscription e es) scope scope' r w =
        or_leaf-IsWellNamed (subscription e es) _ scope scope' r (λ q. (
          substitute_leaves-IsWellNamed e scope scope' r w.0,
          substitute_all-AreWellNamed es scope scope' r w.1,
        ))
    substitute_leaves-IsWellNamed (kronecker_delta n a b) scope scope' r w =
        or_leaf-IsWellNamed (kronecker_delta n a b) _ scope scope' r (λ q. (
          substitute_leaves-IsWellNamed a scope scope' r w.0,
          substitute_leaves-IsWellNamed b scope scope' r w.1,
          rw (range_of-substitute_leaves a, range_of-substitute_leaves b) w.2,
        ))
    substitute_leaves-IsWellNamed (sum [] e) scope scope' r w = absurd w
    substitute_leaves-IsWellNamed (sum (i ∷ []) e) scope scope' r w =
        or_leaf-IsWellNamed (sum (i ∷ []) e) _ scope scope' r (λ q.
          let (new, inner) = m.under i scope scope' r w.0 in
          (new, substitute_leaves-IsWellNamed e (bind i scope) (bind i scope') inner w.1))
    substitute_leaves-IsWellNamed (sum (i ∷ j ∷ is) e) scope scope' r w = absurd w
    substitute_leaves-IsWellNamed (for_all is e) scope scope' r w =
        or_leaf-IsWellNamed (for_all is e) _ scope scope' r (λ q.
          let (new, inner) = under_all is scope scope' r w.0 in
          (new, substitute_leaves-IsWellNamed e (bind_all is scope) (bind_all is scope') inner w.1))

    substitute_all-AreWellNamed :
        (es : QtlExpressions) (scope scope' : Scope)
        → Into scope scope'
        → AreWellNamed extent es scope
        → AreWellNamed extent (substitute_all f es) scope'
    substitute_all-AreWellNamed nil scope scope' r w = tt
    substitute_all-AreWellNamed (cons e es) scope scope' r w = (
      substitute_leaves-IsWellNamed e scope scope' r w.0,
      substitute_all-AreWellNamed es scope scope' r w.1,
    )
