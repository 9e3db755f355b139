-- ===== src/Qtl/Deltas/Substitution.antt =====
-- Replacing index variables and trivial deltas in qubus/src/qtl/kronecker_delta_folding_pass.cpp: the
-- expression then means what it meant at other values of the indices.
use qubus.Base.{
  ℕ, ==_iff, true, Option, none, some, Option-cases, List, [], ◌∷◌, All, ◌≡◌, ◌≢◌, refl, sym, ap,
  ap₂, ◌∙◌, arith, inl, inr, Bool-cases,
}
use mathlib.Core.Path.{fun_ext}
use qubus.Ir.Expressions.{Variable, same_variable}
use qubus.Qtl.Expressions.{
  QtlExpression, QtlExpressions, integer_literal, variable_ref, binary_operator, unary_operator,
  intrinsic_function, subscription, kronecker_delta, sum, for_all, nil, cons, is_index, or_leaf,
  substitute_leaves, substitute_all,
}
use qubus.Qtl.Meaning.{
  Scalars, HasDeltas, Indices, update, sum_to, sum_over, each_over, eval, eval_all,
}
use qubus.Qtl.Deltas.Leaves.{trivial_delta-IsTrivial, reference_to-IsReference}
use qubus.Qtl.Deltas.{trivial_delta, reference_to, eliminate_trivial_deltas}
use qubus.Qtl.Deltas.Vanishing.{eval-variable_ref}
use qubus.Qtl.Deltas.Binders.{AllBound, EachBound, any_bound}

-- What the matcher replaces means what it meant where the indices have moved, if the moves go past
-- the bound variables.
pub record IsMove (s : Scalars) (extent : Indices) (f : QtlExpression → Option QtlExpression)
    (moved : Indices → Indices) (P : Variable → Type 0) : Type 0 where
  pub commutes :
      (v : Variable) (ρ : Indices) (k : ℕ) → P v → moved (update ρ v.id k) ≡ update (moved ρ) v.id k
  pub on_leaf :
      (e leaf : QtlExpression) (ρ : Indices)
      → f e ≡ some leaf
      → eval s extent leaf ρ ≡ eval s extent e (moved ρ)
  pub on_variable :
      (v : Variable) (ρ : Indices)
      → f (variable_ref v) ≡ none
      → is_index v ≡ true
      → ρ v.id ≡ moved ρ v.id

module _ {s : Scalars} {extent : Indices} {f : QtlExpression → Option QtlExpression}
    {moved : Indices → Indices} {P : Variable → Type 0} (m : IsMove s extent f moved P) where
  pub sum_over-moved :
      (is : List Variable) (g h : Indices → s.V) (ρ : Indices)
      → All P is
      → ((ρ : Indices) → g ρ ≡ h (moved ρ))
      → sum_over s extent is g ρ ≡ sum_over s extent is h (moved ρ)
  unfolding sum_over
  sum_over-moved [] g h ρ p e = e ρ
  sum_over-moved (i ∷ is) g h ρ p e = ap (sum_to s (extent i.id)) (
      fun_ext (λ k.
        sum_over-moved is g h (update ρ i.id k) p.1 e
        ∙ ap (sum_over s extent is h) (m.commutes i ρ k p.0)))

  each_over-moved :
      (is : List Variable) (g h : Indices → s.V) (ρ : Indices)
      → All P is
      → ((ρ : Indices) → g ρ ≡ h (moved ρ))
      → each_over s extent is g ρ ≡ each_over s extent is h (moved ρ)
  unfolding each_over
  each_over-moved [] g h ρ p e = e ρ
  each_over-moved (i ∷ is) g h ρ p e = ap (s.each (extent i.id)) (
      fun_ext (λ k.
        each_over-moved is g h (update ρ i.id k) p.1 e
        ∙ ap (each_over s extent is h) (m.commutes i ρ k p.0)))

  or_leaf-eval :
      (e rebuilt : QtlExpression) (ρ : Indices)
      → (f e ≡ none → eval s extent rebuilt ρ ≡ eval s extent e (moved ρ))
      → eval s extent (or_leaf (f e) rebuilt) ρ ≡ eval s extent e (moved ρ)
  or_leaf-eval e rebuilt ρ h = elim (Option-cases (f e)) [
    | inl q ↦ rw q (h q)
    | inr (leaf, q) ↦ rw q (m.on_leaf e leaf ρ q)
  ]

  variable-moved :
      (v : Variable) (ρ : Indices)
      → f (variable_ref v) ≡ none
      → eval s extent (variable_ref v) ρ ≡ eval s extent (variable_ref v) (moved ρ)
  unfolding eval
  variable-moved v ρ q = elim (Bool-cases (is_index v)) [
    | inl i ↦ rw i (ap s.position (m.on_variable v ρ q i))
    | inr o ↦ rw o refl
  ]

  mutual
    unfolding substitute_leaves eval AllBound

    pub substitute_leaves-moved :
        (e : QtlExpression)
        → AllBound P e
        → (ρ : Indices) → eval s extent (substitute_leaves f e) ρ ≡ eval s extent e (moved ρ)
    substitute_leaves-moved (integer_literal z) b ρ =
        or_leaf-eval (integer_literal z) _ ρ (λ q. refl)
    substitute_leaves-moved (variable_ref v) b ρ =
        or_leaf-eval (variable_ref v) _ ρ (variable-moved v ρ)
    substitute_leaves-moved (binary_operator t l r) b ρ =
        or_leaf-eval (binary_operator t l r) _ ρ (λ q.
          ap₂ (s.binary t) (substitute_leaves-moved l b.0 ρ) (substitute_leaves-moved r b.1 ρ))
    substitute_leaves-moved (unary_operator t e) b ρ =
        or_leaf-eval (unary_operator t e) _ ρ (λ q. ap (s.unary t) (substitute_leaves-moved e b ρ))
    substitute_leaves-moved (intrinsic_function n es) b ρ =
        or_leaf-eval (intrinsic_function n es) _ ρ
          (λ q. ap (s.invoke n) (substitute_all-moved es b ρ))
    substitute_leaves-moved (subscription e es) b ρ =
        or_leaf-eval (subscription e es) _ ρ
          (λ q. ap₂ s.element (substitute_leaves-moved e b.0 ρ) (substitute_all-moved es b.1 ρ))
    substitute_leaves-moved (kronecker_delta n l r) b ρ =
        or_leaf-eval (kronecker_delta n l r) _ ρ
          (λ q. ap₂ (s.delta n) (substitute_leaves-moved l b.0 ρ) (substitute_leaves-moved r b.1 ρ))
    substitute_leaves-moved (sum is e) b ρ = or_leaf-eval (sum is e) _ ρ (λ q.
        sum_over-moved is (eval s extent (substitute_leaves f e)) (eval s extent e) ρ b.0
          (substitute_leaves-moved e b.1))
    substitute_leaves-moved (for_all is e) b ρ = or_leaf-eval (for_all is e) _ ρ (λ q.
        each_over-moved is (eval s extent (substitute_leaves f e)) (eval s extent e) ρ b.0
          (substitute_leaves-moved e b.1))

    substitute_all-moved :
        (es : QtlExpressions)
        → EachBound P es
        → (ρ : Indices) → eval_all s extent (substitute_all f es) ρ ≡ eval_all s extent es (moved ρ)
    substitute_all-moved nil b ρ = refl
    substitute_all-moved (cons e es) b ρ =
        ap₂ (λ x xs. x ∷ xs) (substitute_leaves-moved e b.0 ρ) (substitute_all-moved es b.1 ρ)

-- Neither index is bound.
abbrev pub IsOther : Variable → Variable → Variable → Type 0
IsOther i j v = (v.id ≢ i.id) × (v.id ≢ j.id)

abbrev pub at_other : Variable → Variable → Indices → Indices
at_other i j ρ = update ρ i.id (ρ j.id)

pub update_other : (ρ : Indices) (i k j : ℕ) → i ≢ j → update ρ i k j ≡ ρ j
update_other ρ i k j h = ground arith

pub update_same : (ρ : Indices) (i k j : ℕ) → j ≡ i → update ρ i k j ≡ k
update_same ρ i k j h = ground arith

updates_commute :
    (ρ : Indices) (i j v k x : ℕ)
    → v ≢ i
    → v ≢ j
    → update (update ρ v k) i (update ρ v k j) x ≡ update (update ρ i (ρ j)) v k x
updates_commute ρ i j v k x p q = ground arith

module _ {s : Scalars} (laws : HasDeltas s) (extent : Indices) where
  trivial_delta-eval :
      (e leaf : QtlExpression) (ρ : Indices)
      → trivial_delta e ≡ some leaf
      → eval s extent leaf ρ ≡ eval s extent e ρ
  unfolding eval
  trivial_delta-eval e leaf ρ h =
      let t = trivial_delta-IsTrivial e leaf h in
      ap (λ e. eval s extent e ρ) (sym t.target)
      ∙ sym (laws.same_delta t.n (ρ t.i.id))
      ∙ ap₂ (s.delta t.n) (sym (eval-variable_ref laws extent t.i ρ t.index_i))
          (ap (λ k. s.position (ρ k)) t.same ∙ sym (eval-variable_ref laws extent t.j ρ t.index_j))
      ∙ ap (λ e. eval s extent e ρ) t.source

  -- Eliminating trivial deltas keeps the meaning.
  pub eval-eliminate_trivial_deltas :
      (e : QtlExpression) (ρ : Indices)
      → eval s extent (eliminate_trivial_deltas e) ρ ≡ eval s extent e ρ
  unfolding eliminate_trivial_deltas
  eval-eliminate_trivial_deltas e ρ = substitute_leaves-moved stays e (any_bound e) ρ
    where
      stays : IsMove s extent trivial_delta (λ ρ. ρ) (λ v. Unit)
      stays = record {
        commutes = λ v ρ k p. refl;
        on_leaf = trivial_delta-eval;
        on_variable = λ v ρ n i. refl;
      }

  reference_to-eval :
      (i j : Variable)
      → is_index j ≡ true
      → (e leaf : QtlExpression) (ρ : Indices) → reference_to i j e ≡ some leaf
      → eval s extent leaf ρ ≡ eval s extent e (at_other i j ρ)
  reference_to-eval i j known e leaf ρ h =
      let r = reference_to-IsReference i j e leaf h in
      ap (λ e. eval s extent e ρ) (sym r.target)
      ∙ eval-variable_ref laws extent j ρ known
      ∙ ap s.position (sym (update_same ρ i.id (ρ j.id) r.v.id r.same))
      ∙ sym (eval-variable_ref laws extent r.v (at_other i j ρ) r.index)
      ∙ ap (λ e. eval s extent e (at_other i j ρ)) r.source

  pub reference_to-IsMove :
      (i j : Variable)
      → is_index j ≡ true
      → IsMove s extent (reference_to i j) (at_other i j) (IsOther i j)
  reference_to-IsMove i j known = record {
    commutes = λ v ρ k p. fun_ext (λ x. updates_commute ρ i.id j.id v.id k x p.0 p.1);
    on_leaf = reference_to-eval i j known;
    on_variable = kept;
  }
    where
      kept :
          (v : Variable) (ρ : Indices)
          → reference_to i j (variable_ref v) ≡ none
          → is_index v ≡ true
          → ρ v.id ≡ at_other i j ρ v.id
      kept v ρ h index_v = elim (Bool-cases (same_variable v i)) [
        | inl p ↦ cc (rw (index_v, p) at h)
        | inr p ↦
            sym (update_other ρ i.id (ρ j.id) v.id (λ g. cc (p, (==_iff v.id i.id).1 (sym g))))
      ]
