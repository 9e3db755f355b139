-- ===== src/Qtl/Deltas/Renaming.antt =====
-- Replacing index variables and trivial deltas in qubus/src/qtl/kronecker_delta_folding_pass.cpp keeps an
-- expression well named.
use qubus.Base.{
  ℕ, ◌==◌, ==_iff, true, false, none, some, ◌≡◌, ◌≢◌, refl, sym, subst, ap, ◌∙◌, inl, inr,
  Bool-cases,
}
use qubus.Ir.Expressions.{Variable}
use qubus.Qtl.Expressions.{QtlExpression, variable_ref, is_index}
use qubus.Qtl.Meaning.{Indices}
use qubus.Qtl.Deltas.{trivial_delta, reference_to, eliminate_trivial_deltas, substitute_index}
use qubus.Qtl.Deltas.Leaves.{trivial_delta-IsTrivial, reference_to-IsReference}
use qubus.Qtl.Deltas.Naming.{Scope, bind, bind_keeps, bind_other, bind_fewer, range_of, IsWellNamed}
use qubus.Qtl.Deltas.Scoping.{IsRenaming, substitute_leaves-IsWellNamed}

-- The index leaves the scope, its partner is in it.
abbrev LosesIndex : Variable → Variable → Scope → Scope → Type 0
LosesIndex i j scope scope' =
    ((v : ℕ) → v ≢ i.id → scope v ≡ true → scope' v ≡ true)
    × ((v : ℕ) → scope v ≡ false → scope' v ≡ false)
    × (scope' j.id ≡ true)

bind-true :
    (u : Variable) (scope scope' : Scope) (v : ℕ)
    → (scope v ≡ true → scope' v ≡ true)
    → bind u scope v ≡ true
    → bind u scope' v ≡ true
bind-true u scope scope' v h t = elim (Bool-cases (u.id == v)) [
  | inl p ↦ rw p refl
  | inr p ↦ rw p (h (rw p at t))
]

bind-false :
    (u : Variable) (scope scope' : Scope) (v : ℕ)
    → (scope v ≡ false → scope' v ≡ false)
    → bind u scope v ≡ false
    → bind u scope' v ≡ false
bind-false u scope scope' v h t = elim (Bool-cases (u.id == v)) [
  | inl p ↦ cc (rw p at t)
  | inr p ↦ rw p (h (rw p at t))
]

module _ (extent : Indices) where
  index_range :
      (v w : Variable)
      → is_index v ≡ true
      → is_index w ≡ true
      → extent v.id ≡ extent w.id
      → range_of extent (variable_ref v) ≡ range_of extent (variable_ref w)
  index_range v w known_v known_w e = rw (known_v, known_w, e) refl

  reference_to-IsRenaming :
      (i j : Variable)
      → is_index j ≡ true
      → extent j.id ≡ extent i.id
      → IsRenaming extent (reference_to i j) (LosesIndex i j)
  unfolding IsWellNamed
  reference_to-IsRenaming i j known alike = record {
    under = λ u scope scope' r n. (
      r.1 u.id n,
      (
        (λ v d. bind-true u scope scope' v (r.0 v d)),
        (λ v. bind-false u scope scope' v (r.1 v)),
        bind_keeps u scope' j.id r.2,
      ),
    );
    on_leaf = λ e leaf scope scope' r h.
        subst (λ e. IsWellNamed extent e scope') (reference_to-IsReference i j e leaf h).target
          (λ k. r.2);
    keeps_range = ranges;
    on_variable = λ v scope scope' r n index_v h. r.0 v.id (moved v n index_v) h;
  }
    where
      ranges :
          (e leaf : QtlExpression)
          → reference_to i j e ≡ some leaf
          → range_of extent leaf ≡ range_of extent e
      ranges e leaf h =
          let r = reference_to-IsReference i j e leaf h in
          ap (range_of extent) (sym r.target)
          ∙ index_range j r.v known r.index (alike ∙ ap extent (sym r.same))
          ∙ ap (range_of extent) r.source

      moved :
          (v : Variable)
          → reference_to i j (variable_ref v) ≡ none
          → is_index v ≡ true
          → v.id ≢ i.id
      moved v n index_v g = let same = (==_iff v.id i.id).1 g in cc (rw (index_v, same) at n)

  trivial_delta-IsRenaming : IsRenaming extent trivial_delta (λ scope scope'. scope ≡ scope')
  unfolding IsWellNamed
  trivial_delta-IsRenaming = record {
    under = λ u scope scope' r n. (ap (λ s. s u.id) (sym r) ∙ n, ap (bind u) r);
    on_leaf = λ e leaf scope scope' r h.
        subst (λ e. IsWellNamed extent e scope') (trivial_delta-IsTrivial e leaf h).target tt;
    keeps_range = λ e leaf h.
        let t = trivial_delta-IsTrivial e leaf h in
        ap (range_of extent) (sym t.target) ∙ ap (range_of extent) t.source;
    on_variable = λ v scope scope' r n index_v h. ap (λ s. s v.id) (sym r) ∙ h;
  }

  -- An index is replaced by one of its range that is in scope.
  pub folded-IsWellNamed :
      (e : QtlExpression) (i j : Variable) (scope : Scope)
      → is_index j ≡ true
      → extent j.id ≡ extent i.id
      → scope j.id ≡ true
      → IsWellNamed extent e (bind i scope)
      → IsWellNamed extent (eliminate_trivial_deltas (substitute_index e i j)) scope
  unfolding eliminate_trivial_deltas substitute_index
  folded-IsWellNamed e i j scope known alike here w =
      substitute_leaves-IsWellNamed trivial_delta-IsRenaming _ scope scope refl (
        substitute_leaves-IsWellNamed (reference_to-IsRenaming i j known alike) e (bind i scope)
          scope loses w)
    where
      loses : LosesIndex i j (bind i scope) scope
      loses = ((λ v d h. bind_other i scope v d h), (λ v h. bind_fewer i scope v h), here)
