-- ===== src/Qtl/Deltas/Contraction.antt =====
-- One index of a sum in qubus/src/qtl/kronecker_delta_folding_pass.cpp replaced by its partner.
use qubus.Base.{
  ℕ, zero, suc, ◌<◌, true, List, [], ◌∷◌, All, ◌≡◌, ◌≢◌, refl, sym, ap, ap₂, ◌∙◌, arith, dec_lt,
}
use mathlib.Core.Path.{fun_ext}
use qubus.Ir.Expressions.{Variable, BinaryOpTag}
use qubus.Qtl.Expressions.{QtlExpression, is_index}
use qubus.Qtl.Meaning.{Scalars, HasDeltas, Indices, update, nought, sum_to, sum_over, eval}
use qubus.Qtl.Deltas.{reference_to, substitute_index, eliminate_trivial_deltas}
use qubus.Qtl.Deltas.Vanishing.{Vanishes}
use qubus.Qtl.Deltas.Binders.{AllBound}
use qubus.Qtl.Deltas.Substitution.{
  IsMove, IsOther, at_other, update_other, update_same, reference_to-IsMove,
  substitute_leaves-moved, sum_over-moved, eval-eliminate_trivial_deltas,
}

-- The partner of an index: nothing in the body or among the later indices binds either of them.
pub record IsPartner (i j : Variable) (is : List Variable) (body : QtlExpression) : Type 0 where
  pub index : is_index j ≡ true
  pub apart : j.id ≢ i.id
  pub later : All (IsOther i j) is
  pub inner : AllBound (IsOther i j) body

module _ {s : Scalars} (laws : HasDeltas s) (extent : Indices) where
  below_nought :
      (n : ℕ) (f : ℕ → s.V) → ((k : ℕ) → k < n → f k ≡ nought s) → sum_to s n f ≡ nought s
  unfolding sum_to
  below_nought zero f h = refl
  below_nought (suc n) f h =
      ap₂ (s.binary BinaryOpTag.plus) (below_nought n f (λ k l. h k (omega (arith, l))))
        (h n (omega arith))
      ∙ laws.nought_plus (nought s)

  -- A sum with one term that is not zero.
  pub sum_to-single :
      (n : ℕ) (f : ℕ → s.V) (m : ℕ)
      → m < n
      → ((k : ℕ) → k ≢ m → f k ≡ nought s)
      → sum_to s n f ≡ f m
  unfolding sum_to
  sum_to-single zero f m l h = absurd (omega (arith, l))
  sum_to-single (suc n) f m l h = elim (dec_lt m n) [
    | yes before ↦
        ap₂ (s.binary BinaryOpTag.plus) (sum_to-single n f m before h)
          (h n (λ e. omega (arith, before, e)))
        ∙ laws.plus_nought (f m)
    | no reached ↦
        let last : n ≡ m = omega (arith, l, reached) in
        ap₂ (s.binary BinaryOpTag.plus)
          (below_nought n f (λ k below. h k (λ e. omega (arith, below, e, last)))) (ap f last)
        ∙ laws.nought_plus (f m)
  ]

  sum_over-Vanishes :
      (is : List Variable) (body : QtlExpression) (i j : Variable) (ρ : Indices)
      → Vanishes laws extent body (i, j)
      → All (IsOther i j) is
      → ρ i.id ≢ ρ j.id
      → sum_over s extent is (eval s extent body) ρ ≡ nought s
  unfolding sum_over
  sum_over-Vanishes [] body i j ρ z o d = z ρ d
  sum_over-Vanishes (v ∷ is) body i j ρ z o d = below_nought (extent v.id) _ (λ k l.
      sum_over-Vanishes is body i j (update ρ v.id k) z o.1
        (λ e. d (sym (update_other ρ v.id k i.id o.0.0) ∙ e ∙ update_other ρ v.id k j.id o.0.1)))

  -- Replacing the index by its partner is the sum over the index.
  pub sum_over-substitute_index :
      (i j : Variable) (is : List Variable) (body : QtlExpression) (ρ : Indices)
      → IsPartner i j is body
      → Vanishes laws extent body (i, j)
      → ρ j.id < extent i.id
      → sum_over s extent is
          (eval s extent (eliminate_trivial_deltas (substitute_index body i j)))
          ρ
        ≡ sum_over s extent (i ∷ is) (eval s extent body) ρ
  unfolding sum_over substitute_index
  sum_over-substitute_index i j is body ρ p z below =
      ap (λ g. sum_over s extent is g ρ)
        (fun_ext (λ ρ. eval-eliminate_trivial_deltas laws extent (substitute_index body i j) ρ))
      ∙ sum_over-moved move is (eval s extent (substitute_index body i j)) (eval s extent body) ρ
          p.later (substitute_leaves-moved move body p.inner)
      ∙ sym (sum_to-single (extent i.id) _ (ρ j.id) below vanishes)
    where
      move : IsMove s extent (reference_to i j) (at_other i j) (IsOther i j)
      move = reference_to-IsMove laws extent i j p.index

      vanishes :
          (k : ℕ)
          → k ≢ ρ j.id
          → sum_over s extent is (eval s extent body) (update ρ i.id k) ≡ nought s
      vanishes k d = sum_over-Vanishes is body i j (update ρ i.id k) z p.later (λ e. d (
          sym (update_same ρ i.id k i.id refl)
          ∙ e
          ∙ update_other ρ i.id k j.id (λ g. p.apart (sym g))))

  pub Vanishes-folded :
      (body : QtlExpression) (i j v w : Variable)
      → is_index j ≡ true
      → AllBound (IsOther i j) body
      → v.id ≢ i.id
      → w.id ≢ i.id
      → Vanishes laws extent body (v, w)
      → Vanishes laws extent (eliminate_trivial_deltas (substitute_index body i j)) (v, w)
  unfolding substitute_index
  Vanishes-folded body i j v w known bound p q z ρ d =
      eval-eliminate_trivial_deltas laws extent (substitute_index body i j) ρ
      ∙ substitute_leaves-moved (reference_to-IsMove laws extent i j known) body bound ρ
      ∙ z (at_other i j ρ) (λ e. d (
          sym (update_other ρ i.id (ρ j.id) v.id (λ g. p (sym g)))
          ∙ e
          ∙ update_other ρ i.id (ρ j.id) w.id (λ g. q (sym g))))
