-- ===== src/Analysis/Affine/Spaces.antt =====
-- The space of a context, `construct_corresponding_space` of qubus/src/affine_constraints.cpp: each
-- name of the tables is the name of one dimension, at the position of its entry.
use qubus.Base.{
  ℕ, suc, ◌+◌, ◌<◌, ◌≤◌, ◌==◌, ◌&&◌, true, false, if◌then◌else◌, some, none, List, [], ◌∷◌, ◌≡◌,
  refl, sym, ap, ◌∙◌, arith, length, ◌⊎◌, inl, inr, ==_iff,
}
use mathlib.Core.Option.{some-injective}
use qubus.Analysis.Affine.{Name, variable_name, constant_name, AffineContext}
use qubus.Analysis.Affine.Isl.{DimType, param, set_dim, same_dim, Isl, Reading, Lawful}
use qubus.Analysis.Affine.Conversion.{name_dims, construct_corresponding_space}
use qubus.Analysis.Affine.Numbering.{IsNumberedFrom, IsNumbered}

module _ {isl : Isl} {r : Reading isl} (laws : Lawful isl r) where
  name_of-elsewhere :
      (s : isl.Space) (t u : DimType) (j k : ℕ) (n : Name)
      → (same_dim t u && j == k) ≡ false
      → r.name_of (isl.set_dim_name s t j n) u k ≡ r.name_of s u k
  name_of-elsewhere s t u j k n h = rw (laws.name_of-set_dim_name s t u j k n, h) refl

  other_dims {ℓ} :
      {A : Type ℓ} (t u : DimType) (k j : ℕ) (table : List (A × Name)) (s : isl.Space)
      → same_dim t u ≡ false
      → r.name_of (name_dims isl t k table s) u j ≡ r.name_of s u j
  unfolding name_dims
  other_dims t u k j [] s h = refl
  other_dims t u k j ((a, n) ∷ table) s h =
      other_dims t u (suc k) j table (isl.set_dim_name s t k n) h
      ∙ name_of-elsewhere s t u k j n (ground (arith, h))

  dims_outside {ℓ} :
      {A : Type ℓ} (t : DimType) (k j : ℕ) (table : List (A × Name)) (s : isl.Space)
      → (j < k) ⊎ (k + length table ≤ j)
      → r.name_of (name_dims isl t k table s) t j ≡ r.name_of s t j
  unfolding name_dims
  dims_outside t k j [] s h = refl
  dims_outside t k j ((a, n) ∷ table) s h =
      dims_outside t (suc k) j table (isl.set_dim_name s t k n) (omega (arith, h))
      ∙ name_of-elsewhere s t t k j n (ground (arith, h))

  dims_inside {ℓ} :
      {A : Type ℓ} (t : DimType) (make : ℕ → Name) (k j : ℕ) (table : List (A × Name))
      (s : isl.Space)
      → same_dim t t ≡ true
      → IsNumberedFrom make k table
      → k ≤ j
      → j < k + length table
      → r.name_of (name_dims isl t k table s) t j ≡ some (make j)
  unfolding name_dims
  dims_inside t make k j [] s same h p q = absurd (omega (arith, p, q))
  dims_inside t make k j ((a, n) ∷ table) s same (named, rest) p q = elim (le_cases k j p) [
    | inl here ↦
        dims_outside t (suc k) j table (isl.set_dim_name s t k n) (inl (omega (arith, here)))
        ∙ laws.name_of-set_dim_name s t t k j n
        ∙ first here
    | inr beyond ↦
        dims_inside t make (suc k) j table (isl.set_dim_name s t k n) same rest beyond
          (omega (arith, q))
  ]
    where
      le_cases : (k j : ℕ) → k ≤ j → (k ≡ j) ⊎ (suc k ≤ j)
      le_cases k j h = ground arith

      first : k ≡ j → (if same_dim t t && k == j then some n else r.name_of s t j) ≡ some (make j)
      first e = rw (same, (==_iff k j).1 e) (ap some (named ∙ ap make e))

  -- The dimensions of one type, and their names.
  abbrev NamesOf : isl.Space → DimType → (ℕ → Name) → ℕ → Type 0
  NamesOf s t make size =
      (j : ℕ) → (j < size → r.name_of s t j ≡ some (make j)) × (size ≤ j → r.name_of s t j ≡ none)

  -- Only one dimension has the name.
  finds :
      (s : isl.Space) (t : DimType) (make : ℕ → Name) (size k : ℕ)
      → ((i j : ℕ) → make i ≡ make j → i ≡ j)
      → NamesOf s t make size
      → k < size
      → isl.find_dim_by_name s t (make k) ≡ some k
  finds s t make size k inj names h = laws.finds_the_only s t k (make k) ((names k).0 h) λ j p.
      elim (lt_cases j size) [
        | inl q ↦ inj j k (some-injective _ _ (sym ((names j).0 q) ∙ p))
        | inr q ↦ cc (p, (names j).1 q)
      ]
    where
      lt_cases : (j n : ℕ) → (j < n) ⊎ (n ≤ j)
      lt_cases j n = ground arith

  variable_dims :
      (ctx : AffineContext)
      → IsNumbered ctx
      → NamesOf
          (construct_corresponding_space isl ctx)
          set_dim
          variable_name
          (length ctx.variable_table)
  unfolding construct_corresponding_space
  variable_dims ctx n j = (
    λ h.
        dims_inside set_dim variable_name 0 j ctx.variable_table _ refl n.variables_numbered
          (omega arith) (omega (arith, h)),
    λ h.
        dims_outside set_dim 0 j ctx.variable_table _ (inr (omega (arith, h)))
        ∙ other_dims param set_dim 0 j ctx.constant_table _ refl
        ∙ laws.name_of-new_space _ _ set_dim j,
  )

  constant_dims :
      (ctx : AffineContext)
      → IsNumbered ctx
      → NamesOf
          (construct_corresponding_space isl ctx)
          param
          constant_name
          (length ctx.constant_table)
  unfolding construct_corresponding_space
  constant_dims ctx n j = (
    λ h.
        other_dims set_dim param 0 j ctx.variable_table _ refl
        ∙ dims_inside param constant_name 0 j ctx.constant_table _ refl n.constants_numbered
            (omega arith) (omega (arith, h)),
    λ h.
        other_dims set_dim param 0 j ctx.variable_table _ refl
        ∙ dims_outside param 0 j ctx.constant_table _ (inr (omega (arith, h)))
        ∙ laws.name_of-new_space _ _ param j,
  )

  pub finds_variable :
      (ctx : AffineContext) (k : ℕ)
      → IsNumbered ctx
      → k < ctx.free_variable_id
      → isl.find_dim_by_name (construct_corresponding_space isl ctx) set_dim (variable_name k)
        ≡ some k
  finds_variable ctx k n h =
      finds _ set_dim variable_name _ k (λ i j e. cc) (variable_dims ctx n)
        (omega (arith, h, n.variables_counted))

  pub finds_constant :
      (ctx : AffineContext) (k : ℕ)
      → IsNumbered ctx
      → k < ctx.free_constant_id
      → isl.find_dim_by_name (construct_corresponding_space isl ctx) param (constant_name k)
        ≡ some k
  finds_constant ctx k n h =
      finds _ param constant_name _ k (λ i j e. cc) (constant_dims ctx n)
        (omega (arith, h, n.constants_counted))
