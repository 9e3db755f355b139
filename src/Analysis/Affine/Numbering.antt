-- ===== src/Analysis/Affine/Numbering.antt =====
-- The tables of an affine context, qubus/src/affine_constraints.cpp: their names are numbered by
-- the positions of the entries, so that no name is given twice.
use qubus.Base.{
  ℕ, suc, ◌+◌, ◌<◌, ◌≤◌, some, List, [], ◌∷◌, ◌++◌, ◌≡◌, ap, sym, ◌∙◌, Bool, true, Bool-cases, inl,
  inr, arith, length,
}
use mathlib.Core.Option.{some-injective}
use mathlib.Core.List.{Memᴰ}
use mathlib.Core.List.Memᴰ.{not-nil}
use qubus.Analysis.Affine.{
  find_name, find_named, same_name, Name, variable_name, constant_name, AffineExpr, affine_variable,
  affine_constant, integer_literal, AffineConstraint, wrapped, AffineContext,
}

module _ {ℓ} {A : Type ℓ} (make : ℕ → Name) where
  abbrev pub IsNumberedFrom : ℕ → List (A × Name) → Type 0
  IsNumberedFrom k ((a, n) ∷ table) = (n ≡ make k) × IsNumberedFrom (suc k) table
  IsNumberedFrom k [] = Unit

  pub IsNumberedFrom-append :
      (k : ℕ) (table : List (A × Name)) (a : A) (m : ℕ)
      → m ≡ k + length table
      → IsNumberedFrom k table
      → IsNumberedFrom k (table ++ ((a, make m) ∷ []))
  IsNumberedFrom-append k ((b, n) ∷ table) a m at (named, rest) =
      (named, IsNumberedFrom-append (suc k) table a m (omega (arith, at)) rest)
  IsNumberedFrom-append k [] a m at h = (ap make (omega (arith, at)), tt)

  pub IsNumberedFrom-Mem :
      (k : ℕ) (table : List (A × Name)) (a : A) (n : Name)
      → IsNumberedFrom k table
      → Memᴰ (a, n) table
      → (j : ℕ) × (n ≡ make j) × (j < k + length table)
  IsNumberedFrom-Mem k ((b, m) ∷ table) a n (named, rest) (Memᴰ.head eq) =
      (k, ap (λ e. e.1) eq ∙ named, omega arith)
  IsNumberedFrom-Mem k ((b, m) ∷ table) a n (named, rest) (Memᴰ.tail mem) =
      let (j, p, q) = IsNumberedFrom-Mem (suc k) table a n rest mem in (j, p, omega (arith, q))
  IsNumberedFrom-Mem k [] a n h mem = absurd (not-nil mem)

-- What `std::find_if` finds is in the table.
pub find_name-eq-some {ℓ} :
    {A : Type ℓ} (matches : A → Bool) (table : List (A × Name)) (n : Name)
    → find_name matches table ≡ some n
    → (a : A) × (matches a ≡ true) × Memᴰ (a, n) table
unfolding find_name
find_name-eq-some matches [] n h = cc h
find_name-eq-some matches ((a, m) ∷ table) n h = elim (Bool-cases (matches a)) [
  | inl p ↦ (a, p, Memᴰ.head (ap (λ k. (a, k)) (sym (some-injective m n (rw p at h)))))
  | inr p ↦ let (b, q, mem) = find_name-eq-some matches table n (rw p at h) in (b, q, Memᴰ.tail mem)
]

pub find_named-append {ℓ} :
    {A : Type ℓ} (name : Name) (table more : List (A × Name)) (a : A)
    → find_named name table ≡ some a
    → find_named name (table ++ more) ≡ some a
unfolding find_named
find_named-append name [] more a h = cc h
find_named-append name ((b, m) ∷ table) more a h = elim (Bool-cases (same_name m name)) [
  | inl p ↦ rw p (rw p at h)
  | inr p ↦ rw p (find_named-append name table more a (rw p at h))
]

pub record IsNumbered (ctx : AffineContext) : Type 0 where
  pub variables_counted : ctx.free_variable_id ≡ length ctx.variable_table
  pub constants_counted : ctx.free_constant_id ≡ length ctx.constant_table
  pub variables_numbered : IsNumberedFrom variable_name 0 ctx.variable_table
  pub constants_numbered : IsNumberedFrom constant_name 0 ctx.constant_table

-- Its names stand in the tables.
module _ (ctx : AffineContext) where
  abbrev pub IsVariableName : Name → Type 0
  IsVariableName (variable_name k) = k < ctx.free_variable_id
  IsVariableName (constant_name k) = ⊥

  abbrev pub IsConstantName : Name → Type 0
  IsConstantName (variable_name k) = ⊥
  IsConstantName (constant_name k) = k < ctx.free_constant_id

  abbrev pub IsDeclared : AffineExpr → Type 0
  IsDeclared (affine_variable n) = IsVariableName n
  IsDeclared (affine_constant n) = IsConstantName n
  IsDeclared (AffineExpr.binary_operator t l r) = IsDeclared l × IsDeclared r
  IsDeclared (AffineExpr.unary_operator t e) = IsDeclared e
  IsDeclared (integer_literal z) = Unit

  abbrev pub IsDeclaredConstraint : AffineConstraint → Type 0
  IsDeclaredConstraint (AffineConstraint.binary_operator t c d) =
      IsDeclaredConstraint c × IsDeclaredConstraint d
  IsDeclaredConstraint (AffineConstraint.unary_operator t c) = IsDeclaredConstraint c
  IsDeclaredConstraint (wrapped e) = IsDeclared e

-- The tables only grow.
pub IsDeclared-grow :
    (ctx ctx' : AffineContext) (a : AffineExpr)
    → ctx.free_variable_id ≤ ctx'.free_variable_id
    → ctx.free_constant_id ≤ ctx'.free_constant_id
    → IsDeclared ctx a
    → IsDeclared ctx' a
IsDeclared-grow ctx ctx' (affine_variable (variable_name k)) p q h = omega (arith, p, h)
IsDeclared-grow ctx ctx' (affine_constant (constant_name k)) p q h = omega (arith, q, h)
IsDeclared-grow ctx ctx' (integer_literal z) p q h = tt
IsDeclared-grow ctx ctx' (AffineExpr.binary_operator t l r) p q h =
    (IsDeclared-grow ctx ctx' l p q h.0, IsDeclared-grow ctx ctx' r p q h.1)
IsDeclared-grow ctx ctx' (AffineExpr.unary_operator t e) p q h = IsDeclared-grow ctx ctx' e p q h
IsDeclared-grow ctx ctx' _ p q h = absurd h

pub IsDeclaredConstraint-grow :
    (ctx ctx' : AffineContext) (c : AffineConstraint)
    → ctx.free_variable_id ≤ ctx'.free_variable_id
    → ctx.free_constant_id ≤ ctx'.free_constant_id
    → IsDeclaredConstraint ctx c
    → IsDeclaredConstraint ctx' c
IsDeclaredConstraint-grow ctx ctx' (wrapped e) p q h = IsDeclared-grow ctx ctx' e p q h
IsDeclaredConstraint-grow ctx ctx' (AffineConstraint.binary_operator t c d) p q h =
    (IsDeclaredConstraint-grow ctx ctx' c p q h.0, IsDeclaredConstraint-grow ctx ctx' d p q h.1)
IsDeclaredConstraint-grow ctx ctx' (AffineConstraint.unary_operator t c) p q h =
    IsDeclaredConstraint-grow ctx ctx' c p q h
