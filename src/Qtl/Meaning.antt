-- ===== src/Qtl/Meaning.antt =====
-- What the expressions of qubus/src/qtl are meant to denote, where the scalars, the tensors and the
-- operators are a parameter. This is not code: it is what the passes are measured by.
use qubus.Base.{ℕ, zero, suc, ◌==◌, ◌<◌, String, if◌then◌else◌, List, [], ◌∷◌, ◌≡◌, ◌≢◌}
use qubus.Base.Int.{ℤ, pos}
use qubus.Ir.Expressions.{Variable, BinaryOpTag, UnaryOpTag}
use qubus.Qtl.Expressions.{
  QtlExpression, QtlExpressions, integer_literal, variable_ref, binary_operator, unary_operator,
  intrinsic_function, subscription, kronecker_delta, sum, for_all, nil, cons, is_index,
}

-- `each n f` is `f` at each number below `n`.
pub record Scalars : Type 1 where
  pub V : Type 0
  pub literal : ℤ → V
  pub position : ℕ → V
  pub symbol : Variable → V
  pub binary : BinaryOpTag → V → V → V
  pub unary : UnaryOpTag → V → V
  pub invoke : String → List V → V
  pub element : V → List V → V
  pub delta : ℕ → V → V → V
  pub each : ℕ → (ℕ → V) → V

-- The indices by their identities: their values, and the extents of their ranges.
abbrev pub Indices : Type 0
Indices = ℕ → ℕ

abbrev pub update : Indices → ℕ → ℕ → Indices
update ρ i k j = if i == j then k else ρ j

module _ (s : Scalars) where
  abbrev pub nought : s.V
  nought = s.literal (pos 0)

  -- The sum of the values below a number.
  unfoldable pub sum_to : ℕ → (ℕ → s.V) → s.V
  sum_to zero f = nought
  sum_to (suc n) f = s.binary BinaryOpTag.plus (sum_to n f) (f n)

  module _ (extent : Indices) where
    -- Over every value of each index.
    unfoldable pub sum_over : List Variable → (Indices → s.V) → Indices → s.V
    unfolding sum_to
    sum_over [] f ρ = f ρ
    sum_over (i ∷ is) f ρ = sum_to (extent i.id) (λ k. sum_over is f (update ρ i.id k))

    unfoldable pub each_over : List Variable → (Indices → s.V) → Indices → s.V
    each_over [] f ρ = f ρ
    each_over (i ∷ is) f ρ = s.each (extent i.id) (λ k. each_over is f (update ρ i.id k))

    unfoldable mutual
      unfolding sum_over each_over

      pub eval : QtlExpression → Indices → s.V
      eval (integer_literal z) ρ = s.literal z
      eval (variable_ref v) ρ = if is_index v then s.position (ρ v.id) else s.symbol v
      eval (binary_operator t l r) ρ = s.binary t (eval l ρ) (eval r ρ)
      eval (unary_operator t e) ρ = s.unary t (eval e ρ)
      eval (intrinsic_function f es) ρ = s.invoke f (eval_all es ρ)
      eval (subscription e es) ρ = s.element (eval e ρ) (eval_all es ρ)
      eval (kronecker_delta n l r) ρ = s.delta n (eval l ρ) (eval r ρ)
      eval (sum is e) ρ = sum_over is (eval e) ρ
      eval (for_all is e) ρ = each_over is (eval e) ρ

      pub eval_all : QtlExpressions → Indices → List s.V
      eval_all nil ρ = []
      eval_all (cons e es) ρ = eval e ρ ∷ eval_all es ρ

-- The laws of the numbers 0 and 1 that folding a delta uses.
pub record HasDeltas (s : Scalars) : Type 0 where
  pub nought_plus : (x : s.V) → s.binary BinaryOpTag.plus (nought s) x ≡ x
  pub plus_nought : (x : s.V) → s.binary BinaryOpTag.plus x (nought s) ≡ x
  pub minus_nought : s.binary BinaryOpTag.minus (nought s) (nought s) ≡ nought s
  pub nought_times : (x : s.V) → s.binary BinaryOpTag.multiplies (nought s) x ≡ nought s
  pub times_nought : (x : s.V) → s.binary BinaryOpTag.multiplies x (nought s) ≡ nought s
  pub nought_divided : (x : s.V) → s.binary BinaryOpTag.divides (nought s) x ≡ nought s
  pub same_delta : (n k : ℕ) → s.delta n (s.position k) (s.position k) ≡ s.literal (pos 1)
  pub other_delta : (n k l : ℕ) → k ≢ l → s.delta n (s.position k) (s.position l) ≡ nought s
  pub each_below : (n : ℕ) (f g : ℕ → s.V) → ((k : ℕ) → k < n → f k ≡ g k) → s.each n f ≡ s.each n g
