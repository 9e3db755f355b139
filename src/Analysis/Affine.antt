-- ===== src/Analysis/Affine.antt =====
-- Affine expressions and constraints, qubus/src/affine_constraints.cpp: how they are extracted from
-- expressions. The names "i0", "i1", ... and "p0", "p1", ... are a kind and a number, and the
-- numbers are unbounded.
pub mod Isl
pub mod Meaning
pub mod Evaluation
pub mod Plain
pub mod Numbering
pub mod ReadBack
pub mod Keeping
pub mod Declaring
pub mod Operators
pub mod Extraction
pub mod Connectives
pub mod Constraints
pub mod Conversion
pub mod Spaces
pub mod Exactness
pub mod Regions
pub mod Conditions
pub mod Ast
use qubus.Base.{
  ℕ, suc, Bool, true, false, not, ◌&&◌, ◌||◌, ◌==◌, if◌then◌else◌, Option, none, some, List, [],
  ◌∷◌, ◌++◌,
}
use qubus.Base.Int.{ℤ}
use qubus.Base.Results.{Result, ok, ◌>>=◌}
use qubus.Ir.Types.{type_eq, integer}
use qubus.Ir.Expressions.{
  Expression, Variable, BinaryOpTag, UnaryOpTag, same_variable, variable_ref,
  binary_operator as binary, unary_operator as unary, integer_literal as literal,
}
use qubus.Ir.Expressions.Equality.{equal}

pub data Name : Type 0 where
  variable_name constant_name : ℕ → Name

abbrev pub same_name : Name → Name → Bool
same_name (variable_name m) (variable_name n) = m == n
same_name (constant_name m) (constant_name n) = m == n
same_name _ _ = false

-- The expression in an `affine_expr`: `affine_expr_variable` and `affine_expr_constant` are classes
-- of the file's own.
pub data AffineExpr : Type 0 where
  affine_variable affine_constant : Name → AffineExpr
  integer_literal : ℤ → AffineExpr
  binary_operator : BinaryOpTag → AffineExpr → AffineExpr → AffineExpr
  unary_operator : UnaryOpTag → AffineExpr → AffineExpr

-- The expression in an `affine_constraint`: `wrapped` is an `affine_expr_wrapper`.
pub data AffineConstraint : Type 0 where
  wrapped : AffineExpr → AffineConstraint
  binary_operator : BinaryOpTag → AffineConstraint → AffineConstraint → AffineConstraint
  unary_operator : UnaryOpTag → AffineConstraint → AffineConstraint

-- `affine_expr_context`.
pub record AffineContext : Type 0 where
  pub invariant_checker : Expression → Result Bool
  pub free_variable_id : ℕ
  pub variable_table : List (Variable × Name)
  pub free_constant_id : ℕ
  pub constant_table : List (Expression × Name)

-- `std::find_if` over the first components of a table, and over the second ones.
module _ {ℓ} {A : Type ℓ} where
  unfoldable pub find_name : (A → Bool) → List (A × Name) → Option Name
  find_name matches [] = none
  find_name matches ((a, n) ∷ table) =
      let rest = find_name matches table in if matches a then some n else rest

  unfoldable pub find_named : Name → List (A × Name) → Option A
  find_named name [] = none
  find_named name ((a, n) ∷ table) =
      let rest = find_named name table in if same_name n name then some a else rest

unfoldable pub declare_variable : Variable → AffineContext → AffineExpr × AffineContext
unfolding find_name
declare_variable v ctx =
    let name = variable_name ctx.free_variable_id in
    elim (find_name (λ w. same_variable w v) ctx.variable_table) [
      | some found ↦ (affine_variable found, ctx)
      | none ↦ (
        affine_variable name,
        record ctx {
          free_variable_id = suc ctx.free_variable_id;
          variable_table = ctx.variable_table ++ ((v, name) ∷ []);
        },
      )
    ]

unfoldable pub lookup_variable : Name → AffineContext → Option Variable
unfolding find_named
lookup_variable name ctx = find_named name ctx.variable_table

unfoldable pub get_constant : Name → AffineContext → Option Expression
unfolding find_named
get_constant name ctx = find_named name ctx.constant_table

abbrev pub is_const : AffineExpr → Bool
is_const (affine_constant n) = true
is_const (integer_literal z) = true
is_const _ = false

abbrev pub Extracted : Type 0 → Type 0
Extracted A = Result (Option A × AffineContext)

-- The switch over a binary operator whose operands are affine.
abbrev pub combine : BinaryOpTag → AffineExpr → AffineExpr → Option AffineExpr
combine BinaryOpTag.plus l r = some (binary_operator BinaryOpTag.plus l r)
combine BinaryOpTag.minus l r = some (binary_operator BinaryOpTag.minus l r)
combine BinaryOpTag.multiplies l r =
    if not (is_const l) && not (is_const r)
    then none
    else some (binary_operator BinaryOpTag.multiplies l r)
combine BinaryOpTag.divides l r =
    if not (is_const r) then none else some (binary_operator BinaryOpTag.divides l r)
combine BinaryOpTag.modulus l r =
    if not (is_const r) then none else some (binary_operator BinaryOpTag.modulus l r)
combine _ l r = none

abbrev pub combine_unary : UnaryOpTag → AffineExpr → Option AffineExpr
combine_unary UnaryOpTag.plus a = some a
combine_unary UnaryOpTag.negate a = some (unary_operator UnaryOpTag.negate a)
combine_unary _ a = none

abbrev pub both {ℓ} : {A B : Type ℓ} → (A → A → Option B) → Option A → Option A → Option B
both f (some a) (some b) = f a b
both f _ _ = none

abbrev pub one {ℓ} : {A B : Type ℓ} → (A → Option B) → Option A → Option B
one f (some a) = f a
one f none = none

-- A comparison, whose operands are wrapped.
abbrev pub is_comparison : BinaryOpTag → Bool
is_comparison BinaryOpTag.equal_to = true
is_comparison BinaryOpTag.not_equal_to = true
is_comparison BinaryOpTag.less = true
is_comparison BinaryOpTag.greater = true
is_comparison BinaryOpTag.less_equal = true
is_comparison BinaryOpTag.greater_equal = true
is_comparison _ = false

abbrev pub is_connective : BinaryOpTag → Bool
is_connective BinaryOpTag.logical_and = true
is_connective BinaryOpTag.logical_or = true
is_connective _ = false

abbrev pub compare_wrapped : BinaryOpTag → AffineExpr → AffineExpr → Option AffineConstraint
compare_wrapped t l r = some (binary_operator t (wrapped l) (wrapped r))

abbrev pub connect : BinaryOpTag → AffineConstraint → AffineConstraint → Option AffineConstraint
connect t l r = some (binary_operator t l r)

abbrev pub negated : AffineConstraint → Option AffineConstraint
negated c = some (unary_operator UnaryOpTag.logical_not c)

-- The comparison of floating-point literals is a parameter.
module _ (same_double same_float : ℕ → ℕ → Bool) where
  unfoldable pub define_constant : Expression → AffineContext → AffineExpr × AffineContext
  unfolding find_name equal
  define_constant e ctx =
      let name = constant_name ctx.free_constant_id in
      elim (find_name (λ f. equal same_double same_float f e) ctx.constant_table) [
        | some found ↦ (affine_constant found, ctx)
        | none ↦ (
          affine_constant name,
          record ctx {
            free_constant_id = suc ctx.free_constant_id;
            constant_table = ctx.constant_table ++ ((e, name) ∷ []);
          },
        )
      ]

  abbrev found : AffineExpr × AffineContext → Extracted AffineExpr
  found (a, ctx) = ok (some a, ctx)

  -- A variable of type integer, by whether it is invariant.
  unfoldable pub construct_variable : Variable → AffineContext → Extracted AffineExpr
  unfolding declare_variable define_constant type_eq
  construct_variable v ctx =
      let extracted = (do
        invariant ← ctx.invariant_checker (variable_ref v)
        found
            (if invariant then define_constant (variable_ref v) ctx else declare_variable v ctx)) in
      if type_eq v.var_type integer then extracted else ok (none, ctx)

  -- Any other expression is a constant if it is invariant.
  unfoldable pub construct_constant : Expression → AffineContext → Extracted AffineExpr
  unfolding define_constant
  construct_constant e ctx = do
    invariant ← ctx.invariant_checker e
    if invariant then found (define_constant e ctx) else ok (none, ctx)

  unfoldable pub try_construct_affine_expr : Expression → AffineContext → Extracted AffineExpr
  unfolding construct_variable construct_constant
  try_construct_affine_expr (binary t l r) ctx = do
    (lhs, ctx₁) ← try_construct_affine_expr l ctx
    (rhs, ctx₂) ← try_construct_affine_expr r ctx₁
    ok (both (combine t) lhs rhs, ctx₂)
  try_construct_affine_expr (unary t e) ctx = do
    (arg, ctx₁) ← try_construct_affine_expr e ctx
    ok (one (combine_unary t) arg, ctx₁)
  try_construct_affine_expr (literal z) ctx = ok (some (integer_literal z), ctx)
  try_construct_affine_expr (variable_ref v) ctx = construct_variable v ctx
  try_construct_affine_expr e ctx = construct_constant e ctx

  unfoldable pub try_extract_affine_constraint :
      Expression → AffineContext → Extracted AffineConstraint
  unfolding try_construct_affine_expr
  try_extract_affine_constraint (binary t l r) ctx =
      let comparison = (do
        (lhs, ctx₁) ← try_construct_affine_expr l ctx
        (rhs, ctx₂) ← try_construct_affine_expr r ctx₁
        ok (both (compare_wrapped t) lhs rhs, ctx₂)) in
      let connective = (do
        (lhs, ctx₁) ← try_extract_affine_constraint l ctx
        (rhs, ctx₂) ← try_extract_affine_constraint r ctx₁
        ok (both (connect t) lhs rhs, ctx₂)) in
      if is_comparison t
      then comparison
      else (if is_connective t then connective else ok (none, ctx))
  try_extract_affine_constraint (unary UnaryOpTag.logical_not e) ctx = do
    (arg, ctx₁) ← try_extract_affine_constraint e ctx
    ok (one negated arg, ctx₁)
  try_extract_affine_constraint e ctx = ok (none, ctx)
