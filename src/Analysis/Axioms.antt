-- ===== src/Analysis/Axioms.antt =====
-- Axiom analysis: qubus/src/axiom_analysis.cpp. A location is the list of the child indices that
-- lead to it from the root, in place of the address of the expression.
pub mod Loops
pub mod Scopes
use qubus.Base.{
  ℕ, zero, suc, Bool, true, false, List, [], ◌∷◌, ◌++◌, if◌then◌else◌, Option, none, some,
}
use qubus.Base.Int.{ℤ, pos, eqb_ℤ}
use qubus.Base.Results.{Result, ok, fail, out_of_fuel, ◌>>=◌}
use qubus.Ir.Expressions.{
  Expression, Expressions, Variable, BinaryOpTag, UnaryOpTag, variable_ref, integer_literal,
  binary_operator, unary_operator, for_loop, if_then, if_else, nil, cons,
}
use qubus.Ir.Expressions.Children.{sub_expressions}
use qubus.Ir.Expressions.Depth.{depth}
use qubus.Ir.Folding.{fold_constant_expressions}

mutual
  pub data AxiomScope : Type 0 where
    scope : Expression → List Expression → AxiomScopes → AxiomScope

  pub data AxiomScopes : Type 0 where
    no_scopes : AxiomScopes
    and_scope : AxiomScope → AxiomScopes → AxiomScopes

abbrev pub less : Expression → Expression → Expression
less = binary_operator BinaryOpTag.less

abbrev pub greater_equal : Expression → Expression → Expression
greater_equal = binary_operator BinaryOpTag.greater_equal

abbrev pub equal_to : Expression → Expression → Expression
equal_to = binary_operator BinaryOpTag.equal_to

abbrev pub minus : Expression → Expression → Expression
minus = binary_operator BinaryOpTag.minus

abbrev pub modulus : Expression → Expression → Expression
modulus = binary_operator BinaryOpTag.modulus

-- upper_bound - (upper_bound - lower_bound - 1) % increment
abbrev pub last_bound : Expression → Expression → Expression → Expression
last_bound lower upper increment =
    minus upper (modulus (minus (minus upper lower) (integer_literal (pos 1))) increment)

-- The matcher `m2` on the increment.
unfoldable pub upper_bound_axiom :
    Variable → Expression → Expression → Expression → Result Expression
upper_bound_axiom idx lower upper (integer_literal z) =
    let bound = last_bound lower upper (integer_literal z) in
    let tightened = fold_constant_expressions (suc (depth bound)) bound in
    if eqb_ℤ z (pos 1)
    then ok (less (variable_ref idx) upper)
    else (tightened >>= λ folded. ok (less (variable_ref idx) folded))
upper_bound_axiom idx lower upper increment = ok (less (variable_ref idx) upper)

-- `body_axioms`: the bounds of the index, its stride, and that the range is not empty.
unfoldable pub body_axioms :
    Variable → Expression → Expression → Expression → Result (List Expression)
body_axioms idx lower upper increment = do
  upper_axiom ← upper_bound_axiom idx lower upper increment
  ok (
      greater_equal (variable_ref idx) lower
      ∷ upper_axiom
      ∷ equal_to (modulus (minus (variable_ref idx) lower) increment) (integer_literal (pos 0))
      ∷ less lower upper
      ∷ [])

-- The loop of the default case, over the children.
unfoldable pub scopes_of :
    (Expression → List Expression → Result AxiomScope) → Expressions → Result AxiomScopes
scopes_of generate nil = ok no_scopes
scopes_of generate (cons e es) = do
  s ← generate e []
  ss ← scopes_of generate es
  ok (and_scope s ss)

-- `generate_axiom_scope_tree`, with the recursive calls handed in.
unfoldable pub subscopes_of :
    (Expression → List Expression → Result AxiomScope) → Expression → Result AxiomScopes
subscopes_of generate (for_loop o idx lower upper increment body) = do
  axioms ← body_axioms idx lower upper increment
  l ← generate lower []
  u ← generate upper []
  i ← generate increment []
  b ← generate body axioms
  ok (and_scope l (and_scope u (and_scope i (and_scope b no_scopes))))
subscopes_of generate (if_then condition then_branch) = do
  c ← generate condition []
  t ← generate then_branch (condition ∷ [])
  ok (and_scope c (and_scope t no_scopes))
subscopes_of generate (if_else condition then_branch else_branch) = do
  c ← generate condition []
  t ← generate then_branch (condition ∷ [])
  e ← generate else_branch (unary_operator UnaryOpTag.logical_not condition ∷ [])
  ok (and_scope c (and_scope t (and_scope e no_scopes)))
subscopes_of generate e = scopes_of generate (sub_expressions e)

-- The fuel bounds the depth of the recursion.
unfoldable pub generate_axiom_scope_tree : ℕ → Expression → List Expression → Result AxiomScope
generate_axiom_scope_tree zero ctx axioms = fail out_of_fuel
generate_axiom_scope_tree (suc fuel) ctx axioms = do
  subscopes ← subscopes_of (generate_axiom_scope_tree fuel) ctx
  ok (scope ctx axioms subscopes)

-- `get_valid_axioms`: from the scope of the location outwards to the root.
unfoldable mutual
  pub get_valid_axioms : AxiomScope → List ℕ → Option (List Expression)
  get_valid_axioms (scope ctx axioms subscopes) [] = some axioms
  get_valid_axioms (scope ctx axioms subscopes) (i ∷ path) = elim (valid_below subscopes i path) [
    | none ↦ none
    | some inner ↦ some (inner ++ axioms)
  ]

  pub valid_below : AxiomScopes → ℕ → List ℕ → Option (List Expression)
  valid_below no_scopes i path = none
  valid_below (and_scope s ss) zero path = get_valid_axioms s path
  valid_below (and_scope s ss) (suc i) path = valid_below ss i path
