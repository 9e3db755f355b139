-- ===== src/Tests/Invariants.antt =====
-- Invariants of a loop that assigns to an element of one array.
use qubus.Base.{ℕ, true, [], ◌∷◌, ◌≡◌, ◌≢◌, refl}
use qubus.Base.Int.{ℤ, pos}
use qubus.Base.Results.{ok}
use qubus.Ir.Types.{integer}
use qubus.Ir.Expressions.{
  Expression, Variable, BinaryOpTag, ExecutionOrder, variable_ref, integer_literal, binary_operator,
  subscription, member_access, for_loop, nil, cons,
}
use qubus.Ir.Expressions.Children.{sub_expressions}
use qubus.Analysis.Alias.{
  Qualifier, decompose_access, evaluate_alias_query_stage, basic_aliasing_rule,
}
use qubus.Analysis.Alias.Paths.{field}
use qubus.Analysis.Invariants.{is_invariant}
use qubus.Analysis.Invariants.Modification.{assigned}
use qubus.Analysis.Invariants.Soundness.{itself, on_left, is_invariant-apart}

abbrev i : Variable
i = record { id = 0; var_type = integer }

abbrev a : Variable
a = record { id = 1; var_type = integer }

abbrev b : Variable
b = record { id = 2; var_type = integer }

abbrev at : Variable → Expression → Expression
at v e = subscription (variable_ref v) (cons e nil)

abbrev lit : ℕ → Expression
lit n = integer_literal (pos n)

-- for i in 0 .. 8: a[i] = b[0].
abbrev loop : Expression
loop =
    for_loop ExecutionOrder.sequential i (lit 0) (lit 8) (lit 1)
      (binary_operator BinaryOpTag.assign (at a (variable_ref i)) (at b (lit 0)))

-- s.size = 8.
abbrev update : Expression
update = binary_operator BinaryOpTag.assign (member_access (variable_ref a) "size") (lit 8)

-- s.first + 1.
abbrev next : Expression
next = binary_operator BinaryOpTag.plus (member_access (variable_ref a) "first") (lit 1)

-- Every index can select every number.
abbrev Anything : Expression → ℤ → Type 0
Anything e z = Unit

is_invariant-apart_example : field "first" ∷ [] ≢ field "size" ∷ []
unfolding is_invariant decompose_access sub_expressions evaluate_alias_query_stage
    basic_aliasing_rule
is_invariant-apart_example =
    is_invariant-apart Anything next update (member_access (variable_ref a) "first")
      (member_access (variable_ref a) "size")
      (record { variable = a; qualifiers = Qualifier.member_access "first" ∷ [] })
      (record { variable = a; qualifiers = Qualifier.member_access "size" ∷ [] }) refl
      (on_left _ _ _ BinaryOpTag.plus (itself _ refl)) (assigned _ _) refl refl (field "first" ∷ [])
      (field "size" ∷ []) (refl, tt) (refl, tt) refl

varying_counts_as_invariant : is_invariant (at b (variable_ref i)) loop ≡ ok true
unfolding is_invariant sub_expressions
varying_counts_as_invariant = refl
