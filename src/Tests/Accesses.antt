-- ===== src/Tests/Accesses.antt =====
-- The accesses of a loop that assigns x[i] to itself.
use qubus.Base.{ℕ, ◌≡◌, refl, ◌↔◌, [], ◌∷◌}
use mathlib.Core.List.{Memᴰ}
use qubus.Base.Int.{pos}
use qubus.Base.Results.{ok}
use qubus.Ir.Types.{integer, double, array}
use qubus.Ir.Expressions.{
  Expression, Variable, ExecutionOrder, integer_literal, variable_ref, subscription,
  binary_operator, for_loop, nil, cons, assign,
}
use qubus.Ir.Expressions.Children.{sub_expressions}
use qubus.Analysis.Alias.{Access, Qualifier, decompose_access}
use qubus.Analysis.Accesses.{
  external, AccessSetNode, access_set_node, no_subsets, and_subset, get_accesses, get_read_accesses,
  get_write_accesses, compute_access_set, analyze_access, get_accesses_all, drain, rounds,
  own_access, other_children, push_all, subsets_of,
}
use qubus.Analysis.Accesses.Stack.{IsAccessed, get_accesses_iff}
use qubus.Analysis.Accesses.Scopes.{IsExposed}
use qubus.Analysis.Accesses.Regions.{
  IsReadBy, IsWrittenBy, get_read_accesses_iff, get_write_accesses_iff,
}

abbrev x : Variable
x = record { id = 1; var_type = array double 1 }

abbrev i : Variable
i = record { id = 2; var_type = integer }

abbrev x_at_i : Expression
x_at_i = subscription (variable_ref x) (cons (variable_ref i) nil)

abbrev element : Access
element = record {
  variable = x;
  qualifiers = Qualifier.subscription (cons (variable_ref i) nil) ∷ [];
}

abbrev position : Access
position = record { variable = i; qualifiers = [] }

abbrev copying : Expression
copying = binary_operator assign x_at_i x_at_i

abbrev at_literal : ℕ → AccessSetNode
at_literal n = access_set_node (integer_literal (pos n)) [] [] no_subsets

abbrev loop : Expression
loop =
    for_loop ExecutionOrder.sequential i (integer_literal (pos 0)) (integer_literal (pos 4))
      (integer_literal (pos 1)) copying

abbrev loop_accesses : AccessSetNode
loop_accesses = access_set_node loop [] [] (
    and_subset (at_literal 0) (
      and_subset (at_literal 4) (
        and_subset (at_literal 1) (
          and_subset
            (access_set_node copying (element ∷ position ∷ position ∷ []) (element ∷ []) no_subsets)
            no_subsets))))

loop_computes : compute_access_set 3 loop ≡ ok loop_accesses
unfolding compute_access_set analyze_access get_accesses get_accesses_all drain rounds own_access
    other_children push_all subsets_of sub_expressions decompose_access
loop_computes = refl

x_at_i_accesses : get_accesses x_at_i ≡ ok (element ∷ position ∷ [])
unfolding get_accesses drain rounds own_access other_children push_all decompose_access
x_at_i_accesses = refl

get_accesses_iff_example : Memᴰ position (element ∷ position ∷ []) ↔ IsAccessed position x_at_i
get_accesses_iff_example =
    get_accesses_iff x_at_i (element ∷ position ∷ []) position x_at_i_accesses

get_write_accesses_iff_example :
    Memᴰ element (get_write_accesses external loop_accesses)
    ↔ IsExposed external IsWrittenBy element loop
get_write_accesses_iff_example =
    get_write_accesses_iff external 3 loop loop_accesses element loop_computes

get_read_accesses_iff_example :
    Memᴰ position (get_read_accesses external loop_accesses)
    ↔ IsExposed external IsReadBy position loop
get_read_accesses_iff_example =
    get_read_accesses_iff external 3 loop loop_accesses position loop_computes
