-- ===== src/Tests/Analysis.antt =====
-- The analyses on concrete accesses and loops.
use qubus.Base.{ℕ, String, str_eq_iff, ◌*◌, ◌≡◌, ◌≢◌, refl, arith, List, [], ◌∷◌, All, ◌↔◌, ◌⊎◌}
use qubus.Base.Int.{pos, ◌+ℤ◌, ◌-ℤ◌, quot, rem}
use qubus.Base.Results.{ok}
use qubus.Ir.Types.{integer}
use qubus.Ir.Inference.{typeof_}
use qubus.Ir.Inference.CommonType.{common_type}
use qubus.Ir.Expressions.{Expression, Variable, integer_literal, variable_ref, nil, cons}
use qubus.Ir.Expressions.Depth.{depth}
use qubus.Ir.Semantics.{Env, int, eval}
use qubus.Ir.Folding.Soundness.{meaning}
use qubus.Ir.Folding.{fold_constant_expressions}
use qubus.Analysis.Alias.{
  Access, Qualifier, noalias, must_alias, alias, basic_rules, evaluate_alias_query_stage,
  basic_aliasing_rule,
}
use qubus.Analysis.Alias.Conflicts.{HaveConflict, alias-noalias_iff}
use qubus.Analysis.Axioms.{
  body_axioms, upper_bound_axiom, less, greater_equal, equal_to, minus, modulus,
}
use qubus.Analysis.Axioms.Loops.{Holds, body_axioms-Holds}

abbrev v : Variable
v = record { id = 0; var_type = integer }

abbrev lit : ℕ → Expression
lit n = integer_literal (pos n)

abbrev at : ℕ → Access
at n = record { variable = v; qualifiers = Qualifier.subscription (cons (lit n) nil) ∷ [] }

abbrev field_of : Access
field_of = record { variable = v; qualifiers = Qualifier.member_access "m" ∷ [] }

field_of_itself : alias basic_rules field_of field_of ≡ ok must_alias
unfolding alias evaluate_alias_query_stage basic_aliasing_rule
field_of_itself = refl

alias-noalias_iff_example :
    (alias basic_rules field_of (at 3) ≡ ok noalias)
    ↔ ((v.id ≢ v.id) ⊎ HaveConflict field_of.qualifiers (at 3).qualifiers)
alias-noalias_iff_example = alias-noalias_iff field_of (at 3)

abbrev m : String
m = "m"

m_is_not_n : m ≢ "n"
m_is_not_n h = absurd (ground (arith, (str_eq_iff m "n").1 h))

-- for i in 2 : 11 : 3, at its third iteration.
abbrev third : Env
third w = ok (int (pos 8))

abbrev loop_axioms : List Expression
loop_axioms =
    greater_equal (variable_ref v) (lit 2)
    ∷ less (variable_ref v) (lit 9)
    ∷ equal_to (modulus (minus (variable_ref v) (lit 2)) (lit 3)) (lit 0)
    ∷ less (lit 2) (lit 11)
    ∷ []

loop_axioms_are : body_axioms v (lit 2) (lit 11) (lit 3) ≡ ok loop_axioms
unfolding body_axioms depth fold_constant_expressions typeof_ common_type ◌-ℤ◌ quot rem
    upper_bound_axiom
loop_axioms_are = refl

fits : (pos 11 -ℤ pos 2) ≡ pos 9
unfolding ◌-ℤ◌
fits = refl

third_index : pos 8 ≡ pos 2 +ℤ pos (2 * 3)
unfolding ◌+ℤ◌
third_index = refl

literal_is : (n : ℕ) → meaning third (lit n) ≡ ok (int (pos n))
unfolding eval
literal_is n = refl

body_axioms-Holds_example : All (Holds third) loop_axioms
unfolding ◌-ℤ◌
body_axioms-Holds_example =
    body_axioms-Holds third v (lit 2) (lit 11) (lit 3) (pos 2) (pos 11) (pos 8) 3 2 refl
      (literal_is 2) (literal_is 11) (literal_is 3) refl refl refl (omega arith) third_index
      (omega arith) loop_axioms loop_axioms_are
