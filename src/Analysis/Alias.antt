-- ===== src/Analysis/Alias.antt =====
-- Alias analysis: qubus/src/alias_analysis.cpp, and the accesses of
-- qubus/src/variable_access_analysis.cpp. The caches of the results are left out, and so is
-- the rule for arrays; Slices has the regions that it compares.
pub mod Paths
pub mod Must
pub mod Conflicts
pub mod Soundness
pub mod Slices
use qubus.Base.{
  ℕ, Bool, true, false, not, List, [], ◌∷◌, String, str_eq, ◌==◌, if◌then◌else◌, ◌&&◌, ◌||◌,
}
use qubus.Base.Results.{Result, ok, fail, exception, ◌>>=◌}
use qubus.Ir.Types.{type_eq, integer}
use qubus.Ir.Inference.{typeof_}
use qubus.Ir.Expressions.{
  nil, cons, integer_range, Expression, Expressions, Variable, same_variable, variable_ref,
  member_access as member_access_expr, subscription as subscription_expr,
}
use qubus.Ir.Expressions.Children.{count}

pub data AliasResult : Type 0 where
  noalias may_alias must_alias : AliasResult

-- An `access_qualifier_expr`, without the access that it qualifies.
pub data Qualifier : Type 0 where
  member_access : String → Qualifier
  subscription : Expressions → Qualifier

pub record Access : Type 0 where
  pub variable : Variable
  pub qualifiers : List Qualifier

qualify : Qualifier → Access → Access
qualify q a = record a { qualifiers = q ∷ a.qualifiers }

-- `decompose_access`: it starts at the outermost qualifier and goes down to the variable.
unfoldable pub decompose_access : Expression → Result Access
unfolding qualify
decompose_access (variable_ref v) = ok (record { variable = v; qualifiers = [] })
decompose_access (member_access_expr e m) = do
  a ← decompose_access e
  ok (qualify (member_access m) a)
decompose_access (subscription_expr e es) = do
  a ← decompose_access e
  ok (qualify (subscription es) a)
decompose_access _ = fail exception

abbrev pub Rule : Type 0
Rule = AliasResult → Qualifier → Qualifier → Result AliasResult

-- A decision ends the search for one.
abbrev pub or_else : Result AliasResult → Result AliasResult → Result AliasResult
or_else (ok may_alias) rest = rest
or_else r rest = r

-- `evaluate_alias_query_stage`: the first rule that decides.
unfoldable pub evaluate_alias_query_stage : List Rule → Rule
evaluate_alias_query_stage [] state p q = ok may_alias
evaluate_alias_query_stage (rule ∷ rules) state p q =
    let rest = evaluate_alias_query_stage rules state p q in or_else (rule state p q) rest

-- `noalias` ends the loop.
abbrev pub unless_apart :
    Result AliasResult → (AliasResult → Result AliasResult) → Result AliasResult
unless_apart (ok noalias) next = ok noalias
unless_apart (ok state) next = next state
unless_apart (fail e) next = fail e

-- The loop over both lists of qualifiers; it ends with the shorter one.
unfoldable pub walk : List Rule → AliasResult → List Qualifier → List Qualifier → Result AliasResult
walk rules state (p ∷ ps) (q ∷ qs) =
    unless_apart (evaluate_alias_query_stage rules state p q) (λ s. walk rules s ps qs)
walk rules state _ _ = ok state

-- `alias_query_driver::alias`.
unfoldable pub alias : List Rule → Access → Access → Result AliasResult
unfolding walk
alias rules a b =
    if not (same_variable a.variable b.variable)
    then ok noalias
    else walk rules must_alias a.qualifiers b.qualifiers

unfoldable pub basic_aliasing_rule : Rule
basic_aliasing_rule state (member_access m) (member_access n) =
    ok (if not (str_eq m n) then noalias else state)
basic_aliasing_rule state (member_access m) (subscription es) = ok noalias
basic_aliasing_rule state (subscription es) (member_access m) = ok noalias
basic_aliasing_rule state (subscription es) (subscription fs) = ok may_alias

abbrev pub basic_rules : List Rule
basic_rules = basic_aliasing_rule ∷ []

-- `alias` of two access expressions.
unfoldable pub alias_of : List Rule → Expression → Expression → Result AliasResult
unfolding alias decompose_access
alias_of rules e f = do a ← decompose_access e; b ← decompose_access f; alias rules a b
