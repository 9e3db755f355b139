-- ===== src/Analysis/Alias/Soundness.antt =====
-- When the answers of the basic rule of qubus/src/alias_analysis.cpp are right.
use qubus.Base.{List, [], ◌∷◌, str_eq_iff, ◌≡◌, ◌≢◌, refl, arith, All, ◌⊎◌, inl, inr}
use qubus.Base.Int.{ℤ}
use qubus.Base.Results.{Result, ok, fail}
use qubus.Ir.Expressions.{Expression}
use qubus.Analysis.Alias.{
  AliasResult, noalias, may_alias, must_alias, Qualifier, member_access, subscription, Rule,
  or_else, unless_apart, evaluate_alias_query_stage, walk, basic_aliasing_rule,
}
use qubus.Analysis.Alias.Paths.{Step, PathOf, AreApart}

or_else_cases :
    (r rest : Result AliasResult)
    → or_else r rest ≡ ok noalias
    → (r ≡ ok noalias) ⊎ (rest ≡ ok noalias)
or_else_cases (ok noalias) rest h = inl refl
or_else_cases (ok may_alias) rest h = inr h
or_else_cases (ok must_alias) rest h = cc
or_else_cases (fail e) rest h = cc

unless_apart_cases :
    (r : Result AliasResult) (next : AliasResult → Result AliasResult)
    → unless_apart r next ≡ ok noalias
    → (r ≡ ok noalias) ⊎ ((s : AliasResult) × (s ≢ noalias) × (r ≡ ok s) × (next s ≡ ok noalias))
unless_apart_cases (ok noalias) next h = inl refl
unless_apart_cases (ok may_alias) next h = inr (may_alias, λ e. cc e, refl, h)
unless_apart_cases (ok must_alias) next h = inr (must_alias, λ e. cc e, refl, h)
unless_apart_cases (fail e) next h = cc

module _ (SelectsAt : Expression → ℤ → Type 0) where
  -- A rule that answers `noalias`, in a state that is not `noalias`, is right.
  abbrev pub IsSound : Rule → Type 0
  IsSound rule =
      (state : AliasResult) (p q : Qualifier)
      → state ≢ noalias
      → rule state p q ≡ ok noalias
      → AreApart SelectsAt p q

  pub basic_aliasing_rule-IsSound : IsSound basic_aliasing_rule
  unfolding basic_aliasing_rule
  basic_aliasing_rule-IsSound state (member_access m) (member_access n) live h =
      λ s t a b e. ground (arith, str_eq_iff m n)
  basic_aliasing_rule-IsSound state (member_access m) (subscription es) live h = λ s t a b e. cc b.1
  basic_aliasing_rule-IsSound state (subscription es) (member_access m) live h = λ s t a b e. cc a.1
  basic_aliasing_rule-IsSound state (subscription es) (subscription fs) live h = cc

  stage-IsSound :
      (rules : List Rule) → All IsSound rules → IsSound (evaluate_alias_query_stage rules)
  unfolding evaluate_alias_query_stage
  stage-IsSound [] h state p q live e = cc
  stage-IsSound (rule ∷ rules) h state p q live e = elim (or_else_cases (rule state p q) _ e) [
    | inl here ↦ h.0 state p q live here
    | inr there ↦ stage-IsSound rules h.1 state p q live there
  ]

  -- The paths of accesses that are found apart differ.
  pub walk_sound :
      (rules : List Rule)
      → All IsSound rules
      → (state : AliasResult) (ps qs : List Qualifier) → state ≢ noalias
      → walk rules state ps qs ≡ ok noalias
      → (ss ts : List Step) → PathOf SelectsAt ps ss
      → PathOf SelectsAt qs ts
      → ss ≢ ts
  unfolding walk
  walk_sound rules h state (p ∷ ps) (q ∷ qs) live e (s ∷ ss) (t ∷ ts) a b same =
      elim (unless_apart_cases (evaluate_alias_query_stage rules state p q) _ e) [
        | inl here ↦ stage-IsSound rules h state p q live here s t a.0 b.0 (cc same)
        | inr (next, live', _, there) ↦
            walk_sound rules h next ps qs live' there ss ts a.1 b.1 (cc same)
      ]
  walk_sound rules h state _ _ live e _ _ a b same = absurd (ground arith)
