-- ===== src/Analysis/Alias/Must.antt =====
-- When the basic alias analysis claims that two accesses always alias.
use qubus.Base.{List, [], ◌∷◌, ◌≡◌, ◌≢◌, refl, arith, length, str_eq_iff, ==_iff}
use qubus.Base.Int.{ℤ}
use qubus.Base.Results.{Result, ok}
use qubus.Ir.Expressions.{Expression}
use qubus.Analysis.Alias.{
  AliasResult, may_alias, must_alias, Qualifier, member_access, subscription, Access,
  evaluate_alias_query_stage, walk, alias, basic_aliasing_rule, basic_rules,
}
use qubus.Analysis.Alias.Paths.{Step, PathOf}

stage : AliasResult → Qualifier → Qualifier → Result AliasResult
stage = evaluate_alias_query_stage basic_rules

-- After a stage that is not decided, the answer is never `must_alias`.
walk_may : (ps qs : List Qualifier) → walk basic_rules may_alias ps qs ≢ ok must_alias
unfolding walk evaluate_alias_query_stage basic_aliasing_rule
walk_may [] qs h = cc
walk_may (p ∷ ps) [] h = cc
walk_may (member_access m ∷ ps) (member_access n ∷ qs) h = ground (arith, walk_may ps qs)
walk_may (member_access m ∷ ps) (subscription fs ∷ qs) h = cc
walk_may (subscription es ∷ ps) (member_access n ∷ qs) h = cc
walk_may (subscription es ∷ ps) (subscription fs ∷ qs) h = walk_may ps qs h

module _ (SelectsAt : Expression → ℤ → Type 0) where
  walk_must :
      (ps qs : List Qualifier)
      → length ps ≡ length qs
      → walk basic_rules must_alias ps qs ≡ ok must_alias
      → (ss ts : List Step) → PathOf SelectsAt ps ss
      → PathOf SelectsAt qs ts
      → ss ≡ ts
  unfolding walk evaluate_alias_query_stage basic_aliasing_rule
  walk_must [] [] l h [] [] a b = refl
  walk_must (member_access m ∷ ps) (member_access n ∷ qs) l h (s ∷ ss) (t ∷ ts) a b = ground (
    arith,
    str_eq_iff m n,
    λ (g : walk basic_rules must_alias ps qs ≡ ok must_alias).
        walk_must ps qs (omega arith) g ss ts a.1 b.1,
  )
  walk_must (member_access m ∷ ps) (subscription fs ∷ qs) l h ss ts a b = cc h
  walk_must (subscription es ∷ ps) (member_access n ∷ qs) l h ss ts a b = cc h
  walk_must (subscription es ∷ ps) (subscription fs ∷ qs) l h ss ts a b = absurd (walk_may ps qs h)
  walk_must [] (q ∷ qs) l h ss ts a b = absurd (omega arith)
  walk_must (p ∷ ps) [] l h ss ts a b = absurd (omega arith)
  walk_must [] [] l h [] (t ∷ ts) a b = absurd b
  walk_must [] [] l h (s ∷ ss) ts a b = absurd a
  walk_must (member_access m ∷ ps) (member_access n ∷ qs) l h [] ts a b = absurd a
  walk_must (member_access m ∷ ps) (member_access n ∷ qs) l h (s ∷ ss) [] a b = absurd b

  -- Two accesses with as many qualifiers each, of which the basic analysis says that they must
  -- alias, are of one variable, and stand for the same object at every iteration.
  pub alias-must :
      (a b : Access)
      → length a.qualifiers ≡ length b.qualifiers
      → alias basic_rules a b ≡ ok must_alias
      → (ss ts : List Step) → PathOf SelectsAt a.qualifiers ss
      → PathOf SelectsAt b.qualifiers ts
      → (a.variable.id ≡ b.variable.id) × (ss ≡ ts)
  unfolding alias
  alias-must a b l h ss ts pa pb = (
    ground (arith, ==_iff a.variable.id b.variable.id),
    walk_must a.qualifiers b.qualifiers l (ground arith) ss ts pa pb,
  )
