-- ===== src/Analysis/Alias/Paths.antt =====
-- What an access stands for at run time: the specification of alias analysis.
use qubus.Base.{List, [], ◌∷◌, String, ◌≡◌, ◌≢◌, ◌++◌}
use qubus.Base.Int.{ℤ}
use qubus.Ir.Expressions.{Expression, Expressions, nil, cons}
use qubus.Analysis.Alias.{Qualifier, member_access, subscription}

pub data Step : Type 0 where
  field : String → Step
  element : List ℤ → Step

-- `SelectsAt e i`: the index or range `e` can select `i`, at some iteration.
module _ (SelectsAt : Expression → ℤ → Type 0) where
  abbrev pub Selects : Expressions → List ℤ → Type 0
  Selects nil [] = Unit
  Selects (cons e es) (i ∷ is) = SelectsAt e i × Selects es is
  Selects _ _ = ⊥

  abbrev pub StepOf : Qualifier → Step → Type 0
  StepOf (member_access m) s = s ≡ field m
  StepOf (subscription es) s = (is : List ℤ) × (s ≡ element is) × Selects es is

  -- The steps stand in the order of the qualifiers: the last step first.
  abbrev pub PathOf : List Qualifier → List Step → Type 0
  PathOf [] [] = Unit
  PathOf (q ∷ qs) (s ∷ ss) = StepOf q s × PathOf qs ss
  PathOf _ _ = ⊥

  -- No two steps of the qualifiers agree.
  abbrev pub AreApart : Qualifier → Qualifier → Type 0
  AreApart p q = (s t : Step) → StepOf p s → StepOf q t → s ≢ t

-- The object at `ss` is the one at `ts` or a part of it: they start with the same steps.
abbrev pub IsPartOf : List Step → List Step → Type 0
IsPartOf ss ts = (more : List Step) × (ss ≡ more ++ ts)
