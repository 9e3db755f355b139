-- ===== src/Analysis/Alias/Conflicts.antt =====
-- When the basic rule of qubus/src/alias_analysis.cpp tells two accesses apart.
use qubus.Base.{
  String, ℕ, zero, suc, true, List, [], ◌∷◌, some, get_elem?, str_eq, str_eq_iff, ==_iff, ◌≡◌, ◌≢◌,
  ◌↔◌, refl, sym, subst, ◌∙◌, ◌⊎◌, inl, inr, Bool-cases,
}
use qubus.Base.Results.{Result, ok, ok-injective}
use qubus.Ir.Expressions.{same_variable}
use qubus.Analysis.Alias.{
  AliasResult, noalias, may_alias, must_alias, Qualifier, member_access, subscription, Access,
  evaluate_alias_query_stage, walk, alias, basic_aliasing_rule, basic_rules,
}

-- Members of different names, or a member and an element.
abbrev pub IsConflict : Qualifier → Qualifier → Type 0
IsConflict (member_access m) (member_access n) = m ≢ n
IsConflict (member_access m) (subscription es) = Unit
IsConflict (subscription es) (member_access m) = Unit
IsConflict (subscription es) (subscription fs) = ⊥

-- At one place, counted from the outermost qualifiers.
abbrev pub HaveConflict : List Qualifier → List Qualifier → Type 0
HaveConflict ps qs =
    (k : ℕ) × (p : Qualifier) × (q : Qualifier) × (get_elem? ps k ≡ some p)
    × (get_elem? qs k ≡ some q)
    × IsConflict p q

abbrev Stage : AliasResult → Qualifier → Qualifier → Result AliasResult
Stage state p q = evaluate_alias_query_stage basic_rules state p q

-- A stage decides, or the next one starts in a state that is not `noalias`.
abbrev GoesOn : AliasResult → Qualifier → Qualifier → Type 0
GoesOn state p q =
    (¬ IsConflict p q) × ((next : AliasResult) × (next ≢ noalias) × (Stage state p q ≡ ok next))

same_members :
    (state : AliasResult)
    → state ≢ noalias
    → (m n : String) → m ≡ n
    → str_eq m n ≡ true
    → GoesOn state (member_access m) (member_access n)
unfolding evaluate_alias_query_stage basic_aliasing_rule
same_members noalias live m n e p = absurd (live refl)
same_members may_alias live m n e p = ((λ d. d e), (may_alias, live, rw p refl))
same_members must_alias live m n e p = ((λ d. d e), (must_alias, live, rw p refl))

stage_cases :
    (state : AliasResult)
    → state ≢ noalias
    → (p q : Qualifier) → (IsConflict p q × (Stage state p q ≡ ok noalias)) ⊎ GoesOn state p q
unfolding evaluate_alias_query_stage basic_aliasing_rule
stage_cases state live (member_access m) (member_access n) = elim (Bool-cases (str_eq m n)) [
  | inl p ↦ inr (same_members state live m n ((str_eq_iff m n).0 p) p)
  | inr p ↦ inl ((λ e. cc (p, (str_eq_iff m n).1 e)), rw p refl)
]
stage_cases state live (member_access m) (subscription es) = inl (tt, refl)
stage_cases state live (subscription es) (member_access m) = inl (tt, refl)
stage_cases state live (subscription es) (subscription fs) =
    inr ((λ c. c), (may_alias, (λ e. cc e), refl))

later :
    (p q : Qualifier) (ps qs : List Qualifier) → HaveConflict ps qs → HaveConflict (p ∷ ps) (q ∷ qs)
later p q ps qs (k, x, y, e, f, c) = (suc k, x, y, e, f, c)

not_here :
    (p q : Qualifier) (ps qs : List Qualifier)
    → ¬ IsConflict p q
    → HaveConflict (p ∷ ps) (q ∷ qs)
    → HaveConflict ps qs
not_here p q ps qs clear (zero, x, y, e, f, c) =
    absurd (clear (subst (λ r. IsConflict r q) (same e) (subst (IsConflict x) (same f) c)))
  where
    same : {a b : Qualifier} → some a ≡ some b → b ≡ a
    same e = cc e
not_here p q ps qs clear (suc k, x, y, e, f, c) = (k, x, y, e, f, c)

goes_on :
    (state next : AliasResult) (p q : Qualifier) (ps qs : List Qualifier)
    → next ≢ noalias
    → Stage state p q ≡ ok next
    → walk basic_rules state (p ∷ ps) (q ∷ qs) ≡ walk basic_rules next ps qs
unfolding walk
goes_on state noalias p q ps qs live e = absurd (live refl)
goes_on state may_alias p q ps qs live e = rw e refl
goes_on state must_alias p q ps qs live e = rw e refl

walk-noalias_iff :
    (state : AliasResult)
    → state ≢ noalias
    → (ps qs : List Qualifier) → (walk basic_rules state ps qs ≡ ok noalias) ↔ HaveConflict ps qs
unfolding walk
walk-noalias_iff state live [] qs =
    ((λ h. absurd (live (ok-injective h))), λ (k, x, y, e, f, c). cc e)
walk-noalias_iff state live (p ∷ ps) [] =
    ((λ h. absurd (live (ok-injective h))), λ (k, x, y, e, f, c). cc f)
walk-noalias_iff state live (p ∷ ps) (q ∷ qs) = elim (stage_cases state live p q) [
  | inl (c, e) ↦ ((λ h. (0, p, q, refl, refl, c)), λ h. rw e refl)
  | inr (clear, (next, live', e)) ↦
      let rest = walk-noalias_iff next live' ps qs in
      let step : walk basic_rules state (p ∷ ps) (q ∷ qs) ≡ walk basic_rules next ps qs =
        goes_on state next p q ps qs live' e in
      (
        (λ h. later p q ps qs (rest.0 (sym step ∙ h))),
        λ h. step ∙ rest.1 (not_here p q ps qs clear h),
      )
]

-- The basic analysis reports two accesses apart exactly if they are of different variables or if at
-- one place, counted from the outermost qualifiers, one has a member and the other an element, or
-- both have members of different names.
pub alias-noalias_iff :
    (a b : Access)
    → (alias basic_rules a b ≡ ok noalias)
      ↔ ((a.variable.id ≢ b.variable.id) ⊎ HaveConflict a.qualifiers b.qualifiers)
unfolding alias
alias-noalias_iff a b = elim (Bool-cases (same_variable a.variable b.variable)) [
  | inl p ↦
      let same : a.variable.id ≡ b.variable.id = (==_iff a.variable.id b.variable.id).0 p in
      let walks = walk-noalias_iff must_alias (λ e. cc e) a.qualifiers b.qualifiers in
      ((λ h. inr (walks.0 (rw p at h))), λ h. rw p (walks.1 (left_out same h)))
  | inr p ↦ ((λ h. inl (λ e. cc (p, (==_iff a.variable.id b.variable.id).1 e))), λ h. rw p refl)
]
  where
    left_out :
        a.variable.id ≡ b.variable.id
        → (a.variable.id ≢ b.variable.id) ⊎ HaveConflict a.qualifiers b.qualifiers
        → HaveConflict a.qualifiers b.qualifiers
    left_out same (inl d) = absurd (d same)
    left_out same (inr c) = c
