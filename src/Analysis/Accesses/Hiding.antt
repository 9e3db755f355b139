-- ===== src/Analysis/Accesses/Hiding.antt =====
-- What a loop hides of the accesses in it.
use qubus.Base.{
  Bool, true, false, List, [], ◌∷◌, ◌≡◌, sym, ap, ◌∙◌, arith, inl, inr, ◌↔◌, Bool-cases,
}
use mathlib.Core.List.{Memᴰ}
use mathlib.Core.List.Memᴰ.{not-nil}
use qubus.Ir.Expressions.{
  Expression, Variable, same_variable, double_literal, binary_operator, for_loop, assign,
  plus_assign,
}
use qubus.Analysis.Alias.{Access}
use qubus.Analysis.Accesses.{AccessKind, external, all, remove_variable, without_scoped}

abbrev pub is_assignment : Expression → Bool
is_assignment (binary_operator assign l r) = true
is_assignment (binary_operator plus_assign l r) = true
is_assignment _ = false

-- From outside, a loop hides the accesses to its index.
abbrev pub IsHidden : AccessKind → Expression → Access → Type 0
IsHidden external (for_loop o v l u i b) a = same_variable a.variable v ≡ true
IsHidden _ _ _ = ⊥

module _ (a : Access) where
  remove_variable_sound :
      (v : Variable) (found : List Access)
      → Memᴰ a (remove_variable v found)
      → Memᴰ a found × (same_variable a.variable v ≡ false)
  unfolding remove_variable
  remove_variable_sound v [] m = absurd (not-nil m)
  remove_variable_sound v (b ∷ found) m = elim (Bool-cases (same_variable b.variable v)) [
    | inl same ↦ let (x, y) = remove_variable_sound v found (rw same at m) in (Memᴰ.tail x, y)
    | inr other ↦ kept (remove_variable_sound v found) (rw other at m) other
  ]
    where
      kept :
          (Memᴰ a (remove_variable v found) → Memᴰ a found × (same_variable a.variable v ≡ false))
          → Memᴰ a (b ∷ remove_variable v found)
          → same_variable b.variable v ≡ false
          → Memᴰ a (b ∷ found) × (same_variable a.variable v ≡ false)
      kept rest (Memᴰ.head e) other = (Memᴰ.head e, ap (λ x. same_variable x.variable v) e ∙ other)
      kept rest (Memᴰ.tail t) other = let (x, y) = rest t in (Memᴰ.tail x, y)

  remove_variable_complete :
      (v : Variable) (found : List Access)
      → Memᴰ a found
      → same_variable a.variable v ≡ false
      → Memᴰ a (remove_variable v found)
  unfolding remove_variable
  remove_variable_complete v (b ∷ found) (Memᴰ.head e) other =
      let differs : same_variable b.variable v ≡ false =
        ap (λ x. same_variable x.variable v) (sym e) ∙ other in
      rw differs (Memᴰ.head e)
  remove_variable_complete v (b ∷ found) (Memᴰ.tail t) other =
      let rest = remove_variable_complete v found t other in
      elim (Bool-cases (same_variable b.variable v)) [
        | inl same ↦ rw same rest
        | inr differs ↦ rw differs (Memᴰ.tail rest)
      ]
  remove_variable_complete v [] m other = m

  pub without_scoped_iff :
      (kind : AccessKind) (e : Expression) (found : List Access)
      → Memᴰ a (without_scoped kind e found) ↔ (Memᴰ a found × ¬ IsHidden kind e a)
  unfolding without_scoped
  without_scoped_iff external (for_loop o v l u i b) found = (
    λ m. let (x, y) = remove_variable_sound v found m in (x, λ h. absurd (ground arith)),
    λ h. remove_variable_complete v found h.0 (elim (Bool-cases (same_variable a.variable v)) [
      | inl same ↦ absurd (h.1 same)
      | inr other ↦ other
    ]),
  )
  without_scoped_iff external (double_literal x) found = (λ m. (m, λ h. h), λ h. h.0)
  without_scoped_iff _ _ found = (λ m. (m, λ h. h), λ h. h.0)

pub not-IsHidden :
    (kind : AccessKind) (e : Expression) (a : Access) → is_assignment e ≡ true → ¬ IsHidden kind e a
not-IsHidden external (for_loop o v l u i b) a h = absurd (ground arith)
not-IsHidden external (double_literal x) a h = λ hidden. hidden
not-IsHidden external _ a h = λ hidden. hidden
not-IsHidden all _ a h = λ hidden. hidden
