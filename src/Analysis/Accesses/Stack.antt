-- ===== src/Analysis/Accesses/Stack.antt =====
-- What the loop over the pending expressions collects.
use qubus.Base.{
  ℕ, zero, suc, true, false, List, [], ◌∷◌, ◌≡◌, refl, sym, ap, ◌∙◌, subst, arith, ◌⊎◌, inl, inr,
  ◌↔◌, Bool-cases,
}
use mathlib.Core.List.{Memᴰ}
use mathlib.Core.List.Memᴰ.{append_left, append_right, append_cases, eq_of_singleton, not-nil}
use qubus.Base.Results.{ok, >>=-eq-ok, ok-injective}
use qubus.Ir.Expressions.{
  Expression, Expressions, double_literal, variable_ref, member_access, subscription, nil, cons,
}
use qubus.Ir.Expressions.Children.{sub_expressions, is_access}
use qubus.Analysis.Alias.{Access, decompose_access}
use qubus.Analysis.Accesses.{other_children, push_all, own_access, drain, rounds, get_accesses}

pub data IsIn (e : Expression) : Expressions → Type 0 where
  first : {f : Expression} {es : Expressions} → e ≡ f → IsIn e (cons f es)
  later : {f : Expression} {es : Expressions} → IsIn e es → IsIn e (cons f es)

-- What a subscription holds besides the access that it qualifies.
abbrev pub indices : Expression → Expressions
indices (subscription e es) = es
indices _ = nil

-- The expression is the access, an index of it has it, or, where it is no access, a child has it.
pub data IsAccessed (a : Access) : Expression → Type 0 where
  itself : {e : Expression} → decompose_access e ≡ ok a → IsAccessed a e
  in_index : {e c : Expression} → IsIn c (indices e) → IsAccessed a c → IsAccessed a e
  in_child :
      {e c : Expression}
      → is_access e ≡ false
      → IsIn c (sub_expressions e)
      → IsAccessed a c
      → IsAccessed a e

from_other :
    (e c : Expression)
    → IsIn c (other_children e)
    → IsIn c (indices e) ⊎ ((is_access e ≡ false) × IsIn c (sub_expressions e))
unfolding other_children sub_expressions
from_other (subscription e es) c h = inl h
from_other (member_access e m) c h = elim h [ ]
from_other (variable_ref v) c h = elim h [ ]
from_other (double_literal x) c h = inr (refl, h)
from_other _ c h = inr (refl, h)

of_index : (e c : Expression) → IsIn c (indices e) → IsIn c (other_children e)
unfolding other_children
of_index (subscription e es) c h = h
of_index (double_literal x) c h = elim h [ ]
of_index _ c h = elim h [ ]

of_child :
    (e c : Expression)
    → is_access e ≡ false
    → IsIn c (sub_expressions e)
    → IsIn c (other_children e)
unfolding other_children sub_expressions
of_child (subscription e es) c other h = absurd (ground arith)
of_child (member_access e m) c other h = absurd (ground arith)
of_child (double_literal x) c other h = h
of_child _ c other h = h

abbrev AccessedOn : Access → List Expression → Type 0
AccessedOn a [] = ⊥
AccessedOn a (e ∷ pending) = IsAccessed a e ⊎ AccessedOn a pending

module _ (a : Access) where
  abbrev AccessedIn : Expressions → Type 0
  AccessedIn es = (c : Expression) × IsIn c es × IsAccessed a c

  from_pushed :
      (es : Expressions) (s : List Expression)
      → AccessedOn a (push_all es s)
      → AccessedIn es ⊎ AccessedOn a s
  unfolding push_all
  from_pushed nil s h = inr h
  from_pushed (cons e es) s h = elim (from_pushed es (e ∷ s) h) [
    | inl (c, p, q) ↦ inl (c, later p, q)
    | inr (inl here) ↦ inl (e, first refl, here)
    | inr (inr there) ↦ inr there
  ]

  pushed_below :
      (es : Expressions) (s : List Expression) → AccessedOn a s → AccessedOn a (push_all es s)
  unfolding push_all
  pushed_below nil s h = h
  pushed_below (cons e es) s h = pushed_below es (e ∷ s) (inr h)

  pushed_on :
      (es : Expressions) (s : List Expression) → AccessedIn es → AccessedOn a (push_all es s)
  unfolding push_all
  pushed_on nil s h = elim h.1 [ ]
  pushed_on (cons e es) s (c, first same, q) =
      pushed_below es (e ∷ s) (inl (subst (IsAccessed a) same q))
  pushed_on (cons e es) s (c, later p, q) = pushed_on es (e ∷ s) (c, p, q)

  only_accesses : (e : Expression) → decompose_access e ≡ ok a → is_access e ≡ true
  unfolding decompose_access
  only_accesses (double_literal x) h = cc h
  only_accesses _ h = ground arith

  own_access_sound :
      (e : Expression) (found : List Access)
      → own_access e ≡ ok found
      → Memᴰ a found
      → decompose_access e ≡ ok a
  unfolding own_access
  own_access_sound e found h m = elim (Bool-cases (is_access e)) [
    | inr other ↦ absurd (not-nil (subst (Memᴰ a) (sym (ok-injective (rw other at h))) m))
    | inl access ↦
        let (b, p, q) = >>=-eq-ok (decompose_access e) _ (rw access at h) in
        p ∙ ap ok (sym (eq_of_singleton (subst (Memᴰ a) (sym (ok-injective q)) m)))
  ]

  own_access_complete :
      (e : Expression) (found : List Access)
      → own_access e ≡ ok found
      → decompose_access e ≡ ok a
      → Memᴰ a found
  unfolding own_access
  own_access_complete e found h d =
      let same = rw (only_accesses e d, d) at h in
      subst (Memᴰ a) (ok-injective same) (Memᴰ.head refl)

  drain_sound :
      (fuel : ℕ) (s : List Expression) (found : List Access)
      → drain fuel s ≡ ok found
      → Memᴰ a found
      → AccessedOn a s
  unfolding drain
  drain_sound fuel [] found h m = not-nil (subst (Memᴰ a) (sym (ok-injective h)) m)
  drain_sound zero (e ∷ s) found h m = cc h
  drain_sound (suc fuel) (e ∷ s) found h m =
      let (own, p, rest) = >>=-eq-ok (own_access e) _ h in
      let (others, q, last) = >>=-eq-ok (drain fuel (push_all (other_children e) s)) _ rest in
      elim (append_cases own (subst (Memᴰ a) (sym (ok-injective last)) m)) [
        | inl here ↦ inl (itself (own_access_sound e own p here))
        | inr there ↦
            elim (from_pushed (other_children e) s
              (drain_sound fuel (push_all (other_children e) s) others q there)) [
                | inl (c, x, y) ↦ elim (from_other e c x) [
                  | inl index ↦ inl (in_index index y)
                  | inr (other, child) ↦ inl (in_child other child y)
                ]
                | inr below ↦ inr below
              ]
      ]

  drain_complete :
      (fuel : ℕ) (s : List Expression) (found : List Access)
      → drain fuel s ≡ ok found
      → AccessedOn a s
      → Memᴰ a found
  unfolding drain
  drain_complete fuel [] found h on = absurd on
  drain_complete zero (e ∷ s) found h on = cc h
  drain_complete (suc fuel) (e ∷ s) found h on =
      let (own, p, rest) = >>=-eq-ok (own_access e) _ h in
      let (others, q, last) = >>=-eq-ok (drain fuel (push_all (other_children e) s)) _ rest in
      let later_on = drain_complete fuel (push_all (other_children e) s) others q in
      subst (Memᴰ a) (ok-injective last) (elim on [
        | inl (itself d) ↦ append_left others (own_access_complete e own p d)
        | inl (in_index {c = c} x y) ↦
            append_right own (later_on (pushed_on (other_children e) s (c, of_index e c x, y)))
        | inl (in_child {c = c} other x y) ↦
            append_right own
              (later_on (pushed_on (other_children e) s (c, of_child e c other x, y)))
        | inr below ↦ append_right own (later_on (pushed_below (other_children e) s below))
      ])

-- Of an access only the indices are looked at.
pub other_children_of_access :
    (l c : Expression) (a : Access)
    → decompose_access l ≡ ok a
    → IsIn c (other_children l) ↔ IsIn c (indices l)
other_children_of_access l c a h = (
  λ x. elim (from_other l c x) [
    | inl index ↦ index
    | inr (other, _) ↦ absurd (ground (arith, only_accesses a l h, other))
  ],
  of_index l c,
)

-- `get_accesses`, when it succeeds, finds exactly the expression itself, if it is an access, the
-- accesses of its indices, or, if it is no access, the accesses of its children, at any depth.
pub get_accesses_iff :
    (e : Expression) (found : List Access) (a : Access)
    → get_accesses e ≡ ok found
    → Memᴰ a found ↔ IsAccessed a e
unfolding get_accesses
get_accesses_iff e found a h = (
  λ m. elim (drain_sound a (rounds e) (e ∷ []) found h m) [
    | inl here ↦ here
    | inr there ↦ absurd there
  ],
  λ here. drain_complete a (rounds e) (e ∷ []) found h (inl here),
)
