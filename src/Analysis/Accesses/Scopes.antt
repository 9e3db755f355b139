-- ===== src/Analysis/Accesses/Scopes.antt =====
-- The accesses that the set of an expression reports: those of its assignments that no loop between
-- hides.
use qubus.Base.{
  ℕ, zero, suc, true, false, List, [], ◌∷◌, ◌++◌, ◌≡◌, refl, sym, ap, ◌∙◌, subst, arith, ◌⊎◌, inl,
  inr, ◌↔◌,
}
use mathlib.Core.List.{Memᴰ}
use mathlib.Core.List.Memᴰ.{append_left, append_right, append_cases, not-nil}
use qubus.Base.Results.{Result, ok, >>=-eq-ok, ok-injective}
use qubus.Ir.Expressions.{
  Expression, Expressions, double_literal, binary_operator, nil, cons, assign, plus_assign,
}
use qubus.Ir.Expressions.Children.{sub_expressions}
use qubus.Analysis.Alias.{Access}
use qubus.Analysis.Accesses.{
  AccessKind, AccessSetNode, AccessSetNodes, access_set_node, no_subsets, gather, gather_subsets,
  subsets_of, compute_access_set, analyze_access, get_accesses,
}
use qubus.Analysis.Accesses.Stack.{IsIn, first, later}
use qubus.Analysis.Accesses.Hiding.{is_assignment, IsHidden, without_scoped_iff, not-IsHidden}

-- An assignment has the access, at any depth, and no loop on the way to it hides it.
pub data IsExposed (kind : AccessKind) (Local : Expression → Access → Type 0) (a : Access)
    : Expression → Type 0 where
  locally : {e : Expression} → Local e a → IsExposed kind Local a e
  within :
      {e c : Expression}
      → is_assignment e ≡ false
      → IsIn c (sub_expressions e)
      → IsExposed kind Local a c
      → ¬ IsHidden kind e a
      → IsExposed kind Local a e

compute_cases :
    (fuel : ℕ) (e : Expression) (n : AccessSetNode)
    → compute_access_set (suc fuel) e ≡ ok n
    → ((is_assignment e ≡ true)
        × ((reads : List Access) × (writes : List Access) × (n
              ≡ access_set_node e reads writes no_subsets)))
      ⊎ ((is_assignment e ≡ false)
          × ((subsets : AccessSetNodes) × (subsets_of (compute_access_set fuel) (sub_expressions e)
                ≡ ok subsets)
              × (n ≡ access_set_node e [] [] subsets)))
unfolding compute_access_set
compute_cases fuel (binary_operator assign l r) n h =
    let (info, p, rest) = >>=-eq-ok (analyze_access l) _ h in
    let (reads, q, last) = >>=-eq-ok (get_accesses r) _ rest in
    inl (refl, (reads ++ info.indirect_accesses, info.direct_access ∷ [], sym (ok-injective last)))
compute_cases fuel (binary_operator plus_assign l r) n h =
    let (info, p, rest) = >>=-eq-ok (analyze_access l) _ h in
    let (reads, q, last) = >>=-eq-ok (get_accesses r) _ rest in
    inl (
      refl,
      (
        (reads ++ info.indirect_accesses) ++ (info.direct_access ∷ []),
        info.direct_access ∷ [],
        sym (ok-injective last),
      ),
    )
compute_cases fuel (double_literal x) n h =
    let (subsets, p, last) =
      >>=-eq-ok (subsets_of (compute_access_set fuel) (sub_expressions (double_literal x)))
        (λ ss. ok (access_set_node (double_literal x) [] [] ss)) h in
    inr (refl, (subsets, p, sym (ok-injective last)))
compute_cases fuel e n h =
    let (subsets, p, last) =
      >>=-eq-ok (subsets_of (compute_access_set fuel) (sub_expressions e))
        (λ ss. ok (access_set_node e [] [] ss)) h in
    inr (refl, (subsets, p, sym (ok-injective last)))

module _ (start : List Access → List Access → List Access) (Local : Expression → Access → Type 0)
    (kind : AccessKind) (a : Access) (starts_empty : start [] [] ≡ [])
    (only_assignments : (e : Expression) → Local e a → is_assignment e ≡ true)
    (agrees : (fuel : ℕ) (e : Expression) (reads writes : List Access)
      → is_assignment e ≡ true
      → compute_access_set (suc fuel) e ≡ ok (access_set_node e reads writes no_subsets)
      → Memᴰ a (start reads writes) ↔ Local e a) where
  abbrev ExposedIn : Expressions → Type 0
  ExposedIn es = (c : Expression) × IsIn c es × IsExposed kind Local a c

  subsets_iff :
      (compute : Expression → Result AccessSetNode)
      → ((e : Expression) (n : AccessSetNode)
          → compute e ≡ ok n
          → Memᴰ a (gather start kind n) ↔ IsExposed kind Local a e)
      → (es : Expressions) (ns : AccessSetNodes) → subsets_of compute es ≡ ok ns
      → Memᴰ a (gather_subsets start kind ns) ↔ ExposedIn es
  unfolding subsets_of gather
  subsets_iff compute each nil ns h = (
    λ m.
        absurd
          (not-nil (subst (λ ns. Memᴰ a (gather_subsets start kind ns)) (sym (ok-injective h)) m)),
    λ x. elim x.1 [ ],
  )
  subsets_iff compute each (cons e es) ns h =
      let (n, p, rest) = >>=-eq-ok (compute e) _ h in
      let (others, q, last) = >>=-eq-ok (subsets_of compute es) _ rest in
      let below = subsets_iff compute each es others q in
      let here = each e n p in
      (
        λ m.
            elim (append_cases (gather start kind n)
              (subst (λ ns. Memᴰ a (gather_subsets start kind ns)) (sym (ok-injective last)) m)) [
                | inl x ↦ (e, first refl, here.0 x)
                | inr x ↦ let (c, y, z) = below.0 x in (c, later y, z)
              ],
        λ x.
            subst (λ ns. Memᴰ a (gather_subsets start kind ns)) (ok-injective last)
              (elim x.1 [
                | first same ↦
                    append_left (gather_subsets start kind others)
                      (here.1 (subst (IsExposed kind Local a) same x.2))
                | later y ↦ append_right (gather start kind n) (below.1 (x.0, y, x.2))
              ]),
      )

  pub gather_iff :
      (fuel : ℕ) (e : Expression) (n : AccessSetNode)
      → compute_access_set fuel e ≡ ok n
      → Memᴰ a (gather start kind n) ↔ IsExposed kind Local a e
  unfolding gather compute_access_set
  gather_iff zero e n h = cc h
  gather_iff (suc fuel) e n h = elim (compute_cases fuel e n h) [
    | inl (assigns, (reads, writes, same)) ↦
        let scoped = without_scoped_iff a kind e (start reads writes ++ []) in
        let here = agrees fuel e reads writes assigns (h ∙ ap ok same) in
        (
          λ m.
              elim (append_cases (start reads writes)
                (scoped.0 (subst (λ n. Memᴰ a (gather start kind n)) same m)).0) [
                  | inl x ↦ locally (here.0 x)
                  | inr x ↦ absurd (not-nil x)
                ],
          λ x.
              subst (λ n. Memᴰ a (gather start kind n)) (sym same)
                (scoped.1 (
                  append_left [] (
                      here.1 (elim x [
                        | locally y ↦ y
                        | within other p q v ↦ absurd (ground (arith, assigns, other))
                      ])),
                  not-IsHidden kind e a assigns,
                )),
        )
    | inr (other, (subsets, p, same)) ↦
        let scoped =
          without_scoped_iff a kind e (start [] [] ++ gather_subsets start kind subsets) in
        let below =
          subsets_iff (compute_access_set fuel) (gather_iff fuel) (sub_expressions e) subsets p in
        let all_found : start [] [] ++ gather_subsets start kind subsets
            ≡ gather_subsets start kind subsets =
          ap (λ xs. xs ++ gather_subsets start kind subsets) starts_empty in
        (
          λ m.
              let (x, visible) = scoped.0 (subst (λ n. Memᴰ a (gather start kind n)) same m) in
              let (c, y, z) = below.0 (subst (Memᴰ a) all_found x) in within other y z visible,
          λ x.
              subst (λ n. Memᴰ a (gather start kind n)) (sym same)
                (scoped.1 (elim x [
                  | locally y ↦ absurd (ground (arith, only_assignments e y, other))
                  | within _ y z visible ↦
                      (subst (Memᴰ a) (sym all_found) (below.1 (_, y, z)), visible)
                ])),
        )
  ]
