-- ===== src/Analysis/Accesses/Regions.antt =====
-- The reads and the writes of a region.
use qubus.Base.{
  ℕ, suc, true, List, [], ◌∷◌, ◌++◌, ◌≡◌, refl, sym, ap, ◌∙◌, subst, arith, ◌⊎◌, inl, inr, ◌↔◌,
}
use mathlib.Core.List.{Memᴰ}
use mathlib.Core.List.Memᴰ.{append_left, append_right, append_cases, eq_of_singleton, not-nil}
use qubus.Base.Results.{ok, >>=-eq-ok, ok-injective}
use qubus.Ir.Expressions.{
  Expression, Expressions, double_literal, binary_operator, nil, cons, assign, plus_assign,
}
use qubus.Analysis.Alias.{Access, decompose_access}
use qubus.Analysis.Accesses.{
  AccessKind, AccessSetNode, access_set_node, no_subsets, local_reads, local_writes,
  get_read_accesses, get_write_accesses, compute_access_set, analyze_access, get_accesses,
  get_accesses_all, AccessInfo, other_children,
}
use qubus.Analysis.Accesses.Stack.{
  indices, other_children_of_access, IsIn, first, later, IsAccessed, get_accesses_iff,
}
use qubus.Analysis.Accesses.Hiding.{is_assignment}
use qubus.Analysis.Accesses.Scopes.{IsExposed, gather_iff}

abbrev AccessedIn : Access → Expressions → Type 0
AccessedIn a es = (c : Expression) × IsIn c es × IsAccessed a c

-- The left-hand side of an assignment.
abbrev pub IsWrittenBy : Expression → Access → Type 0
IsWrittenBy (binary_operator assign l r) a = decompose_access l ≡ ok a
IsWrittenBy (binary_operator plus_assign l r) a = decompose_access l ≡ ok a
IsWrittenBy _ a = ⊥

-- The right-hand side, the indices on the left, and, if it is added to, the left-hand side.
abbrev pub IsReadBy : Expression → Access → Type 0
IsReadBy (binary_operator assign l r) a = IsAccessed a r ⊎ AccessedIn a (indices l)
IsReadBy (binary_operator plus_assign l r) a =
    (IsAccessed a r ⊎ AccessedIn a (indices l)) ⊎ (decompose_access l ≡ ok a)
IsReadBy _ a = ⊥

get_accesses_all_iff :
    (es : Expressions) (found : List Access) (a : Access)
    → get_accesses_all es ≡ ok found
    → Memᴰ a found ↔ AccessedIn a es
unfolding get_accesses_all
get_accesses_all_iff nil found a h =
    (λ m. absurd (not-nil (subst (Memᴰ a) (sym (ok-injective h)) m)), λ x. elim x.1 [ ])
get_accesses_all_iff (cons e es) found a h =
    let (own, p, rest) = >>=-eq-ok (get_accesses e) _ h in
    let (others, q, last) = >>=-eq-ok (get_accesses_all es) _ rest in
    let here = get_accesses_iff e own a p in
    let below = get_accesses_all_iff es others a q in
    (
      λ m. elim (append_cases own (subst (Memᴰ a) (sym (ok-injective last)) m)) [
        | inl x ↦ (e, first refl, here.0 x)
        | inr x ↦ let (c, y, z) = below.0 x in (c, later y, z)
      ],
      λ x. subst (Memᴰ a) (ok-injective last) (elim x.1 [
        | first same ↦ append_left others (here.1 (subst (IsAccessed a) same x.2))
        | later y ↦ append_right own (below.1 (x.0, y, x.2))
      ]),
    )

analyze_access_parts :
    (l : Expression) (info : AccessInfo)
    → analyze_access l ≡ ok info
    → (decompose_access l ≡ ok info.direct_access)
      × (get_accesses_all (other_children l) ≡ ok info.indirect_accesses)
unfolding analyze_access
analyze_access_parts l info h =
    let (direct, p, rest) = >>=-eq-ok (decompose_access l) _ h in
    let (indirect, q, last) = >>=-eq-ok (get_accesses_all (other_children l)) _ rest in
    let same = ok-injective last in
    (p ∙ ap (λ i. ok i.direct_access) same, q ∙ ap (λ i. ok i.indirect_accesses) same)

abbrev writes_of : AccessSetNode → List Access
writes_of (access_set_node e reads writes ns) = writes

abbrev reads_of : AccessSetNode → List Access
reads_of (access_set_node e reads writes ns) = reads

module _ (a : Access) where
  single_iff :
      (l : Expression) (info : AccessInfo)
      → analyze_access l ≡ ok info
      → Memᴰ a (info.direct_access ∷ []) ↔ (decompose_access l ≡ ok a)
  single_iff l info h =
      let (p, q) = analyze_access_parts l info h in
      (λ m. p ∙ ap ok (sym (eq_of_singleton m)), λ d. Memᴰ.head (ok-injective (sym d ∙ p)))

  operands_iff :
      (l r : Expression) (info : AccessInfo) (reads : List Access)
      → analyze_access l ≡ ok info
      → get_accesses r ≡ ok reads
      → Memᴰ a (reads ++ info.indirect_accesses) ↔ (IsAccessed a r ⊎ AccessedIn a (indices l))
  operands_iff l r info reads h k =
      let (p, q) = analyze_access_parts l info h in
      let right = get_accesses_iff r reads a k in
      let found = get_accesses_all_iff (other_children l) info.indirect_accesses a q in
      let same = λ (c : Expression). other_children_of_access l c info.direct_access p in
      let left : Memᴰ a info.indirect_accesses ↔ AccessedIn a (indices l) = (
        λ m. let (c, y, z) = found.0 m in (c, (same c).0 y, z),
        λ x. found.1 (x.0, (same x.0).1 x.1, x.2),
      ) in
      (
        λ m. elim (append_cases reads m) [ inl x ↦ inl (right.0 x) | inr x ↦ inr (left.0 x) ],
        λ x. elim x [
          | inl y ↦ append_left info.indirect_accesses (right.1 y)
          | inr y ↦ append_right reads (left.1 y)
        ],
      )

  written_agrees :
      (fuel : ℕ) (e : Expression) (reads writes : List Access)
      → is_assignment e ≡ true
      → compute_access_set (suc fuel) e ≡ ok (access_set_node e reads writes no_subsets)
      → Memᴰ a (local_writes reads writes) ↔ IsWrittenBy e a
  unfolding compute_access_set
  written_agrees fuel (binary_operator assign l r) reads writes assigns h =
      let (info, p, rest) = >>=-eq-ok (analyze_access l) _ h in
      let (found, q, last) = >>=-eq-ok (get_accesses r) _ rest in
      subst (λ xs. Memᴰ a xs ↔ (decompose_access l ≡ ok a)) (ap writes_of (ok-injective last))
        (single_iff l info p)
  written_agrees fuel (binary_operator plus_assign l r) reads writes assigns h =
      let (info, p, rest) = >>=-eq-ok (analyze_access l) _ h in
      let (found, q, last) = >>=-eq-ok (get_accesses r) _ rest in
      subst (λ xs. Memᴰ a xs ↔ (decompose_access l ≡ ok a)) (ap writes_of (ok-injective last))
        (single_iff l info p)
  written_agrees fuel (double_literal x) reads writes assigns h = absurd (ground arith)
  written_agrees fuel _ reads writes assigns h = absurd (ground arith)

  read_agrees :
      (fuel : ℕ) (e : Expression) (reads writes : List Access)
      → is_assignment e ≡ true
      → compute_access_set (suc fuel) e ≡ ok (access_set_node e reads writes no_subsets)
      → Memᴰ a (local_reads reads writes) ↔ IsReadBy e a
  unfolding compute_access_set
  read_agrees fuel (binary_operator assign l r) reads writes assigns h =
      let (info, p, rest) = >>=-eq-ok (analyze_access l) _ h in
      let (found, q, last) = >>=-eq-ok (get_accesses r) _ rest in
      subst (λ xs. Memᴰ a xs ↔ (IsAccessed a r ⊎ AccessedIn a (indices l)))
        (ap reads_of (ok-injective last)) (operands_iff l r info found p q)
  read_agrees fuel (binary_operator plus_assign l r) reads writes assigns h =
      let (info, p, rest) = >>=-eq-ok (analyze_access l) _ h in
      let (found, q, last) = >>=-eq-ok (get_accesses r) _ rest in
      let operands = operands_iff l r info found p q in
      let target = single_iff l info p in
      subst (λ xs. Memᴰ a xs ↔ IsReadBy (binary_operator plus_assign l r) a)
        (ap reads_of (ok-injective last))
        (
          λ m. elim (append_cases (found ++ info.indirect_accesses) m) [
            | inl x ↦ inl (operands.0 x)
            | inr x ↦ inr (target.0 x)
          ],
          λ x. elim x [
            | inl y ↦ append_left (info.direct_access ∷ []) (operands.1 y)
            | inr y ↦ append_right (found ++ info.indirect_accesses) (target.1 y)
          ],
        )
  read_agrees fuel (double_literal x) reads writes assigns h = absurd (ground arith)
  read_agrees fuel _ reads writes assigns h = absurd (ground arith)

  writes_assign : (e : Expression) → IsWrittenBy e a → is_assignment e ≡ true
  writes_assign (double_literal x) h = absurd h
  writes_assign (binary_operator assign l r) h = refl
  writes_assign (binary_operator plus_assign l r) h = refl
  writes_assign _ h = absurd h

  reads_assign : (e : Expression) → IsReadBy e a → is_assignment e ≡ true
  reads_assign (double_literal x) h = absurd h
  reads_assign (binary_operator assign l r) h = refl
  reads_assign (binary_operator plus_assign l r) h = refl
  reads_assign _ h = absurd h

-- A computed access set reports as written exactly the left-hand sides of the assignments of the
-- expression, at any depth; from outside, less those whose variable is the index of a loop around
-- the assignment.
pub get_write_accesses_iff :
    (kind : AccessKind) (fuel : ℕ) (e : Expression) (n : AccessSetNode) (a : Access)
    → compute_access_set fuel e ≡ ok n
    → Memᴰ a (get_write_accesses kind n) ↔ IsExposed kind IsWrittenBy a e
get_write_accesses_iff kind fuel e n a h =
    gather_iff local_writes IsWrittenBy kind a refl (writes_assign a) (written_agrees a) fuel e n h

-- A computed access set reports as read exactly what the assignments of the expression, at any
-- depth, access on the right and in the indices on the left, and the left-hand sides that are added
-- to; from outside, less those whose variable is the index of a loop around the assignment.
pub get_read_accesses_iff :
    (kind : AccessKind) (fuel : ℕ) (e : Expression) (n : AccessSetNode) (a : Access)
    → compute_access_set fuel e ≡ ok n
    → Memᴰ a (get_read_accesses kind n) ↔ IsExposed kind IsReadBy a e
get_read_accesses_iff kind fuel e n a h =
    gather_iff local_reads IsReadBy kind a refl (reads_assign a) (read_agrees a) fuel e n h
