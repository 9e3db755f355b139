-- ===== src/Analysis/Invariants/Modification.antt =====
-- What the search of qubus/src/task_invariants_analysis.cpp for modifications of an object finds.
use qubus.Base.{
  ℕ, zero, suc, ◌<◌, ◌≤◌, Bool, true, false, not, ◌||◌, ◌≡◌, refl, ap, ◌∙◌, ◌⊎◌, inl, inr, ◌↔◌,
  arith,
}
use qubus.Base.Results.{Result, ok, >>=-eq-ok, ok-injective}
use qubus.Ir.Expressions.{
  Expression, Expressions, BinaryOpTag, ExecutionOrder, Variable, variable_ref, binary_operator,
  for_loop, nil, cons,
}
use qubus.Ir.Expressions.Children.{sub_expressions}
use qubus.Ir.Expressions.Depth.{depth, depth_all, depth_all-sub_expressions-lt}
use qubus.Analysis.Invariants.{
  is_affected_by, modifies_here, any_of, for_each, is_referencing_invariant_object,
}

abbrev pub IsChild : Expression → Expressions → Type 0
IsChild c nil = ⊥
IsChild c (cons e es) = (c ≡ e) ⊎ IsChild c es

-- The target of an assignment or the index of a loop, at any depth.
pub data IsModifiedIn : Expression → Expression → Type 0 where
  assigned : (l r : Expression) → IsModifiedIn l (binary_operator BinaryOpTag.assign l r)
  increased : (l r : Expression) → IsModifiedIn l (binary_operator BinaryOpTag.plus_assign l r)
  counted :
      (o : ExecutionOrder) (v : Variable) (l u i b : Expression)
      → IsModifiedIn (variable_ref v) (for_loop o v l u i b)
  inside :
      (m c e : Expression) → IsChild c (sub_expressions e) → IsModifiedIn m c → IsModifiedIn m e

depth-child : (c : Expression) (es : Expressions) → IsChild c es → depth c ≤ depth_all es
unfolding depth
depth-child c (cons e es) (inl same) = omega (arith, ap depth same)
depth-child c (cons e es) (inr later) = omega (arith, depth-child c es later)
depth-child c nil child = absurd child

module _ (obj : Expression) where
  abbrev pub IsUntouchedBy : Expression → Type 0
  IsUntouchedBy e = (m : Expression) → IsModifiedIn m e → is_affected_by obj m ≡ ok false

  or_false : (a b : Bool) → (a || b) ≡ false → (a ≡ false) × (b ≡ false)
  or_false a b h = ground (arith, h)

  untouched_here : (e : Expression) → IsUntouchedBy e → modifies_here obj e ≡ ok false
  unfolding modifies_here
  untouched_here (binary_operator BinaryOpTag.assign l r) h = h l (assigned l r)
  untouched_here (binary_operator BinaryOpTag.plus_assign l r) h = h l (increased l r)
  untouched_here (for_loop o v l u i b) h = h (variable_ref v) (counted o v l u i b)
  untouched_here _ h = refl

  any_of-false :
      (test : Expression → Result Bool) (es : Expressions)
      → any_of test es ≡ ok false
      → (c : Expression) → IsChild c es
      → test c ≡ ok false
  unfolding any_of
  any_of-false test (cons e es) h c (inl same) =
      let (first, p, h₁) = >>=-eq-ok (test e) _ h in
      let (rest, q, h₂) = >>=-eq-ok (any_of test es) _ h₁ in
      ap test same ∙ p ∙ ap ok (or_false first rest (ok-injective h₂)).0
  any_of-false test (cons e es) h c (inr later) =
      let (first, p, h₁) = >>=-eq-ok (test e) _ h in
      let (rest, q, h₂) = >>=-eq-ok (any_of test es) _ h₁ in
      any_of-false test es (q ∙ ap ok (or_false first rest (ok-injective h₂)).1) c later
  any_of-false test nil h c child = absurd child

  all_false-any_of :
      (test : Expression → Result Bool) (es : Expressions)
      → ((c : Expression) → IsChild c es → test c ≡ ok false)
      → any_of test es ≡ ok false
  unfolding any_of
  all_false-any_of test nil h = refl
  all_false-any_of test (cons e es) h =
      rw (h e (inl refl), all_false-any_of test es (λ c child. h c (inr child))) refl

  found_in :
      (search : Expression → Result Bool) (m e : Expression)
      → modifies_here obj e ≡ ok false
      → ((c : Expression) → IsChild c (sub_expressions e) → search c ≡ ok false)
      → ((c : Expression) → search c ≡ ok false → IsUntouchedBy c)
      → IsModifiedIn m e
      → is_affected_by obj m ≡ ok false
  unfolding modifies_here
  found_in search m e p q deeper (assigned l r) = p
  found_in search m e p q deeper (increased l r) = p
  found_in search m e p q deeper (counted o v l u i b) = p
  found_in search m e p q deeper (inside n c f child rest) = deeper c (q c child) n rest

  for_each-false :
      (fuel : ℕ) (e : Expression) → for_each fuel (modifies_here obj) e ≡ ok false → IsUntouchedBy e
  unfolding for_each
  for_each-false zero e h m found = cc h
  for_each-false (suc fuel) e h m found =
      let (here, p, h₁) = >>=-eq-ok (modifies_here obj e) _ h in
      let (below, q, h₂) =
        >>=-eq-ok (any_of (for_each fuel (modifies_here obj)) (sub_expressions e)) _ h₁ in
      let (here_not, below_not) = or_false here below (ok-injective h₂) in
      found_in (for_each fuel (modifies_here obj)) m e (p ∙ ap ok here_not)
        (any_of-false _ _ (q ∙ ap ok below_not)) (λ c n. for_each-false fuel c n) found

  pub untouched-for_each :
      (fuel : ℕ) (e : Expression)
      → depth e < fuel
      → IsUntouchedBy e
      → for_each fuel (modifies_here obj) e ≡ ok false
  unfolding for_each
  untouched-for_each zero e enough h = absurd (omega arith)
  untouched-for_each (suc fuel) e enough h =
      rw
        (
          untouched_here e h,
          all_false-any_of (for_each fuel (modifies_here obj)) (sub_expressions e) λ c child.
              untouched-for_each fuel c
                (omega (
                  arith,
                  depth-child c (sub_expressions e) child,
                  depth_all-sub_expressions-lt e,
                  enough,
                ))
                λ m found. h m (inside m c e child found),
        )
        refl

  -- The object is invariant if and only if nothing that the context modifies can alias it.
  pub is_referencing_invariant_object_iff :
      (context : Expression)
      → (is_referencing_invariant_object obj context ≡ ok true) ↔ IsUntouchedBy context
  unfolding is_referencing_invariant_object
  is_referencing_invariant_object_iff context = (
    λ h.
        let (modified, p, q) =
          >>=-eq-ok (for_each (suc (depth context)) (modifies_here obj) context) _ h in
        for_each-false (suc (depth context)) context
          (p ∙ ap ok (not_true modified (ok-injective q))),
    λ h. rw (untouched-for_each (suc (depth context)) context (omega arith) h) refl,
  )
    where
      not_true : (b : Bool) → not b ≡ true → b ≡ false
      not_true b h = ground (arith, h)
