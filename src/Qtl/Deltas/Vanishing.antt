-- ===== src/Qtl/Deltas/Vanishing.antt =====
-- The bubbles that qubus/src/qtl/kronecker_delta_folding_pass.cpp collects: where the two indices of
-- one differ, the expression is zero.
use qubus.Base.{
  ℕ, zero, suc, ==_iff, Bool, true, false, not, ◌&&◌, ◌||◌, ltb, &&_parts, List, [], ◌∷◌, ◌++◌, All,
  ◌≡◌, ◌≢◌, refl, sym, ap, ap₂, ◌∙◌, arith, inl, inr, Bool-cases,
}
use qubus.Ir.Expressions.{Variable, BinaryOpTag, same_variable}
use qubus.Qtl.Expressions.{
  QtlExpression, variable_ref, binary_operator, kronecker_delta, sum, is_index,
}
use qubus.Qtl.Meaning.{Scalars, HasDeltas, Indices, update, nought, sum_to, sum_over, eval}
use qubus.Qtl.Deltas.{
  Bubble, make_bubble, mentions, same_bubble, remove_mentioning, remove_all, has_bubble, common,
  delta_bubble, collect_bubbles,
}

pub All_map {ℓ κ} :
    {A : Type ℓ} {P Q : A → Type κ} (xs : List A) → ((a : A) → P a → Q a) → All P xs → All Q xs
All_map [] f h = tt
All_map (x ∷ xs) f h = (f x h.0, All_map xs f h.1)

pub All_join {ℓ κ} :
    {A : Type ℓ} (P : A → Type κ) (xs ys : List A) → All P xs → All P ys → All P (xs ++ ys)
All_join P [] ys h k = k
All_join P (x ∷ xs) ys h k = (h.0, All_join P xs ys h.1 k)

-- No index of the list is in the bubble.
abbrev pub IsFree : List Variable → Bubble → Type 0
IsFree is p = All (λ i. mentions i p ≡ false) is

remove_mentioning-All :
    (i : Variable) (Q : Bubble → Type 0) (ps : List Bubble)
    → All (λ p. mentions i p ≡ false → Q p) ps
    → All Q (remove_mentioning i ps)
unfolding remove_mentioning
remove_mentioning-All i Q [] h = tt
remove_mentioning-All i Q (p ∷ ps) h = elim (Bool-cases (mentions i p)) [
  | inl e ↦ rw e (remove_mentioning-All i Q ps h.1)
  | inr e ↦ rw e (h.0 e, remove_mentioning-All i Q ps h.1)
]

pub remove_all-All :
    (is : List Variable) (Q : Bubble → Type 0) (ps : List Bubble)
    → All (λ p. IsFree is p → Q p) ps
    → All Q (remove_all is ps)
unfolding remove_all
remove_all-All [] Q ps h = All_map ps (λ p f. f tt) h
remove_all-All (i ∷ is) Q ps h =
    remove_all-All is Q (remove_mentioning i ps)
      (remove_mentioning-All i (λ p. IsFree is p → Q p) ps (All_map ps (λ p f e g. f (e, g)) h))

has_bubble-All :
    (p : Bubble) (P Q : Bubble → Type 0) (qs : List Bubble)
    → ((q : Bubble) → same_bubble q p ≡ true → P q → Q p)
    → All P qs
    → has_bubble p qs ≡ true
    → Q p
unfolding has_bubble
has_bubble-All p P Q [] f h e = cc
has_bubble-All p P Q (q ∷ qs) f h e = elim (Bool-cases (same_bubble q p)) [
  | inl s ↦ f q s h.0
  | inr s ↦ has_bubble-All p P Q qs f h.1 (rw s at e)
]

pub common-All :
    (P P' Q : Bubble → Type 0) (ps qs : List Bubble)
    → ((p q : Bubble) → same_bubble q p ≡ true → P p → P' q → Q p)
    → All P ps
    → All P' qs
    → All Q (common ps qs)
unfolding common
common-All P P' Q [] qs f h k = tt
common-All P P' Q (p ∷ ps) qs f h k =
    let rest = common-All P P' Q ps qs f h.1 k in
    elim (Bool-cases (has_bubble p qs)) [
      | inl e ↦ rw e (has_bubble-All p P' Q qs (λ q s. f p q s h.0) k e, rest)
      | inr e ↦ rw e rest
    ]

module _ {s : Scalars} (laws : HasDeltas s) (extent : Indices) where
  -- Where the two indices differ the expression is zero.
  abbrev pub Vanishes : QtlExpression → Bubble → Type 0
  Vanishes e (v, w) = (ρ : Indices) → ρ v.id ≢ ρ w.id → eval s extent e ρ ≡ nought s

  pub sum_to-nought : (n : ℕ) (f : ℕ → s.V) → ((k : ℕ) → f k ≡ nought s) → sum_to s n f ≡ nought s
  unfolding sum_to
  sum_to-nought zero f h = refl
  sum_to-nought (suc n) f h =
      ap₂ (s.binary BinaryOpTag.plus) (sum_to-nought n f h) (h n) ∙ laws.nought_plus (nought s)

  sum_over-nought :
      (is : List Variable) (v w : Variable) (f : Indices → s.V) (ρ : Indices)
      → IsFree is (v, w)
      → ((ρ : Indices) → ρ v.id ≢ ρ w.id → f ρ ≡ nought s)
      → ρ v.id ≢ ρ w.id
      → sum_over s extent is f ρ ≡ nought s
  unfolding sum_over
  sum_over-nought [] v w f ρ h z d = z ρ d
  sum_over-nought (i ∷ is) v w f ρ h z d =
      sum_to-nought (extent i.id) _
        (λ k. sum_over-nought is v w f (update ρ i.id k) h.1 z (still k))
    where
      both_other : (a b : Bool) → (a || b) ≡ false → (a ≡ false) × (b ≡ false)
      both_other a b e = ground arith

      still : (k : ℕ) → update ρ i.id k v.id ≢ update ρ i.id k w.id
      still k = let (p, q) = both_other (same_variable i v) (same_variable i w) h.0 in rw (p, q) d

  make_bubble-Vanishes :
      (e : QtlExpression) (i j : Variable) → Vanishes e (i, j) → Vanishes e (make_bubble i j)
  make_bubble-Vanishes e i j h = elim (Bool-cases (ltb i.id j.id)) [
    | inl p ↦ rw p h
    | inr p ↦ rw p (λ ρ d. h ρ (λ g. d (sym g)))
  ]

  pub eval-variable_ref :
      (v : Variable) (ρ : Indices)
      → is_index v ≡ true
      → eval s extent (variable_ref v) ρ ≡ s.position (ρ v.id)
  unfolding eval
  eval-variable_ref v ρ h = rw h refl

  delta_bubble-All :
      (n : ℕ) (l r : QtlExpression) → All (Vanishes (kronecker_delta n l r)) (delta_bubble l r)
  unfolding eval
  delta_bubble-All n (variable_ref i) (variable_ref j) =
      elim (Bool-cases (is_index i && is_index j && not (same_variable i j))) [
        | inl p ↦
            let indices = (&&_parts (is_index i && is_index j) (not (same_variable i j)) p).0 in
            let (first, second) = &&_parts (is_index i) (is_index j) indices in
            rw p (
              make_bubble-Vanishes (kronecker_delta n (variable_ref i) (variable_ref j)) i j (λ ρ d.
                  ap₂ (s.delta n) (eval-variable_ref i ρ first) (eval-variable_ref j ρ second)
                  ∙ laws.other_delta n (ρ i.id) (ρ j.id) d),
              tt,
            )
        | inr p ↦ rw p tt
      ]
  delta_bubble-All n _ _ = tt

  same_bubble-Vanishes :
      (e : QtlExpression) (p q : Bubble) → same_bubble q p ≡ true → Vanishes e q → Vanishes e p
  same_bubble-Vanishes e (a, b) (c, d) h z =
      let (first, second) = &&_parts (same_variable c a) (same_variable d b) h in
      let ids : c.id ≡ a.id = (==_iff c.id a.id).0 first in
      let ids' : d.id ≡ b.id = (==_iff d.id b.id).0 second in
      λ ρ apart. z ρ (λ g. apart (ap ρ (sym ids) ∙ g ∙ ap ρ ids'))

  -- What holds of the bubbles at hand and of each bubble of the expression holds of what is collected.
  pub collect_bubbles-All :
      (e : QtlExpression) (Q : Bubble → Type 0) (ps : List Bubble)
      → ((p : Bubble) → Vanishes e p → Q p)
      → All Q ps
      → All Q (collect_bubbles e ps)
  unfolding collect_bubbles eval
  collect_bubbles-All (sum is a) Q ps f h = remove_all-All is Q (collect_bubbles a ps) (
      collect_bubbles-All a (λ p. IsFree is p → Q p) ps
        (λ (v, w) z free. f (v, w) (λ ρ d. sum_over-nought is v w (eval s extent a) ρ free z d))
        (All_map ps (λ p q free. q) h))
  collect_bubbles-All (binary_operator BinaryOpTag.plus a b) Q ps f h = All_join Q ps _ h (
      common-All (Vanishes a) (Vanishes b) Q _ _
        (λ (p : Bubble) q e z z'. f p (λ ρ d.
          ap₂ (s.binary BinaryOpTag.plus) (z ρ d) (same_bubble-Vanishes b p q e z' ρ d)
          ∙ laws.nought_plus (nought s)))
        (collect_bubbles-All a (Vanishes a) [] (λ p z. z) tt)
        (collect_bubbles-All b (Vanishes b) [] (λ p z. z) tt))
  collect_bubbles-All (binary_operator BinaryOpTag.minus a b) Q ps f h = All_join Q ps _ h (
      common-All (Vanishes a) (Vanishes b) Q _ _
        (λ (p : Bubble) q e z z'. f p (λ ρ d.
          ap₂ (s.binary BinaryOpTag.minus) (z ρ d) (same_bubble-Vanishes b p q e z' ρ d)
          ∙ laws.minus_nought))
        (collect_bubbles-All a (Vanishes a) [] (λ p z. z) tt)
        (collect_bubbles-All b (Vanishes b) [] (λ p z. z) tt))
  collect_bubbles-All (binary_operator BinaryOpTag.divides a b) Q ps f h =
      collect_bubbles-All a Q ps
        (λ p z. f p (λ ρ d.
          ap (λ x. s.binary BinaryOpTag.divides x (eval s extent b ρ)) (z ρ d)
          ∙ laws.nought_divided _))
        h
  collect_bubbles-All (binary_operator BinaryOpTag.multiplies a b) Q ps f h =
      collect_bubbles-All b Q (collect_bubbles a ps)
        (λ p z. f p (λ ρ d.
          ap (s.binary BinaryOpTag.multiplies (eval s extent a ρ)) (z ρ d) ∙ laws.times_nought _))
        (collect_bubbles-All a Q ps
          (λ p z. f p (λ ρ d.
            ap (λ x. s.binary BinaryOpTag.multiplies x (eval s extent b ρ)) (z ρ d)
            ∙ laws.nought_times _))
          h)
  collect_bubbles-All (kronecker_delta n l r) Q ps f h =
      All_join Q ps (delta_bubble l r) h (All_map (delta_bubble l r) f (delta_bubble-All n l r))
  collect_bubbles-All _ Q ps f h = h
