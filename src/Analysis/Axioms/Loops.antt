-- ===== src/Analysis/Axioms/Loops.antt =====
-- The axioms of a loop hold at each of its iterations.
use qubus.Base.{
  ℕ, suc, ◌+◌, ◌-◌, ◌*◌, ◌%◌, ◌<◌, ◌≤◌, ◌≡◌, refl, sym, subst, ◌∙◌, ap, arith, List, All, Bool,
  true, false, if◌then◌else◌,
}
use qubus.Base.Int.{ℤ, pos, pos_part, neg_part, ◌+ℤ◌, ◌-ℤ◌, ◌<ℤ◌, ◌≤ℤ◌, quot, rem, eqb_ℤ, int_laws}
use qubus.Base.Results.{Result, ok, fail, ◌>>=◌, >>=-eq-ok}
use qubus.Ir.Expressions.{Expression, Variable, variable_ref, integer_literal}
use qubus.Ir.Expressions.Depth.{depth}
use qubus.Ir.Semantics.{Env, int, truth, eval, apply_binary, in_range}
use qubus.Ir.Folding.{fold_constant_expressions}
use qubus.Ir.Folding.Soundness.{meaning, fold_meaning}
use qubus.Analysis.Axioms.{
  less, greater_equal, equal_to, minus, modulus, last_bound, upper_bound_axiom, body_axioms,
}
use native.Mathlib.Nat.{div-add-mod, mod-lt, div-le_self, mod-le, add-mul-mod_self_right, zero-mod}

-- The axiom is true in the environment.
abbrev pub Holds : Env → Expression → Type 0
Holds env e = meaning env e ≡ ok (truth true)

abbrev Means : Env → Expression → ℤ → Type 0
Means env e z = meaning env e ≡ ok (int z)

-- How the operators of the axioms evaluate.
module _ (env : Env) (a b : Expression) (x y : ℤ) (p : Means env a x) (q : Means env b y) where
  Holds-less : x <ℤ y → Holds env (less a b)
  unfolding eval apply_binary
  Holds-less h = rw (p, q) (ground arith)

  Holds-greater_equal : y ≤ℤ x → Holds env (greater_equal a b)
  unfolding eval apply_binary
  Holds-greater_equal h = rw (p, q) (ground arith)

  Holds-equal_to : x ≡ y → Holds env (equal_to a b)
  unfolding eval apply_binary
  Holds-equal_to h = rw (p, q) (ground arith)

  Means-minus : in_range (x -ℤ y) ≡ true → Means env (minus a b) (x -ℤ y)
  unfolding eval apply_binary
  Means-minus h = rw (p, q) (ground arith)

Means-modulus :
    (env : Env) (a b : Expression) (d s : ℕ)
    → Means env a (pos d)
    → Means env b (pos s)
    → in_range (pos d) ≡ true
    → 0 < s
    → Means env (modulus a b) (pos (d % s))
unfolding eval apply_binary quot rem
Means-modulus env a b d s p q h l = rw (p, q) (ground (arith, div-le_self d s, mod-le d s))

Means-literal : (env : Env) (z : ℤ) → Means env (integer_literal z) z
unfolding eval
Means-literal env z = refl

ok-injective {ℓ} : {A : Type ℓ} {a b : A} → ok a ≡ ok b → a ≡ b
ok-injective h = cc

in_range_between :
    (l x u : ℤ) → in_range l ≡ true → in_range u ≡ true → l ≤ℤ x → x ≤ℤ u → in_range x ≡ true
in_range_between l x u hl hu p q = ground arith

in_range_below : (m n : ℕ) → in_range (pos n) ≡ true → m ≤ n → in_range (pos m) ≡ true
in_range_below m n h l = ground arith

-- The last multiple of the stride below the length of the range.
multiple_le : (k s d : ℕ) → 0 < s → k * s ≤ d → k * s + d % s ≤ d
multiple_le k s d p h = grind (arith, div-add-mod d s, mod-lt d p)

multiple_mod : (k s : ℕ) → (k * s) % s ≡ 0
multiple_mod k s =
    let e : k * s ≡ 0 + k * s = omega arith in
    ap (λ t. t % s) e ∙ add-mul-mod_self_right 0 k s ∙ zero-mod s

module _ (env : Env) (idx : Variable) (lower upper increment : Expression) (l u i : ℤ) (s k : ℕ)
    (index_is : env idx ≡ ok (int i)) (lower_is : Means env lower l) (upper_is : Means env upper u)
    (increment_is : Means env increment (pos s)) (l_fits : in_range l ≡ true)
    (u_fits : in_range u ≡ true) (length_fits : in_range (u -ℤ l) ≡ true) (positive : 0 < s)
    (iterate : i ≡ l +ℤ pos (k * s)) (inside : i <ℤ u) where
  Means-index : Means env (variable_ref idx) i
  unfolding eval
  Means-index = index_is

  -- u - l - 1.
  last : ℕ
  last = pos_part u + neg_part l - (pos_part l + neg_part u) - 1

  length_is : u -ℤ l ≡ pos (suc last)
  unfolding last
  length_is = omega (int_laws, ap pos_part iterate, ap neg_part iterate)

  last_is : (u -ℤ l) -ℤ pos 1 ≡ pos last
  last_is = omega (int_laws, ap pos_part length_is, ap neg_part length_is)

  offset_is : i -ℤ l ≡ pos (k * s)
  offset_is = omega (int_laws, ap pos_part iterate, ap neg_part iterate)

  offset-le-last : k * s ≤ last
  unfolding last
  offset-le-last = omega (int_laws, ap pos_part iterate, ap neg_part iterate)

  -- The bound of a strided loop: one past the last iteration.
  bound : ℤ
  bound = u -ℤ pos (last % s)

  last_fits : in_range (pos (suc last)) ≡ true
  last_fits = subst (λ z. in_range z ≡ true) length_is length_fits

  bound_fits : in_range bound ≡ true
  unfolding bound
  bound_fits =
      in_range_between l bound u l_fits u_fits
        (omega (int_laws, ap pos_part length_is, ap neg_part length_is, mod-le last s))
        (omega int_laws)

  Means-last_bound : Means env (last_bound lower upper increment) bound
  unfolding bound
  Means-last_bound =
      let whole = Means-minus env upper lower u l upper_is lower_is length_fits in
      let shorter = subst (Means env _) last_is (
        Means-minus env (minus upper lower) (integer_literal (pos 1)) (u -ℤ l) (pos 1) whole
          (Means-literal env (pos 1))
          (subst (λ z. in_range z ≡ true) (sym last_is)
            (in_range_below last (suc last) last_fits (omega arith)))) in
      Means-minus env upper _ u (pos (last % s)) upper_is
        (Means-modulus env _ increment last s shorter increment_is
          (in_range_below last (suc last) last_fits (omega arith)) positive)
        bound_fits

  index-lt-bound : i <ℤ bound
  unfolding bound
  index-lt-bound = omega (
    int_laws,
    ap pos_part iterate,
    ap neg_part iterate,
    ap pos_part length_is,
    ap neg_part length_is,
    multiple_le k s last positive offset-le-last,
  )

  Holds-below : Holds env (less (variable_ref idx) upper)
  Holds-below = Holds-less env (variable_ref idx) upper i u Means-index upper_is inside

  Holds-stride :
      Holds env
        (equal_to (modulus (minus (variable_ref idx) lower) increment) (integer_literal (pos 0)))
  Holds-stride =
      let fits = in_range_below (k * s) (suc last) last_fits (omega (arith, offset-le-last)) in
      let offset = subst (Means env _) offset_is (
        Means-minus env (variable_ref idx) lower i l Means-index lower_is
          (subst (λ z. in_range z ≡ true) (sym offset_is) fits)) in
      Holds-equal_to env _ (integer_literal (pos 0)) (pos ((k * s) % s)) (pos 0)
        (Means-modulus env _ increment (k * s) s offset increment_is fits positive)
        (Means-literal env (pos 0)) (ap pos (multiple_mod k s))

  Holds-choice :
      (b : Bool) (r : Result Expression) (result : Expression)
      → ((e : Expression) → r ≡ ok e → Holds env (less (variable_ref idx) e))
      → (if b
          then ok (less (variable_ref idx) upper)
          else (r >>= λ folded. ok (less (variable_ref idx) folded)))
        ≡ ok result
      → Holds env result
  Holds-choice true r result folded h = subst (Holds env) (ok-injective h) Holds-below
  Holds-choice false (ok e) result folded h = subst (Holds env) (ok-injective h) (folded e refl)
  Holds-choice false (fail x) result folded h = cc h

  Holds-upper :
      (step result : Expression)
      → step ≡ increment
      → upper_bound_axiom idx lower upper step ≡ ok result
      → Holds env result
  unfolding upper_bound_axiom
  Holds-upper (integer_literal z) result same h =
      let tightened = last_bound lower upper (integer_literal z) in
      let is_bound =
        subst (λ e. Means env (last_bound lower upper e) bound) (sym same) Means-last_bound in
      Holds-choice (eqb_ℤ z (pos 1)) (fold_constant_expressions (suc (depth tightened)) tightened)
        result
        (λ e p.
          Holds-less env (variable_ref idx) e i bound Means-index
            (fold_meaning env (suc (depth tightened)) tightened e p ∙ is_bound) index-lt-bound)
        h
  Holds-upper _ result same h = subst (Holds env) (ok-injective h) Holds-below

  -- The four axioms of a loop (the bounds, the stride, and that the range is not empty) hold at the
  -- iteration `lower + k * increment` below the upper bound, where the loop index has that value, both
  -- bounds still have their values, the increment is positive, and the bounds and the difference of
  -- the bounds fit into 64 bits.
  pub body_axioms-Holds :
      (axioms : List Expression)
      → body_axioms idx lower upper increment ≡ ok axioms
      → All (Holds env) axioms
  unfolding body_axioms
  body_axioms-Holds axioms h =
      let (upper_axiom, p, q) = >>=-eq-ok (upper_bound_axiom idx lower upper increment) _ h in
      subst (All (Holds env)) (ok-injective q) (
        Holds-greater_equal env (variable_ref idx) lower i l Means-index lower_is
            (omega (int_laws, ap pos_part iterate, ap neg_part iterate)),
        (
          Holds-upper increment upper_axiom refl p,
          (
            Holds-stride,
            (
              Holds-less env lower upper l u lower_is upper_is
                  (omega (int_laws, ap pos_part iterate, ap neg_part iterate)),
              tt,
            ),
          ),
        ),
      )
