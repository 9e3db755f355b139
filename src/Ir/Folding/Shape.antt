-- ===== src/Ir/Folding/Shape.antt =====
-- What constant folding, qubus/src/IR/constant_folding.cpp, changes in an expression: operators become
-- the literals of their values, at any depth, and all else stays.
use qubus.Base.{ℕ, zero, suc, ◌≡◌, refl, sym, subst, ◌∙◌, ◌⊎◌, inl, inr, Bool-cases, arith}
use qubus.Base.Int.{ℤ}
use qubus.Base.Results.{Result, ok, fail, >>=-eq-ok, ok-injective}
use qubus.Ir.Types.{integer, type_eq}
use qubus.Ir.Inference.{typeof_}
use qubus.Ir.Expressions.{
  BinaryOpTag, UnaryOpTag, Expression, Expressions, double_literal, float_literal, integer_literal,
  bool_literal, variable_ref, binary_operator, unary_operator, type_conversion, intrinsic_function,
  subscription, member_access, construct, integer_range, compound, for_loop, if_then, if_else,
  local_variable_def, macro, sum, delta, nil, cons,
}
use qubus.Ir.Expressions.Children.{sub_expressions, substitute_subexpressions, is_access}
use qubus.Ir.Semantics.{Env, eval, int}
use qubus.Ir.Folding.{
  fold_binary, fold_unary, fold_operator, fold_impl, transform_all, fold_constant_expressions,
  literal,
}
use qubus.Ir.Folding.Soundness.{meaning, fold_meaning}

-- The literal of the value that an expression has, whatever the variables are.
abbrev pub IsValueOf : ℤ → Expression → Type 0
IsValueOf z e = (env : Env) → meaning env e ≡ ok (int z)

-- The second expression is the first one, but for operators that became literals. Of the parameters of
-- a construction with several nothing is said.
unfoldable mutual
  unfolding eval

  pub Folds : Expression → Expression → Type 0
  Folds (binary_operator t l r) (integer_literal z) = IsValueOf z (binary_operator t l r)
  Folds (binary_operator t l r) (binary_operator t' l' r') = (t ≡ t') × Folds l l' × Folds r r'
  Folds (unary_operator t e) (integer_literal z) = IsValueOf z (unary_operator t e)
  Folds (unary_operator t e) (unary_operator t' e') = (t ≡ t') × Folds e e'
  Folds (type_conversion t e) (type_conversion t' e') = (t ≡ t') × Folds e e'
  Folds (intrinsic_function f es) (intrinsic_function f' es') = (f ≡ f') × FoldAll es es'
  Folds (subscription e es) (subscription e' es') = Folds e e' × FoldAll es es'
  Folds (member_access e m) (member_access e' m') = Folds e e' × (m ≡ m')
  Folds (construct t es) (construct t' es') = (t ≡ t') × FoldParameters es es'
  Folds (integer_range b e s) (integer_range b' e' s') = Folds b b' × Folds e e' × Folds s s'
  Folds (compound o es) (compound o' es') = (o ≡ o') × FoldAll es es'
  Folds (for_loop o v l u i b) (for_loop o' v' l' u' i' b') =
      (o ≡ o') × (v ≡ v') × Folds l l' × Folds u u' × Folds i i' × Folds b b'
  Folds (if_then c t) (if_then c' t') = Folds c c' × Folds t t'
  Folds (if_else c t f) (if_else c' t' f') = Folds c c' × Folds t t' × Folds f f'
  Folds (local_variable_def v e) (local_variable_def v' e') = (v ≡ v') × Folds e e'
  Folds (macro ps e) (macro ps' e') = (ps ≡ ps') × Folds e e'
  Folds (sum vs a e) (sum vs' a' e') = (vs ≡ vs') × (a ≡ a') × Folds e e'
  Folds (delta n i j) (delta n' i' j') = (n ≡ n') × Folds i i' × Folds j j'
  Folds (double_literal x) e' = double_literal x ≡ e'
  Folds (float_literal x) e' = float_literal x ≡ e'
  Folds (integer_literal x) e' = integer_literal x ≡ e'
  Folds (bool_literal x) e' = bool_literal x ≡ e'
  Folds (variable_ref v) e' = variable_ref v ≡ e'
  Folds _ _ = ⊥

  pub FoldAll : Expressions → Expressions → Type 0
  FoldAll nil nil = Unit
  FoldAll (cons e es) (cons e' es') = Folds e e' × FoldAll es es'
  FoldAll _ _ = ⊥

  pub FoldParameters : Expressions → Expressions → Type 0
  FoldParameters nil es' = nil ≡ es'
  FoldParameters (cons e nil) (cons e' nil) = Folds e e'
  FoldParameters (cons e nil) _ = ⊥
  FoldParameters (cons e (cons f es)) es' = Unit

FoldAll-nil : (es : Expressions) → FoldAll nil es → nil ≡ es
unfolding Folds
FoldAll-nil nil h = refl
FoldAll-nil (cons e es) h = absurd h

rebuilt :
    (e : Expression) (es : Expressions) {e₁ : Expression}
    → substitute_subexpressions e es ≡ ok e₁
    → FoldAll (sub_expressions e) es
    → Folds e e₁
unfolding substitute_subexpressions sub_expressions Folds
rebuilt (binary_operator t l r) (cons l' (cons r' nil)) h k =
    subst (Folds (binary_operator t l r)) (ok-injective h) (refl, k.0, k.1.0)
rebuilt (unary_operator t e) (cons e' nil) h k =
    subst (Folds (unary_operator t e)) (ok-injective h) (refl, k.0)
rebuilt (type_conversion t e) (cons e' nil) h k =
    subst (Folds (type_conversion t e)) (ok-injective h) (refl, k.0)
rebuilt (intrinsic_function f es) es' h k =
    subst (Folds (intrinsic_function f es)) (ok-injective h) (refl, k)
rebuilt (subscription e es) (cons e' es') h k = elim (Bool-cases (is_access e')) [
  | inl p ↦ subst (Folds (subscription e es)) (ok-injective (rw p at h)) k
  | inr p ↦ cc (rw p at h)
]
rebuilt (member_access e m) (cons e' nil) h k = elim (Bool-cases (is_access e')) [
  | inl p ↦ subst (Folds (member_access e m)) (ok-injective (rw p at h)) (k.0, refl)
  | inr p ↦ cc (rw p at h)
]
rebuilt (construct t nil) es h k =
    subst (Folds (construct t nil)) (ok-injective h) (refl, FoldAll-nil es k)
rebuilt (construct t (cons e nil)) (cons e' nil) h k =
    subst (Folds (construct t (cons e nil))) (ok-injective h) (refl, k.0)
rebuilt (construct t (cons e (cons f fs))) es h k =
    subst (Folds (construct t (cons e (cons f fs)))) (ok-injective h) (refl, tt)
rebuilt (integer_range b e s) (cons b' (cons e' (cons s' nil))) h k =
    subst (Folds (integer_range b e s)) (ok-injective h) (k.0, k.1.0, k.1.1.0)
rebuilt (compound o es) es' h k = subst (Folds (compound o es)) (ok-injective h) (refl, k)
rebuilt (for_loop o v l u i b) (cons l' (cons u' (cons i' (cons b' nil)))) h k =
    subst (Folds (for_loop o v l u i b)) (ok-injective h)
      (refl, refl, k.0, k.1.0, k.1.1.0, k.1.1.1.0)
rebuilt (if_then c t) (cons c' (cons t' nil)) h k =
    subst (Folds (if_then c t)) (ok-injective h) (k.0, k.1.0)
rebuilt (if_else c t f) (cons c' (cons t' (cons f' nil))) h k =
    subst (Folds (if_else c t f)) (ok-injective h) (k.0, k.1.0, k.1.1.0)
rebuilt (local_variable_def v e) (cons e' nil) h k =
    subst (Folds (local_variable_def v e)) (ok-injective h) (refl, k.0)
rebuilt (macro ps e) (cons e' nil) h k = subst (Folds (macro ps e)) (ok-injective h) (refl, k.0)
rebuilt (sum vs a e) (cons e' nil) h k =
    subst (Folds (sum vs a e)) (ok-injective h) (refl, refl, k.0)
rebuilt (delta n i j) (cons i' (cons j' nil)) h k =
    subst (Folds (delta n i j)) (ok-injective h) (refl, k.0, k.1.0)
rebuilt (double_literal x) nil h k = ok-injective h
rebuilt (float_literal x) nil h k = ok-injective h
rebuilt (integer_literal x) nil h k = ok-injective h
rebuilt (bool_literal x) nil h k = ok-injective h
rebuilt (variable_ref v) nil h k = ok-injective h
rebuilt _ _ h k = ground arith

-- An operator that `fold_impl` can replace.
abbrev IsOperator : Expression → Type 0
IsOperator (binary_operator t l r) = Unit
IsOperator (unary_operator t e) = Unit
IsOperator _ = ⊥

-- `fold_impl` leaves an expression, or replaces an operator by a literal.
abbrev Replaced : Expression → Expression → Type 0
Replaced e e' = (e ≡ e') ⊎ (IsOperator e × ((z : ℤ) × (integer_literal z ≡ e')))

literal-Replaced :
    (e : Expression) (r : Result ℤ) {e' : Expression}
    → IsOperator e
    → literal r ≡ ok e'
    → Replaced e e'
literal-Replaced e (ok z) op h = inr (op, (z, ok-injective h))
literal-Replaced e (fail x) op h = cc h

fold_binary-Replaced :
    (t : BinaryOpTag) (a b : ℤ) {e' : Expression}
    → fold_binary t a b ≡ ok e'
    → Replaced (binary_operator t (integer_literal a) (integer_literal b)) e'
unfolding fold_binary
fold_binary-Replaced BinaryOpTag.plus a b h = literal-Replaced _ _ tt h
fold_binary-Replaced BinaryOpTag.minus a b h = literal-Replaced _ _ tt h
fold_binary-Replaced BinaryOpTag.multiplies a b h = literal-Replaced _ _ tt h
fold_binary-Replaced BinaryOpTag.divides a b h = literal-Replaced _ _ tt h
fold_binary-Replaced BinaryOpTag.modulus a b h = literal-Replaced _ _ tt h
fold_binary-Replaced BinaryOpTag.div_floor a b h = literal-Replaced _ _ tt h
fold_binary-Replaced _ a b h = inl (ok-injective h)

fold_unary-Replaced :
    (t : UnaryOpTag) (a : ℤ) {e' : Expression}
    → fold_unary t a ≡ ok e'
    → Replaced (unary_operator t (integer_literal a)) e'
unfolding fold_unary
fold_unary-Replaced UnaryOpTag.plus a h = inr (tt, (a, ok-injective h))
fold_unary-Replaced UnaryOpTag.negate a h = literal-Replaced _ _ tt h
fold_unary-Replaced _ a h = inl (ok-injective h)

fold_operator-Replaced :
    (e : Expression) {e' : Expression} → fold_operator e ≡ ok e' → Replaced e e'
unfolding fold_operator
fold_operator-Replaced (binary_operator t (integer_literal a) (integer_literal b)) h =
    fold_binary-Replaced t a b h
fold_operator-Replaced (unary_operator t (integer_literal a)) h = fold_unary-Replaced t a h
fold_operator-Replaced _ h = inl (ok-injective h)

fold_impl-Replaced : (e : Expression) {e' : Expression} → fold_impl e ≡ ok e' → Replaced e e'
unfolding fold_impl
fold_impl-Replaced e h =
    let (t, p, q) = >>=-eq-ok (typeof_ e) _ h in
    elim (Bool-cases (type_eq t integer)) [
      | inl i ↦ fold_operator-Replaced e (rw i at q)
      | inr i ↦ inl (ok-injective (rw i at q))
    ]

literal_value : (z : ℤ) (e' : Expression) → integer_literal z ≡ e' → IsValueOf z e'
unfolding eval
literal_value z e' h env = subst (λ e. meaning env e ≡ ok (int z)) h refl

-- Only an operator is rebuilt to an operator.
to_literal :
    (e e₁ : Expression) (z : ℤ)
    → Folds e e₁
    → IsOperator e₁
    → IsValueOf z e
    → Folds e (integer_literal z)
unfolding Folds
to_literal (binary_operator t l r) e₁ z k op means = means
to_literal (unary_operator t e) e₁ z k op means = means
to_literal (double_literal x) e₁ z k op means = absurd (subst (λ e. IsOperator e) (sym k) op)
to_literal (float_literal x) e₁ z k op means = absurd (subst (λ e. IsOperator e) (sym k) op)
to_literal (integer_literal x) e₁ z k op means = absurd (subst (λ e. IsOperator e) (sym k) op)
to_literal (bool_literal x) e₁ z k op means = absurd (subst (λ e. IsOperator e) (sym k) op)
to_literal (variable_ref v) e₁ z k op means = absurd (subst (λ e. IsOperator e) (sym k) op)
to_literal _ (binary_operator t l r) z k op means = absurd k
to_literal _ (unary_operator t e) z k op means = absurd k
to_literal _ _ z k op means = absurd op

transform_all-FoldAll :
    (f : Expression → Result Expression)
    → ((e e' : Expression) → f e ≡ ok e' → Folds e e')
    → (es es' : Expressions) → transform_all f es ≡ ok es'
    → FoldAll es es'
unfolding transform_all Folds
transform_all-FoldAll f keeps nil es' h = subst (FoldAll nil) (ok-injective h) tt
transform_all-FoldAll f keeps (cons e es) es' h =
    let (e₁, p, rest) = >>=-eq-ok (f e) _ h in
    let (es₁, q, last) = >>=-eq-ok (transform_all f es) _ rest in
    subst (FoldAll (cons e es)) (ok-injective last)
      (keeps e e₁ p, transform_all-FoldAll f keeps es es₁ q)

-- When folding succeeds, the folded expression is the original but for binary and unary operators, at
-- any depth, that are replaced by the integer literal of their value, with div_floor read as the folding
-- computes it. Of a construction with several parameters only the type is kept.
pub fold-Folds :
    (fuel : ℕ) (e e' : Expression) → fold_constant_expressions fuel e ≡ ok e' → Folds e e'
unfolding fold_constant_expressions
fold-Folds zero e e' h = cc h
fold-Folds (suc fuel) e e' h =
    let (es, p, q) =
      >>=-eq-ok (transform_all (fold_constant_expressions fuel) (sub_expressions e)) _ h in
    let (e₁, r, s) = >>=-eq-ok (substitute_subexpressions e es) _ q in
    let whole = rebuilt e es r (transform_all-FoldAll _ (fold-Folds fuel) _ es p) in
    elim (fold_impl-Replaced e₁ s) [
      | inl same ↦ subst (Folds e) same whole
      | inr (op, (z, is_literal)) ↦ subst (Folds e) is_literal (
          to_literal e e₁ z whole op
            (λ env. sym (fold_meaning env (suc fuel) e e' h) ∙ literal_value z e' is_literal env))
    ]
