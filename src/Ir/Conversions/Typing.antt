-- ===== src/Ir/Conversions/Typing.antt =====
-- The pass keeps the type of every expression.
use qubus.Base.{ℕ, zero, suc, String, Option, List, ◌≡◌, refl, subst, arith, Bool-cases, inl, inr}
use qubus.Base.Results.{ok-injective, Result, ok, >>=-eq-ok}
use qubus.Ir.Types.{IrType, value_type}
use qubus.Ir.Expressions.{
  Expression, Expressions, BinaryOpTag, double_literal, binary_operator, unary_operator,
  intrinsic_function, subscription, member_access, nil, cons,
}
use qubus.Ir.Expressions.Children.{sub_expressions, substitute_subexpressions, count}
use qubus.Ir.Inference.{typeof_, typeof_all, is_comparison}
use qubus.Ir.Folding.{transform_all}
use qubus.Ir.Conversions.{or_self, substitute, convert_operands, make_implicit_conversions_explicit}
use qubus.Ir.Conversions.Operands.{typeof_-convert_operands}

-- What has the first type also has the second.
abbrev pub TypesKept : Expressions → Expressions → Type 0
TypesKept nil nil = Unit
TypesKept (cons e es) (cons f fs) =
    ((t : IrType) → typeof_ e ≡ ok t → typeof_ f ≡ ok t) × TypesKept es fs
TypesKept _ _ = ⊥

typeof_all_kept :
    (es fs : Expressions) (ts : List IrType)
    → TypesKept es fs
    → typeof_all es ≡ ok ts
    → typeof_all fs ≡ ok ts
unfolding typeof_all
typeof_all_kept nil nil ts k h = h
typeof_all_kept nil (cons f fs) ts k h = absurd k
typeof_all_kept (cons e es) nil ts k h = absurd k
typeof_all_kept (cons e es) (cons f fs) ts k h =
    let (t, p, q) = >>=-eq-ok (typeof_ e) _ h in
    let (us, r, s) = >>=-eq-ok (typeof_all es) _ q in rw (k.0 t p, typeof_all_kept es fs us k.1 r) s

count_kept : (es fs : Expressions) → TypesKept es fs → count fs ≡ count es
count_kept nil nil k = refl
count_kept nil (cons f fs) k = absurd k
count_kept (cons e es) nil k = absurd k
count_kept (cons e es) (cons f fs) k = omega (arith, count_kept es fs k.1)

module _ (t : IrType) where
  typeof_-binary_operator :
      (tag : BinaryOpTag) (l r l' r' : Expression)
      → ((u : IrType) → typeof_ l ≡ ok u → typeof_ l' ≡ ok u)
      → ((u : IrType) → typeof_ r ≡ ok u → typeof_ r' ≡ ok u)
      → typeof_ (binary_operator tag l r) ≡ ok t
      → typeof_ (binary_operator tag l' r') ≡ ok t
  unfolding typeof_
  typeof_-binary_operator tag l r l' r' p q h = elim (Bool-cases (is_comparison tag)) [
    | inl compares ↦ rw compares (rw compares at h)
    | inr computes ↦
        let (u, a, rest) = >>=-eq-ok (typeof_ l) _ (rw computes at h) in
        let (v, b, last) = >>=-eq-ok (typeof_ r) _ rest in rw (computes, p u a, q v b) last
  ]

  typeof_-subscription :
      (e : Expression) (es : Expressions) (f : Expression) (fs : Expressions)
      → ((u : IrType) → typeof_ e ≡ ok u → typeof_ f ≡ ok u)
      → TypesKept es fs
      → typeof_ (subscription e es) ≡ ok t
      → typeof_ (subscription f fs) ≡ ok t
  unfolding typeof_
  typeof_-subscription e es f fs p k h =
      let (u, a, rest) = >>=-eq-ok (typeof_ e) _ h in
      let (v, b, rest') = >>=-eq-ok (value_type u) _ rest in
      let (ts, c, last) = >>=-eq-ok (typeof_all es) _ rest' in
      rw (p u a, b, typeof_all_kept es fs ts k c, count_kept es fs k) last

  typeof_-intrinsic_function :
      (f : String) (es fs : Expressions)
      → TypesKept es fs
      → typeof_ (intrinsic_function f es) ≡ ok t
      → typeof_ (intrinsic_function f fs) ≡ ok t
  unfolding typeof_
  typeof_-intrinsic_function f es fs k h =
      let (ts, c, last) = >>=-eq-ok (typeof_all es) _ h in rw (typeof_all_kept es fs ts k c) last

  typeof_-member_access :
      (e f : Expression) (m : String)
      → ((u : IrType) → typeof_ e ≡ ok u → typeof_ f ≡ ok u)
      → typeof_ (member_access e m) ≡ ok t
      → typeof_ (member_access f m) ≡ ok t
  unfolding typeof_
  typeof_-member_access e f m p h = let (u, a, last) = >>=-eq-ok (typeof_ e) _ h in rw (p u a) last

  -- An expression keeps its type when its children do.
  typeof_-substitute_subexpressions :
      (e : Expression) (fs : Expressions) {e' : Expression}
      → substitute_subexpressions e fs ≡ ok e'
      → TypesKept (sub_expressions e) fs
      → typeof_ e ≡ ok t
      → typeof_ e' ≡ ok t
  unfolding substitute_subexpressions sub_expressions typeof_
  typeof_-substitute_subexpressions (binary_operator tag l r) (cons l' (cons r' nil)) s k h =
      let rebuilt = typeof_-binary_operator tag l r l' r' k.0 k.1.0 h in
      subst (λ x. typeof_ x ≡ ok t) (ok-injective s) rebuilt
  typeof_-substitute_subexpressions (unary_operator tag e) (cons f nil) s k h =
      subst (λ x. typeof_ x ≡ ok t) (ok-injective s) (k.0 t h)
  typeof_-substitute_subexpressions (subscription e es) (cons f fs) {e' = e'} s k h =
      let rebuilt = typeof_-subscription e es f fs k.0 k.1 h in
      let same : subscription f fs ≡ e' = ground (arith, s) in
      subst (λ x. typeof_ x ≡ ok t) same rebuilt
  typeof_-substitute_subexpressions (intrinsic_function f es) fs s k h =
      let rebuilt = typeof_-intrinsic_function f es fs k h in
      subst (λ x. typeof_ x ≡ ok t) (ok-injective s) rebuilt
  typeof_-substitute_subexpressions (member_access e m) (cons f nil) {e' = e'} s k h =
      let rebuilt = typeof_-member_access e f m k.0 h in
      let same : member_access f m ≡ e' = ground (arith, s) in
      subst (λ x. typeof_ x ≡ ok t) same rebuilt
  typeof_-substitute_subexpressions (double_literal x) fs s k h = ground (arith, s)
  typeof_-substitute_subexpressions _ fs s k h = ground (arith, s)

pub transform_all-TypesKept :
    (f : Expression → Result Expression)
    → ((e e' : Expression) (t : IrType) → f e ≡ ok e' → typeof_ e ≡ ok t → typeof_ e' ≡ ok t)
    → (es fs : Expressions) → transform_all f es ≡ ok fs
    → TypesKept es fs
unfolding transform_all
transform_all-TypesKept f keeps nil fs h = subst (TypesKept nil) (ok-injective h) tt
transform_all-TypesKept f keeps (cons e es) fs h =
    let (e', p, rest) = >>=-eq-ok (f e) _ h in
    let (es', q, last) = >>=-eq-ok (transform_all f es) _ rest in
    let kept : TypesKept (cons e es) (cons e' es') =
      ((λ t. keeps e e' t p), transform_all-TypesKept f keeps es es' q) in
    subst (TypesKept (cons e es)) (ok-injective last) kept

pub substitute_keeps_types :
    (matcher : Expression → Result (Option Expression))
    → ((e : Expression) (m : Option Expression) (t : IrType)
        → matcher e ≡ ok m
        → typeof_ e ≡ ok t
        → typeof_ (or_self e m) ≡ ok t)
    → (fuel : ℕ) (e e' : Expression) (t : IrType) → substitute matcher fuel e ≡ ok e'
    → typeof_ e ≡ ok t
    → typeof_ e' ≡ ok t
unfolding substitute
substitute_keeps_types matcher keeps zero e e' t h k = cc h
substitute_keeps_types matcher keeps (suc fuel) e e' t h k =
    let (m, p, rest) = >>=-eq-ok (matcher e) _ h in
    let (fs, q, last) =
      >>=-eq-ok (transform_all (substitute matcher fuel) (sub_expressions (or_self e m))) _ rest in
    typeof_-substitute_subexpressions t (or_self e m) fs last
      (transform_all-TypesKept (substitute matcher fuel) (substitute_keeps_types matcher keeps fuel)
        (sub_expressions (or_self e m)) fs q)
      (keeps e m t p k)

-- Making conversions explicit keeps the type of an expression, whatever the type is.
pub make_implicit_conversions_explicit_keeps_type :
    (fuel : ℕ) (e e' : Expression) (t : IrType)
    → make_implicit_conversions_explicit fuel e ≡ ok e'
    → typeof_ e ≡ ok t
    → typeof_ e' ≡ ok t
unfolding make_implicit_conversions_explicit
make_implicit_conversions_explicit_keeps_type fuel e e' t h k =
    substitute_keeps_types convert_operands typeof_-convert_operands fuel e e' t h k
