-- ===== src/Ir/Conversions/Explicit.antt =====
-- What the pass leaves: no operator needs a conversion any more.
use qubus.Base.{ℕ, zero, suc, false, Option, ◌≡◌, sym, subst, arith, Bool-cases, inl, inr}
use qubus.Base.Results.{ok-injective, Result, ok, ◌>>=◌, >>=-eq-ok}
use qubus.Ir.Types.{IrType}
use qubus.Ir.Expressions.{
  Expression, Expressions, double_literal, construct, binary_operator, unary_operator, nil, cons,
}
use qubus.Ir.Expressions.Children.{sub_expressions, substitute_subexpressions, copies}
use qubus.Ir.Inference.{typeof_, is_comparison}
use qubus.Ir.Inference.CommonType.{common_type}
use qubus.Ir.Folding.{transform_all}
use qubus.Ir.Conversions.{or_self, substitute, convert_operands, make_implicit_conversions_explicit}
use qubus.Ir.Conversions.Operands.{typeof_-convert_operands, common_type_self, typeof_-convert}
use qubus.Ir.Conversions.Typing.{TypesKept, transform_all-TypesKept, substitute_keeps_types}
use qubus.Ir.Expressions.Rebuilding.{shown, sub_expressions-substitute_subexpressions}

-- The operands have one type, the one of the operation.
abbrev pub HasEqualOperands : Expression → Type 0
HasEqualOperands (binary_operator tag l r) =
    is_comparison tag ≡ false
    → (t : IrType) × (typeof_ l ≡ ok t)
      × (typeof_ r ≡ ok t)
      × (typeof_ (binary_operator tag l r) ≡ ok t)
HasEqualOperands _ = Unit

mutual
  -- So have the operands of all operations in it.
  pub data IsExplicit : Expression → Type 0 where
    node : {e : Expression} → HasEqualOperands e → AllExplicit (sub_expressions e) → IsExplicit e

  pub data AllExplicit : Expressions → Type 0 where
    none_left : AllExplicit nil
    one_more :
        {e : Expression} {es : Expressions}
        → IsExplicit e
        → AllExplicit es
        → AllExplicit (cons e es)

AllExplicit-copies : {e : Expression} (es : Expressions) → IsExplicit e → AllExplicit (copies e es)
AllExplicit-copies nil h = none_left
AllExplicit-copies (cons f fs) h = one_more h (AllExplicit-copies fs h)

AllExplicit-shown : (e : Expression) (fs : Expressions) → AllExplicit fs → AllExplicit (shown e fs)
AllExplicit-shown (construct t es) nil h = h
AllExplicit-shown (construct t es) (cons f fs) (one_more h hs) =
    one_more h (AllExplicit-copies fs h)
AllExplicit-shown (double_literal x) fs h = h
AllExplicit-shown _ fs h = h

rebuilt-HasEqualOperands :
    (e : Expression) (fs : Expressions) {e' : Expression}
    → substitute_subexpressions e fs ≡ ok e'
    → HasEqualOperands e
    → TypesKept (sub_expressions e) fs
    → HasEqualOperands e'
unfolding substitute_subexpressions sub_expressions typeof_
rebuilt-HasEqualOperands (binary_operator tag l r) (cons l' (cons r' nil)) s h k =
    subst HasEqualOperands (ok-injective s) λ computes.
      let (t, p, q, u) = h computes in
      (t, k.0 t p, k.1.0 t q, rw (computes, k.0 t p, k.1.0 t q) (rw (computes, p, q) at u))
rebuilt-HasEqualOperands (double_literal x) fs s h k = ground arith
rebuilt-HasEqualOperands _ fs s h k = ground arith

HasEqualOperands-convert_operands :
    (e : Expression) (m : Option Expression)
    → convert_operands e ≡ ok m
    → HasEqualOperands (or_self e m)
unfolding convert_operands typeof_
HasEqualOperands-convert_operands (binary_operator tag l r) m h =
    elim (Bool-cases (is_comparison tag)) [
      | inl compares ↦
          subst (λ m. HasEqualOperands (or_self (binary_operator tag l r) m))
            (ok-injective (rw compares at h)) λ computes. absurd (ground arith)
      | inr computes ↦
          let (u, p, rest) =
            >>=-eq-ok (typeof_ l >>= λ a. typeof_ r >>= λ b. common_type a b) _
              (rw computes at h) in
          let (a, q, rest') = >>=-eq-ok (typeof_ l) _ rest in
          let (b, s, last) = >>=-eq-ok (typeof_ r) _ rest' in
          let idempotent = common_type_self a b u (rw (q, s) at p) in
          let x = typeof_-convert u a l idempotent q in
          let y = typeof_-convert u b r idempotent s in
          subst (λ m. HasEqualOperands (or_self (binary_operator tag l r) m)) (ok-injective last)
            λ _. (u, x, y, rw (computes, x, y) idempotent)
    ]
HasEqualOperands-convert_operands (unary_operator tag e) m h =
    let (u, p, rest) = >>=-eq-ok (typeof_ e) _ h in
    let (a, q, last) = >>=-eq-ok (typeof_ e) _ rest in
    subst (λ m. HasEqualOperands (or_self (unary_operator tag e) m)) (ok-injective last) tt
HasEqualOperands-convert_operands (double_literal x) m h =
    subst (λ m. HasEqualOperands (or_self (double_literal x) m)) (ok-injective h) tt
HasEqualOperands-convert_operands e m h =
    subst (λ m. HasEqualOperands (or_self e m)) (ok-injective h) tt

transform_all-AllExplicit :
    (f : Expression → Result Expression)
    → ((e e' : Expression) → f e ≡ ok e' → IsExplicit e')
    → (es fs : Expressions) → transform_all f es ≡ ok fs
    → AllExplicit fs
unfolding transform_all
transform_all-AllExplicit f makes nil fs h = subst AllExplicit (ok-injective h) none_left
transform_all-AllExplicit f makes (cons e es) fs h =
    let (e', p, rest) = >>=-eq-ok (f e) _ h in
    let (es', q, last) = >>=-eq-ok (transform_all f es) _ rest in
    subst AllExplicit (ok-injective last)
      (one_more (makes e e' p) (transform_all-AllExplicit f makes es es' q))

-- In what the pass returns, each binary operator that is not one of ==, <=, <, >= and >, at any
-- depth, has two operands of one type, the type of the operation.
pub make_implicit_conversions_explicit-IsExplicit :
    (fuel : ℕ) (e e' : Expression)
    → make_implicit_conversions_explicit fuel e ≡ ok e'
    → IsExplicit e'
unfolding make_implicit_conversions_explicit substitute
make_implicit_conversions_explicit-IsExplicit zero e e' h = cc h
make_implicit_conversions_explicit-IsExplicit (suc fuel) e e' h =
    let (m, p, rest) = >>=-eq-ok (convert_operands e) _ h in
    let (fs, q, last) =
      >>=-eq-ok (transform_all (substitute convert_operands fuel) (sub_expressions (or_self e m))) _
        rest in
    let kept =
      transform_all-TypesKept (substitute convert_operands fuel)
        (substitute_keeps_types convert_operands typeof_-convert_operands fuel)
        (sub_expressions (or_self e m)) fs q in
    let explicit =
      transform_all-AllExplicit (substitute convert_operands fuel)
        (make_implicit_conversions_explicit-IsExplicit fuel) (sub_expressions (or_self e m)) fs q in
    node
      (rebuilt-HasEqualOperands (or_self e m) fs last (HasEqualOperands-convert_operands e m p)
        kept)
      (subst AllExplicit (sym (sub_expressions-substitute_subexpressions (or_self e m) fs last))
        (AllExplicit-shown (or_self e m) fs explicit))
