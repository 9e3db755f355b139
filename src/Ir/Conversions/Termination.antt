-- ===== src/Ir/Conversions/Termination.antt =====
-- The substitution ends: a conversion that the matcher adds is not matched again.
use qubus.Base.{ℕ, zero, suc, ◌*◌, ◌<◌, ◌≤◌, max, Option, ◌≡◌, subst, arith, Bool-cases, inl, inr}
use qubus.Base.Results.{
  Result, ok, ◌>>=◌, IsFueled, >>=-IsFueled, if-IsFueled, >>=-eq-ok, ok-injective,
}
use qubus.Ir.Types.{IrType, type_eq}
use qubus.Ir.Expressions.{
  Expression, Expressions, BinaryOpTag, UnaryOpTag, double_literal, binary_operator, unary_operator,
  type_conversion, nil, cons,
}
use qubus.Ir.Expressions.Children.{sub_expressions}
use qubus.Ir.Expressions.Depth.{depth, depth_all, depth_all-sub_expressions-lt}
use qubus.Ir.Inference.{typeof_, is_comparison}
use qubus.Ir.Inference.CommonType.{common_type}
use qubus.Ir.Inference.Totality.{typeof_-IsFueled}
use qubus.Ir.Folding.{transform_all}
use qubus.Ir.Folding.Termination.{substitute_subexpressions-IsFueled}
use qubus.Ir.Conversions.{
  or_self, substitute, convert, convert_operands, make_implicit_conversions_explicit,
}

-- The calls that an expression may take, one on top of the other.
unfoldable steps : Expression → ℕ
unfolding depth
steps (type_conversion t e) = suc (2 * depth e)
steps e = 2 * depth e

unfoldable steps_all : Expressions → ℕ
unfolding steps
steps_all nil = 0
steps_all (cons e es) = max (steps e) (steps_all es)

steps-le : (e : Expression) → steps e ≤ 2 * depth e
unfolding steps depth
steps-le (type_conversion t e) = omega arith
steps-le (double_literal x) = omega arith
steps-le _ = omega arith

steps_all-le : (es : Expressions) → steps_all es ≤ 2 * depth_all es
unfolding steps_all depth
steps_all-le nil = omega arith
steps_all-le (cons e es) = omega (arith, steps-le e, steps_all-le es)

steps-convert : (u s : IrType) (e : Expression) → steps (convert u s e) ≤ suc (2 * depth e)
unfolding convert steps
steps-convert u s e = elim (Bool-cases (type_eq s u)) [
  | inl equal ↦ rw equal (omega (arith, steps-le e))
  | inr other ↦ rw other (omega arith)
]

steps_of_children : (e : Expression) → steps_all (sub_expressions e) < steps e
unfolding steps sub_expressions steps_all
steps_of_children (type_conversion t e) = omega (arith, steps-le e)
steps_of_children (double_literal x) = omega (
  arith,
  steps_all-le (sub_expressions (double_literal x)),
  depth_all-sub_expressions-lt (double_literal x),
)
steps_of_children e =
    omega (arith, steps_all-le (sub_expressions e), depth_all-sub_expressions-lt e)

steps_of_binary :
    (tag : BinaryOpTag) (l r : Expression) (u a b : IrType)
    → steps_all (sub_expressions (binary_operator tag (convert u a l) (convert u b r)))
      < steps (binary_operator tag l r)
unfolding steps_all sub_expressions steps depth
steps_of_binary tag l r u a b = omega (arith, steps-convert u a l, steps-convert u b r)

steps_of_unary :
    (tag : UnaryOpTag) (e : Expression) (u a : IrType)
    → steps_all (sub_expressions (unary_operator tag (convert u a e)))
      < steps (unary_operator tag e)
unfolding steps_all sub_expressions steps depth
steps_of_unary tag e u a = omega (arith, steps-convert u a e)

steps_of_converted :
    (e : Expression) (m : Option Expression)
    → convert_operands e ≡ ok m
    → steps_all (sub_expressions (or_self e m)) < steps e
unfolding convert_operands typeof_
steps_of_converted (binary_operator tag l r) m h = elim (Bool-cases (is_comparison tag)) [
  | inl compares ↦
      subst
        (λ m.
          steps_all (sub_expressions (or_self (binary_operator tag l r) m))
          < steps (binary_operator tag l r))
        (ok-injective (rw compares at h)) (steps_of_children (binary_operator tag l r))
  | inr computes ↦
      let (u, p, rest) =
        >>=-eq-ok (typeof_ l >>= λ a. typeof_ r >>= λ b. common_type a b) _ (rw computes at h) in
      let (a, q, rest') = >>=-eq-ok (typeof_ l) _ rest in
      let (b, s, last) = >>=-eq-ok (typeof_ r) _ rest' in
      subst
        (λ m.
          steps_all (sub_expressions (or_self (binary_operator tag l r) m))
          < steps (binary_operator tag l r))
        (ok-injective last) (steps_of_binary tag l r u a b)
]
steps_of_converted (unary_operator tag e) m h =
    let (u, p, rest) = >>=-eq-ok (typeof_ e) _ h in
    let (a, q, last) = >>=-eq-ok (typeof_ e) _ rest in
    subst
      (λ m.
        steps_all (sub_expressions (or_self (unary_operator tag e) m))
        < steps (unary_operator tag e))
      (ok-injective last) (steps_of_unary tag e u a)
steps_of_converted (double_literal x) m h =
    subst
      (λ m. steps_all (sub_expressions (or_self (double_literal x) m)) < steps (double_literal x))
      (ok-injective h) (steps_of_children (double_literal x))
steps_of_converted e m h =
    subst (λ m. steps_all (sub_expressions (or_self e m)) < steps e) (ok-injective h)
      (steps_of_children e)

convert_operands-IsFueled : (e : Expression) → IsFueled (convert_operands e)
unfolding convert_operands
convert_operands-IsFueled (binary_operator tag l r) = if-IsFueled (is_comparison tag) _ _ tt (
    >>=-IsFueled (typeof_ (binary_operator tag l r)) _ (typeof_-IsFueled (binary_operator tag l r))
      λ _ _.
        >>=-IsFueled (typeof_ l) _ (typeof_-IsFueled l)
          λ _ _. >>=-IsFueled (typeof_ r) _ (typeof_-IsFueled r) λ _ _. tt)
convert_operands-IsFueled (unary_operator tag e) =
    >>=-IsFueled (typeof_ (unary_operator tag e)) _ (typeof_-IsFueled (unary_operator tag e))
      λ _ _. >>=-IsFueled (typeof_ e) _ (typeof_-IsFueled e) λ _ _. tt
convert_operands-IsFueled (double_literal x) = tt
convert_operands-IsFueled _ = tt

transform_all-IsFueled :
    (f : Expression → Result Expression) (n : ℕ)
    → ((e : Expression) → steps e < n → IsFueled (f e))
    → (es : Expressions) → steps_all es < n
    → IsFueled (transform_all f es)
unfolding transform_all steps_all
transform_all-IsFueled f n rec nil h = tt
transform_all-IsFueled f n rec (cons e es) h = >>=-IsFueled (f e) _ (rec e (omega arith)) λ e' _.
    >>=-IsFueled (transform_all f es) _ (transform_all-IsFueled f n rec es (omega arith)) λ _ _. tt

substitute-IsFueled :
    (fuel : ℕ) (e : Expression) → steps e < fuel → IsFueled (substitute convert_operands fuel e)
unfolding substitute
substitute-IsFueled zero e h = absurd (omega arith)
substitute-IsFueled (suc fuel) e h =
    >>=-IsFueled (convert_operands e) _ (convert_operands-IsFueled e) λ m p.
      >>=-IsFueled
        (transform_all (substitute convert_operands fuel) (sub_expressions (or_self e m))) _
        (transform_all-IsFueled _ fuel (substitute-IsFueled fuel) (sub_expressions (or_self e m))
          (omega (arith, steps_of_converted e m p)))
        λ fs _. substitute_subexpressions-IsFueled (or_self e m) fs

-- Fuel beyond twice the depth is enough: the pass never runs out of it, although it searches the
-- conversions that it adds.
pub make_implicit_conversions_explicit-IsFueled :
    (fuel : ℕ) (e : Expression)
    → 2 * depth e < fuel
    → IsFueled (make_implicit_conversions_explicit fuel e)
unfolding make_implicit_conversions_explicit
make_implicit_conversions_explicit-IsFueled fuel e h =
    substitute-IsFueled fuel e (omega (arith, steps-le e))
