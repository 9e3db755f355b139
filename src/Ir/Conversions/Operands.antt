-- ===== src/Ir/Conversions/Operands.antt =====
-- The operands of an operator, converted to the type of the operation.
use qubus.Base.{true, false, Option, ◌≡◌, refl, sym, ap, ◌∙◌, subst, arith, Bool-cases, inl, inr}
use qubus.Base.Results.{ok-injective, ok, ◌>>=◌, >>=-eq-ok}
use qubus.Ir.Types.{IrType, double, float, integer, complex, type_eq}
use qubus.Ir.Expressions.{Expression, BinaryOpTag, double_literal, binary_operator, unary_operator}
use qubus.Ir.Inference.{typeof_, is_comparison}
use qubus.Ir.Inference.CommonType.{common_type}
use qubus.Ir.Conversions.{or_self, convert, convert_operands}

-- A common type is its own common type, and the only one that it equals.
pub common_type_self : (s t u : IrType) → common_type s t ≡ ok u → common_type u u ≡ ok u
unfolding common_type
common_type_self (complex s) (complex t) u h =
    let (v, p, q) = >>=-eq-ok (common_type s t) _ h in
    let rest = common_type_self s t v p in ground (arith, q, rest)
common_type_self (complex s) double u h =
    let (v, p, q) = >>=-eq-ok (common_type s double) _ h in
    let rest = common_type_self s double v p in ground (arith, q, rest)
common_type_self (complex s) float u h =
    let (v, p, q) = >>=-eq-ok (common_type s float) _ h in
    let rest = common_type_self s float v p in ground (arith, q, rest)
common_type_self (complex s) integer u h =
    let (v, p, q) = >>=-eq-ok (common_type s integer) _ h in
    let rest = common_type_self s integer v p in ground (arith, q, rest)
common_type_self double (complex t) u h =
    let (v, p, q) = >>=-eq-ok (common_type double t) _ h in
    let rest = common_type_self double t v p in ground (arith, q, rest)
common_type_self float (complex t) u h =
    let (v, p, q) = >>=-eq-ok (common_type float t) _ h in
    let rest = common_type_self float t v p in ground (arith, q, rest)
common_type_self integer (complex t) u h =
    let (v, p, q) = >>=-eq-ok (common_type integer t) _ h in
    let rest = common_type_self integer t v p in ground (arith, q, rest)
common_type_self _ _ u h = ground arith

-- On the types that have a common type with themselves, equal types are the same.
same_of_type_eq : (s u : IrType) → common_type u u ≡ ok u → type_eq s u ≡ true → s ≡ u
unfolding common_type type_eq
same_of_type_eq (complex s) (complex u) h e =
    let (v, p, q) = >>=-eq-ok (common_type u u) _ h in
    ap complex (same_of_type_eq s u (ground (arith, p, q)) e)
same_of_type_eq _ _ h e = ground arith

pub typeof_-convert :
    (u s : IrType) (e : Expression)
    → common_type u u ≡ ok u
    → typeof_ e ≡ ok s
    → typeof_ (convert u s e) ≡ ok u
unfolding convert typeof_
typeof_-convert u s e idempotent h = elim (Bool-cases (type_eq s u)) [
  | inl equal ↦ rw equal (h ∙ ap ok (same_of_type_eq s u idempotent equal))
  | inr other ↦ rw other refl
]

pub type_of_converted_same :
    (u s : IrType) (e : Expression)
    → typeof_ e ≡ ok u
    → typeof_ e ≡ ok s
    → typeof_ (convert u s e) ≡ ok u
unfolding convert typeof_
type_of_converted_same u s e h k = elim (Bool-cases (type_eq s u)) [
  | inl equal ↦ rw equal h
  | inr other ↦ rw other refl
]

type_of_converted_operands :
    (tag : BinaryOpTag) (l r : Expression) (u a b : IrType)
    → is_comparison tag ≡ false
    → common_type a b ≡ ok u
    → typeof_ l ≡ ok a
    → typeof_ r ≡ ok b
    → typeof_ (binary_operator tag (convert u a l) (convert u b r)) ≡ ok u
unfolding typeof_
type_of_converted_operands tag l r u a b computes common p q =
    let idempotent = common_type_self a b u common in
    rw (computes, typeof_-convert u a l idempotent p, typeof_-convert u b r idempotent q) idempotent

pub typeof_-convert_operands :
    (e : Expression) (m : Option Expression) (t : IrType)
    → convert_operands e ≡ ok m
    → typeof_ e ≡ ok t
    → typeof_ (or_self e m) ≡ ok t
unfolding convert_operands
typeof_-convert_operands (binary_operator tag l r) m t h k = elim (Bool-cases (is_comparison tag)) [
  | inl compares ↦
      subst (λ m. typeof_ (or_self (binary_operator tag l r) m) ≡ ok t)
        (ok-injective (rw compares at h)) k
  | inr computes ↦
      let (u, p, rest) =
        >>=-eq-ok (typeof_ l >>= λ a. typeof_ r >>= λ b. common_type a b) _ (rw computes at h) in
      let (a, q, rest') = >>=-eq-ok (typeof_ l) _ rest in
      let (b, s, last) = >>=-eq-ok (typeof_ r) _ rest' in
      let typed = type_of_converted_operands tag l r u a b computes (rw (q, s) at p) q s in
      subst (λ m. typeof_ (or_self (binary_operator tag l r) m) ≡ ok t) (ok-injective last)
        (typed ∙ sym p ∙ rw computes at k)
]
typeof_-convert_operands (unary_operator tag e) m t h k =
    let (u, p, rest) = >>=-eq-ok (typeof_ (unary_operator tag e)) _ h in
    let (a, q, last) = >>=-eq-ok (typeof_ e) _ rest in
    subst (λ m. typeof_ (or_self (unary_operator tag e) m) ≡ ok t) (ok-injective last)
      (type_of_converted_same u a e p q ∙ sym p ∙ k)
typeof_-convert_operands (double_literal x) m t h k =
    subst (λ m. typeof_ (or_self (double_literal x) m) ≡ ok t) (ok-injective h) k
typeof_-convert_operands e m t h k = subst (λ m. typeof_ (or_self e m) ≡ ok t) (ok-injective h) k
