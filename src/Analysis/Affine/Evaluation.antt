-- ===== src/Analysis/Affine/Evaluation.antt =====
-- Evaluation as the meaning of the expressions that qubus/src/affine_constraints.cpp extracts from,
-- in an environment that tells variables apart by their identity.
use qubus.Base.{ℕ, Bool, true, ◌&&◌, ◌==◌, ◌≡◌, refl, ap, arith, &&_parts, ==_iff}
use qubus.Base.Int.{ℤ}
use qubus.Base.Results.{Result, ok}
use qubus.Ir.Expressions.{
  Expression, Variable, BinaryOpTag, UnaryOpTag, same_variable, variable_ref, binary_operator,
  unary_operator, integer_literal, bool_literal,
}
use qubus.Ir.Expressions.Equality.{equal, binary_tag, unary_tag}
use qubus.Ir.Semantics.{int, Env, eval}
use qubus.Analysis.Affine.Meaning.{IsMeaning}

binary_tag-injective : (s t : BinaryOpTag) → binary_tag s ≡ binary_tag t → s ≡ t
binary_tag-injective BinaryOpTag.nop BinaryOpTag.nop h = refl
binary_tag-injective BinaryOpTag.plus BinaryOpTag.plus h = refl
binary_tag-injective BinaryOpTag.minus BinaryOpTag.minus h = refl
binary_tag-injective BinaryOpTag.multiplies BinaryOpTag.multiplies h = refl
binary_tag-injective BinaryOpTag.divides BinaryOpTag.divides h = refl
binary_tag-injective BinaryOpTag.modulus BinaryOpTag.modulus h = refl
binary_tag-injective BinaryOpTag.div_floor BinaryOpTag.div_floor h = refl
binary_tag-injective BinaryOpTag.assign BinaryOpTag.assign h = refl
binary_tag-injective BinaryOpTag.plus_assign BinaryOpTag.plus_assign h = refl
binary_tag-injective BinaryOpTag.equal_to BinaryOpTag.equal_to h = refl
binary_tag-injective BinaryOpTag.not_equal_to BinaryOpTag.not_equal_to h = refl
binary_tag-injective BinaryOpTag.less BinaryOpTag.less h = refl
binary_tag-injective BinaryOpTag.greater BinaryOpTag.greater h = refl
binary_tag-injective BinaryOpTag.less_equal BinaryOpTag.less_equal h = refl
binary_tag-injective BinaryOpTag.greater_equal BinaryOpTag.greater_equal h = refl
binary_tag-injective BinaryOpTag.logical_and BinaryOpTag.logical_and h = refl
binary_tag-injective BinaryOpTag.logical_or BinaryOpTag.logical_or h = refl
binary_tag-injective _ _ h = absurd (omega (arith, h))

unary_tag-injective : (s t : UnaryOpTag) → unary_tag s ≡ unary_tag t → s ≡ t
unary_tag-injective UnaryOpTag.nop UnaryOpTag.nop h = refl
unary_tag-injective UnaryOpTag.plus UnaryOpTag.plus h = refl
unary_tag-injective UnaryOpTag.negate UnaryOpTag.negate h = refl
unary_tag-injective UnaryOpTag.logical_not UnaryOpTag.logical_not h = refl
unary_tag-injective _ _ h = absurd (omega (arith, h))

module _ (same_double same_float : ℕ → ℕ → Bool) (floor : ℤ → ℤ → Result ℤ) (env : Env)
    (by_identity : (v w : Variable) → same_variable v w ≡ true → env v ≡ env w) where
  eval-equal :
      (e f : Expression)
      → equal same_double same_float e f ≡ true
      → eval floor env e ≡ eval floor env f
  unfolding eval equal
  eval-equal (binary_operator s a b) (binary_operator t c d) h =
      let same = equal same_double same_float in
      let (first, right) = &&_parts (binary_tag s == binary_tag t && same a c) (same b d) h in
      let (tag, left) = &&_parts (binary_tag s == binary_tag t) (same a c) first in
      rw
        (
          binary_tag-injective s t ((==_iff (binary_tag s) (binary_tag t)).0 tag),
          eval-equal a c left,
          eval-equal b d right,
        )
        refl
  eval-equal (unary_operator s a) (unary_operator t b) h =
      let (tag, rest) =
        &&_parts (unary_tag s == unary_tag t) (equal same_double same_float a b) h in
      rw (unary_tag-injective s t ((==_iff (unary_tag s) (unary_tag t)).0 tag), eval-equal a b rest)
        refl
  eval-equal (integer_literal x) (integer_literal y) h = ap (λ z. ok (int z)) (ground (arith, h))
  eval-equal (variable_ref v) (variable_ref w) h = by_identity v w h
  eval-equal (bool_literal b) _ h = cc
  eval-equal _ (bool_literal b) h = cc
  eval-equal (binary_operator s a b) _ h = cc
  eval-equal _ (binary_operator s a b) h = cc
  eval-equal (unary_operator s a) _ h = cc
  eval-equal _ (unary_operator s a) h = cc
  eval-equal (integer_literal x) _ h = cc
  eval-equal _ (integer_literal x) h = cc
  eval-equal (variable_ref v) _ h = cc
  eval-equal _ (variable_ref v) h = cc
  eval-equal _ _ h = refl

  pub eval-IsMeaning : IsMeaning same_double same_float floor (eval floor env)
  unfolding eval
  eval-IsMeaning = record {
    of_literal = λ z. refl;
    of_binary = λ t l r. refl;
    of_unary = λ t e. refl;
    of_equal = eval-equal;
    of_variable = by_identity;
  }
