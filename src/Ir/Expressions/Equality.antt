-- ===== src/Ir/Expressions/Equality.antt =====
-- The equality of expressions: `equal` of qubus/src/IR/expression.cpp, and `operator==` of each
-- class that is registered there or by its own file. The comparison of the floating-point values,
-- which is not that of the bits, is a parameter.
use qubus.Base.{
  ℕ, Bool, true, false, ◌&&◌, ◌==◌, ==_iff, str_eq, str_eq_iff, ◌≡◌, refl, ◌↔◌, arith, List, [],
  ◌∷◌,
}
use qubus.Base.Int.{ℤ, eqb_ℤ}
use qubus.Ir.Types.{type_eq}
use qubus.Ir.Types.Equality.{IsComparable, type_eq-self_iff}
use qubus.Ir.Expressions.{
  Expression, Expressions, Variable, BinaryOpTag, UnaryOpTag, ExecutionOrder, same_variable,
  double_literal, float_literal, integer_literal, bool_literal, variable_ref, binary_operator,
  unary_operator, type_conversion, intrinsic_function, subscription, member_access, construct,
  integer_range, compound, for_loop, if_then, if_else, local_variable_def, macro, sum, delta, nil,
  cons,
}

-- The position of an enumerator.
abbrev pub binary_tag : BinaryOpTag → ℕ
binary_tag BinaryOpTag.nop = 0
binary_tag BinaryOpTag.plus = 1
binary_tag BinaryOpTag.minus = 2
binary_tag BinaryOpTag.multiplies = 3
binary_tag BinaryOpTag.divides = 4
binary_tag BinaryOpTag.modulus = 5
binary_tag BinaryOpTag.div_floor = 6
binary_tag BinaryOpTag.assign = 7
binary_tag BinaryOpTag.plus_assign = 8
binary_tag BinaryOpTag.equal_to = 9
binary_tag BinaryOpTag.not_equal_to = 10
binary_tag BinaryOpTag.less = 11
binary_tag BinaryOpTag.greater = 12
binary_tag BinaryOpTag.less_equal = 13
binary_tag BinaryOpTag.greater_equal = 14
binary_tag BinaryOpTag.logical_and = 15
binary_tag BinaryOpTag.logical_or = 16

abbrev pub unary_tag : UnaryOpTag → ℕ
unary_tag UnaryOpTag.nop = 0
unary_tag UnaryOpTag.plus = 1
unary_tag UnaryOpTag.negate = 2
unary_tag UnaryOpTag.logical_not = 3

abbrev pub order_tag : ExecutionOrder → ℕ
order_tag ExecutionOrder.sequential = 0
order_tag ExecutionOrder.unordered = 1
order_tag ExecutionOrder.parallel = 2

unfoldable pub same_variables : List Variable → List Variable → Bool
same_variables [] [] = true
same_variables (v ∷ vs) (w ∷ ws) = same_variable v w && same_variables vs ws
same_variables _ _ = false

-- A pair that no specialisation takes is unequal.
module _ (same_double same_float : ℕ → ℕ → Bool) where
  unfoldable mutual
    pub equal : Expression → Expression → Bool
    equal (binary_operator s a b) (binary_operator t c d) =
        binary_tag s == binary_tag t && equal a c && equal b d
    equal (unary_operator s a) (unary_operator t b) = unary_tag s == unary_tag t && equal a b
    equal (float_literal x) (float_literal y) = same_float x y
    equal (double_literal x) (double_literal y) = same_double x y
    equal (integer_literal x) (integer_literal y) = eqb_ℤ x y
    equal (compound o es) (compound q fs) = order_tag o == order_tag q && equal_all es fs
    equal (for_loop o v l u i b) (for_loop q w k m j c) =
        order_tag o == order_tag q
        && same_variable v w
        && equal l k
        && equal u m
        && equal i j
        && equal b c
    equal (intrinsic_function f es) (intrinsic_function g fs) = str_eq f g && equal_all es fs
    equal (subscription e es) (subscription f fs) = equal e f && equal_all es fs
    equal (type_conversion s e) (type_conversion t f) = type_eq s t && equal e f
    equal (variable_ref v) (variable_ref w) = same_variable v w
    equal (sum vs a e) (sum ws b f) = same_variables vs ws && equal e f
    equal (delta n i j) (delta m k l) = eqb_ℤ n m && equal i k && equal j l
    equal _ _ = false

    pub equal_all : Expressions → Expressions → Bool
    equal_all nil nil = true
    equal_all (cons e es) (cons f fs) = equal e f && equal_all es fs
    equal_all _ _ = false

-- Built from the registered classes, by conversions to comparable types only.
abbrev mutual
  pub IsRegistered : Expression → Type 0
  IsRegistered (bool_literal b) = ⊥
  IsRegistered (member_access e m) = ⊥
  IsRegistered (construct t es) = ⊥
  IsRegistered (integer_range b e s) = ⊥
  IsRegistered (if_then c t) = ⊥
  IsRegistered (if_else c t f) = ⊥
  IsRegistered (local_variable_def v e) = ⊥
  IsRegistered (macro ps e) = ⊥
  IsRegistered (binary_operator t l r) = IsRegistered l × IsRegistered r
  IsRegistered (unary_operator t e) = IsRegistered e
  IsRegistered (type_conversion t e) = IsComparable t × IsRegistered e
  IsRegistered (intrinsic_function f es) = AllRegistered es
  IsRegistered (subscription e es) = IsRegistered e × AllRegistered es
  IsRegistered (compound o es) = AllRegistered es
  IsRegistered (for_loop o v l u i b) =
      IsRegistered l × IsRegistered u × IsRegistered i × IsRegistered b
  IsRegistered (sum vs a e) = IsRegistered e
  IsRegistered (delta n i j) = IsRegistered i × IsRegistered j
  IsRegistered _ = Unit

  pub AllRegistered : Expressions → Type 0
  AllRegistered nil = Unit
  AllRegistered (cons e es) = IsRegistered e × AllRegistered es

same_variables_self : (vs : List Variable) → same_variables vs vs ≡ true
unfolding same_variables
same_variables_self [] = refl
same_variables_self (v ∷ vs) = ground (arith, same_variables_self vs, ==_iff v.id v.id)

tag_self : (n : ℕ) → (n == n) ≡ true
tag_self n = (==_iff n n).1 refl

integer_self : (z : ℤ) → eqb_ℤ z z ≡ true
integer_self z = ground arith

module _ (same_double same_float : ℕ → ℕ → Bool) (double_self : (x : ℕ) → same_double x x ≡ true)
    (float_self : (x : ℕ) → same_float x x ≡ true) where
  mutual
    unfolding equal

    equal_of_registered :
        (e : Expression) → IsRegistered e → equal same_double same_float e e ≡ true
    equal_of_registered (binary_operator t l r) h =
        ground
          (arith, tag_self (binary_tag t), equal_of_registered l h.0, equal_of_registered r h.1)
    equal_of_registered (unary_operator t e) h =
        ground (arith, tag_self (unary_tag t), equal_of_registered e h)
    equal_of_registered (float_literal x) h = float_self x
    equal_of_registered (double_literal x) h = double_self x
    equal_of_registered (integer_literal x) h = integer_self x
    equal_of_registered (compound o es) h =
        ground (arith, tag_self (order_tag o), equal_all_of_registered es h)
    equal_of_registered (for_loop o v l u i b) h = ground (
      arith,
      tag_self (order_tag o),
      tag_self v.id,
      equal_of_registered l h.0,
      equal_of_registered u h.1,
      equal_of_registered i h.2,
      equal_of_registered b h.3,
    )
    equal_of_registered (intrinsic_function f es) h =
        ground (arith, (str_eq_iff f f).1 refl, equal_all_of_registered es h)
    equal_of_registered (subscription e es) h =
        ground (arith, equal_of_registered e h.0, equal_all_of_registered es h.1)
    equal_of_registered (type_conversion t e) h =
        ground (arith, (type_eq-self_iff t).1 h.0, equal_of_registered e h.1)
    equal_of_registered (variable_ref v) h = tag_self v.id
    equal_of_registered (sum vs a e) h =
        ground (arith, same_variables_self vs, equal_of_registered e h)
    equal_of_registered (delta n i j) h =
        ground (arith, integer_self n, equal_of_registered i h.0, equal_of_registered j h.1)
    equal_of_registered _ h = absurd h

    equal_all_of_registered :
        (es : Expressions) → AllRegistered es → equal_all same_double same_float es es ≡ true
    equal_all_of_registered nil h = refl
    equal_all_of_registered (cons e es) h =
        ground (arith, equal_of_registered e h.0, equal_all_of_registered es h.1)

  mutual
    unfolding equal

    IsRegistered-equal : (e : Expression) → equal same_double same_float e e ≡ true → IsRegistered e
    IsRegistered-equal (binary_operator t l r) h =
        (IsRegistered-equal l (ground arith), IsRegistered-equal r (ground arith))
    IsRegistered-equal (unary_operator t e) h = IsRegistered-equal e (ground arith)
    IsRegistered-equal (compound o es) h = AllRegistered-equal_all es (ground arith)
    IsRegistered-equal (for_loop o v l u i b) h = (
      IsRegistered-equal l (ground arith),
      IsRegistered-equal u (ground arith),
      IsRegistered-equal i (ground arith),
      IsRegistered-equal b (ground arith),
    )
    IsRegistered-equal (intrinsic_function f es) h = AllRegistered-equal_all es (ground arith)
    IsRegistered-equal (subscription e es) h =
        (IsRegistered-equal e (ground arith), AllRegistered-equal_all es (ground arith))
    IsRegistered-equal (type_conversion t e) h =
        ((type_eq-self_iff t).0 (ground arith), IsRegistered-equal e (ground arith))
    IsRegistered-equal (sum vs a e) h = IsRegistered-equal e (ground arith)
    IsRegistered-equal (delta n i j) h =
        (IsRegistered-equal i (ground arith), IsRegistered-equal j (ground arith))
    IsRegistered-equal _ h = ground arith

    AllRegistered-equal_all :
        (es : Expressions) → equal_all same_double same_float es es ≡ true → AllRegistered es
    AllRegistered-equal_all nil h = tt
    AllRegistered-equal_all (cons e es) h =
        (IsRegistered-equal e (ground arith), AllRegistered-equal_all es (ground arith))

  -- An expression equals itself exactly if it is built from the classes for which a comparison is
  -- registered, and converts to comparable types only. Floating-point values equal themselves.
  pub equal-self_iff : (e : Expression) → (equal same_double same_float e e ≡ true) ↔ IsRegistered e
  equal-self_iff e = (IsRegistered-equal e, equal_of_registered e)
