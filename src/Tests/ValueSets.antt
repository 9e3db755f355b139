-- ===== src/Tests/ValueSets.antt =====
-- Value sets of qubus/src/value_set_analysis.cpp that have no common number: those of an invariant
-- and of the next number.
use qubus.Base.{
  ℕ, ◌==◌, ==_iff, ◌&&◌, Bool, true, false, not, if◌then◌else◌, [], ◌∷◌, ◌≡◌, refl, sym, subst,
  some, &&_parts, arith,
}
use mathlib.Core.Option.{some-injective}
use qubus.Base.Int.{ℤ, pos, ◌+ℤ◌, eqb_ℤ, +ℤ_parts}
use qubus.Base.Results.{ok}
use qubus.Ir.Expressions.{Expression, BinaryOpTag, variable_ref, binary_operator, integer_literal}
use qubus.Ir.Semantics.{int, Env}
use qubus.Analysis.Affine.{constant_name, AffineContext}
use qubus.Analysis.Affine.Isl.{param, set_dim, Point}
use qubus.Analysis.ValueSets.{Images, ImagesReading}
use qubus.Tests.Affine.{n, checker}
use qubus.Tests.Affine.SmallIsl.{Function, param_plus, small_isl, small_reading}

-- All numbers, or a parameter and a number.
data Numbers : Type 0 where
  all_numbers : Numbers
  shifted : ℕ → ℤ → Numbers

abbrev image_of : Function → Numbers
image_of (param_plus k z) = shifted k z
image_of _ = all_numbers

abbrev no_common : Numbers → Numbers → Bool
no_common (shifted j a) (shifted k b) = j == k && not (eqb_ℤ a b)
no_common _ _ = false

abbrev has_number : Numbers → (ℕ → ℤ) → ℤ → Bool
has_number all_numbers ps z = true
has_number (shifted k a) ps z = eqb_ℤ z (ps k +ℤ a)

abbrev small_images : Images small_isl
small_images = record {
  Values = Numbers;
  simplify = λ d. d;
  image = λ f d. image_of f;
  everything = all_numbers;
  have_no_common = no_common;
}

eqb_self : (z : ℤ) → eqb_ℤ z z ≡ true
eqb_self z = ground arith

has_number-image_of :
    (f : Function) (p : Point) (z : ℤ)
    → small_reading.value f p ≡ some z
    → has_number (image_of f) (p param) z ≡ true
has_number-image_of (param_plus k a) p z h =
    rw (sym (some-injective _ _ h)) (eqb_self (p param k +ℤ a))
has_number-image_of _ p z h = refl

none_common_in :
    (v w : Numbers) (ps : ℕ → ℤ) (z : ℤ)
    → no_common v w ≡ true
    → has_number v ps z ≡ true
    → has_number w ps z ≡ false
none_common_in (shifted j a) (shifted k b) ps z h x =
    let same : j ≡ k = (==_iff j k).0 (&&_parts (j == k) (not (eqb_ℤ a b)) h).0 in
    let other : not (eqb_ℤ a b) ≡ true = (&&_parts (j == k) (not (eqb_ℤ a b)) h).1 in
    subst (λ m. eqb_ℤ z (ps m +ℤ b) ≡ false) same
      (ground (arith, other, x, +ℤ_parts (ps j) a, +ℤ_parts (ps j) b))
none_common_in _ _ ps z h x = cc h

abbrev small_images_reading : ImagesReading small_reading small_images
small_images_reading = record {
  has = has_number;
  contains-simplify = λ d p. refl;
  has-image = λ f d p z inside h. has_number-image_of f p z h;
  has-everything = λ ps z. refl;
  none_common = none_common_in;
}

-- At the iteration where i is 9; n is 4 as before.
abbrev later : Env
later v = ok (int (if v.id == 0 then pos 9 else pos 4))

abbrev there : Point
there set_dim k = pos 9
there param k = pos 4

-- n, and n + 1, where 0 <= n.
abbrev invariant : Expression
invariant = variable_ref n

abbrev successor : Expression
successor = binary_operator BinaryOpTag.plus (variable_ref n) (integer_literal (pos 1))

abbrev natural : Expression
natural = binary_operator BinaryOpTag.less_equal (integer_literal (pos 0)) (variable_ref n)

abbrev context : AffineContext
context = record {
  invariant_checker = checker;
  free_variable_id = 0;
  variable_table = [];
  free_constant_id = 1;
  constant_table = (variable_ref n, constant_name 0) ∷ [];
}
