-- ===== src/Ir/Semantics.antt =====
-- The intended meaning of the integer and Boolean expressions of the IR, on 64-bit signed integers:
-- the specification that folding, code generation and the analyses are measured by.
use qubus.Base.{ℕ, ◌^◌, Bool, true, false, not, ◌&&◌, ◌||◌, ltb, if◌then◌else◌}
use qubus.Base.Int.{ℤ, pos, negsuc, ◌+ℤ◌, ◌-ℤ◌, ◌*ℤ◌, quot, rem, ltb_ℤ, leb_ℤ, eqb_ℤ}
use qubus.Base.Results.{Result, ok, fail, exception, undefined_behaviour, ◌>>=◌}
use qubus.Ir.Expressions.{
  Expression, BinaryOpTag, UnaryOpTag, Variable, integer_literal, bool_literal, variable_ref,
  binary_operator, unary_operator, plus, minus, multiplies, divides, modulus, div_floor, equal_to,
  not_equal_to, less, greater, less_equal, greater_equal, logical_and, logical_or,
}

-- `util::index_t` is `std::ptrdiff_t`, of 64 bits.
abbrev pub index_limit : ℕ
index_limit = 2 ^ 63

abbrev pub in_range : ℤ → Bool
in_range (pos n) = ltb n index_limit
in_range (negsuc n) = ltb n index_limit

-- Signed overflow has no value.
abbrev pub checked : ℤ → Result ℤ
checked z = if in_range z then ok z else fail undefined_behaviour

abbrev pub is_zero : ℤ → Bool
is_zero z = eqb_ℤ z (pos 0)

-- An operation that divides.
abbrev pub guarded : ℤ → Result ℤ → Result ℤ
guarded b r = if is_zero b then fail undefined_behaviour else r

-- `==` on truth values.
abbrev pub eqb_bool : Bool → Bool → Bool
eqb_bool true b = b
eqb_bool false b = not b

pub data Value : Type 0 where
  int : ℤ → Value
  truth : Bool → Value

abbrev pub Env : Type 0
Env = Variable → Result Value

abbrev int_of : Result ℤ → Result Value
int_of r = do z ← r; ok (int z)

-- `floor` says what `div_floor` computes on operands that can be divided.
module _ (floor : ℤ → ℤ → Result ℤ) where
  unfoldable pub apply_binary : BinaryOpTag → Value → Value → Result Value
  apply_binary plus (int a) (int b) = int_of (checked (a +ℤ b))
  apply_binary minus (int a) (int b) = int_of (checked (a -ℤ b))
  apply_binary multiplies (int a) (int b) = int_of (checked (a *ℤ b))
  apply_binary divides (int a) (int b) = int_of (guarded b (checked (quot a b)))
  apply_binary modulus (int a) (int b) =
      int_of (guarded b (checked (quot a b) >>= λ _. checked (rem a b)))
  apply_binary div_floor (int a) (int b) = int_of (guarded b (floor a b))
  apply_binary equal_to (int a) (int b) = ok (truth (eqb_ℤ a b))
  apply_binary not_equal_to (int a) (int b) = ok (truth (not (eqb_ℤ a b)))
  apply_binary less (int a) (int b) = ok (truth (ltb_ℤ a b))
  apply_binary greater (int a) (int b) = ok (truth (ltb_ℤ b a))
  apply_binary less_equal (int a) (int b) = ok (truth (leb_ℤ a b))
  apply_binary greater_equal (int a) (int b) = ok (truth (leb_ℤ b a))
  apply_binary logical_and (truth a) (truth b) = ok (truth (a && b))
  apply_binary logical_or (truth a) (truth b) = ok (truth (a || b))
  apply_binary _ _ _ = fail exception

unfoldable pub apply_unary : UnaryOpTag → Value → Result Value
apply_unary UnaryOpTag.plus (int a) = ok (int a)
apply_unary UnaryOpTag.negate (int a) = int_of (checked (pos 0 -ℤ a))
apply_unary UnaryOpTag.logical_not (truth b) = ok (truth (not b))
apply_unary _ _ = fail exception

module _ (floor : ℤ → ℤ → Result ℤ) (env : Env) where
  unfoldable pub eval : Expression → Result Value
  eval (integer_literal z) = ok (int z)
  eval (bool_literal b) = ok (truth b)
  eval (variable_ref v) = env v
  eval (binary_operator t l r) = do x ← eval l; y ← eval r; apply_binary floor t x y
  eval (unary_operator t e) = do x ← eval e; apply_unary t x
  eval _ = fail exception
