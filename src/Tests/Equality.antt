-- ===== src/Tests/Equality.antt =====
-- The comparison of concrete expressions.
use qubus.Base.{ℕ, ◌≡◌, refl, ◌==◌, ==_iff, true, false}
use qubus.Base.Int.{pos}
use qubus.Ir.Expressions.{Expression, UnaryOpTag, integer_literal, unary_operator, bool_literal}
use qubus.Ir.Expressions.Equality.{equal}

same : (n : ℕ) → (n == n) ≡ true
same n = (==_iff n n).1 refl

abbrev minus_three : Expression
minus_three = unary_operator UnaryOpTag.negate (integer_literal (pos 3))

-- A truth value is not even equal to itself.
truth_differs : equal ◌==◌ ◌==◌ (bool_literal true) (bool_literal true) ≡ false
unfolding equal
truth_differs = refl
