-- ===== src/Analysis/Affine/Connectives.antt =====
-- What comparing and connecting affine expressions of qubus/src/affine_constraints.cpp means.
use qubus.Base.{Bool, true, not, some, ◌≡◌, refl}
use qubus.Base.Int.{ℤ}
use qubus.Base.Results.{Result, ok}
use qubus.Ir.Expressions.{Expression, BinaryOpTag, UnaryOpTag, binary_operator as binary}
use qubus.Ir.Semantics.{Value, int, truth, apply_binary, apply_unary}
use qubus.Analysis.Affine.{AffineExpr, AffineConstraint, wrapped, is_comparison, is_connective}
use qubus.Analysis.Affine.Meaning.{Valuation, constraint_value, compare_values, connect_values}
use qubus.Analysis.Affine.Plain.{IsExact, IsExactConstraint, IsPlain, IsPlainCondition}

pub apply_binary-compares :
    (floor : ℤ → ℤ → Result ℤ) (t : BinaryOpTag) (x y : Value) (b : Bool)
    → is_comparison t ≡ true
    → apply_binary floor t x y ≡ ok (truth b)
    → (i j : ℤ) × (x ≡ int i) × (y ≡ int j) × (compare_values t i j ≡ some b)
unfolding apply_binary
apply_binary-compares floor BinaryOpTag.equal_to (int i) (int j) b c h = (i, j, refl, refl, cc)
apply_binary-compares floor BinaryOpTag.not_equal_to (int i) (int j) b c h = (i, j, refl, refl, cc)
apply_binary-compares floor BinaryOpTag.less (int i) (int j) b c h = (i, j, refl, refl, cc)
apply_binary-compares floor BinaryOpTag.greater (int i) (int j) b c h = (i, j, refl, refl, cc)
apply_binary-compares floor BinaryOpTag.less_equal (int i) (int j) b c h = (i, j, refl, refl, cc)
apply_binary-compares floor BinaryOpTag.greater_equal (int i) (int j) b c h = (i, j, refl, refl, cc)
apply_binary-compares floor _ x y b c h = cc

pub apply_binary-connects :
    (floor : ℤ → ℤ → Result ℤ) (t : BinaryOpTag) (x y : Value) (b : Bool)
    → is_connective t ≡ true
    → apply_binary floor t x y ≡ ok (truth b)
    → (i j : Bool) × (x ≡ truth i) × (y ≡ truth j) × (connect_values t i j ≡ some b)
unfolding apply_binary
apply_binary-connects floor BinaryOpTag.logical_and (truth i) (truth j) b c h =
    (i, j, refl, refl, cc)
apply_binary-connects floor BinaryOpTag.logical_or (truth i) (truth j) b c h =
    (i, j, refl, refl, cc)
apply_binary-connects floor _ x y b c h = cc

pub apply_unary-negates :
    (x : Value) (b : Bool)
    → apply_unary UnaryOpTag.logical_not x ≡ ok (truth b)
    → (i : Bool) × (x ≡ truth i) × (not i ≡ b)
unfolding apply_unary
apply_unary-negates (truth i) b h = (i, refl, cc)
apply_unary-negates (int i) b h = cc

-- A constraint with a value is no wrapped expression.
pub constraint_value-connect :
    (ν : Valuation) (t : BinaryOpTag) (c d : AffineConstraint) (i j : Bool)
    → constraint_value ν c ≡ some i
    → constraint_value ν d ≡ some j
    → constraint_value ν (AffineConstraint.binary_operator t c d) ≡ connect_values t i j
unfolding constraint_value
constraint_value-connect ν t (wrapped e) d i j p q = cc
constraint_value-connect ν t (AffineConstraint.binary_operator u x y) d i j p q = rw (p, q) refl
constraint_value-connect ν t (AffineConstraint.unary_operator u x) d i j p q = rw (p, q) refl

module _ (meaning : Expression → Result Value) (ν : Valuation) where
  pub compare-IsExact :
      (t : BinaryOpTag) (l r : Expression) (x y : AffineExpr)
      → is_comparison t ≡ true
      → IsPlainCondition meaning (binary t l r)
      → (IsPlain meaning l → IsExact ν x)
      → (IsPlain meaning r → IsExact ν y)
      → IsExactConstraint ν (AffineConstraint.binary_operator t (wrapped x) (wrapped y))
  compare-IsExact BinaryOpTag.greater l r x y c plain p q = absurd plain
  compare-IsExact BinaryOpTag.logical_and l r x y c plain p q = cc c
  compare-IsExact BinaryOpTag.logical_or l r x y c plain p q = cc c
  compare-IsExact _ l r x y c plain p q = (p plain.0, q plain.1)

  pub connect-IsExact :
      (t : BinaryOpTag) (l r : Expression) (c d : AffineConstraint)
      → is_connective t ≡ true
      → IsPlainCondition meaning (binary t l r)
      → (IsPlainCondition meaning l → IsExactConstraint ν c)
      → (IsPlainCondition meaning r → IsExactConstraint ν d)
      → IsExactConstraint ν (AffineConstraint.binary_operator t c d)
  connect-IsExact BinaryOpTag.logical_and l r c d h plain p q = (p plain.0, q plain.1)
  connect-IsExact BinaryOpTag.logical_or l r c d h plain p q = (p plain.0, q plain.1)
  connect-IsExact _ l r c d h plain p q = cc h
