-- ===== src/Analysis/Affine/Exactness.antt =====
-- `convert_to_isl_aff_expr` of qubus/src/affine_constraints.cpp keeps the value of an expression
-- whose operations isl computes as C++ does.
use qubus.Base.{
  arith, subst, inl, inr, Bool-cases, ℕ, suc, Bool, true, false, ◌||◌, Option, none, some, ◌≡◌,
  refl, sym, ap, ◌∙◌,
}
use mathlib.Core.Option.{some-injective}
use qubus.Base.Int.{ℤ, pos, negsuc, rem}
use qubus.Base.Results.{ok, >>=-eq-ok, ok-injective}
use qubus.Ir.Semantics.{is_zero}
use qubus.Ir.Expressions.{BinaryOpTag, UnaryOpTag}
use qubus.Analysis.Affine.{
  Name, variable_name, constant_name, AffineExpr, affine_variable, affine_constant, integer_literal,
  AffineContext,
}
use qubus.Analysis.Affine.Meaning.{Valuation, affine_value, bind_option, apply_affine, apply_sign}
use qubus.Analysis.Affine.Plain.{is_literal, IsExact, IsNatural}
use qubus.Analysis.Affine.Isl.{DimType, param, set_dim, Point, Isl, Reading, Lawful}
use qubus.Analysis.Affine.Conversion.{
  convert_binary, convert_unary, named_dim, convert_to_isl_aff_expr, construct_corresponding_space,
}
use qubus.Analysis.Affine.Numbering.{IsNumbered, IsDeclared}
use qubus.Analysis.Affine.Spaces.{finds_variable, finds_constant}

-- The values of the names at a point of the context's space.
abbrev pub at_point : Point → Valuation
at_point p (variable_name k) = p set_dim k
at_point p (constant_name k) = p param k

IsExact-parts :
    (ν : Valuation) (t : BinaryOpTag) (l r : AffineExpr)
    → IsExact ν (AffineExpr.binary_operator t l r)
    → IsExact ν l × IsExact ν r
IsExact-parts ν BinaryOpTag.divides l r h = absurd h
IsExact-parts ν BinaryOpTag.multiplies l r h = (h.0, h.1)
IsExact-parts ν BinaryOpTag.modulus l (integer_literal z) h = (h.0, tt)
IsExact-parts ν BinaryOpTag.modulus l _ h = absurd h.2
IsExact-parts ν t l r h = h

pub bind_option-eq-some {ℓ} :
    {A B : Type ℓ} (o : Option A) (f : A → Option B) (b : B)
    → bind_option o f ≡ some b
    → (a : A) × (o ≡ some a) × (f a ≡ some b)
bind_option-eq-some none f b h = cc h
bind_option-eq-some (some a) f b h = (a, refl, h)

module _ {isl : Isl} {r : Reading isl} (laws : Lawful isl r) where
  named_dim-eq :
      (s : isl.Space) (t : _) (n : Name) (k : ℕ) (a : isl.Aff)
      → isl.find_dim_by_name s t n ≡ some k
      → named_dim isl s t n ≡ ok a
      → a ≡ isl.dimension s t k
  named_dim-eq s t n k a f h = sym (ok-injective (rw (f, named_dim) at h))

  is_cst-literal :
      (e : AffineExpr) (s : isl.Space) (a : isl.Aff)
      → is_literal e ≡ true
      → convert_to_isl_aff_expr isl e s ≡ ok a
      → isl.is_cst a ≡ true
  unfolding convert_to_isl_aff_expr
  is_cst-literal (integer_literal z) s a l h =
      ap isl.is_cst (sym (ok-injective h)) ∙ laws.is_cst-literal s z
  is_cst-literal _ s a l h = cc

  module _ (ctx : AffineContext) (n : IsNumbered ctx) (p : Point) where
    abbrev space : isl.Space
    space = construct_corresponding_space isl ctx

    constant_factor :
        (l e : AffineExpr) (a b : isl.Aff)
        → convert_to_isl_aff_expr isl l space ≡ ok a
        → convert_to_isl_aff_expr isl e space ≡ ok b
        → (is_literal l || is_literal e) ≡ true
        → (isl.is_cst a || isl.is_cst b) ≡ true
    constant_factor l e a b cl ce h = elim (Bool-cases (is_literal l)) [
      | inl q ↦ rw (is_cst-literal l space a q cl) refl
      | inr q ↦ either (isl.is_cst a) (is_cst-literal e space b (rw q at h) ce)
    ]
      where
        either : (c : Bool) {d : Bool} → d ≡ true → (c || d) ≡ true
        either c h = ground (arith, h)

    -- Both operands have been converted to functions with their values.
    binary-value :
        (t : BinaryOpTag) (l e : AffineExpr) (a b c : isl.Aff) (x y z : ℤ)
        → IsExact (at_point p) (AffineExpr.binary_operator t l e)
        → convert_to_isl_aff_expr isl l space ≡ ok a
        → convert_to_isl_aff_expr isl e space ≡ ok b
        → affine_value (at_point p) l ≡ some x
        → affine_value (at_point p) e ≡ some y
        → r.value a p ≡ some x
        → r.value b p ≡ some y
        → convert_binary isl t a b ≡ ok c
        → apply_affine t x y ≡ some z
        → r.value c p ≡ some z
    unfolding affine_value convert_to_isl_aff_expr rem
    binary-value BinaryOpTag.plus l e a b c x y z ex cl ce vl ve va vb h v =
        subst (λ d. r.value d p ≡ some z) (ok-injective h) (laws.value-add a b p x y va vb ∙ v)
    binary-value BinaryOpTag.minus l e a b c x y z ex cl ce vl ve va vb h v =
        subst (λ d. r.value d p ≡ some z) (ok-injective h) (laws.value-sub a b p x y va vb ∙ v)
    binary-value BinaryOpTag.multiplies l e a b c x y z ex cl ce vl ve va vb h v =
        subst (λ d. r.value d p ≡ some z) (ok-injective h)
          (laws.value-mul a b p x y (constant_factor l e a b cl ce ex.2) va vb ∙ v)
    binary-value BinaryOpTag.modulus l (integer_literal (pos (suc m))) a b c (pos x) y z ex cl ce vl
          ve va vb h v =
        let b_is : b ≡ isl.literal space (pos (suc m)) = sym (ok-injective ce) in
        let constant : isl.is_cst b ≡ true =
          ap isl.is_cst b_is ∙ laws.is_cst-literal space (pos (suc m)) in
        let nonzero : is_zero (pos (suc m)) ≡ false = ground arith in
        let divisor : isl.constant_value b ≡ pos (suc m) =
          ap isl.constant_value b_is ∙ laws.constant_value-literal space (pos (suc m)) in
        subst (λ d. r.value d p ≡ some z) (ok-injective (rw (constant, divisor) at h))
          (laws.value-mod_val a p x (suc m) (omega arith) va
            ∙ rw (sym (some-injective _ _ ve), nonzero) at v)
    binary-value BinaryOpTag.modulus l e a b c (negsuc x) y z ex cl ce vl ve va vb h v =
        absurd (subst IsNatural vl ex.1)
    binary-value BinaryOpTag.modulus l e a b c x y z ex cl ce vl ve va vb h v = absurd ex.2
    binary-value BinaryOpTag.divides l e a b c x y z ex cl ce vl ve va vb h v = absurd ex
    binary-value t l e a b c x y z ex cl ce vl ve va vb h v = cc

    unary-value :
        (t : UnaryOpTag) (a c : isl.Aff) (x z : ℤ)
        → r.value a p ≡ some x
        → convert_unary isl t a ≡ ok c
        → apply_sign t x ≡ some z
        → r.value c p ≡ some z
    unary-value UnaryOpTag.plus a c x z va h v =
        subst (λ d. r.value d p ≡ some z) (ok-injective h) (va ∙ v)
    unary-value UnaryOpTag.negate a c x z va h v =
        subst (λ d. r.value d p ≡ some z) (ok-injective h) (laws.value-neg a p x va ∙ v)
    unary-value t a c x z va h v = cc

    dimension-value :
        (t : DimType) (m : Name) (k : ℕ) (a : isl.Aff)
        → isl.find_dim_by_name space t m ≡ some k
        → named_dim isl space t m ≡ ok a
        → r.value a p ≡ some (p t k)
    dimension-value t m k a found h =
        ap (λ d. r.value d p) (named_dim-eq space t m k a found h)
        ∙ laws.value-dimension space t k p

    -- The function has the value of the expression at each point where that is exact.
    pub convert_to_isl_aff_expr-value :
        (e : AffineExpr) (a : isl.Aff) (z : ℤ)
        → IsDeclared ctx e
        → IsExact (at_point p) e
        → convert_to_isl_aff_expr isl e space ≡ ok a
        → affine_value (at_point p) e ≡ some z
        → r.value a p ≡ some z
    unfolding convert_to_isl_aff_expr affine_value
    convert_to_isl_aff_expr-value (AffineExpr.binary_operator t l e) a z declared exact h v =
        let (b, cl, h₁) = >>=-eq-ok (convert_to_isl_aff_expr isl l space) _ h in
        let (c, ce, h₂) = >>=-eq-ok (convert_to_isl_aff_expr isl e space) _ h₁ in
        let (x, vl, v₁) = bind_option-eq-some (affine_value (at_point p) l) _ z v in
        let (y, ve, v₂) = bind_option-eq-some (affine_value (at_point p) e) _ z v₁ in
        let (left, right) = IsExact-parts (at_point p) t l e exact in
        binary-value t l e b c a x y z exact cl ce vl ve
          (convert_to_isl_aff_expr-value l b x declared.0 left cl vl)
          (convert_to_isl_aff_expr-value e c y declared.1 right ce ve) h₂ v₂
    convert_to_isl_aff_expr-value (AffineExpr.unary_operator t e) a z declared exact h v =
        let (b, ce, h₁) = >>=-eq-ok (convert_to_isl_aff_expr isl e space) _ h in
        let (x, ve, v₁) = bind_option-eq-some (affine_value (at_point p) e) _ z v in
        unary-value t b a x z (convert_to_isl_aff_expr-value e b x declared exact ce ve) h₁ v₁
    convert_to_isl_aff_expr-value (integer_literal y) a z declared exact h v =
        ap (λ d. r.value d p) (sym (ok-injective h)) ∙ laws.value-literal space y p ∙ v
    convert_to_isl_aff_expr-value (affine_variable (variable_name k)) a z declared exact h v =
        dimension-value set_dim (variable_name k) k a (finds_variable laws ctx k n declared) h ∙ v
    convert_to_isl_aff_expr-value (affine_constant (constant_name k)) a z declared exact h v =
        dimension-value param (constant_name k) k a (finds_constant laws ctx k n declared) h ∙ v
    convert_to_isl_aff_expr-value _ a z declared exact h v = absurd declared
