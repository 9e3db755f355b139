-- ===== src/Analysis/Affine/Conditions.antt =====
-- The extraction and the conversion of qubus/src/affine_constraints.cpp together: what the sets and
-- functions of isl say of the conditions and expressions of the program.
use qubus.Base.{ℕ, Bool, Option, some, ◌≡◌, refl, sym, ap, ◌∙◌}
use qubus.Base.Int.{ℤ, pos, ◌+ℤ◌, leb_ℤ}
use qubus.Base.Results.{Result, ok, ◌>>=◌, >>=-eq-ok, ok-injective}
use qubus.Ir.Expressions.{Expression, BinaryOpTag}
use qubus.Ir.Semantics.{Value, int, truth}
use qubus.Analysis.Affine.{
  AffineExpr, AffineConstraint, wrapped, AffineContext, try_construct_affine_expr,
  try_extract_affine_constraint,
}
use qubus.Analysis.Affine.Ast.{convert_isl_ast_expr_to_qir}
use qubus.Analysis.Affine.ReadBack.{tree_of}
use qubus.Analysis.Affine.Meaning.{affine_value, IsMeaning, IsValuation}
use qubus.Analysis.Affine.Evaluation.{eval-IsMeaning}
use qubus.Analysis.Affine.Numbering.{IsNumbered, IsDeclared}
use qubus.Analysis.Affine.Plain.{IsExact, IsPlain, IsPlainCondition}
use qubus.Analysis.Affine.Isl.{Point, Isl, Reading, Lawful}
use qubus.Analysis.Affine.Conversion.{
  convert_to_isl_aff_expr, convert_to_isl_set, construct_corresponding_space,
}
use qubus.Analysis.Affine.Extraction.{try_construct_affine_expr-Extraction}
use qubus.Analysis.Affine.Constraints.{try_extract_affine_constraint-Extraction}
use qubus.Analysis.Affine.Exactness.{at_point, convert_to_isl_aff_expr-value}
use qubus.Analysis.Affine.Regions.{
  convert_to_isl_set-contains, inequality-contains, greater_of_difference,
}

module _ {same_double same_float : ℕ → ℕ → Bool} {floor : ℤ → ℤ → Result ℤ}
    {meaning : Expression → Result Value}
    (laws : IsMeaning same_double same_float floor meaning) where
  -- An affine expression extracted from a program expression, as a syntax tree of isl with the same
  -- operators and names, is converted in the context that the extraction leaves to a program
  -- expression that has the same integer, if the first has one.
  pub convert_isl_ast_expr_to_qir-tree_of :
      (e : Expression) (ctx ctx' : AffineContext) (a : AffineExpr) (z : ℤ)
      → IsNumbered ctx
      → try_construct_affine_expr same_double same_float e ctx ≡ ok (some a, ctx')
      → meaning e ≡ ok (int z)
      → (convert_isl_ast_expr_to_qir (tree_of a) ctx' >>= meaning) ≡ ok (int z)
  convert_isl_ast_expr_to_qir-tree_of e ctx ctx' a z numbered extracted means =
      let out = try_construct_affine_expr-Extraction laws e ctx (some a, ctx') numbered extracted in
      let back = out.read_back a refl in rw back.converts (back.means z means)

  module _ {isl : Isl} {r : Reading isl} (lawful : Lawful isl r) where
    -- An affine expression extracted from a plain program expression is converted to a function that
    -- has, at a point where the names have the values of what they stand for, the integer that the
    -- program expression has.
    pub function_of_expression :
        (e : Expression) (ctx ctx' : AffineContext) (a : AffineExpr) (f : isl.Aff) (p : Point)
        (z : ℤ)
        → IsNumbered ctx
        → try_construct_affine_expr same_double same_float e ctx ≡ ok (some a, ctx')
        → convert_to_isl_aff_expr isl a (construct_corresponding_space isl ctx') ≡ ok f
        → IsValuation meaning (at_point p) ctx'
        → IsPlain meaning e
        → meaning e ≡ ok (int z)
        → r.value f p ≡ some z
    function_of_expression e ctx ctx' a f p z numbered extracted converted valid plain means =
        let out =
          try_construct_affine_expr-Extraction laws e ctx (some a, ctx') numbered extracted in
        convert_to_isl_aff_expr-value lawful ctx' out.step.numbered p a f z (out.declared a refl)
          (out.exact a (at_point p) refl valid plain) converted
          (out.valued a (at_point p) z refl valid means)

    -- A constraint extracted from a plain condition is converted to a set that contains a point, at
    -- which the names have the values of what they stand for, if and only if the condition is true;
    -- a condition with `>` is not plain.
    pub region_of_condition :
        (e : Expression) (ctx ctx' : AffineContext) (c : AffineConstraint) (d : isl.Region)
        (p : Point) (b : Bool)
        → IsNumbered ctx
        → try_extract_affine_constraint same_double same_float e ctx ≡ ok (some c, ctx')
        → convert_to_isl_set isl c (construct_corresponding_space isl ctx') ≡ ok d
        → IsValuation meaning (at_point p) ctx'
        → IsPlainCondition meaning e
        → meaning e ≡ ok (truth b)
        → r.contains d p ≡ b
    region_of_condition e ctx ctx' c d p b numbered extracted converted valid plain means =
        let out =
          try_extract_affine_constraint-Extraction laws e ctx (some c, ctx') numbered extracted in
        convert_to_isl_set-contains lawful ctx' out.step.numbered p c d b (out.declared c refl)
          (out.exact c (at_point p) refl valid plain) converted
          (out.valued c (at_point p) b refl valid means)

-- Extraction, whatever it finds, keeps the names of the context's tables numbered by the positions
-- of the entries, and an expression that it finds has no names but those of the tables.
pub try_construct_affine_expr-IsNumbered :
    (same_double same_float : ℕ → ℕ → Bool) (e : Expression) (ctx ctx' : AffineContext)
    (o : Option AffineExpr)
    → IsNumbered ctx
    → try_construct_affine_expr same_double same_float e ctx ≡ ok (o, ctx')
    → IsNumbered ctx' × ((a : AffineExpr) → o ≡ some a → IsDeclared ctx' a)
try_construct_affine_expr-IsNumbered same_double same_float e ctx ctx' o numbered h =
    let anything =
      eval-IsMeaning same_double same_float (λ x y. ok x) (λ v. ok (int (pos 0))) λ v w s. refl in
    let out = try_construct_affine_expr-Extraction anything e ctx (o, ctx') numbered h in
    (out.step.numbered, out.declared)

module _ {isl : Isl} {r : Reading isl} (lawful : Lawful isl r) (ctx : AffineContext) where
  -- The set of a comparison by `>` contains a point at which both sides are exact if and only if the
  -- right-hand side is at most one more than the left-hand side, not less than it.
  pub convert_to_isl_set-greater :
      (l e : AffineExpr) (d : isl.Region) (p : Point) (x y : ℤ)
      → IsNumbered ctx
      → IsDeclared ctx l
      → IsDeclared ctx e
      → IsExact (at_point p) l
      → IsExact (at_point p) e
      → convert_to_isl_set isl
          (AffineConstraint.binary_operator BinaryOpTag.greater (wrapped l) (wrapped e))
          (construct_corresponding_space isl ctx)
        ≡ ok d
      → affine_value (at_point p) l ≡ some x
      → affine_value (at_point p) e ≡ some y
      → r.contains d p ≡ leb_ℤ y (x +ℤ pos 1)
  unfolding convert_to_isl_set
  convert_to_isl_set-greater l e d p x y n dl de xl xe h vl ve =
      let space = construct_corresponding_space isl ctx in
      let (a, cl, h₁) = >>=-eq-ok (convert_to_isl_aff_expr isl l space) _ h in
      let (b, ce, h₂) = >>=-eq-ok (convert_to_isl_aff_expr isl e space) _ h₁ in
      let left = convert_to_isl_aff_expr-value lawful ctx n p l a x dl xl cl vl in
      let right = convert_to_isl_aff_expr-value lawful ctx n p e b y de xe ce ve in
      ap (λ s. r.contains s p) (sym (ok-injective h₂))
      ∙ inequality-contains lawful space _ p _
          (lawful.value-add_constant _ (pos 1) p _ (lawful.value-sub a b p x y left right))
      ∙ greater_of_difference x y
