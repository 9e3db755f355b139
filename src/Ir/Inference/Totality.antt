-- ===== src/Ir/Inference/Totality.antt =====
-- Type inference recurs on the tree of the expression, so it never asks for fuel.
use qubus.Base.{List, [], ◌∷◌, String, arith}
use qubus.Base.Results.{IsFueled, >>=-IsFueled, if-IsFueled}
use qubus.Ir.Types.{
  IrType, Members, value_type, member_type, integer, nil as no_member, member, double, float,
  complex,
}
use qubus.Ir.Inference.{typeof_, typeof_all, type_of_struct, is_comparison}
use qubus.Ir.Inference.CommonType.{common_type}
use qubus.Ir.Inference.Intrinsics.{
  Overload, find_match, intrinsic_function_table, lookup_intrinsic_result_type,
}
use qubus.Ir.Expressions.{
  Expression, Expressions, nil, cons, binary_operator, unary_operator, subscription,
  intrinsic_function, member_access,
}

common_type-IsFueled : (s t : IrType) → IsFueled (common_type s t)
unfolding common_type
common_type-IsFueled (complex s) (complex t) =
    >>=-IsFueled (common_type s t) _ (common_type-IsFueled s t) (λ _ _. tt)
common_type-IsFueled (complex s) double =
    >>=-IsFueled (common_type s double) _ (common_type-IsFueled s double) (λ _ _. tt)
common_type-IsFueled (complex s) float =
    >>=-IsFueled (common_type s float) _ (common_type-IsFueled s float) (λ _ _. tt)
common_type-IsFueled (complex s) integer =
    >>=-IsFueled (common_type s integer) _ (common_type-IsFueled s integer) (λ _ _. tt)
common_type-IsFueled double (complex t) =
    >>=-IsFueled (common_type double t) _ (common_type-IsFueled double t) (λ _ _. tt)
common_type-IsFueled float (complex t) =
    >>=-IsFueled (common_type float t) _ (common_type-IsFueled float t) (λ _ _. tt)
common_type-IsFueled integer (complex t) =
    >>=-IsFueled (common_type integer t) _ (common_type-IsFueled integer t) (λ _ _. tt)
common_type-IsFueled _ _ = ground arith

find_match-IsFueled :
    (os : List Overload) (f : String) (ts : List IrType) → IsFueled (find_match os f ts)
unfolding find_match
find_match-IsFueled [] f ts = tt
find_match-IsFueled (o ∷ os) f ts = ground (arith, find_match-IsFueled os f ts)

member_type-IsFueled : (ms : Members) (m : String) → IsFueled (member_type ms m)
unfolding member_type
member_type-IsFueled no_member m = tt
member_type-IsFueled (member t id ms) m = ground (arith, member_type-IsFueled ms m)

value_type-IsFueled : (t : IrType) → IsFueled (value_type t)
unfolding value_type
value_type-IsFueled t = ground arith

type_of_struct-IsFueled : (t : IrType) → IsFueled (type_of_struct t)
unfolding type_of_struct
type_of_struct-IsFueled t = ground arith

lookup-IsFueled : (f : String) (ts : List IrType) → IsFueled (lookup_intrinsic_result_type f ts)
unfolding lookup_intrinsic_result_type
lookup-IsFueled f ts = find_match-IsFueled intrinsic_function_table f ts

mutual
  unfolding typeof_

  pub typeof_-IsFueled : (e : Expression) → IsFueled (typeof_ e)
  typeof_-IsFueled (binary_operator t l r) = if-IsFueled (is_comparison t) _ _ tt (
      >>=-IsFueled (typeof_ l) _ (typeof_-IsFueled l)
        λ a _. >>=-IsFueled (typeof_ r) _ (typeof_-IsFueled r) λ b _. common_type-IsFueled a b)
  typeof_-IsFueled (unary_operator t e) = typeof_-IsFueled e
  typeof_-IsFueled (subscription e es) = >>=-IsFueled (typeof_ e) _ (typeof_-IsFueled e) λ t _.
      >>=-IsFueled (value_type t) _ (value_type-IsFueled t)
        λ v _. >>=-IsFueled (typeof_all es) _ (typeof_all-IsFueled es) λ ts _. ground arith
  typeof_-IsFueled (intrinsic_function f es) =
      >>=-IsFueled (typeof_all es) _ (typeof_all-IsFueled es) λ ts _. lookup-IsFueled f ts
  typeof_-IsFueled (member_access e m) = >>=-IsFueled (typeof_ e) _ (typeof_-IsFueled e) λ t _.
      >>=-IsFueled (type_of_struct t) _ (type_of_struct-IsFueled t)
        λ ms _. member_type-IsFueled ms m
  typeof_-IsFueled _ = tt

  typeof_all-IsFueled : (es : Expressions) → IsFueled (typeof_all es)
  typeof_all-IsFueled nil = tt
  typeof_all-IsFueled (cons e es) =
      >>=-IsFueled (typeof_ e) _ (typeof_-IsFueled e)
        λ t _. >>=-IsFueled (typeof_all es) _ (typeof_all-IsFueled es) λ ts _. tt
