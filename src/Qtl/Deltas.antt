-- ===== src/Qtl/Deltas.antt =====
-- The folding of Kronecker deltas: qubus/src/qtl/kronecker_delta_folding_pass.cpp.
pub mod Leaves
pub mod Vanishing
pub mod Binders
pub mod Substitution
pub mod Contraction
pub mod Folding
pub mod Naming
pub mod Scoping
pub mod Renaming
pub mod WellNamed
pub mod Bounded
pub mod Foldable
pub mod Pass
pub mod Stale
use qubus.Base.{
  ℕ, zero, suc, Bool, true, false, not, ◌&&◌, ◌||◌, ltb, if◌then◌else◌, Option, none, some, List,
  [], ◌∷◌, ◌++◌,
}
use qubus.Base.Int.{pos}
use qubus.Base.Results.{Result, ok, fail, out_of_fuel, ◌>>=◌}
use qubus.Ir.Expressions.{Variable, BinaryOpTag, same_variable}
use qubus.Qtl.Expressions.{
  QtlExpression, QtlExpressions, integer_literal, variable_ref, binary_operator, unary_operator,
  intrinsic_function, subscription, kronecker_delta, sum, for_all, nil, cons, is_index,
  substitute_leaves,
}

abbrev pub Bubble : Type 0
Bubble = Variable × Variable

-- `std::less` compares the identities.
abbrev pub make_bubble : Variable → Variable → Bubble
make_bubble first second = if ltb first.id second.id then (first, second) else (second, first)

abbrev pub mentions : Variable → Bubble → Bool
mentions i (first, second) = same_variable i first || same_variable i second

abbrev pub same_bubble : Bubble → Bubble → Bool
same_bubble (a, b) (c, d) = same_variable a c && same_variable b d

unfoldable pub remove_mentioning : Variable → List Bubble → List Bubble
remove_mentioning i [] = []
remove_mentioning i (p ∷ ps) =
    let rest = remove_mentioning i ps in if mentions i p then rest else p ∷ rest

unfoldable pub remove_all : List Variable → List Bubble → List Bubble
unfolding remove_mentioning
remove_all [] ps = ps
remove_all (i ∷ is) ps = remove_all is (remove_mentioning i ps)

unfoldable pub has_bubble : Bubble → List Bubble → Bool
has_bubble p [] = false
has_bubble p (q ∷ qs) = same_bubble q p || has_bubble p qs

-- The bubbles of the first list that are in the second one.
unfoldable pub common : List Bubble → List Bubble → List Bubble
unfolding has_bubble
common [] qs = []
common (p ∷ ps) qs = let rest = common ps qs in if has_bubble p qs then p ∷ rest else rest

-- `delta(index(i), index(j))` with different indices.
abbrev pub delta_bubble : QtlExpression → QtlExpression → List Bubble
delta_bubble (variable_ref i) (variable_ref j) =
    if is_index i && is_index j && not (same_variable i j) then make_bubble i j ∷ [] else []
delta_bubble _ _ = []

-- With the bubbles that the context has.
unfoldable pub collect_bubbles : QtlExpression → List Bubble → List Bubble
unfolding remove_all common
collect_bubbles (sum is a) ps = remove_all is (collect_bubbles a ps)
collect_bubbles (binary_operator BinaryOpTag.plus a b) ps =
    ps ++ common (collect_bubbles a []) (collect_bubbles b [])
collect_bubbles (binary_operator BinaryOpTag.minus a b) ps =
    ps ++ common (collect_bubbles a []) (collect_bubbles b [])
collect_bubbles (binary_operator BinaryOpTag.divides a b) ps = collect_bubbles a ps
collect_bubbles (binary_operator BinaryOpTag.multiplies a b) ps =
    collect_bubbles b (collect_bubbles a ps)
collect_bubbles (kronecker_delta n l r) ps = ps ++ delta_bubble l r
collect_bubbles _ ps = ps

unfoldable pub contains_bubble_with_index : Variable → List Bubble → Option Variable
contains_bubble_with_index i [] = none
contains_bubble_with_index i ((first, second) ∷ ps) =
    let rest = contains_bubble_with_index i ps in
    if same_variable first i
    then some second
    else (if same_variable second i then some first else rest)

abbrev pub trivial_delta : QtlExpression → Option QtlExpression
trivial_delta (kronecker_delta n (variable_ref i) (variable_ref j)) =
    if is_index i && is_index j && same_variable i j then some (integer_literal (pos 1)) else none
trivial_delta _ = none

unfoldable pub eliminate_trivial_deltas : QtlExpression → QtlExpression
unfolding substitute_leaves
eliminate_trivial_deltas e = substitute_leaves trivial_delta e

abbrev pub reference_to : Variable → Variable → QtlExpression → Option QtlExpression
reference_to idx other_idx (variable_ref v) =
    if is_index v && same_variable v idx then some (variable_ref other_idx) else none
reference_to idx other_idx _ = none

unfoldable pub substitute_index : QtlExpression → Variable → Variable → QtlExpression
unfolding substitute_leaves
substitute_index e idx other_idx = substitute_leaves (reference_to idx other_idx) e

-- The loop over the indices of a sum; the bubbles stay those of the body it starts with.
unfoldable pub fold_indices :
    List Bubble → List Variable → QtlExpression → QtlExpression × List Variable
unfolding contains_bubble_with_index eliminate_trivial_deltas substitute_index
fold_indices ps [] new_body = (new_body, [])
fold_indices ps (i ∷ is) new_body = elim (contains_bubble_with_index i ps) [
  | some other ↦ fold_indices ps is (eliminate_trivial_deltas (substitute_index new_body i other))
  | none ↦ let (folded, surviving) = fold_indices ps is new_body in (folded, i ∷ surviving)
]

abbrev pub with_sums : QtlExpression × List Variable → QtlExpression
with_sums (new_body, []) = new_body
with_sums (new_body, i ∷ is) = sum (i ∷ is) new_body

-- The matcher.
unfoldable pub fold_sum : QtlExpression → QtlExpression
unfolding collect_bubbles fold_indices
fold_sum (sum is body) = with_sums (fold_indices (collect_bubbles body []) is body)
fold_sum e = e

module _ (f : QtlExpression → Result QtlExpression) where
  unfoldable pub transform_all : QtlExpressions → Result QtlExpressions
  transform_all nil = ok nil
  transform_all (cons e es) = do e' ← f e; es' ← transform_all es; ok (cons e' es')

  -- The children, each transformed.
  unfoldable pub transform_children : QtlExpression → Result QtlExpression
  unfolding transform_all
  transform_children (binary_operator t l r) = do l' ← f l; r' ← f r; ok (binary_operator t l' r')
  transform_children (unary_operator t e) = do e' ← f e; ok (unary_operator t e')
  transform_children (intrinsic_function n es) = do
    es' ← transform_all es
    ok (intrinsic_function n es')
  transform_children (subscription e es) = do
    e' ← f e
    es' ← transform_all es
    ok (subscription e' es')
  transform_children (kronecker_delta n l r) = do l' ← f l; r' ← f r; ok (kronecker_delta n l' r')
  transform_children (sum is e) = do e' ← f e; ok (sum is e')
  transform_children (for_all is e) = do e' ← f e; ok (for_all is e')
  transform_children e = ok e

-- `pattern::substitute` with the matcher; the fuel bounds the depth.
unfoldable pub fold_kronecker_deltas : ℕ → QtlExpression → Result QtlExpression
unfolding fold_sum transform_children
fold_kronecker_deltas zero e = fail out_of_fuel
fold_kronecker_deltas (suc fuel) e = transform_children (fold_kronecker_deltas fuel) (fold_sum e)
