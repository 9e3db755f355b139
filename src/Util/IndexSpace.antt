-- ===== src/Util/IndexSpace.antt =====
-- Index spaces, util/include/qubus/util/index_space.hpp, of any rank, with bounds that are not
-- negative.
pub mod RowMajor
use qubus.Base.{ℕ, ◌+◌, ◌-◌, ◌*◌, ◌/◌, ltb, if◌then◌else◌, Option, none, some, List, [], ◌∷◌}

-- An element of `bounds_`.
pub record Bounds : Type 0 where
  pub lower : ℕ
  pub upper : ℕ
  pub stride : ℕ

abbrev pub extent : Bounds → ℕ
extent b = b.upper - b.lower

-- The constructor of the iterator.
unfoldable pub first_offset : List Bounds → List ℕ
first_offset [] = []
first_offset (b ∷ bs) = b.lower ∷ first_offset bs

-- `operator++` from the last dimension on; `none` is the end. A dimension that is full goes back to
-- its lower bound, and the first one ends the iteration.
unfoldable pub advance : List Bounds → List ℕ → Option (List ℕ)
unfolding first_offset
advance (b ∷ bs) (o ∷ os) = elim (advance bs os) [
  | some os' ↦ some (o ∷ os')
  | none ↦ if ltb (o + b.stride) b.upper then some ((o + b.stride) ∷ first_offset bs) else none
]
advance _ _ = none

unfoldable pub make_index_space_from_shape : List ℕ → List Bounds
make_index_space_from_shape [] = []
make_index_space_from_shape (n ∷ ns) =
    record { lower = 0; upper = n; stride = 1 } ∷ make_index_space_from_shape ns

unfoldable pub cardinality_from : ℕ → List Bounds → ℕ
cardinality_from acc [] = acc
cardinality_from acc (b ∷ bs) = cardinality_from (acc * (b.upper - b.lower) / b.stride) bs

unfoldable pub cardinality : List Bounds → ℕ
unfolding cardinality_from
cardinality bs = cardinality_from 1 bs

-- The loop of `linearize`: `linear_index += extent * linear_index + off[dim]`.
unfoldable pub linearize_from : ℕ → List ℕ → List Bounds → ℕ
linearize_from linear_index (o ∷ os) (b ∷ bs) =
    linearize_from (linear_index + (extent b * linear_index + o)) os bs
linearize_from linear_index _ _ = linear_index

unfoldable pub linearize : List ℕ → List Bounds → ℕ
unfolding linearize_from
linearize off space = linearize_from 0 off space
