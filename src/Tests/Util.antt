-- ===== src/Tests/Util.antt =====
-- The index space of a 2 by 3 shape.
use qubus.Base.{ℕ, ◌≡◌, refl, arith, some, List, [], ◌∷◌}
use qubus.Util.IndexSpace.{advance, make_index_space_from_shape}
use qubus.Util.IndexSpace.RowMajor.{IsInside, IsNext, advance-IsNext}

abbrev shape : List ℕ
shape = 2 ∷ 3 ∷ []

abbrev end_of_row : List ℕ
end_of_row = 0 ∷ 2 ∷ []

shape-IsInside : IsInside shape end_of_row
shape-IsInside = (omega arith, (omega arith, tt))

next_row : advance (make_index_space_from_shape shape) end_of_row ≡ some (1 ∷ 0 ∷ [])
unfolding advance make_index_space_from_shape
next_row = refl

advance-IsNext_example :
    IsNext shape end_of_row (advance (make_index_space_from_shape shape) end_of_row)
advance-IsNext_example = advance-IsNext shape end_of_row shape-IsInside
