-- ===== src/Tests/Runtime/Layouts.antt =====
-- Layouts of concrete objects.
use qubus.Base.{ℕ, ◌+◌, ◌%◌, ◌≤◌, ◌≡◌, refl, arith, [], ◌∷◌}
use qubus.Base.Int.{pos}
use qubus.Base.Results.{ok}
use qubus.Ir.Types.{double, bool, integer}
use qubus.Runtime.Layout.{
  get_align_of, get_size_of, ArrayLayout, get_array_layout, scalar_description, struct_description,
  member, nil, Description, ObjectLayout, compute_layout,
}
use qubus.Runtime.Layout.Arrays.{product, get_array_layout_lem}
use qubus.Runtime.Layout.Objects.{regions, IsTiled, space_of, compute_layout-IsTiled}

abbrev three_by_four : ArrayLayout
three_by_four = record {
  size = 160;
  alignment = 32;
  shape_offset = 32;
  shape_size = 16;
  data_offset = 64;
  data_size = 96;
}

three_by_four_is : get_array_layout double (3 ∷ 4 ∷ []) ≡ ok three_by_four
unfolding get_array_layout
three_by_four_is = refl

get_array_layout_lem_example :
    (32 % get_align_of integer ≡ 0)
    × (64 % get_align_of double ≡ 0)
    × (8 ≤ 32)
    × (32 + 16 ≤ 64)
    × (64 + 96 ≡ 160)
get_array_layout_lem_example =
    get_array_layout_lem double (3 ∷ 4 ∷ []) three_by_four three_by_four_is (omega arith)

double_size : get_size_of double ≡ ok 8
unfolding get_size_of
double_size = refl

bool_size : get_size_of bool ≡ ok 1
unfolding get_size_of
bool_size = refl

twelve_elements : product (3 ∷ 4 ∷ []) ≡ 12
unfolding product
twelve_elements = refl

abbrev one : ℕ
one = 1

abbrev a_pair : Description
a_pair =
    struct_description (member (scalar_description double) (member (scalar_description bool) nil))

pair_space : space_of a_pair ≡ ok 25
unfolding space_of get_size_of
pair_space = refl

compute_layout-IsTiled_example :
    (l : ObjectLayout) × (compute_layout a_pair (pos 40) ≡ ok (l, pos 65))
    × IsTiled 40 (regions l) 65
compute_layout-IsTiled_example = compute_layout-IsTiled a_pair 40 25 pair_space (omega arith)
