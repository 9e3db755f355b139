-- ===== src/Runtime/Layout.antt =====
-- The layout of objects in memory: qubus/src/abi_info.cpp and qubus/src/object_description.cpp, for
-- an ABI where doubles, pointers and `long int` have 8 bytes. A `std::size_t` wraps at 2 ^ 64; one that
-- is stored to a `long int` keeps its bits.
pub mod Arrays
pub mod Objects
use qubus.Base.{
  ℕ, suc, ◌+◌, ◌-◌, ◌*◌, ◌%◌, ◌^◌, ltb, Bool, if◌then◌else◌, max, List, [], ◌∷◌, length,
}
use qubus.Base.Int.{ℤ, pos, negsuc, ◌+ℤ◌}
use qubus.Ir.Semantics.{checked}
use qubus.Base.Results.{Result, ok, fail, exception, ◌>>=◌}
use qubus.Ir.Types.{IrType, double, float, integer, bool, complex}

abbrev pub get_align_of : IrType → ℕ
get_align_of t = 32

unfoldable pub get_size_of : IrType → Result ℕ
get_size_of double = ok 8
get_size_of float = ok 4
get_size_of integer = ok 8
get_size_of bool = ok 1
get_size_of (complex t) = do n ← get_size_of t; ok (2 * n)
get_size_of _ = fail exception

abbrev pub word : ℕ
word = 2 ^ 64

-- A value stored to an `int` of 32 bits and read back as a `std::size_t`.
abbrev pub through_int : ℕ → ℕ
through_int x = if ltb (x % 2 ^ 32) (2 ^ 31) then x % 2 ^ 32 else x % 2 ^ 32 + (2 ^ 64 - 2 ^ 32)

-- `std::accumulate` with the initial value 1, which makes the accumulator an `int`.
unfoldable pub accumulate : ℕ → List ℕ → ℕ
accumulate acc [] = acc
accumulate acc (x ∷ xs) = accumulate (through_int ((acc * x) % word)) xs

pub record ArrayLayout : Type 0 where
  pub size : ℕ
  pub alignment : ℕ
  pub shape_offset : ℕ
  pub shape_size : ℕ
  pub data_offset : ℕ
  pub data_size : ℕ

-- `alignment - position % alignment`.
abbrev pub padding : ℕ → ℕ → ℕ
padding alignment position = alignment - position % alignment

unfoldable pub get_array_layout : IrType → List ℕ → Result ArrayLayout
unfolding get_size_of accumulate
get_array_layout value_type shape = do
  value_type_size ← get_size_of value_type
  size_type_size ← get_size_of integer
  let data_alignment = get_align_of value_type
  let shape_alignment = get_align_of integer
  let shape_size = length shape * size_type_size
  let data_size = (accumulate 1 shape * value_type_size) % word
  let shape_padding = padding shape_alignment size_type_size
  let shape_end = size_type_size + shape_padding + shape_size
  let data_padding = padding data_alignment shape_end
  ok record {
    size = (shape_end + data_padding + data_size) % word;
    alignment = max data_alignment shape_alignment;
    shape_offset = size_type_size + shape_padding;
    shape_size = shape_size;
    data_offset = size_type_size + shape_padding + shape_size + data_padding;
    data_size = data_size;
  }

mutual
  pub data Description : Type 0 where
    array_description : IrType → List ℕ → Description
    scalar_description : IrType → Description
    struct_description : Descriptions → Description

  pub data Descriptions : Type 0 where
    nil : Descriptions
    member : Description → Descriptions → Descriptions

mutual
  pub data ObjectLayout : Type 0 where
    object_layout : ℤ → ℤ → ObjectLayouts → ObjectLayout

  pub data ObjectLayouts : Type 0 where
    none : ObjectLayouts
    partition : ObjectLayout → ObjectLayouts → ObjectLayouts

abbrev pub count_members : Descriptions → ℕ
count_members nil = 0
count_members (member d ds) = suc (count_members ds)

-- A `std::size_t` as a `long int`, and back.
abbrev pub to_long : ℕ → ℤ
to_long n = if ltb n (2 ^ 63) then pos n else negsuc (word - n - 1)

abbrev pub to_size : ℤ → ℕ
to_size (pos n) = n
to_size (negsuc n) = word - suc n

-- `current_position += size` with a `std::size_t`: the sum is one of `std::size_t`.
unfoldable pub advance_size : ℤ → ℕ → ℤ
advance_size position size = to_long ((to_size position + size) % word)

-- `current_position += size` with a `long int`, where an overflow is undefined.
unfoldable pub advance_long : ℤ → ℤ → Result ℤ
advance_long position size = checked (position +ℤ size)

-- The layout, and the position after it.
unfoldable mutual
  unfolding get_size_of get_array_layout advance_size advance_long

  pub compute_layout : Description → ℤ → Result (ObjectLayout × ℤ)
  compute_layout (array_description t shape) position = do
    layout ← get_array_layout t shape
    ok (object_layout position (to_long layout.size) none, advance_size position layout.size)
  compute_layout (scalar_description t) position = do
    size ← get_size_of t
    ok (object_layout position (to_long size) none, advance_size position size)
  compute_layout (struct_description ms) position = do
    let size = to_long ((count_members ms * 8) % word)
    first ← advance_long position size
    partitions ← compute_layouts ms first
    ok (object_layout position size partitions.0, partitions.1)

  pub compute_layouts : Descriptions → ℤ → Result (ObjectLayouts × ℤ)
  compute_layouts nil position = ok (none, position)
  compute_layouts (member d ds) position = do
    first ← compute_layout d position
    rest ← compute_layouts ds first.1
    ok (partition first.0 rest.0, rest.1)
