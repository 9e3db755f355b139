-- ===== src/Ir/Types.antt =====
-- The types of the IR and their equality: qubus/include/qubus/IR/type.hpp, qubus/src/IR/type.cpp.
-- A rank is a natural number here; the rank of a multi-index may be -1 (dynamic).
pub mod Equality
pub mod Hash
use qubus.Base.{ℕ, String, Bool, true, false, ◌&&◌, ◌==◌, str_eq}
use qubus.Base.Int.{ℤ}
use qubus.Base.Results.{Result, ok, fail, exception}

-- `types::struct_` holds a list of members, which is a second type of the block.
mutual
  pub data IrType : Type 0 where
    unknown double float integer bool index integer_range : IrType
    multi_index : ℤ → IrType
    complex : IrType → IrType
    array array_slice : IrType → ℕ → IrType
    struct : String → Members → IrType

  pub data Members : Type 0 where
    nil : Members
    member : IrType → String → Members → Members

-- `operator==(const type&, const type&)`: the specialisations of `type_eq`, and its fallback.
unfoldable pub type_eq : IrType → IrType → Bool
type_eq double double = true
type_eq float float = true
type_eq integer integer = true
type_eq bool bool = true
type_eq index index = true
type_eq (complex s) (complex t) = type_eq s t
type_eq integer_range integer_range = true
type_eq (array s m) (array t n) = type_eq s t && m == n
type_eq (array_slice s m) (array_slice t n) = type_eq s t && m == n
type_eq (struct i ms) (struct j ns) = str_eq i j
type_eq _ _ = false

-- `value_type`.
unfoldable pub value_type : IrType → Result IrType
value_type (array t n) = ok t
value_type (array_slice t n) = ok t
value_type _ = fail exception

-- `struct_::operator[]`: the first member of the name.
unfoldable pub member_type : Members → String → Result IrType
member_type nil id = fail exception
member_type (member t name ms) id =
    let rest = member_type ms id in elim (str_eq name id) [ true ↦ ok t | false ↦ rest ]
