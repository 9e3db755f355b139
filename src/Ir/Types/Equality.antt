-- ===== src/Ir/Types/Equality.antt =====
-- What the equality of types is: an equivalence on the types that it handles.
use qubus.Base.{true, str_eq_iff, ◌≡◌, refl, ◌↔◌, arith}
use qubus.Ir.Types.{IrType, unknown, multi_index, complex, array, array_slice, struct, type_eq}

-- No specialisation of `type_eq` handles an unknown type or a multi-index.
abbrev pub IsComparable : IrType → Type 0
IsComparable unknown = ⊥
IsComparable (multi_index r) = ⊥
IsComparable (complex t) = IsComparable t
IsComparable (array t n) = IsComparable t
IsComparable (array_slice t n) = IsComparable t
IsComparable _ = Unit

refl_of_comparable : (t : IrType) → IsComparable t → type_eq t t ≡ true
unfolding type_eq
refl_of_comparable unknown h = absurd h
refl_of_comparable (multi_index r) h = absurd h
refl_of_comparable (complex t) h = refl_of_comparable t h
refl_of_comparable (array t n) h = ground (arith, refl_of_comparable t h)
refl_of_comparable (array_slice t n) h = ground (arith, refl_of_comparable t h)
refl_of_comparable (struct i ms) h = (str_eq_iff i i).1 refl
refl_of_comparable _ h = refl

comparable_of_eq : (s t : IrType) → type_eq s t ≡ true → IsComparable s
unfolding type_eq
comparable_of_eq (complex s) (complex t) h = comparable_of_eq s t h
comparable_of_eq (array s m) (array t n) h = comparable_of_eq s t (ground arith)
comparable_of_eq (array_slice s m) (array_slice t n) h = comparable_of_eq s t (ground arith)
comparable_of_eq _ _ h = ground arith

-- A type equals itself exactly if no unknown type and no multi-index occurs in it outside structs.
pub type_eq-self_iff : (t : IrType) → (type_eq t t ≡ true) ↔ IsComparable t
type_eq-self_iff t = (comparable_of_eq t t, refl_of_comparable t)
