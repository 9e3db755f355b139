-- ===== src/Ir/Inference/Intrinsics.antt =====
-- The table of intrinsic functions: qubus/src/IR/intrinsic_function_table.cpp.
use qubus.Base.{ℕ, zero, suc, Bool, true, false, ◌&&◌, List, [], ◌∷◌, ◌++◌, String, str_eq}
use qubus.Base.Results.{Result, ok, fail, exception}
use qubus.Ir.Types.{IrType, double, float, integer, bool, complex, array, array_slice, type_eq}

pub record Overload : Type 0 where
  pub name : String
  pub arg_types : List IrType
  pub result_type : IrType

overload : String → List IrType → IrType → Overload
overload f args r = record { name = f; arg_types = args; result_type = r }

-- `==` on vectors of types.
unfoldable pub types_eq : List IrType → List IrType → Bool
types_eq [] [] = true
types_eq (s ∷ ss) (t ∷ ts) = type_eq s t && types_eq ss ts
types_eq _ _ = false

-- The overload sets in one list, in the order of `add_overload`: the first match of a name counts.
unfoldable pub find_match : List Overload → String → List IrType → Result IrType
find_match [] f args = fail exception
find_match (o ∷ os) f args =
    let rest = find_match os f args in
    elim (str_eq o.name f && types_eq o.arg_types args) [ true ↦ ok o.result_type | false ↦ rest ]

abbrev pub real_types : List IrType
real_types = double ∷ float ∷ []

abbrev pub math_types : List IrType
math_types = double ∷ float ∷ complex double ∷ complex float ∷ []

-- `extent` of the arrays and slices of the element types, at one rank.
unfoldable pub extents_at : ℕ → List IrType → List Overload
unfolding overload
extents_at rank [] = []
extents_at rank (t ∷ ts) =
    overload "extent" (array t rank ∷ integer ∷ []) integer
    ∷ overload "extent" (array_slice t rank ∷ integer ∷ []) integer
    ∷ extents_at rank ts

-- `for (rank = 1; rank < 13; ++rank)`: `left` counts the rounds.
unfoldable pub extents_from : ℕ → ℕ → List Overload
unfolding extents_at
extents_from zero rank = []
extents_from (suc left) rank =
    extents_at rank (math_types ++ integer ∷ []) ++ extents_from left (suc rank)

unfoldable pub unary_math : List String → List Overload
unfolding overload
unary_math [] = []
unary_math (f ∷ fs) =
    overload f (double ∷ []) double ∷ overload f (float ∷ []) float ∷ unary_math fs

unfoldable pub intrinsic_function_table : List Overload
unfolding overload unary_math extents_from
intrinsic_function_table =
    unary_math ("sin" ∷ "cos" ∷ "tan" ∷ "exp" ∷ "abs" ∷ "sqrt" ∷ [])
    ++ overload "pow" (double ∷ integer ∷ []) double
      ∷ overload "pow" (float ∷ integer ∷ []) float
      ∷ (extents_from 12 1
          ++ overload "delta" (integer ∷ integer ∷ []) integer
            ∷ overload "min" (integer ∷ integer ∷ []) integer
            ∷ overload "max" (integer ∷ integer ∷ []) integer
            ∷ overload "select" (bool ∷ integer ∷ integer ∷ []) integer
            ∷ [])

unfoldable pub lookup_intrinsic_result_type : String → List IrType → Result IrType
unfolding find_match intrinsic_function_table types_eq
lookup_intrinsic_result_type f args = find_match intrinsic_function_table f args
