-- ===== src/Ir/Inference/CommonType.antt =====
-- The usual arithmetic conversions, `common_type` of qubus/src/IR/type_inference.cpp, against
-- their specification: the join of an order on the types.
use qubus.Base.{◌≡◌, refl, sym, ap, subst, ◌∙◌, ◌↔◌, arith}
use qubus.Base.Results.{Result, ok, fail, exception, ◌>>=◌}
use qubus.Ir.Types.{
  IrType, unknown, double, float, integer, bool, index, integer_range, multi_index, complex, array,
  array_slice, struct,
}

-- `types::complex` of the common type of the parts.
abbrev make_complex : Result IrType → Result IrType
make_complex r = do t ← r; ok (complex t)

-- The table of specialisations; any other pair of types has no implementation, which is an error.
unfoldable pub common_type : IrType → IrType → Result IrType
common_type double double = ok double
common_type float float = ok float
common_type integer integer = ok integer
common_type bool bool = ok bool
common_type index index = ok index
common_type double integer = ok double
common_type integer double = ok double
common_type float integer = ok float
common_type integer float = ok float
common_type double float = ok double
common_type float double = ok double
common_type (complex s) double = make_complex (common_type s double)
common_type double (complex t) = make_complex (common_type double t)
common_type (complex s) float = make_complex (common_type s float)
common_type float (complex t) = make_complex (common_type float t)
common_type (complex s) integer = make_complex (common_type s integer)
common_type integer (complex t) = make_complex (common_type integer t)
common_type (complex s) (complex t) = make_complex (common_type s t)
common_type _ _ = fail exception

-- The order of the conversions: integer to float to double, and a real to its complex type. An integer
-- may be rounded.
abbrev pub Widens : IrType → IrType → Type 0
Widens integer integer = Unit
Widens integer float = Unit
Widens integer double = Unit
Widens float float = Unit
Widens float double = Unit
Widens double double = Unit
Widens bool bool = Unit
Widens index index = Unit
Widens integer (complex t) = Widens integer t
Widens float (complex t) = Widens float t
Widens double (complex t) = Widens double t
Widens (complex s) (complex t) = Widens s t
Widens _ _ = ⊥

pub common_type_comm : (s t : IrType) → common_type s t ≡ common_type t s
unfolding common_type
common_type_comm (complex s) (complex t) = ap make_complex (common_type_comm s t)
common_type_comm (complex s) double = ap make_complex (common_type_comm s double)
common_type_comm (complex s) float = ap make_complex (common_type_comm s float)
common_type_comm (complex s) integer = ap make_complex (common_type_comm s integer)
common_type_comm double (complex t) = ap make_complex (common_type_comm double t)
common_type_comm float (complex t) = ap make_complex (common_type_comm float t)
common_type_comm integer (complex t) = ap make_complex (common_type_comm integer t)
common_type_comm unknown unknown = refl
common_type_comm bool bool = refl
common_type_comm index index = refl
common_type_comm integer_range integer_range = refl
common_type_comm (multi_index q) (multi_index r) = refl
common_type_comm (array s m) (array t n) = refl
common_type_comm (array_slice s m) (array_slice t n) = refl
common_type_comm (struct i ms) (struct j ns) = refl
common_type_comm double double = refl
common_type_comm float float = refl
common_type_comm integer integer = refl
common_type_comm _ _ = refl

-- Inversion of `make_complex`.
of_make_complex :
    (r : Result IrType) {u : IrType}
    → make_complex r ≡ ok u
    → (t : IrType) × (r ≡ ok t) × (u ≡ complex t)
of_make_complex (ok t) h = (t, refl, ground arith)
of_make_complex (fail e) h = cc

Widens_of_complex :
    (s : IrType) (r : Result IrType) {u : IrType}
    → make_complex r ≡ ok u
    → ((t : IrType) → r ≡ ok t → Widens s (complex t))
    → Widens s u
Widens_of_complex s r h part =
    let (t, e, p) = of_make_complex r h in subst (Widens s) (sym p) (part t e)

Widens-common_type : (s t : IrType) (u : IrType) → common_type s t ≡ ok u → Widens s u
unfolding common_type
Widens-common_type (complex s) (complex t) u h =
    Widens_of_complex (complex s) (common_type s t) h (Widens-common_type s t)
Widens-common_type (complex s) double u h =
    Widens_of_complex (complex s) (common_type s double) h (Widens-common_type s double)
Widens-common_type (complex s) float u h =
    Widens_of_complex (complex s) (common_type s float) h (Widens-common_type s float)
Widens-common_type (complex s) integer u h =
    Widens_of_complex (complex s) (common_type s integer) h (Widens-common_type s integer)
Widens-common_type double (complex t) u h =
    Widens_of_complex double (common_type double t) h (Widens-common_type double t)
Widens-common_type float (complex t) u h =
    Widens_of_complex float (common_type float t) h (Widens-common_type float t)
Widens-common_type integer (complex t) u h =
    Widens_of_complex integer (common_type integer t) h (Widens-common_type integer t)
Widens-common_type _ _ u h = ground arith

-- There is a result, and it converts to `v`.
abbrev pub IsBelow : Result IrType → IrType → Type 0
IsBelow (ok u) v = Widens u v
IsBelow (fail e) v = ⊥

IsBelow-make_complex :
    (r : Result IrType) (v : IrType) → IsBelow r v → IsBelow (make_complex r) (complex v)
IsBelow-make_complex (ok t) v h = h
IsBelow-make_complex (fail e) v h = h

common_type-IsBelow : (s t v : IrType) → Widens s v → Widens t v → IsBelow (common_type s t) v
unfolding common_type
common_type-IsBelow (complex s) (complex t) (complex v) h k =
    IsBelow-make_complex (common_type s t) v (common_type-IsBelow s t v h k)
common_type-IsBelow (complex s) double (complex v) h k =
    IsBelow-make_complex (common_type s double) v (common_type-IsBelow s double v h k)
common_type-IsBelow double (complex t) (complex v) h k =
    IsBelow-make_complex (common_type double t) v (common_type-IsBelow double t v h k)
common_type-IsBelow (complex s) float (complex v) h k =
    IsBelow-make_complex (common_type s float) v (common_type-IsBelow s float v h k)
common_type-IsBelow float (complex t) (complex v) h k =
    IsBelow-make_complex (common_type float t) v (common_type-IsBelow float t v h k)
common_type-IsBelow (complex s) integer (complex v) h k =
    IsBelow-make_complex (common_type s integer) v (common_type-IsBelow s integer v h k)
common_type-IsBelow integer (complex t) (complex v) h k =
    IsBelow-make_complex (common_type integer t) v (common_type-IsBelow integer t v h k)
common_type-IsBelow _ _ _ h k = ground arith

Widens_trans : (s t u : IrType) → Widens s t → Widens t u → Widens s u
Widens_trans (complex s) (complex t) (complex u) h k = Widens_trans s t u h k
Widens_trans integer (complex t) (complex u) h k = Widens_trans integer t u h k
Widens_trans float (complex t) (complex u) h k = Widens_trans float t u h k
Widens_trans double (complex t) (complex u) h k = Widens_trans double t u h k
Widens_trans integer float (complex u) h k = Widens_trans integer float u h k
Widens_trans integer double (complex u) h k = Widens_trans integer double u h k
Widens_trans integer integer (complex u) h k = k
Widens_trans float float (complex u) h k = k
Widens_trans float double (complex u) h k = Widens_trans float double u h k
Widens_trans double double (complex u) h k = k
Widens_trans _ _ _ h k = ground arith

-- A type converts from both types exactly if it converts from their common type, which exists
-- then: the usual arithmetic conversions compute joins.
pub IsBelow-common_type_iff :
    (s t v : IrType) → (IsBelow (common_type s t) v) ↔ (Widens s v × Widens t v)
IsBelow-common_type_iff s t v = (both, λ h. common_type-IsBelow s t v h.0 h.1)
  where
    split : (r : Result IrType) → r ≡ common_type s t → IsBelow r v → Widens s v × Widens t v
    split (ok u) e h = (
      Widens_trans s u v (Widens-common_type s t u (sym e)) h,
      Widens_trans t u v (Widens-common_type t s u (common_type_comm t s ∙ sym e)) h,
    )
    split (fail x) e h = absurd h

    both : IsBelow (common_type s t) v → Widens s v × Widens t v
    both h = split (common_type s t) refl h
