-- ===== src/Jit/Builder.antt =====
-- What qubus/src/jit uses of the instruction builder of LLVM, an interface: the instructions, on
-- values, and what the language reference of LLVM says of the integer and Boolean ones.
use qubus.Base.{
  ℕ, suc, ◌+◌, ◌-◌, ◌*◌, ◌^◌, ◌≤◌, arith, Bool, true, false, ◌&&◌, ◌||◌, ltb, leb, if◌then◌else◌,
  Option, none, some, ◌≡◌,
}
use qubus.Base.Int.{ℤ, pos, negsuc, ◌+ℤ◌, ◌-ℤ◌, ◌*ℤ◌, quot, rem, eqb_ℤ, ltb_ℤ, leb_ℤ}
use qubus.Ir.Types.{IrType}
use qubus.Ir.Semantics.{Value, int, truth, in_range, is_zero, eqb_bool}

-- Where an instruction names a type it has the type of the IR that `map_qubus_type` maps to it. A part
-- of a complex number is named by the last index of its path.
-- The first two arguments of `add`, `sub` and `mul` are the flags `nuw` and `nsw`.
pub record Builder : Type 1 where
  pub V : Type 0
  pub f_add : V → V → V
  pub f_sub : V → V → V
  pub f_mul : V → V → V
  pub f_div : V → V → V
  pub f_rem : V → V → V
  pub f_neg : V → V
  pub add : Bool → Bool → V → V → V
  pub sub : Bool → Bool → V → V → V
  pub mul : Bool → Bool → V → V → V
  pub s_div : V → V → V
  pub s_rem : V → V → V
  pub neg : V → V
  pub icmp_eq : V → V → V
  pub icmp_slt : V → V → V
  pub icmp_sle : V → V → V
  pub icmp_sgt : V → V → V
  pub icmp_sge : V → V → V
  pub bit_and : V → V → V
  pub bit_or : V → V → V
  pub select : V → V → V → V
  pub const_int : ℤ → V
  pub undef_like : V → V
  pub undef_of : IrType → V
  pub zero_of : IrType → V
  pub fp_ext : IrType → V → V
  pub si_to_fp : IrType → V → V
  pub extract_value : V → ℕ → V
  pub insert_value : V → V → ℕ → V

-- An integer of 64 bits read without its sign.
abbrev pub unsigned : ℤ → ℕ
unsigned (pos n) = n
unsigned (negsuc n) = 2 ^ 64 - suc n

abbrev pub add_fits : ℤ → ℤ → Bool
add_fits x y = ltb (unsigned x + unsigned y) (2 ^ 64)

abbrev pub sub_fits : ℤ → ℤ → Bool
sub_fits x y = leb (unsigned y) (unsigned x)

abbrev pub mul_fits : ℤ → ℤ → Bool
mul_fits x y = ltb (unsigned x * unsigned y) (2 ^ 64)

no_carry : (limit m n : ℕ) → suc m ≤ n → ltb (limit - suc m + n) limit ≡ false
no_carry limit m n h = ground arith

pub add_fits-negsuc : (m n : ℕ) → suc m ≤ n → add_fits (negsuc m) (pos n) ≡ false
add_fits-negsuc m n h = no_carry (2 ^ 64) m n h

-- Without the flag `nuw` the unsigned result may wrap.
abbrev pub may : Bool → Bool → Bool
may nuw fits = if nuw then fits else true

-- `value v` is none where the instruction has no defined result.
pub record Reading (b : Builder) : Type 0 where
  pub value : b.V → Option Value
  pub value-add :
      (nuw nsw : Bool) (u v : b.V) (x y : ℤ)
      → value u ≡ some (int x)
      → value v ≡ some (int y)
      → in_range (x +ℤ y) ≡ true
      → may nuw (add_fits x y) ≡ true
      → value (b.add nuw nsw u v) ≡ some (int (x +ℤ y))
  pub value-sub :
      (nuw nsw : Bool) (u v : b.V) (x y : ℤ)
      → value u ≡ some (int x)
      → value v ≡ some (int y)
      → in_range (x -ℤ y) ≡ true
      → may nuw (sub_fits x y) ≡ true
      → value (b.sub nuw nsw u v) ≡ some (int (x -ℤ y))
  pub value-mul :
      (nuw nsw : Bool) (u v : b.V) (x y : ℤ)
      → value u ≡ some (int x)
      → value v ≡ some (int y)
      → in_range (x *ℤ y) ≡ true
      → may nuw (mul_fits x y) ≡ true
      → value (b.mul nuw nsw u v) ≡ some (int (x *ℤ y))
  pub add_wraps :
      (nsw : Bool) (u v : b.V) (x y : ℤ)
      → value u ≡ some (int x)
      → value v ≡ some (int y)
      → add_fits x y ≡ false
      → value (b.add true nsw u v) ≡ none
  pub value-s_div :
      (u v : b.V) (x y : ℤ)
      → value u ≡ some (int x)
      → value v ≡ some (int y)
      → is_zero y ≡ false
      → in_range (quot x y) ≡ true
      → value (b.s_div u v) ≡ some (int (quot x y))
  pub value-s_rem :
      (u v : b.V) (x y : ℤ)
      → value u ≡ some (int x)
      → value v ≡ some (int y)
      → is_zero y ≡ false
      → in_range (quot x y) ≡ true
      → value (b.s_rem u v) ≡ some (int (rem x y))
  pub value-neg :
      (u : b.V) (x : ℤ)
      → value u ≡ some (int x)
      → in_range (pos 0 -ℤ x) ≡ true
      → value (b.neg u) ≡ some (int (pos 0 -ℤ x))
  pub value-icmp_eq :
      (u v : b.V) (x y : ℤ)
      → value u ≡ some (int x)
      → value v ≡ some (int y)
      → value (b.icmp_eq u v) ≡ some (truth (eqb_ℤ x y))
  pub value-icmp_slt :
      (u v : b.V) (x y : ℤ)
      → value u ≡ some (int x)
      → value v ≡ some (int y)
      → value (b.icmp_slt u v) ≡ some (truth (ltb_ℤ x y))
  pub value-icmp_sle :
      (u v : b.V) (x y : ℤ)
      → value u ≡ some (int x)
      → value v ≡ some (int y)
      → value (b.icmp_sle u v) ≡ some (truth (leb_ℤ x y))
  pub value-icmp_sgt :
      (u v : b.V) (x y : ℤ)
      → value u ≡ some (int x)
      → value v ≡ some (int y)
      → value (b.icmp_sgt u v) ≡ some (truth (ltb_ℤ y x))
  pub value-icmp_sge :
      (u v : b.V) (x y : ℤ)
      → value u ≡ some (int x)
      → value v ≡ some (int y)
      → value (b.icmp_sge u v) ≡ some (truth (leb_ℤ y x))
  pub same_truth :
      (u v : b.V) (x y : Bool)
      → value u ≡ some (truth x)
      → value v ≡ some (truth y)
      → value (b.icmp_eq u v) ≡ some (truth (eqb_bool x y))
  pub value-bit_and :
      (u v : b.V) (x y : Bool)
      → value u ≡ some (truth x)
      → value v ≡ some (truth y)
      → value (b.bit_and u v) ≡ some (truth (x && y))
  pub value-bit_or :
      (u v : b.V) (x y : Bool)
      → value u ≡ some (truth x)
      → value v ≡ some (truth y)
      → value (b.bit_or u v) ≡ some (truth (x || y))
  pub value-select :
      (c u v : b.V) (x : Bool) (y z : Value)
      → value c ≡ some (truth x)
      → value u ≡ some y
      → value v ≡ some z
      → value (b.select c u v) ≡ some (if x then y else z)
  pub value-const_int : (z : ℤ) → in_range z ≡ true → value (b.const_int z) ≡ some (int z)
