-- ===== src/Analysis/Affine/Isl.antt =====
-- What the affine constraints use of the isl library, an interface: spaces with named dimensions,
-- affine functions on the points of a space, and sets of points. `Lawful` is what isl documents of
-- them.
use qubus.Base.{
  ℕ, ◌%◌, ◌==◌, Bool, true, false, not, ◌&&◌, ◌||◌, if◌then◌else◌, Option, none, some, ◌≡◌, ◌<◌,
}
use qubus.Base.Int.{ℤ, pos, ◌+ℤ◌, ◌-ℤ◌, ◌*ℤ◌, eqb_ℤ, leb_ℤ}
use qubus.Analysis.Affine.{Name}

-- `isl_dim_param` and `isl_dim_set`.
pub data DimType : Type 0 where
  param set_dim : DimType

abbrev pub same_dim : DimType → DimType → Bool
same_dim param param = true
same_dim set_dim set_dim = true
same_dim _ _ = false

abbrev pub Point : Type 0
Point = DimType → ℕ → ℤ

pub record Isl : Type 1 where
  pub Space : Type 0
  pub Aff : Type 0
  pub Region : Type 0
  pub new_space : ℕ → ℕ → Space
  pub set_dim_name : Space → DimType → ℕ → Name → Space
  pub find_dim_by_name : Space → DimType → Name → Option ℕ
  pub literal : Space → ℤ → Aff
  pub dimension : Space → DimType → ℕ → Aff
  pub add : Aff → Aff → Aff
  pub sub : Aff → Aff → Aff
  pub mul : Aff → Aff → Aff
  pub div : Aff → Aff → Aff
  pub mod_val : Aff → ℤ → Aff
  pub neg : Aff → Aff
  pub add_constant : Aff → ℤ → Aff
  pub is_cst : Aff → Bool
  pub constant_value : Aff → ℤ
  pub universe : Space → Region
  pub add_equality : Region → Aff → Region
  pub add_inequality : Region → Aff → Region
  pub intersect : Region → Region → Region
  pub union_ : Region → Region → Region
  pub complement : Region → Region

-- The value of an affine function at a point, if it is an integer, and the points of a set.
pub record Reading (isl : Isl) : Type 0 where
  pub value : isl.Aff → Point → Option ℤ
  pub contains : isl.Region → Point → Bool
  pub name_of : isl.Space → DimType → ℕ → Option Name

pub record Lawful (isl : Isl) (r : Reading isl) : Type 0 where
  pub name_of-new_space : (m n : ℕ) (t : DimType) (k : ℕ) → r.name_of (isl.new_space m n) t k ≡ none
  pub name_of-set_dim_name :
      (s : isl.Space) (t u : DimType) (j k : ℕ) (n : Name)
      → r.name_of (isl.set_dim_name s t j n) u k
        ≡ (if same_dim t u && j == k then some n else r.name_of s u k)
  pub finds_the_only :
      (s : isl.Space) (t : DimType) (k : ℕ) (n : Name)
      → r.name_of s t k ≡ some n
      → ((j : ℕ) → r.name_of s t j ≡ some n → j ≡ k)
      → isl.find_dim_by_name s t n ≡ some k
  pub value-literal : (s : isl.Space) (z : ℤ) (p : Point) → r.value (isl.literal s z) p ≡ some z
  pub value-dimension :
      (s : isl.Space) (t : DimType) (k : ℕ) (p : Point)
      → r.value (isl.dimension s t k) p ≡ some (p t k)
  pub value-add :
      (a b : isl.Aff) (p : Point) (x y : ℤ)
      → r.value a p ≡ some x
      → r.value b p ≡ some y
      → r.value (isl.add a b) p ≡ some (x +ℤ y)
  pub value-sub :
      (a b : isl.Aff) (p : Point) (x y : ℤ)
      → r.value a p ≡ some x
      → r.value b p ≡ some y
      → r.value (isl.sub a b) p ≡ some (x -ℤ y)
  pub value-mul :
      (a b : isl.Aff) (p : Point) (x y : ℤ)
      → (isl.is_cst a || isl.is_cst b) ≡ true
      → r.value a p ≡ some x
      → r.value b p ≡ some y
      → r.value (isl.mul a b) p ≡ some (x *ℤ y)
  pub value-mod_val :
      (a : isl.Aff) (p : Point) (x m : ℕ)
      → 0 < m
      → r.value a p ≡ some (pos x)
      → r.value (isl.mod_val a (pos m)) p ≡ some (pos (x % m))
  pub value-neg :
      (a : isl.Aff) (p : Point) (x : ℤ)
      → r.value a p ≡ some x
      → r.value (isl.neg a) p ≡ some (pos 0 -ℤ x)
  pub value-add_constant :
      (a : isl.Aff) (c : ℤ) (p : Point) (x : ℤ)
      → r.value a p ≡ some x
      → r.value (isl.add_constant a c) p ≡ some (x +ℤ c)
  pub is_cst-literal : (s : isl.Space) (z : ℤ) → isl.is_cst (isl.literal s z) ≡ true
  pub constant_value-literal : (s : isl.Space) (z : ℤ) → isl.constant_value (isl.literal s z) ≡ z
  pub contains-universe : (s : isl.Space) (p : Point) → r.contains (isl.universe s) p ≡ true
  pub contains-add_equality :
      (d : isl.Region) (a : isl.Aff) (p : Point) (x : ℤ)
      → r.value a p ≡ some x
      → r.contains (isl.add_equality d a) p ≡ (r.contains d p && eqb_ℤ x (pos 0))
  pub contains-add_inequality :
      (d : isl.Region) (a : isl.Aff) (p : Point) (x : ℤ)
      → r.value a p ≡ some x
      → r.contains (isl.add_inequality d a) p ≡ (r.contains d p && leb_ℤ (pos 0) x)
  pub contains-intersect :
      (d e : isl.Region) (p : Point)
      → r.contains (isl.intersect d e) p ≡ (r.contains d p && r.contains e p)
  pub contains-union_ :
      (d e : isl.Region) (p : Point)
      → r.contains (isl.union_ d e) p ≡ (r.contains d p || r.contains e p)
  pub contains-complement :
      (d : isl.Region) (p : Point) → r.contains (isl.complement d) p ≡ not (r.contains d p)
