-- ===== src/Tests/Affine/SmallIsl.antt =====
-- A model of isl, of one environment and one loop, for the theorems on
-- qubus/src/affine_constraints.cpp.
use qubus.Base.{
  ℕ, ◌%◌, ◌==◌, ==_iff, Bool, true, false, not, ◌&&◌, ◌||◌, if◌then◌else◌, Option, none, some, List,
  [], ◌∷◌, ◌≡◌, refl, ap, ◌∙◌, arith, Bool-cases, inl, inr,
}
use mathlib.Core.Path.{ap₂}
use mathlib.Core.Option.{some-injective}
use qubus.Base.Int.{ℤ, pos, ◌+ℤ◌, ◌-ℤ◌, ◌*ℤ◌, eqb_ℤ, leb_ℤ, +ℤ_parts, eq_of_parts}
use qubus.Analysis.Affine.{Name, variable_name, constant_name, same_name}
use qubus.Analysis.Affine.Isl.{DimType, param, set_dim, same_dim, Point, Isl, Reading, Lawful}

abbrev Dims : Type 0
Dims = List ((DimType × ℕ) × Name)

abbrev dim_name : Dims → DimType → ℕ → Option Name
dim_name [] t k = none
dim_name (((u, j), n) ∷ dims) t k =
    let rest = dim_name dims t k in if same_dim u t && j == k then some n else rest

abbrev is_named : Option Name → Name → Bool
is_named (some m) n = same_name m n
is_named none n = false

abbrev search : Dims → Dims → DimType → Name → Option ℕ
search whole [] t n = none
search whole (((u, j), m) ∷ dims) t n =
    let rest = search whole dims t n in if is_named (dim_name whole t j) n then some j else rest

-- A number, a parameter and a number, or any function.
pub data Function : Type 0 where
  constant : ℤ → Function
  param_plus : ℕ → ℤ → Function
  varying : (Point → ℤ) → Function

abbrev pub value_at : Function → Point → ℤ
value_at (constant z) p = z
value_at (param_plus k z) p = p param k +ℤ z
value_at (varying f) p = f p

abbrev sum_of : Function → Function → Function
sum_of (param_plus k z) (constant y) = param_plus k (z +ℤ y)
sum_of a b = varying (λ p. value_at a p +ℤ value_at b p)

abbrev dimension_of : DimType → ℕ → Function
dimension_of param k = param_plus k (pos 0)
dimension_of t k = varying (λ p. p t k)

abbrev pub remainder : ℤ → ℤ → ℤ
remainder (pos x) (pos m) = pos (x % m)
remainder x m = x

abbrev is_constant : Function → Bool
is_constant (constant z) = true
is_constant _ = false

abbrev constant_of : Function → ℤ
constant_of (constant z) = z
constant_of _ = pos 0

abbrev pub small_isl : Isl
small_isl = record {
  Space = Dims;
  Aff = Function;
  Region = Point → Bool;
  new_space = λ m n. [];
  set_dim_name = λ s t k n. ((t, k), n) ∷ s;
  find_dim_by_name = λ s t n. search s s t n;
  literal = λ s z. constant z;
  dimension = λ s t k. dimension_of t k;
  add = λ a b. sum_of a b;
  sub = λ a b. varying (λ p. value_at a p -ℤ value_at b p);
  mul = λ a b. varying (λ p. value_at a p *ℤ value_at b p);
  div = λ a b. a;
  mod_val = λ a m. varying (λ p. remainder (value_at a p) m);
  neg = λ a. varying (λ p. pos 0 -ℤ value_at a p);
  add_constant = λ a z. varying (λ p. value_at a p +ℤ z);
  is_cst = λ a. is_constant a;
  constant_value = λ a. constant_of a;
  universe = λ s p. true;
  add_equality = λ d a p. d p && eqb_ℤ (value_at a p) (pos 0);
  add_inequality = λ d a p. d p && leb_ℤ (pos 0) (value_at a p);
  intersect = λ d e p. d p && e p;
  union_ = λ d e p. d p || e p;
  complement = λ d p. not (d p);
}

abbrev pub small_reading : Reading small_isl
small_reading = record {
  value = λ a p. some (value_at a p);
  contains = λ d p. d p;
  name_of = dim_name;
}

add_assoc : (a b c : ℤ) → a +ℤ (b +ℤ c) ≡ a +ℤ b +ℤ c
add_assoc a b c =
    eq_of_parts _ _
      (omega (arith, +ℤ_parts b c, +ℤ_parts a (b +ℤ c), +ℤ_parts a b, +ℤ_parts (a +ℤ b) c))

named_is : (o : Option Name) (n : Name) → is_named o n ≡ true → o ≡ some n
named_is (some (variable_name i)) (variable_name j) h =
    ap (λ k. some (variable_name k)) ((==_iff i j).0 h)
named_is (some (constant_name i)) (constant_name j) h =
    ap (λ k. some (constant_name k)) ((==_iff i j).0 h)
named_is _ _ h = cc h

is_named_self : (n : Name) → is_named (some n) n ≡ true
is_named_self (variable_name i) = (==_iff i i).1 refl
is_named_self (constant_name i) = (==_iff i i).1 refl

search-finds :
    (whole dims : Dims) (t : DimType) (k : ℕ) (n m : Name)
    → dim_name whole t k ≡ some n
    → ((j : ℕ) → dim_name whole t j ≡ some n → j ≡ k)
    → dim_name dims t k ≡ some m
    → search whole dims t n ≡ some k
search-finds whole [] t k n m is unique h = cc h
search-finds whole (((u, j), l) ∷ dims) t k n m is unique h =
    elim (Bool-cases (is_named (dim_name whole t j) n)) [
      | inl p ↦ rw p (ap some (unique j (named_is _ n p)))
      | inr p ↦ elim (Bool-cases (same_dim u t && j == k)) [
        | inl q ↦ absurd (other p (ground (arith, q)))
        | inr q ↦ rw p (search-finds whole dims t k n m is unique (rw q at h))
      ]
    ]
  where
    other : is_named (dim_name whole t j) n ≡ false → j ≡ k → ⊥
    other p e = cc (p, e, is, is_named_self n)

value_at-sum_of :
    (a b : Function) (p : Point) → value_at (sum_of a b) p ≡ value_at a p +ℤ value_at b p
value_at-sum_of (param_plus k z) (constant y) p = add_assoc (p param k) z y
value_at-sum_of _ _ p = refl

value_at-dimension_of : (t : DimType) (k : ℕ) (p : Point) → value_at (dimension_of t k) p ≡ p t k
value_at-dimension_of param k p = eq_of_parts _ _ (omega (arith, +ℤ_parts (p param k) (pos 0)))
value_at-dimension_of set_dim k p = refl

pub small_isl-Lawful : Lawful small_isl small_reading
small_isl-Lawful = record {
  name_of-new_space = λ m n t k. refl;
  name_of-set_dim_name = λ s t u j k n. refl;
  finds_the_only = λ s t k n h unique. search-finds s s t k n n h unique h;
  value-literal = λ s z p. refl;
  value-dimension = λ s t k p. ap some (value_at-dimension_of t k p);
  value-add = λ a b p x y h k.
      ap some (value_at-sum_of a b p)
      ∙ ap₂ (λ u v. some (u +ℤ v)) (some-injective _ _ h) (some-injective _ _ k);
  value-sub =
      λ a b p x y h k. ap₂ (λ u v. some (u -ℤ v)) (some-injective _ _ h) (some-injective _ _ k);
  value-mul =
      λ a b p x y c h k. ap₂ (λ u v. some (u *ℤ v)) (some-injective _ _ h) (some-injective _ _ k);
  value-mod_val = λ a p x m c h. ap (λ u. some (remainder u (pos m))) (some-injective _ _ h);
  value-neg = λ a p x h. ap (λ u. some (pos 0 -ℤ u)) (some-injective _ _ h);
  value-add_constant = λ a c p x h. ap (λ u. some (u +ℤ c)) (some-injective _ _ h);
  is_cst-literal = λ s z. refl;
  constant_value-literal = λ s z. refl;
  contains-universe = λ s p. refl;
  contains-add_equality = λ d a p x h. ap (λ u. d p && eqb_ℤ u (pos 0)) (some-injective _ _ h);
  contains-add_inequality = λ d a p x h. ap (λ u. d p && leb_ℤ (pos 0) u) (some-injective _ _ h);
  contains-intersect = λ d e p. refl;
  contains-union_ = λ d e p. refl;
  contains-complement = λ d p. refl;
}
