-- ===== src/Ir/Types/Hash.antt =====
-- `std::hash<qubus::type>` of qubus/src/IR/type.cpp against the equality of types. The standard
-- library's hashes and the mixing step of `util::hash_combine` are parameters.
use qubus.Base.{ℕ, String, true, ◌≡◌, ◌≢◌, refl, str_eq_iff}
use qubus.Base.Results.{Result, ok, fail, exception, ◌>>=◌, >>=-eq-ok}
use qubus.Ir.Types.{
  IrType, Members, double, float, integer, index, integer_range, complex, array, array_slice,
  struct, nil, member, type_eq,
}

-- The classes whose `std::type_index` is hashed.
pub data Tag : Type 0 where
  double_tag float_tag integer_tag index_tag complex_tag integer_range_tag array_tag slice_tag
        struct_tag :
      Tag

pub record Hashing : Type 0 where
  pub combine : ℕ → ℕ → ℕ
  pub hash_tag : Tag → ℕ
  pub hash_rank : ℕ → ℕ
  pub hash_string : String → ℕ

module _ (h : Hashing) where
  open h use {combine, hash_tag, hash_rank, hash_string}

  -- `fail` where no case of the matcher applies: the exception leaves a `noexcept` function.
  unfoldable mutual
    pub hash : IrType → Result ℕ
    hash double = ok (hash_tag double_tag)
    hash float = ok (hash_tag float_tag)
    hash integer = ok (hash_tag integer_tag)
    hash index = ok (hash_tag index_tag)
    hash (complex t) = do s ← hash t; ok (combine (combine 0 (hash_tag complex_tag)) s)
    hash integer_range = ok (hash_tag integer_range_tag)
    hash (array t n) = do
      s ← hash t
      ok (combine (combine (combine 0 (hash_tag array_tag)) s) (hash_rank n))
    hash (array_slice t n) = do
      s ← hash t
      ok (combine (combine (combine 0 (hash_tag slice_tag)) s) (hash_rank n))
    hash (struct id ms) =
        hash_members (combine (combine 0 (hash_tag struct_tag)) (hash_string id)) ms
    hash _ = fail exception

    pub hash_members : ℕ → Members → Result ℕ
    hash_members seed nil = ok seed
    hash_members seed (member t id ms) = do
      s ← hash t
      hash_members (combine seed (combine (combine 0 s) (hash_string id))) ms

-- A further member behind those of a struct.
abbrev pub and_member : Members → IrType → String → Members
and_member nil t id = member t id nil
and_member (member s i ms) t id = member s i (and_member ms t id)

module _ (h : Hashing) where
  hash_members-and_member :
      ((a b : ℕ) → h.combine a b ≢ a)
      → (ms : Members) (seed : ℕ) (t : IrType) (id : String) (a b : ℕ)
      → hash_members h seed ms ≡ ok a
      → hash_members h seed (and_member ms t id) ≡ ok b
      → a ≢ b
  unfolding hash
  hash_members-and_member mixes nil seed t id a b p q = λ same.
      let (d, t_is, rest) = >>=-eq-ok (hash h t) _ q in
      mixes seed (h.combine (h.combine 0 d) (h.hash_string id)) (cc)
  hash_members-and_member mixes (member s i ms) seed t id a b p q =
      let (d, s_is, rest) = >>=-eq-ok (hash h s) _ p in
      let (d', s_is', rest') = >>=-eq-ok (hash h s) _ q in
      let same : d ≡ d' = cc in hash_members-and_member mixes ms _ t id a b rest (rw same rest')

  -- Two structs of one name are equal types whatever their members, but a further member changes
  -- the hash, if mixing a value in always changes the seed.
  pub hash_of_equal_structs :
      ((a b : ℕ) → h.combine a b ≢ a)
      → (name : String) (ms : Members) (t : IrType) (id : String) (a b : ℕ)
      → hash h (struct name ms) ≡ ok a
      → hash h (struct name (and_member ms t id)) ≡ ok b
      → (type_eq (struct name ms) (struct name (and_member ms t id)) ≡ true) × (a ≢ b)
  unfolding hash type_eq
  hash_of_equal_structs mixes name ms t id a b p q =
      ((str_eq_iff name name).1 refl, hash_members-and_member mixes ms _ t id a b p q)
