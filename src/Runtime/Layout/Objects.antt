-- ===== src/Runtime/Layout/Objects.antt =====
-- The regions of an object tile its memory, but are not aligned.
use qubus.Base.{
  ℕ, ◌+◌, ◌*◌, ◌%◌, ◌^◌, ◌≤◌, ◌<◌, List, [], ◌∷◌, ◌++◌, ◌≡◌, refl, sym, subst, ap, ◌∙◌, ◌↔◌, arith,
}
use qubus.Base.Int.{ℤ, pos, ◌+ℤ◌}
use qubus.Base.Results.{Result, ok, ◌>>=◌, >>=-eq-ok}
use qubus.Ir.Types.{IrType}
use qubus.Runtime.Layout.{
  get_align_of, get_size_of, get_array_layout, Description, Descriptions, array_description,
  scalar_description, struct_description, nil, member, ObjectLayout, ObjectLayouts, object_layout,
  none, partition, compute_layout, compute_layouts, count_members, to_long, advance_size,
  advance_long,
}

-- The position and the size of each part, in depth-first order.
unfoldable mutual
  pub regions : ObjectLayout → List (ℤ × ℤ)
  regions (object_layout position size partitions) = (position, size) ∷ all_regions partitions

  pub all_regions : ObjectLayouts → List (ℤ × ℤ)
  all_regions none = []
  all_regions (partition l ls) = regions l ++ all_regions ls

-- Each region starts where the one before it ends.
abbrev pub IsTiled : ℕ → List (ℤ × ℤ) → ℕ → Type 0
IsTiled start [] end = start ≡ end
IsTiled start ((position, size) ∷ rest) end =
    (position ≡ pos start) × ((n : ℕ) × (size ≡ pos n) × IsTiled (start + n) rest end)

IsTiled-append :
    (start middle end : ℕ) (rs ss : List (ℤ × ℤ))
    → IsTiled start rs middle
    → IsTiled middle ss end
    → IsTiled start (rs ++ ss) end
IsTiled-append start middle end [] ss h k = subst (λ m. IsTiled m ss end) (sym h) k
IsTiled-append start middle end ((p, z) ∷ rs) ss h k =
    let (n, e, rest) = h.1 in (h.0, (n, e, IsTiled-append (start + n) middle end rs ss rest k))

-- The bytes that an object takes, with the table of its members.
unfoldable mutual
  unfolding get_size_of get_array_layout

  pub space_of : Description → Result ℕ
  space_of (array_description t shape) = do layout ← get_array_layout t shape; ok layout.size
  space_of (scalar_description t) = get_size_of t
  space_of (struct_description ms) = do n ← space_of_all ms; ok (count_members ms * 8 + n)

  pub space_of_all : Descriptions → Result ℕ
  space_of_all nil = ok 0
  space_of_all (member d ds) = do n ← space_of d; m ← space_of_all ds; ok (n + m)

ok-injective {ℓ} : {A : Type ℓ} {a b : A} → ok a ≡ ok b → a ≡ b
ok-injective h = cc

to_long-small : (n : ℕ) → n < 2 ^ 63 → to_long n ≡ pos n
to_long-small n h = ground arith

advance_size-small :
    (start n : ℕ) → start + n < 2 ^ 63 → advance_size (pos start) n ≡ pos (start + n)
unfolding advance_size
advance_size-small start n h =
    let small : (start + n) % 2 ^ 64 ≡ start + n = omega (arith, h) in
    rw small (to_long-small (start + n) h)

advance_long-small :
    (start n : ℕ) → start + n < 2 ^ 63 → advance_long (pos start) (pos n) ≡ ok (pos (start + n))
unfolding advance_long ◌+ℤ◌
advance_long-small start n h = ground arith

abbrev LaidOut : ℕ → ℕ → Result (ObjectLayout × ℤ) → Type 0
LaidOut start n r =
    (l : ObjectLayout) × (r ≡ ok (l, pos (start + n))) × IsTiled start (regions l) (start + n)

abbrev AllLaidOut : ℕ → ℕ → Result (ObjectLayouts × ℤ) → Type 0
AllLaidOut start n r =
    (ls : ObjectLayouts) × (r ≡ ok (ls, pos (start + n)))
    × IsTiled start (all_regions ls) (start + n)

one_region :
    (start n : ℕ)
    → start + n < 2 ^ 63
    → LaidOut start n (ok (object_layout (pos start) (to_long n) none, advance_size (pos start) n))
unfolding regions
one_region start n h = (
  object_layout (pos start) (to_long n) none,
  ap (λ p. ok (object_layout (pos start) (to_long n) none, p)) (advance_size-small start n h),
  (refl, (n, to_long-small n (omega (arith, h)), refl)),
)

mutual
  unfolding compute_layout regions space_of

  tiled :
      (d : Description) (start n : ℕ)
      → space_of d ≡ ok n
      → start + n < 2 ^ 63
      → LaidOut start n (compute_layout d (pos start))
  tiled (array_description t shape) start n e h =
      let (layout, p, rest) = >>=-eq-ok (get_array_layout t shape) _ e in
      let size : layout.size ≡ n = ok-injective rest in
      rw p (
        subst
          (λ k.
            LaidOut start n
              (ok (object_layout (pos start) (to_long k) none, advance_size (pos start) k)))
          (sym size) (one_region start n h))
  tiled (scalar_description t) start n e h = rw e (one_region start n h)
  tiled (struct_description ms) start n e h =
      let (k, p, rest) = >>=-eq-ok (space_of_all ms) _ e in
      let m = count_members ms * 8 in
      let total : m + k ≡ n = ok-injective rest in
      let whole : start + m + k ≡ start + n = omega (arith, total) in
      let wraps : m % 2 ^ 64 ≡ m = omega (arith, total, h) in
      let size : to_long (m % 2 ^ 64) ≡ pos m =
        ap to_long wraps ∙ to_long-small m (omega (arith, total, h)) in
      let first = advance_long-small start m (omega (arith, total, h)) in
      let (ls, q, parts) = all_tiled ms (start + m) k p (omega (arith, total, h)) in
      rw (size, first, q)
        (
          object_layout (pos start) (pos m) ls,
          ap (λ x. ok (object_layout (pos start) (pos m) ls, pos x)) whole,
          (refl, (m, refl, subst (IsTiled (start + m) (all_regions ls)) whole parts)),
        )

  all_tiled :
      (ds : Descriptions) (start n : ℕ)
      → space_of_all ds ≡ ok n
      → start + n < 2 ^ 63
      → AllLaidOut start n (compute_layouts ds (pos start))
  all_tiled nil start n e h =
      let nothing : 0 ≡ n = ok-injective e in
      let same : start ≡ start + n = omega (arith, nothing) in
      (none, ap (λ x. ok (none, pos x)) same, same)
  all_tiled (member d ds) start n e h =
      let (m, p, rest) = >>=-eq-ok (space_of d) _ e in
      let (k, q, last) = >>=-eq-ok (space_of_all ds) _ rest in
      let total : m + k ≡ n = ok-injective last in
      let whole : start + m + k ≡ start + n = omega (arith, total) in
      let (l, here, part) = tiled d start m p (omega (arith, total, h)) in
      let (ls, there, parts) = all_tiled ds (start + m) k q (omega (arith, total, h)) in
      rw (here, there)
        (
          partition l ls,
          ap (λ x. ok (partition l ls, pos x)) whole,
          subst (IsTiled start (regions l ++ all_regions ls)) whole (
              IsTiled-append start (start + m) (start + m + k) (regions l) (all_regions ls) part
                parts),
        )

-- An object whose bytes, with the tables of members, end below 2 ^ 63 is laid out: the parts follow one
-- another from its position to the next free one, with neither gap nor overlap.
pub compute_layout-IsTiled :
    (d : Description) (start n : ℕ)
    → space_of d ≡ ok n
    → start + n < 2 ^ 63
    → (l : ObjectLayout) × (compute_layout d (pos start) ≡ ok (l, pos (start + n)))
      × IsTiled start (regions l) (start + n)
compute_layout-IsTiled d start n e h = tiled d start n e h

-- The second member of an object of two scalars starts on a multiple of its alignment exactly if the
-- first has 16 bytes, which only complex numbers have.
pub compute_layout-misaligned :
    (s t : IrType) (a b : ℕ)
    → get_size_of s ≡ ok a
    → get_size_of t ≡ ok b
    → a ≤ 16
    → b ≤ 16
    → (compute_layout
          (struct_description (member (scalar_description s) (member (scalar_description t) nil)))
          (pos 0)
        ≡ ok (
          object_layout (pos 0) (pos 16) (
              partition
                (object_layout (pos 16) (pos a) none)
                (partition (object_layout (pos (16 + a)) (pos b) none) none)),
          pos (16 + a + b),
        ))
      × (((16 + a) % get_align_of t ≡ 0) ↔ (a ≡ 16))
unfolding compute_layout
compute_layout-misaligned s t a b p q small small' =
    let start = advance_long-small 0 16 (omega arith) in
    let first = advance_size-small 16 a (omega (arith, small)) in
    let second = advance_size-small (16 + a) b (omega (arith, small, small')) in
    let size = to_long-small a (omega (arith, small)) in
    let size' = to_long-small b (omega (arith, small')) in
    (
      rw (start, p, first, q, second, size, size') refl,
      (λ h. omega (arith, h, small), λ h. rw h refl),
    )
