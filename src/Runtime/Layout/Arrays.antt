-- ===== src/Runtime/Layout/Arrays.antt =====
-- The parts of an array do not overlap and are aligned; the size of large arrays is wrong.
use qubus.Base.{ℕ, ◌+◌, ◌*◌, ◌%◌, ◌^◌, ◌≤◌, ◌<◌, List, [], ◌∷◌, ◌≡◌, ap, ◌∙◌, arith}
use qubus.Base.Results.{ok, >>=-eq-ok}
use qubus.Ir.Types.{IrType, integer}
use qubus.Runtime.Layout.{
  get_align_of, get_size_of, word, through_int, accumulate, ArrayLayout, get_array_layout,
}
use native.Mathlib.Nat.{mod-eq_of_lt, mul-mod_left}

unfoldable pub product : List ℕ → ℕ
product [] = 1
product (x ∷ xs) = x * product xs

-- The shape and the data start on multiples of their alignment, in this order, behind the header and
-- without overlap, within the block; the block may wrap around only where the data is nearly as large
-- as the address space.
pub get_array_layout_lem :
    (t : IrType) (shape : List ℕ) (l : ArrayLayout)
    → get_array_layout t shape ≡ ok l
    → l.data_offset + l.data_size < word
    → (l.shape_offset % get_align_of integer ≡ 0)
      × (l.data_offset % get_align_of t ≡ 0)
      × (8 ≤ l.shape_offset)
      × (l.shape_offset + l.shape_size ≤ l.data_offset)
      × (l.data_offset + l.data_size ≡ l.size)
unfolding get_array_layout get_size_of
get_array_layout_lem t shape l h fits =
    let (size, _, rest) = >>=-eq-ok (get_size_of t) _ h in ground (arith, rest, fits)

through_int_exact : (y : ℕ) → y < 2 ^ 31 → through_int (y % word) ≡ y
through_int_exact y h =
    let small : y % word ≡ y = mod-eq_of_lt {n = y} {m = word} (omega (arith, h)) in
    rw small (ground (arith, h, mod-eq_of_lt {n = y} {m = 2 ^ 32} (omega (arith, h))))

accumulate_exact :
    (shape : List ℕ) (acc : ℕ)
    → acc * product shape < 2 ^ 31
    → 0 < product shape
    → accumulate acc shape ≡ acc * product shape
unfolding accumulate product
accumulate_exact [] acc h p = omega arith
accumulate_exact (x ∷ xs) acc h p =
    let rest : 0 < product xs = grind (arith, p) in
    let small : acc * x < 2 ^ 31 = grind (arith, h, rest) in
    rw (through_int_exact (acc * x) small)
      (accumulate_exact xs (acc * x) (omega (arith, h)) rest ∙ omega arith)

-- The size of the data is that of the elements, for a non-empty array of fewer than 2 ^ 31 elements
-- that fits the address space.
pub get_array_layout-product :
    (t : IrType) (shape : List ℕ) (n : ℕ) (l : ArrayLayout)
    → get_array_layout t shape ≡ ok l
    → get_size_of t ≡ ok n
    → product shape < 2 ^ 31
    → 0 < product shape
    → product shape * n < word
    → l.data_size ≡ product shape * n
unfolding get_array_layout get_size_of
get_array_layout-product t shape n l h size few some fits =
    let exact : accumulate 1 shape ≡ product shape =
      accumulate_exact shape 1 (omega (arith, few)) some ∙ omega arith in
    let same : l.data_size ≡ (accumulate 1 shape * n) % word = data_size_is t shape n l h size in
    same ∙ ap (λ k. (k * n) % word) exact ∙ mod-eq_of_lt fits
  where
    data_size_is :
        (u : IrType) (shape' : List ℕ) (k : ℕ) (l' : ArrayLayout)
        → get_array_layout u shape' ≡ ok l'
        → get_size_of u ≡ ok k
        → l'.data_size ≡ (accumulate 1 shape' * k) % word
    data_size_is u shape' k l' e f =
        let (size', p, rest) = >>=-eq-ok (get_size_of u) _ e in ground (arith, p, rest, f)

through_int_wraps : (k : ℕ) → k * 2 ^ 32 < word → through_int ((k * 2 ^ 32) % word) ≡ 0
through_int_wraps k h =
    let small : (k * 2 ^ 32) % word ≡ k * 2 ^ 32 = mod-eq_of_lt {n = k * 2 ^ 32} {m = word} h in
    let zero_low : (k * 2 ^ 32) % 2 ^ 32 ≡ 0 = mul-mod_left k (2 ^ 32) in
    rw small (ground (arith, zero_low))

-- A matrix whose number of elements is a multiple of 2 ^ 32 is given no memory for its data.
pub accumulate-vanishes :
    (rows columns k : ℕ)
    → rows < 2 ^ 31
    → rows * columns ≡ k * 2 ^ 32
    → k * 2 ^ 32 < word
    → accumulate 1 (rows ∷ columns ∷ []) ≡ 0
unfolding accumulate
accumulate-vanishes rows columns k few whole fits =
    let first : through_int ((1 * rows) % word) ≡ rows =
      ap (λ r. through_int (r % word)) (omega arith) ∙ through_int_exact rows few in
    rw (first, whole) (through_int_wraps k fits)
