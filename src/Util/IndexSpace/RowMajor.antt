-- ===== src/Util/IndexSpace/RowMajor.antt =====
-- The iterator of an index space goes through its points in row-major order; the linear index is not
-- the row-major one.
use qubus.Base.{
  ℕ, suc, ◌+◌, ◌-◌, ◌*◌, ◌<◌, ltb, if◌then◌else◌, Option, none, some, List, [], ◌∷◌, ◌≡◌, refl, ◌∙◌,
  arith, Bool, true, false,
}
use qubus.Util.IndexSpace.{
  first_offset, advance, make_index_space_from_shape, linearize_from, linearize,
}

-- The number of points of a shape.
unfoldable pub volume : List ℕ → ℕ
volume [] = 1
volume (n ∷ ns) = n * volume ns

-- The place of a point in row-major order.
unfoldable pub row_major : List ℕ → List ℕ → ℕ
row_major (n ∷ ns) (o ∷ os) = o * volume ns + row_major ns os
row_major _ _ = 0

abbrev pub IsInside : List ℕ → List ℕ → Type 0
IsInside [] [] = Unit
IsInside (n ∷ ns) (o ∷ os) = (o < n) × IsInside ns os
IsInside _ _ = ⊥

-- The next point is inside and one place further, or the point is the last one.
abbrev pub IsNext : List ℕ → List ℕ → Option (List ℕ) → Type 0
IsNext shape off none = suc (row_major shape off) ≡ volume shape
IsNext shape off (some off') =
    IsInside shape off' × (row_major shape off' ≡ suc (row_major shape off))

first_row : (ns : List ℕ) → row_major ns (first_offset (make_index_space_from_shape ns)) ≡ 0
unfolding row_major first_offset make_index_space_from_shape
first_row [] = refl
first_row (n ∷ ns) = omega (arith, first_row ns)

IsInside-first_offset :
    (ns os : List ℕ) → IsInside ns os → IsInside ns (first_offset (make_index_space_from_shape ns))
unfolding first_offset make_index_space_from_shape
IsInside-first_offset [] [] h = tt
IsInside-first_offset (n ∷ ns) (o ∷ os) h = (omega (arith, h.0), IsInside-first_offset ns os h.1)
IsInside-first_offset [] (o ∷ os) h = absurd h
IsInside-first_offset (n ∷ ns) [] h = absurd h

-- From a point inside a shape, the iterator goes to the next point in row-major order, and ends
-- exactly after the last one.
pub advance-IsNext :
    (shape off : List ℕ)
    → IsInside shape off
    → IsNext shape off (advance (make_index_space_from_shape shape) off)
unfolding advance make_index_space_from_shape row_major volume
advance-IsNext [] [] h = refl
advance-IsNext [] (o ∷ os) h = absurd h
advance-IsNext (n ∷ ns) [] h = absurd h
advance-IsNext (n ∷ ns) (o ∷ os) h =
    step (advance (make_index_space_from_shape ns) os) (advance-IsNext ns os h.1)
  where
    full :
        (b : Bool)
        → ltb (o + 1) n ≡ b
        → suc (row_major ns os) ≡ volume ns
        → IsNext
            (n ∷ ns)
            (o ∷ os)
            (if b then some ((o + 1) ∷ first_offset (make_index_space_from_shape ns)) else none)
    full true e last =
        ((ground (arith, e), IsInside-first_offset ns os h.1), omega (arith, last, first_row ns))
    full false e last =
        let is_last : suc o ≡ n = ground (arith, e, h.0) in rw (← is_last) (omega (arith, last))

    step :
        (next : Option (List ℕ))
        → IsNext ns os next
        → IsNext (n ∷ ns) (o ∷ os) (elim next [
          | some os' ↦ some (o ∷ os')
          | none ↦
              if ltb (o + 1) n
              then some ((o + 1) ∷ first_offset (make_index_space_from_shape ns))
              else none
        ])
    step none last = full (ltb (o + 1) n) refl last
    step (some os') next = ((h.0, next.0), omega (arith, next.1))

abbrev pub widened : List ℕ → List ℕ
widened [] = []
widened (n ∷ ns) = suc n ∷ widened ns

linearize_from_lem :
    (shape off : List ℕ) (acc : ℕ)
    → IsInside shape off
    → linearize_from acc off (make_index_space_from_shape shape)
      ≡ acc * volume (widened shape) + row_major (widened shape) off
unfolding linearize_from make_index_space_from_shape row_major volume
linearize_from_lem [] [] acc h = omega arith
linearize_from_lem [] (o ∷ os) acc h = absurd h
linearize_from_lem (n ∷ ns) [] acc h = absurd h
linearize_from_lem (n ∷ ns) (o ∷ os) acc h =
    let whole : n - 0 ≡ n = omega arith in
    rw whole (linearize_from_lem ns os (acc + (n * acc + o)) h.1 ∙ omega arith)

-- The linear index of a point is its place in a space whose extents are all greater by one.
pub linearize-row_major :
    (shape off : List ℕ)
    → IsInside shape off
    → linearize off (make_index_space_from_shape shape) ≡ row_major (widened shape) off
unfolding linearize
linearize-row_major shape off h = linearize_from_lem shape off 0 h ∙ omega arith
