-- ===== src/Tests/Slices.antt =====
-- The region of a slice from 0 to n in steps of 3, at i = 3 and n = 4.
use qubus.Base.{some, Bool, true, ◌&&◌, [], ◌∷◌, ◌≡◌, refl, arith}
use qubus.Base.Int.{pos, ◌-ℤ◌, ◌+ℤ◌, eqb_ℤ, leb_ℤ}
use qubus.Base.Results.{ok}
use qubus.Ir.Expressions.{variable_ref, integer_literal}
use qubus.Ir.Semantics.{eval}
use qubus.Analysis.Affine.{variable_name, affine_variable}
use qubus.Analysis.Affine.Meaning.{affine_value}
use qubus.Analysis.Affine.Exactness.{at_point}
use qubus.Analysis.Affine.Isl.{param, set_dim, Point}
use qubus.Analysis.Alias.Slices.{Dimension, try_generate_slice_region}
use qubus.Analysis.Alias.Slices.Places.{Place, IsAt}
use qubus.Analysis.Alias.Slices.Points.{try_generate_slice_region-contains}
use qubus.Tests.Affine.{
  n, full_context, full_context-IsNumbered, never, floor, env, here, env-IsMeaning, names_valid,
}
use qubus.Tests.Affine.SmallIsl.{remainder, small_isl, small_isl-Lawful}

abbrev thirds : Dimension
thirds = record {
  var = affine_variable (variable_name 0);
  offset = integer_literal (pos 0);
  bound = variable_ref n;
  stride = integer_literal (pos 3);
}

abbrev at_three : Place
at_three = record { index = pos 3; end = pos 4; distance = 3; gap = 2 }

abbrev thirds_region : Point → Bool
thirds_region p =
    leb_ℤ (pos 0) (pos 0 -ℤ (pos 0 -ℤ p set_dim 0))
    && leb_ℤ (pos 0) (pos 0 -ℤ (p set_dim 0 -ℤ (p param 0 +ℤ pos 0) +ℤ pos 1))
    && eqb_ℤ (remainder (p set_dim 0 -ℤ pos 0) (pos 3) -ℤ pos 0) (pos 0)

thirds_converted :
    try_generate_slice_region never never small_isl (thirds ∷ []) full_context
    ≡ ok (some thirds_region, full_context)
unfolding try_generate_slice_region
thirds_converted = refl

at_three-IsAt : IsAt (eval floor env) (at_point here) thirds at_three
unfolding eval affine_value ◌-ℤ◌
at_three-IsAt = record {
  start = pos 0;
  at_index = refl;
  exact = tt;
  starts = refl;
  ends = refl;
  strides = refl;
  plain_offset = tt;
  plain_bound = tt;
  apart = refl;
}

try_generate_slice_region-contains_example : thirds_region here ≡ true
try_generate_slice_region-contains_example =
    try_generate_slice_region-contains env-IsMeaning small_isl-Lawful (thirds ∷ []) (at_three ∷ [])
      full_context full_context thirds_region here full_context-IsNumbered (omega arith, tt)
      thirds_converted names_valid (at_three-IsAt, tt)
