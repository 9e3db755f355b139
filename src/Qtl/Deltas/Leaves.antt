-- ===== src/Qtl/Deltas/Leaves.antt =====
-- What the two matchers of qubus/src/qtl/kronecker_delta_folding_pass.cpp replace, and by what.
use qubus.Base.{ℕ, ==_iff, true, ◌&&◌, &&_parts, some, ◌≡◌, refl, inl, inr, Bool-cases}
use qubus.Base.Int.{pos}
use qubus.Ir.Expressions.{Variable, same_variable}
use qubus.Qtl.Expressions.{QtlExpression, integer_literal, variable_ref, kronecker_delta, is_index}
use qubus.Qtl.Deltas.{trivial_delta, reference_to}

pub record IsTrivial (e leaf : QtlExpression) : Type 0 where
  pub n : ℕ
  pub i : Variable
  pub j : Variable
  pub source : kronecker_delta n (variable_ref i) (variable_ref j) ≡ e
  pub index_i : is_index i ≡ true
  pub index_j : is_index j ≡ true
  pub same : i.id ≡ j.id
  pub target : integer_literal (pos 1) ≡ leaf

pub trivial_delta-IsTrivial :
    (e leaf : QtlExpression) → trivial_delta e ≡ some leaf → IsTrivial e leaf
trivial_delta-IsTrivial (kronecker_delta n (variable_ref i) (variable_ref j)) leaf h =
    elim (Bool-cases (is_index i && is_index j && same_variable i j)) [
      | inl p ↦
          let (indices, same) = &&_parts (is_index i && is_index j) (same_variable i j) p in
          let (first, second) = &&_parts (is_index i) (is_index j) indices in
          record {
            n = n;
            i = i;
            j = j;
            source = refl;
            index_i = first;
            index_j = second;
            same = (==_iff i.id j.id).0 same;
            target = cc (rw p at h);
          }
      | inr p ↦ cc (rw p at h)
    ]
trivial_delta-IsTrivial _ leaf h = cc h

pub record IsReference (i j : Variable) (e leaf : QtlExpression) : Type 0 where
  pub v : Variable
  pub source : variable_ref v ≡ e
  pub index : is_index v ≡ true
  pub same : v.id ≡ i.id
  pub target : variable_ref j ≡ leaf

pub reference_to-IsReference :
    (i j : Variable) (e leaf : QtlExpression)
    → reference_to i j e ≡ some leaf
    → IsReference i j e leaf
reference_to-IsReference i j (variable_ref v) leaf h =
    elim (Bool-cases (is_index v && same_variable v i)) [
      | inl p ↦
          let (index, same) = &&_parts (is_index v) (same_variable v i) p in
          record {
            v = v;
            source = refl;
            index = index;
            same = (==_iff v.id i.id).0 same;
            target = cc (rw p at h);
          }
      | inr p ↦ cc (rw p at h)
    ]
reference_to-IsReference i j _ leaf h = cc h
