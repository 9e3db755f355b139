-- ===== src/Analysis/Accesses/Rounds.antt =====
-- The loop over the pending expressions ends within the rounds that are counted for it.
use qubus.Base.{ℕ, zero, suc, ◌+◌, ◌*◌, ◌≤◌, List, [], ◌∷◌, ◌≡◌, refl, arith}
use qubus.Base.Results.{IsFueled, >>=-IsFueled, if-IsFueled}
use qubus.Ir.Expressions.{
  Expression, Expressions, double_literal, member_access, subscription, construct, nil, cons,
}
use qubus.Ir.Expressions.Children.{sub_expressions, is_access, count, copies}
use qubus.Analysis.Alias.{decompose_access}
use qubus.Analysis.Accesses.{
  other_children, push_all, own_access, drain, rounds, rounds_all, get_accesses,
}

rounds_all-copies :
    (e : Expression) (es : Expressions) → rounds_all (copies e es) ≡ count es * rounds e
unfolding rounds
rounds_all-copies e nil = omega arith
rounds_all-copies e (cons f fs) = omega (arith, rounds_all-copies e fs)

rounds_of_children : (e : Expression) → suc (rounds_all (other_children e)) ≡ rounds e
unfolding rounds rounds_all other_children sub_expressions
rounds_of_children (double_literal x) = refl
rounds_of_children (construct t (cons e es)) = omega (arith, rounds_all-copies e es)
rounds_of_children _ = omega arith

abbrev rounds_left : List Expression → ℕ
rounds_left [] = 0
rounds_left (e ∷ s) = rounds e + rounds_left s

rounds_left-push_all :
    (es : Expressions) (s : List Expression)
    → rounds_left (push_all es s) ≡ rounds_all es + rounds_left s
unfolding push_all rounds
rounds_left-push_all nil s = omega arith
rounds_left-push_all (cons e es) s = omega (arith, rounds_left-push_all es (e ∷ s))

pub decompose_access-IsFueled : (e : Expression) → IsFueled (decompose_access e)
unfolding decompose_access
decompose_access-IsFueled (member_access e m) =
    >>=-IsFueled (decompose_access e) _ (decompose_access-IsFueled e) λ _ _. tt
decompose_access-IsFueled (subscription e es) =
    >>=-IsFueled (decompose_access e) _ (decompose_access-IsFueled e) λ _ _. tt
decompose_access-IsFueled (double_literal x) = tt
decompose_access-IsFueled _ = tt

own_access-IsFueled : (e : Expression) → IsFueled (own_access e)
unfolding own_access
own_access-IsFueled e =
    if-IsFueled (is_access e) _ _
      (>>=-IsFueled (decompose_access e) _ (decompose_access-IsFueled e) λ _ _. tt) tt

drain-IsFueled : (fuel : ℕ) (s : List Expression) → rounds_left s ≤ fuel → IsFueled (drain fuel s)
unfolding drain
drain-IsFueled fuel [] h = tt
drain-IsFueled zero (e ∷ s) h = absurd (omega (arith, rounds_of_children e))
drain-IsFueled (suc fuel) (e ∷ s) h =
    let fits =
      drain-IsFueled fuel (push_all (other_children e) s)
        (omega (arith, rounds_left-push_all (other_children e) s, rounds_of_children e)) in
    >>=-IsFueled (own_access e) _ (own_access-IsFueled e)
      λ own _. >>=-IsFueled (drain fuel (push_all (other_children e) s)) _ fits λ _ _. tt

pub get_accesses-IsFueled : (e : Expression) → IsFueled (get_accesses e)
unfolding get_accesses
get_accesses-IsFueled e = drain-IsFueled (rounds e) (e ∷ []) (omega arith)
