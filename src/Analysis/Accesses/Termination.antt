-- ===== src/Analysis/Accesses/Termination.antt =====
-- The recursion over a region ends within its depth.
use qubus.Base.{ℕ, zero, suc, ◌<◌, [], arith}
use qubus.Base.Results.{Result, ok, IsFueled, >>=-IsFueled}
use qubus.Ir.Expressions.{Expression, Expressions, binary_operator, nil, cons, assign, plus_assign}
use qubus.Ir.Expressions.Children.{sub_expressions}
use qubus.Ir.Expressions.Depth.{depth, depth_all, depth_all-sub_expressions-lt}
use qubus.Analysis.Alias.{decompose_access}
use qubus.Analysis.Accesses.{
  AccessSetNode, access_set_node, subsets_of, compute_access_set, analyze_access, get_accesses,
  get_accesses_all, other_children,
}
use qubus.Analysis.Accesses.Rounds.{get_accesses-IsFueled, decompose_access-IsFueled}

get_accesses_all-IsFueled : (es : Expressions) → IsFueled (get_accesses_all es)
unfolding get_accesses_all
get_accesses_all-IsFueled nil = tt
get_accesses_all-IsFueled (cons e es) =
    >>=-IsFueled (get_accesses e) _ (get_accesses-IsFueled e)
      λ _ _. >>=-IsFueled (get_accesses_all es) _ (get_accesses_all-IsFueled es) λ _ _. tt

analyze_access-IsFueled : (l : Expression) → IsFueled (analyze_access l)
unfolding analyze_access
analyze_access-IsFueled l = >>=-IsFueled (decompose_access l) _ (decompose_access-IsFueled l) λ _ _.
    >>=-IsFueled (get_accesses_all (other_children l)) _
      (get_accesses_all-IsFueled (other_children l)) λ _ _. tt

subsets_of-IsFueled :
    (compute : Expression → Result AccessSetNode) (n : ℕ)
    → ((e : Expression) → depth e < n → IsFueled (compute e))
    → (es : Expressions) → depth_all es < n
    → IsFueled (subsets_of compute es)
unfolding subsets_of depth
subsets_of-IsFueled compute n rec nil h = tt
subsets_of-IsFueled compute n rec (cons e es) h =
    >>=-IsFueled (compute e) _ (rec e (omega arith)) λ _ _.
      >>=-IsFueled (subsets_of compute es) _ (subsets_of-IsFueled compute n rec es (omega arith))
        λ _ _. tt

-- Fuel beyond the depth of the expression is enough to compute its access set.
pub compute_access_set-IsFueled :
    (fuel : ℕ) (e : Expression) → depth e < fuel → IsFueled (compute_access_set fuel e)
unfolding compute_access_set
compute_access_set-IsFueled zero e h = absurd (omega arith)
compute_access_set-IsFueled (suc fuel) (binary_operator assign l r) h =
    >>=-IsFueled (analyze_access l) _ (analyze_access-IsFueled l)
      λ _ _. >>=-IsFueled (get_accesses r) _ (get_accesses-IsFueled r) λ _ _. tt
compute_access_set-IsFueled (suc fuel) (binary_operator plus_assign l r) h =
    >>=-IsFueled (analyze_access l) _ (analyze_access-IsFueled l)
      λ _ _. >>=-IsFueled (get_accesses r) _ (get_accesses-IsFueled r) λ _ _. tt
compute_access_set-IsFueled (suc fuel) e h =
    >>=-IsFueled (subsets_of (compute_access_set fuel) (sub_expressions e))
      (λ ss. ok (access_set_node e [] [] ss))
      (subsets_of-IsFueled _ fuel (compute_access_set-IsFueled fuel) (sub_expressions e)
        (omega (arith, depth_all-sub_expressions-lt e)))
      λ _ _. tt
