-- ===== src/Analysis/Axioms/Scopes.antt =====
-- The recursion of the tree of scopes ends.
use qubus.Base.{ℕ, zero, suc, ◌<◌, arith, List, []}
use qubus.Base.Results.{Result, ok, IsFueled, >>=-IsFueled, if-IsFueled}
use qubus.Ir.Expressions.{
  Expression, Expressions, Variable, for_loop, if_then, if_else, nil, cons, integer_literal,
}
use qubus.Ir.Expressions.Children.{sub_expressions}
use qubus.Ir.Expressions.Depth.{depth, depth_all, depth_all-sub_expressions-lt}
use qubus.Ir.Folding.{fold_constant_expressions}
use qubus.Ir.Folding.Termination.{fold-IsFueled}
use qubus.Analysis.Axioms.{
  AxiomScope, body_axioms, upper_bound_axiom, scopes_of, subscopes_of, generate_axiom_scope_tree,
  last_bound,
}

upper_bound_axiom-IsFueled :
    (idx : Variable) (l u i : Expression) → IsFueled (upper_bound_axiom idx l u i)
unfolding upper_bound_axiom
upper_bound_axiom-IsFueled idx l u (integer_literal z) =
    let bound = last_bound l u (integer_literal z) in
    if-IsFueled _ (ok _) _ tt (
      >>=-IsFueled (fold_constant_expressions (suc (depth bound)) bound) _
        (fold-IsFueled (suc (depth bound)) bound (omega arith)) λ _ _. tt)
upper_bound_axiom-IsFueled idx l u _ = tt

body_axioms-IsFueled : (idx : Variable) (l u i : Expression) → IsFueled (body_axioms idx l u i)
unfolding body_axioms
body_axioms-IsFueled idx l u i =
    >>=-IsFueled (upper_bound_axiom idx l u i) _ (upper_bound_axiom-IsFueled idx l u i) λ _ _. tt

module _ (n : ℕ) (generate : Expression → List Expression → Result AxiomScope)
    (rec : (e : Expression) (axioms : List Expression)
      → depth e < n
      → IsFueled (generate e axioms)) where
  scopes_of-IsFueled : (es : Expressions) → depth_all es < n → IsFueled (scopes_of generate es)
  unfolding scopes_of depth
  scopes_of-IsFueled nil h = tt
  scopes_of-IsFueled (cons e es) h =
      >>=-IsFueled (generate e []) _ (rec e [] (omega arith)) λ _ _.
        >>=-IsFueled (scopes_of generate es) _ (scopes_of-IsFueled es (omega arith)) λ _ _. tt

  subscopes_of-IsFueled : (e : Expression) → depth e < suc n → IsFueled (subscopes_of generate e)
  unfolding subscopes_of depth
  subscopes_of-IsFueled (for_loop o v l u i b) h =
      >>=-IsFueled (body_axioms v l u i) _ (body_axioms-IsFueled v l u i) λ axioms _.
        >>=-IsFueled (generate l []) _ (rec l [] (omega arith)) λ _ _.
          >>=-IsFueled (generate u []) _ (rec u [] (omega arith)) λ _ _.
            >>=-IsFueled (generate i []) _ (rec i [] (omega arith))
              λ _ _. >>=-IsFueled (generate b axioms) _ (rec b axioms (omega arith)) λ _ _. tt
  subscopes_of-IsFueled (if_then c t) h =
      >>=-IsFueled (generate c []) _ (rec c [] (omega arith))
        λ _ _. >>=-IsFueled (generate t _) _ (rec t _ (omega arith)) λ _ _. tt
  subscopes_of-IsFueled (if_else c t f) h =
      >>=-IsFueled (generate c []) _ (rec c [] (omega arith)) λ _ _.
        >>=-IsFueled (generate t _) _ (rec t _ (omega arith))
          λ _ _. >>=-IsFueled (generate f _) _ (rec f _ (omega arith)) λ _ _. tt
  subscopes_of-IsFueled e h =
      scopes_of-IsFueled (sub_expressions e) (omega (arith, depth_all-sub_expressions-lt e))

-- Fuel beyond the depth of the expression is enough for the tree.
pub generate-IsFueled :
    (fuel : ℕ) (e : Expression) (axioms : List Expression)
    → depth e < fuel
    → IsFueled (generate_axiom_scope_tree fuel e axioms)
unfolding generate_axiom_scope_tree
generate-IsFueled zero e axioms h = absurd (omega arith)
generate-IsFueled (suc fuel) e axioms h =
    >>=-IsFueled (subscopes_of (generate_axiom_scope_tree fuel) e) _
      (subscopes_of-IsFueled fuel (generate_axiom_scope_tree fuel) (generate-IsFueled fuel) e h)
      λ _ _. tt
