-- ===== src/Analysis/Invariants/Soundness.antt =====
-- What the answers of qubus/src/task_invariants_analysis.cpp say of the objects at run time.
use qubus.Base.{
  suc, not, ◌&&◌, Bool, true, false, if◌then◌else◌, List, [], ◌∷◌, ◌≡◌, ◌≢◌, refl, ap, ◌∙◌, ==_iff,
  Bool-cases, inl, inr,
}
use qubus.Base.Int.{ℤ}
use qubus.Base.Results.{Result, ok, fail, undefined_behaviour, ◌>>=◌, >>=-eq-ok, ok-injective}
use qubus.Ir.Expressions.{
  Expression, Expressions, BinaryOpTag, UnaryOpTag, variable_ref, binary_operator, unary_operator,
  member_access as member_expr, subscription as subscription_expr, for_loop,
}
use qubus.Ir.Expressions.Children.{is_access}
use qubus.Ir.Expressions.Depth.{depth}
use qubus.Analysis.Alias.{
  AliasResult, noalias, must_alias, Access, Qualifier, member_access, subscription,
  decompose_access, alias, alias_of, walk, evaluate_alias_query_stage, basic_aliasing_rule,
  basic_rules,
}
use qubus.Analysis.Alias.Paths.{Step, PathOf}
use qubus.Analysis.Alias.Soundness.{walk_sound, basic_aliasing_rule-IsSound}
use qubus.Analysis.Invariants.{
  aliases, is_affected_by, modifies_here, for_each, is_referencing_invariant_object, is_invariant,
}
use qubus.Analysis.Invariants.Modification.{IsModifiedIn, is_referencing_invariant_object_iff}

-- An access that operators only stand around.
pub data IsOperand : Expression → Expression → Type 0 where
  itself : (a : Expression) → is_access a ≡ true → IsOperand a a
  on_left :
      (a l r : Expression) (t : BinaryOpTag) → IsOperand a l → IsOperand a (binary_operator t l r)
  on_right :
      (a l r : Expression) (t : BinaryOpTag) → IsOperand a r → IsOperand a (binary_operator t l r)
  under : (a e : Expression) (t : UnaryOpTag) → IsOperand a e → IsOperand a (unary_operator t e)

invariant_access :
    (a context : Expression)
    → is_access a ≡ true
    → is_invariant a context ≡ ok true
    → is_referencing_invariant_object a context ≡ ok true
unfolding is_invariant
invariant_access (variable_ref v) context p h = h
invariant_access (member_expr e m) context p h = h
invariant_access (subscription_expr e es) context p h = h
invariant_access _ context p h = cc

both_true :
    (b : Bool) (r : Result Bool)
    → (if b then r else ok false) ≡ ok true
    → (b ≡ true) × (r ≡ ok true)
both_true true r h = (refl, h)
both_true false r h = cc h

invariant_operand :
    (a e context : Expression)
    → is_invariant e context ≡ ok true
    → IsOperand a e
    → is_referencing_invariant_object a context ≡ ok true
unfolding is_invariant
invariant_operand a e context h (itself b p) = invariant_access a context p h
invariant_operand a e context h (on_left b l r t o) =
    let (left, p, rest) = >>=-eq-ok (is_invariant l context) _ h in
    invariant_operand a l context (p ∙ ap ok (both_true left (is_invariant r context) rest).0) o
invariant_operand a e context h (on_right b l r t o) =
    let (left, p, rest) = >>=-eq-ok (is_invariant l context) _ h in
    invariant_operand a r context (both_true left (is_invariant r context) rest).1 o
invariant_operand a e context h (under b f t o) = invariant_operand a f context h o

unaffected_apart :
    (a m : Expression) (x y : Access)
    → decompose_access a ≡ ok x
    → decompose_access m ≡ ok y
    → is_affected_by a m ≡ ok false
    → alias basic_rules x y ≡ ok noalias
unfolding is_affected_by alias_of
unaffected_apart a m x y p q h = elim (Bool-cases (is_access a && is_access m)) [
  | inr other ↦ cc (rw other at h)
  | inl accesses ↦
      let (result, r, h₁) = >>=-eq-ok (alias basic_rules x y) _ (rw (accesses, p, q) at h) in
      r ∙ ap ok (noalias_of result (ok-injective h₁))
]
  where
    noalias_of : (r : AliasResult) → aliases r ≡ false → r ≡ noalias
    noalias_of noalias h = refl
    noalias_of _ h = cc h

-- An operand of an invariant expression never stands for an object that the context modifies: they
-- are of different variables, or their paths differ, whatever the indices select.
pub is_invariant-apart :
    (SelectsAt : Expression → ℤ → Type 0) (e context a m : Expression) (x y : Access)
    → is_invariant e context ≡ ok true
    → IsOperand a e
    → IsModifiedIn m context
    → decompose_access a ≡ ok x
    → decompose_access m ≡ ok y
    → (ss ts : List Step) → PathOf SelectsAt x.qualifiers ss
    → PathOf SelectsAt y.qualifiers ts
    → x.variable.id ≡ y.variable.id
    → ss ≢ ts
unfolding alias
is_invariant-apart SelectsAt e context a m x y h operand modified p q ss ts px py same =
    let untouched =
      (is_referencing_invariant_object_iff a context).0 (invariant_operand a e context h operand) m
        modified in
    walk_sound SelectsAt basic_rules (basic_aliasing_rule-IsSound SelectsAt, tt) must_alias
      x.qualifiers y.qualifiers (λ z. cc z)
      (rw ((==_iff x.variable.id y.variable.id).1 same) at (unaffected_apart a m x y p q untouched))
      ss ts px py

-- The first step of the walk does not look at the indices.
walk-subscription :
    (es fs : Expressions) (ps qs : List Qualifier) (state : AliasResult)
    → walk basic_rules state (subscription es ∷ ps) qs
      ≡ walk basic_rules state (subscription fs ∷ ps) qs
unfolding walk evaluate_alias_query_stage basic_aliasing_rule
walk-subscription es fs ps [] state = refl
walk-subscription es fs ps (member_access m ∷ qs) state = refl
walk-subscription es fs ps (subscription gs ∷ qs) state = refl

alias-subscription :
    (es fs : Expressions) (a : Result Access) (m : Result Access)
    → (do
      x ← (a >>= λ x. ok (record x { qualifiers = subscription es ∷ x.qualifiers }))
      y ← m
      alias basic_rules x y)
      ≡ (do
        x ← (a >>= λ x. ok (record x { qualifiers = subscription fs ∷ x.qualifiers }))
        y ← m
        alias basic_rules x y)
unfolding alias
alias-subscription es fs (ok x) (ok y) =
    rw (walk-subscription es fs x.qualifiers y.qualifiers must_alias) refl
alias-subscription es fs (fail w) m = refl
alias-subscription es fs (ok x) (fail w) = refl

is_affected_by-subscription :
    (e m : Expression) (es fs : Expressions)
    → is_affected_by (subscription_expr e es) m ≡ is_affected_by (subscription_expr e fs) m
unfolding is_affected_by alias_of decompose_access
is_affected_by-subscription e m es fs =
    ap (λ q. if is_access m then (q >>= λ r. ok (aliases r)) else fail undefined_behaviour)
      (alias-subscription es fs (decompose_access e) (decompose_access m))

modifies_here-subscription :
    (e x : Expression) (es fs : Expressions)
    → modifies_here (subscription_expr e es) x ≡ modifies_here (subscription_expr e fs) x
unfolding modifies_here
modifies_here-subscription e (binary_operator BinaryOpTag.assign l r) es fs =
    is_affected_by-subscription e l es fs
modifies_here-subscription e (binary_operator BinaryOpTag.plus_assign l r) es fs =
    is_affected_by-subscription e l es fs
modifies_here-subscription e (for_loop o v l u i b) es fs =
    is_affected_by-subscription e (variable_ref v) es fs
modifies_here-subscription e _ es fs = refl

-- Whether a subscription is taken for invariant does not depend on its indices.
pub is_invariant-subscription :
    (e context : Expression) (es fs : Expressions)
    → is_invariant (subscription_expr e es) context ≡ is_invariant (subscription_expr e fs) context
unfolding is_invariant is_referencing_invariant_object
is_invariant-subscription e context es fs =
    ap
      (λ matcher.
        for_each (suc (depth context)) matcher context >>= λ is_modified. ok (not is_modified))
      (λ i x. modifies_here-subscription e x es fs i)
