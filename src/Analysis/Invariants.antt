-- ===== src/Analysis/Invariants.antt =====
-- Task invariants: qubus/src/task_invariants_analysis.cpp, on the basic alias analysis.
pub mod Modification
pub mod Soundness
use qubus.Base.{ℕ, zero, suc, Bool, true, false, not, ◌&&◌, ◌||◌, if◌then◌else◌}
use qubus.Base.Results.{Result, ok, fail, undefined_behaviour, out_of_fuel, ◌>>=◌}
use qubus.Ir.Expressions.{
  Expression, Expressions, BinaryOpTag, UnaryOpTag, variable_ref, binary_operator, unary_operator,
  double_literal, float_literal, integer_literal, member_access, subscription, for_loop, nil, cons,
}
use qubus.Ir.Expressions.Children.{sub_expressions, is_access}
use qubus.Ir.Expressions.Depth.{depth}
use qubus.Analysis.Alias.{AliasResult, noalias, alias_of, basic_rules}

-- `result != alias_result::noalias`.
abbrev pub aliases : AliasResult → Bool
aliases noalias = false
aliases _ = true

-- The object is a part of what is modified, or the other way round; the assertion is that both are
-- accesses.
unfoldable pub is_affected_by : Expression → Expression → Result Bool
unfolding alias_of
is_affected_by obj modified =
    let query = (alias_of basic_rules obj modified >>= λ r. ok (aliases r)) in
    if is_access obj && is_access modified then query else fail undefined_behaviour

-- The matcher on one expression of the context: whether it modifies the object.
unfoldable pub modifies_here : Expression → Expression → Result Bool
unfolding is_affected_by
modifies_here obj (binary_operator BinaryOpTag.assign l r) = is_affected_by obj l
modifies_here obj (binary_operator BinaryOpTag.plus_assign l r) = is_affected_by obj l
modifies_here obj (for_loop o v l u i b) = is_affected_by obj (variable_ref v)
modifies_here obj e = ok false

unfoldable pub any_of : (Expression → Result Bool) → Expressions → Result Bool
any_of test nil = ok false
any_of test (cons e es) = do first ← test e; rest ← any_of test es; ok (first || rest)

-- `pattern::for_each`, on the flag that the matcher sets; the fuel bounds the depth.
unfoldable pub for_each : ℕ → (Expression → Result Bool) → Expression → Result Bool
unfolding any_of
for_each zero matcher e = fail out_of_fuel
for_each (suc fuel) matcher e = do
  here ← matcher e
  below ← any_of (for_each fuel matcher) (sub_expressions e)
  ok (here || below)

unfoldable pub is_referencing_invariant_object : Expression → Expression → Result Bool
unfolding for_each modifies_here depth
is_referencing_invariant_object obj context = do
  is_modified ← for_each (suc (depth context)) (modifies_here obj) context
  ok (not is_modified)

-- The first case takes each member access and each subscription, so that the later cases for these
-- are never reached.
unfoldable pub is_invariant : Expression → Expression → Result Bool
unfolding is_referencing_invariant_object
is_invariant (variable_ref v) context = is_referencing_invariant_object (variable_ref v) context
is_invariant (member_access e m) context =
    is_referencing_invariant_object (member_access e m) context
is_invariant (subscription e es) context =
    is_referencing_invariant_object (subscription e es) context
is_invariant (double_literal x) context = ok true
is_invariant (float_literal x) context = ok true
is_invariant (integer_literal x) context = ok true
is_invariant (binary_operator t l r) context = do
  left ← is_invariant l context
  if left then is_invariant r context else ok false
is_invariant (unary_operator t e) context = is_invariant e context
is_invariant _ context = ok false
