-- ===== src/Ir/Expressions/Rebuilding.antt =====
-- To take the children of an expression and to put them back in.
use qubus.Base.{true, ◌≡◌, refl, ap, ◌↔◌, arith}
use qubus.Base.Results.{ok}
use qubus.Ir.Expressions.{
  Expression, Expressions, subscription, member_access, construct, nil, cons,
}
use qubus.Ir.Expressions.Children.{copies, is_access, sub_expressions, substitute_subexpressions}

abbrev pub AllAre : Expression → Expressions → Type 0
AllAre e nil = Unit
AllAre e (cons f fs) = (f ≡ e) × AllAre e fs

-- An access is qualified, and the parameters of a construction are all the same.
abbrev pub IsRebuilt : Expression → Type 0
IsRebuilt (subscription e es) = is_access e ≡ true
IsRebuilt (member_access e m) = is_access e ≡ true
IsRebuilt (construct t (cons e es)) = AllAre e es
IsRebuilt _ = Unit

copies_of_same : (e : Expression) (es : Expressions) → AllAre e es → copies e es ≡ es
copies_of_same e nil h = refl
copies_of_same e (cons f fs) h = rw (copies_of_same e fs h.1, h.0) refl

same_of_copies : (e : Expression) (es : Expressions) → copies e es ≡ es → AllAre e es
same_of_copies e nil h = tt
same_of_copies e (cons f fs) h = (cc, same_of_copies e fs (ground arith))

rebuilt : (e : Expression) → IsRebuilt e → substitute_subexpressions e (sub_expressions e) ≡ ok e
unfolding substitute_subexpressions sub_expressions
rebuilt (subscription e es) h = ground arith
rebuilt (member_access e m) h = ground arith
rebuilt (construct t (cons e es)) h =
    ap (λ fs. ok (construct t (cons e fs))) (copies_of_same e es h)
rebuilt (construct t nil) h = refl
rebuilt _ h = refl

only-IsRebuilt :
    (e : Expression) → substitute_subexpressions e (sub_expressions e) ≡ ok e → IsRebuilt e
unfolding substitute_subexpressions sub_expressions
only-IsRebuilt (subscription e es) h = ground arith
only-IsRebuilt (member_access e m) h = ground arith
only-IsRebuilt (construct t (cons e es)) h = same_of_copies e es (cc)
only-IsRebuilt (construct t nil) h = tt
only-IsRebuilt _ h = tt

-- To put the children of an expression back in gives the expression exactly if what it qualifies is
-- an access and, where it constructs an object, all its parameters are the same expression.
pub substitute_subexpressions-sub_expressions_iff :
    (e : Expression) → (substitute_subexpressions e (sub_expressions e) ≡ ok e) ↔ IsRebuilt e
substitute_subexpressions-sub_expressions_iff e = (only-IsRebuilt e, rebuilt e)

-- The children that an expression then shows: for a construction, copies of the first.
abbrev pub shown : Expression → Expressions → Expressions
shown (construct t es) nil = nil
shown (construct t es) (cons f fs) = cons f (copies f fs)
shown _ fs = fs

-- A successful substitution shows the new children, or copies of the first where it constructs an
-- object.
pub sub_expressions-substitute_subexpressions :
    (e : Expression) (es : Expressions) {e' : Expression}
    → substitute_subexpressions e es ≡ ok e'
    → sub_expressions e' ≡ shown e es
unfolding substitute_subexpressions sub_expressions
sub_expressions-substitute_subexpressions (subscription e old) es h = ground arith
sub_expressions-substitute_subexpressions (construct t old) nil h = ground arith
sub_expressions-substitute_subexpressions (construct t old) (cons f fs) h = ground arith
sub_expressions-substitute_subexpressions _ es h = ground arith
