-- ===== src/Analysis/Accesses.antt =====
-- The accesses of a region: qubus/src/variable_access_analysis.cpp, with the pattern
-- qubus/include/qubus/pattern/variable_scope.hpp. Locations are the expressions themselves.
pub mod Stack
pub mod Rounds
pub mod Hiding
pub mod Scopes
pub mod Regions
pub mod Termination
use qubus.Base.{ℕ, zero, suc, ◌+◌, ◌*◌, Bool, true, false, if◌then◌else◌, List, [], ◌∷◌, ◌++◌}
use qubus.Base.Results.{Result, ok, fail, exception, out_of_fuel, ◌>>=◌}
use qubus.Ir.Expressions.{
  Expression, Expressions, Variable, same_variable, variable_ref, member_access, subscription,
  construct, binary_operator, unary_operator, type_conversion, intrinsic_function, integer_range,
  compound, for_loop, if_then, if_else, local_variable_def, macro, sum, delta, nil, cons, assign,
  plus_assign,
}
use qubus.Ir.Expressions.Children.{sub_expressions, is_access, count}
use qubus.Analysis.Alias.{Access, decompose_access}

pub data AccessKind : Type 0 where
  external all : AccessKind

-- `access_set_node`.
mutual
  pub data AccessSetNode : Type 0 where
    access_set_node : Expression → List Access → List Access → AccessSetNodes → AccessSetNode

  pub data AccessSetNodes : Type 0 where
    no_subsets : AccessSetNodes
    and_subset : AccessSetNode → AccessSetNodes → AccessSetNodes

-- `std::remove_if` with `acc.variable() == var`.
unfoldable pub remove_variable : Variable → List Access → List Access
remove_variable v [] = []
remove_variable v (a ∷ found) =
    let rest = remove_variable v found in if same_variable a.variable v then rest else a ∷ rest

-- A loop is the only scope of a variable.
unfoldable pub without_scoped : AccessKind → Expression → List Access → List Access
unfolding remove_variable
without_scoped external (for_loop o v l u i b) found = remove_variable v found
without_scoped _ _ found = found

-- `get_read_accesses` and `get_write_accesses` differ in the local accesses that they start with.
unfoldable mutual
  unfolding without_scoped

  pub gather : (List Access → List Access → List Access) → AccessKind → AccessSetNode → List Access
  gather start kind (access_set_node location reads writes subsets) =
      without_scoped kind location (start reads writes ++ gather_subsets start kind subsets)

  pub gather_subsets :
      (List Access → List Access → List Access) → AccessKind → AccessSetNodes → List Access
  gather_subsets start kind no_subsets = []
  gather_subsets start kind (and_subset n ns) = gather start kind n ++ gather_subsets start kind ns

abbrev pub local_reads : List Access → List Access → List Access
local_reads reads writes = reads

abbrev pub local_writes : List Access → List Access → List Access
local_writes reads writes = writes

abbrev pub get_read_accesses : AccessKind → AccessSetNode → List Access
get_read_accesses = gather local_reads

abbrev pub get_write_accesses : AccessKind → AccessSetNode → List Access
get_write_accesses = gather local_writes

-- The children whose address is not the one of the qualified access.
unfoldable pub other_children : Expression → Expressions
unfolding sub_expressions
other_children (member_access e m) = nil
other_children (subscription e es) = es
other_children e = sub_expressions e

-- Each child is pushed on top.
unfoldable pub push_all : Expressions → List Expression → List Expression
push_all nil pending = pending
push_all (cons e es) pending = push_all es (e ∷ pending)

unfoldable pub own_access : Expression → Result (List Access)
unfolding decompose_access
own_access e =
    let decomposed = (do a ← decompose_access e; ok (a ∷ [])) in
    if is_access e then decomposed else ok []

-- The loop of `get_accesses`. The fuel bounds its rounds.
unfoldable pub drain : ℕ → List Expression → Result (List Access)
unfolding own_access other_children push_all
drain fuel [] = ok []
drain zero (e ∷ pending) = fail out_of_fuel
drain (suc fuel) (e ∷ pending) = do
  found ← own_access e
  rest ← drain fuel (push_all (other_children e) pending)
  ok (found ++ rest)

-- The rounds that an expression takes.
unfoldable mutual
  pub rounds : Expression → ℕ
  rounds (binary_operator t l r) = suc (rounds l + rounds r)
  rounds (unary_operator t e) = suc (rounds e)
  rounds (type_conversion t e) = suc (rounds e)
  rounds (intrinsic_function f es) = suc (rounds_all es)
  rounds (subscription e es) = suc (rounds_all es)
  rounds (construct t nil) = 1
  rounds (construct t (cons e es)) = suc (suc (count es) * rounds e)
  rounds (integer_range b e s) = suc (rounds b + (rounds e + rounds s))
  rounds (compound o es) = suc (rounds_all es)
  rounds (for_loop o v l u i b) = suc (rounds l + (rounds u + (rounds i + rounds b)))
  rounds (if_then c t) = suc (rounds c + rounds t)
  rounds (if_else c t f) = suc (rounds c + (rounds t + rounds f))
  rounds (local_variable_def v e) = suc (rounds e)
  rounds (macro ps e) = suc (rounds e)
  rounds (sum vs a e) = suc (rounds e)
  rounds (delta n i j) = suc (rounds i + rounds j)
  rounds _ = 1

  pub rounds_all : Expressions → ℕ
  rounds_all nil = 0
  rounds_all (cons e es) = rounds e + rounds_all es

unfoldable pub get_accesses : Expression → Result (List Access)
unfolding drain rounds
get_accesses e = drain (rounds e) (e ∷ [])

unfoldable pub get_accesses_all : Expressions → Result (List Access)
unfolding get_accesses
get_accesses_all nil = ok []
get_accesses_all (cons e es) = do
  accesses ← get_accesses e
  rest ← get_accesses_all es
  ok (accesses ++ rest)

pub record AccessInfo : Type 0 where
  pub direct_access : Access
  pub indirect_accesses : List Access

-- `analyze_access`, with the conversion of its argument to an access.
unfoldable pub analyze_access : Expression → Result AccessInfo
unfolding decompose_access get_accesses_all other_children
analyze_access acc = do
  direct ← decompose_access acc
  indirect ← get_accesses_all (other_children acc)
  ok (record { direct_access = direct; indirect_accesses = indirect })

-- The loop over the children.
unfoldable pub subsets_of :
    (Expression → Result AccessSetNode) → Expressions → Result AccessSetNodes
subsets_of compute nil = ok no_subsets
subsets_of compute (cons e es) = do n ← compute e; ns ← subsets_of compute es; ok (and_subset n ns)

-- The fuel bounds the depth of the recursion.
unfoldable pub compute_access_set : ℕ → Expression → Result AccessSetNode
unfolding analyze_access get_accesses subsets_of sub_expressions
compute_access_set zero e = fail out_of_fuel
compute_access_set (suc fuel) (binary_operator assign l r) = do
  info ← analyze_access l
  reads ← get_accesses r
  ok (
      access_set_node (binary_operator assign l r) (reads ++ info.indirect_accesses)
        (info.direct_access ∷ []) no_subsets)
compute_access_set (suc fuel) (binary_operator plus_assign l r) = do
  info ← analyze_access l
  reads ← get_accesses r
  ok (
      access_set_node (binary_operator plus_assign l r)
        ((reads ++ info.indirect_accesses) ++ (info.direct_access ∷ [])) (info.direct_access ∷ [])
        no_subsets)
compute_access_set (suc fuel) e = do
  subsets ← subsets_of (compute_access_set fuel) (sub_expressions e)
  ok (access_set_node e [] [] subsets)
