-- ===== src/Lib.antt =====
-- Qubus compiles and runs tensor programs. A front end builds expressions of an intermediate
-- representation (IR); passes rewrite them (constant folding, explicit conversions), analyses
-- answer questions about them (the types, the aliasing of accesses, the axioms that hold at a
-- location), and a runtime lays the objects out, moves them and schedules the work on them. This
-- library models the parts of qubus/src, qubus/include/qubus and util whose logic is their own.
--
-- Base: shared helpers. Base.Tests (Boolean tests on numbers), Base.Lists, Base.Int (signed
-- integers with the division of C++), Base.Results (an outcome: a value, an exception, undefined
-- behaviour, or, in the model only, too little fuel).
--
-- Ir: the IR. Ir.Types is qubus/include/qubus/IR/type.hpp and qubus/src/IR/type.cpp. Ir.Expressions
-- is the classes qubus/src/IR/*_expr.cpp as one data type: Children (child, arity,
-- substitute_subexpressions), Equality (operator==), Depth. Ir.Inference is
-- qubus/src/IR/type_inference.cpp and qubus/src/IR/intrinsic_function_table.cpp. Ir.Semantics is
-- not code: it is the meaning of integer and Boolean expressions on 64-bit integers that the passes
-- are measured by. Ir.Folding is qubus/src/IR/constant_folding.cpp; Folding.Shape says what it
-- changes in any expression, also in one that has no meaning in Ir.Semantics. Ir.Conversions is
-- qubus/src/make_implicit_conversions_explicit.cpp on one expression, with the substitution of
-- qubus/include/qubus/pattern/substitute.hpp.
--
-- Analysis: Analysis.Alias is qubus/src/alias_analysis.cpp with the accesses of
-- qubus/src/variable_access_analysis.cpp (the driver and the basic rule, not the rule for arrays),
-- and with Alias.Slices the regions of slices that the rule for arrays compares, on affine
-- constraints; Analysis.Axioms is qubus/src/axiom_analysis.cpp, which uses constant folding.
-- Analysis.Accesses is the sets of accesses of qubus/src/variable_access_analysis.cpp, whose
-- locations are the expressions themselves. Analysis.Manager is the cache of analyses of
-- qubus/src/pass_manager.cpp and qubus/include/qubus/pass_manager.hpp, where a pass is a parameter.
-- Analysis.Affine is qubus/src/affine_constraints.cpp: Declaring (the tables of names of an
-- affine_expr_context), Extraction (try_construct_affine_expr, try_extract_affine_constraint),
-- Conversion (to functions and sets of isl), Ast (convert_isl_ast_expr_to_qir). A name is a kind
-- and a number there, as the names that isl is given are, and numbers are unbounded. isl is the
-- interface Affine.Isl: its operations, and how they act on points. Affine.Meaning reads the names
-- at a state of the program. Analysis.ValueSets is determine_value_sets of
-- qubus/src/value_set_analysis.cpp, which extracts constraints from the axioms of a location; the
-- image of a set under a function is a parameter. Analysis.Invariants is
-- qubus/src/task_invariants_analysis.cpp with the traversal of
-- qubus/include/qubus/pattern/for_each.hpp.
--
-- Jit: the code generator. Jit.Builder is not code: it is the interface to the instruction builder
-- of LLVM, and what the instructions for integers and Booleans compute. Jit.Operators is
-- qubus/src/jit/operators.cpp and Jit.Conversions is qubus/src/jit/type_conversion.cpp, both on
-- operands that are compiled and loaded; what they store is the value they give. Jit.Loops is
-- qubus/src/jit/loops.cpp: the basic blocks, and steps from one to the next, where the body is a
-- function on the machine.
--
-- Runtime: Runtime.AddressSpace is qubus/src/local_address_space.cpp with
-- qubus/src/evicting_allocator.cpp and qubus/src/host_allocator.cpp: the state is the table of
-- pages, the handles that clients hold, and the memory of an allocator, which is an interface
-- (qubus/include/qubus/allocator.hpp). Runtime.Dataflow is qubus/src/dataflow.cpp; Dataflow.Order
-- has the steps of a graph. Runtime.Scheduling is the two schedulers of qubus/src/scheduling.
-- Runtime.Layout is qubus/src/abi_info.cpp and qubus/src/object_description.cpp.
--
-- Qtl: the front end. Qtl.Expressions is the expressions of a kernel (qubus/src/qtl/IR and the classes
-- of qubus/src/IR that a kernel has) without aliases, and Qtl.Deltas is
-- qubus/src/qtl/kronecker_delta_folding_pass.cpp with the substitution of
-- qubus/include/qubus/pattern/substitute.hpp. Qtl.Meaning is not code: it is what sums and deltas
-- denote at the values of the indices, where numbers are a parameter with the laws of 0 and 1.
-- Deltas.Naming says which expressions the pass is run on: qubus/src/qtl/kernel.cpp runs
-- expand_multi_indices before it, after which each sum has one index and no alias.
--
-- Util: Util.IndexSpace is util/include/qubus/util/index_space.hpp. Util.LfuCache is
-- util/include/qubus/util/lfu_cache.hpp, where the order of the heap is a parameter.
--
-- Tests: concrete inputs for the theorems.
--
-- Recursion over the children of an expression is on fuel, and fuel above the depth of the
-- expression is enough; the code of Analysis.Axioms folds a bound with fuel one above its depth,
-- and a search for modifications in Analysis.Invariants has one above the depth of the context. A
-- substitution also searches the conversions it adds, so its fuel is above twice the depth. Folding
-- deltas takes fuel for the depth of the expression. The loop that collects accesses takes one round
-- for each expression it pushes, which Analysis.Accesses.rounds counts. The loop of the evicting
-- allocator is on fuel; one more than the entries of the table is enough.
--
-- Not modelled: the alias rule for arrays, floating-point arithmetic (a literal carries its bits), annotations and parent
-- pointers of expressions, the caches of results, and what isl, LLVM, HPX, CUDA and boost compute;
-- where a model needs an answer of one of them, the answer is a parameter. Of the code generator
-- the array accesses, function calls and the settings of LLVM are left out. The parser, the other
-- passes of the front end, the schedules of loops and the performance models are left out.
pub mod Analysis
pub mod Base
pub mod Ir
pub mod Jit
pub mod Qtl
pub mod Runtime
pub mod Tests
pub mod Util
