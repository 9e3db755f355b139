-- ===== src/Ir/Expressions.antt =====
-- The expressions of the IR: qubus/include/qubus/IR/*_expr.hpp and qubus/src/IR/*_expr.cpp, with
-- the sums and the Kronecker deltas of qubus/include/qubus/qtl/IR.
pub mod Children
pub mod Depth
pub mod Equality
pub mod Rebuilding
use qubus.Base.{ℕ, Bool, String, List, ◌==◌, Option}
use qubus.Base.Int.{ℤ}
use qubus.Ir.Types.{IrType}

-- `variable_declaration`: a handle that identifies the declaration, and what it declares.
pub record Variable : Type 0 where
  pub id : ℕ
  pub var_type : IrType

-- `operator==(const variable_declaration&, ...)` compares the identities.
abbrev pub same_variable : Variable → Variable → Bool
same_variable v w = v.id == w.id

pub data BinaryOpTag : Type 0 where
  nop plus minus multiplies divides modulus div_floor assign plus_assign equal_to not_equal_to less
        greater less_equal greater_equal logical_and logical_or :
      BinaryOpTag

pub data UnaryOpTag : Type 0 where
  nop plus negate logical_not : UnaryOpTag

pub data ExecutionOrder : Type 0 where
  sequential unordered parallel : ExecutionOrder

-- A floating-point literal carries its bit pattern.
mutual
  pub data Expression : Type 0 where
    double_literal float_literal : ℕ → Expression
    integer_literal : ℤ → Expression
    bool_literal : Bool → Expression
    variable_ref : Variable → Expression
    binary_operator : BinaryOpTag → Expression → Expression → Expression
    unary_operator : UnaryOpTag → Expression → Expression
    type_conversion : IrType → Expression → Expression
    intrinsic_function : String → Expressions → Expression
    subscription : Expression → Expressions → Expression
    member_access : Expression → String → Expression
    construct : IrType → Expressions → Expression
    integer_range : Expression → Expression → Expression → Expression
    compound : ExecutionOrder → Expressions → Expression
    for_loop :
        ExecutionOrder → Variable → Expression → Expression → Expression → Expression → Expression
    if_then : Expression → Expression → Expression
    if_else : Expression → Expression → Expression → Expression
    local_variable_def : Variable → Expression → Expression
    macro : List Variable → Expression → Expression
    sum : List Variable → Option Variable → Expression → Expression
    delta : ℤ → Expression → Expression → Expression

  pub data Expressions : Type 0 where
    nil : Expressions
    cons : Expression → Expressions → Expressions
