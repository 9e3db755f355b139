-- ===== src/Jit/Loops.antt =====
-- The basic blocks of a loop, `emit_loop` of qubus/src/jit/loops.cpp, and their execution.
pub mod Execution
use qubus.Base.{
  ℕ, zero, suc, Bool, true, false, if◌then◌else◌, Option, none, some, List, [], ◌∷◌, ◌&&◌, ◌≡◌,
}
use qubus.Base.Int.{ℤ, ◌+ℤ◌, ltb_ℤ}
use qubus.Ir.Semantics.{in_range}
use qubus.Jit.Builder.{add_fits}

pub data Label : Type 0 where
  entry header body exit : Label

-- On the induction variable; `emitted_body` is what the emitter of the body emits.
pub data Instruction : Type 0 where
  store_bound emitted_body add_increment : Instruction

-- `branch_if_less` compares the induction variable with the upper bound.
pub data Terminator : Type 0 where
  branch : Label → Terminator
  branch_if_less : Label → Label → Terminator
  continuation : Terminator

pub record BasicBlock : Type 0 where
  pub instructions : List Instruction
  pub terminator : Terminator

abbrev pub emit_loop : Label → BasicBlock
emit_loop Label.entry = record { instructions = store_bound ∷ []; terminator = branch Label.header }
emit_loop Label.header = record {
  instructions = [];
  terminator = branch_if_less Label.body Label.exit;
}
emit_loop Label.body = record {
  instructions = emitted_body ∷ add_increment ∷ [];
  terminator = branch Label.header;
}
emit_loop Label.exit = record { instructions = []; terminator = continuation }

-- The induction variable is in a variable of its own, beside the rest of the memory.
pub record Machine (M : Type 0) : Type 0 where
  pub induction : ℤ
  pub memory : M

module _ {M : Type 0} (run_body : Machine M → Option (Machine M)) (lower upper increment : ℤ) where
  abbrev pub stored_if : Bool → ℤ → Machine M → Option (Machine M)
  stored_if defined z m =
      if defined then some (record { induction = z; memory = m.memory }) else none

  -- The sum has the flags `nuw` and `nsw`: it has no value where the signed or the unsigned one wraps.
  abbrev pub increased : Machine M → Option (Machine M)
  increased m =
      stored_if (in_range (m.induction +ℤ increment) && add_fits m.induction increment)
        (m.induction +ℤ increment) m

  abbrev pub execute : Instruction → Machine M → Option (Machine M)
  execute store_bound m = some (record { induction = lower; memory = m.memory })
  execute emitted_body m = run_body m
  execute add_increment m = increased m

  abbrev pub then_do : Option (Machine M) → (Machine M → Option (Machine M)) → Option (Machine M)
  then_do none f = none
  then_do (some m) f = f m

  unfoldable pub execute_all : List Instruction → Machine M → Option (Machine M)
  execute_all [] m = some m
  execute_all (i ∷ is) m = then_do (execute i m) (execute_all is)

  abbrev pub next : Terminator → Machine M → Option Label
  next (branch l) m = some l
  next (branch_if_less l k) m = some (if ltb_ℤ m.induction upper then l else k)
  next continuation m = none

  -- From one block to the next that is executed.
  pub data Step : Label → Machine M → Label → Machine M → Type 0 where
    step :
        (l k : Label) (m m' : Machine M)
        → execute_all (emit_loop l).instructions m ≡ some m'
        → next (emit_loop l).terminator m' ≡ some k
        → Step l m k m'

  pub data Reaches : Label → Machine M → Label → Machine M → Type 0 where
    here : (l : Label) (m : Machine M) → Reaches l m l m
    after :
        {l k j : Label} {m m' m'' : Machine M}
        → Step l m k m'
        → Reaches k m' j m''
        → Reaches l m j m''

  -- The execution has no value in the block.
  abbrev pub IsUndefinedAt : Label → Machine M → Type 0
  unfolding execute_all
  IsUndefinedAt l m = execute_all (emit_loop l).instructions m ≡ none
