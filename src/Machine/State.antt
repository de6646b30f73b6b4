-- ===== src/Machine/State.antt =====
-- The globals of a8/q3/sm.c, and access to its registers and its memory.
-- An index outside an array is undefined behaviour, and the result is `none`.
use cs213_assignments.Common.{
  ℕ, ◌-◌, ◌*◌, Option, none, some, List, [], ◌∷◌, ltb, if◌then◌else◌, update,
}
use cs213_assignments.Machine.Words.{word_mod}

-- What the program does outside its own state, oldest last.
pub data Event : Type 0 where
  illegal_instruction : (pc op_code : ℕ) → Event
  illegal_alu : (pc fun : ℕ) → Event
  sys_read : (fd addr count : ℕ) → Event
  sys_write : (fd addr count : ℕ) (bytes : ℕ → ℕ) → Event
  sys_exec : (size : ℕ) (bytes : ℕ → ℕ) → Event
  would_execute : (addr size : ℕ) → Event

abbrev pub mem_size : ℕ
mem_size = 10000 * 4

-- Words are 32-bit patterns, bytes 8-bit ones. The registers are 8 and the bytes `mem_size`: the
-- values beyond are never read.
pub record Machine : Type 0 where
  pub reg : ℕ → ℕ
  pub mem : ℕ → ℕ
  pub pc : ℕ
  pub ins_op_code : ℕ
  pub ins_op0 : ℕ
  pub ins_op1 : ℕ
  pub ins_op2 : ℕ
  pub ins_op_imm : ℕ
  pub ins_op_ext : ℕ
  pub log : List Event

-- `pc` starts as -1, and the other globals as zero.
abbrev pub initial : Machine
initial = record {
  reg = λ _. 0;
  mem = λ _. 0;
  pc = word_mod - 1;
  ins_op_code = 0;
  ins_op0 = 0;
  ins_op1 = 0;
  ins_op2 = 0;
  ins_op_imm = 0;
  ins_op_ext = 0;
  log = [];
}

abbrev pub num_regs : ℕ
num_regs = 8

unfoldable pub get_reg : ℕ → Machine → Option ℕ
get_reg i m = if ltb i num_regs then some (m.reg i) else none

unfoldable pub set_reg : ℕ → ℕ → Machine → Option Machine
set_reg i v m = if ltb i num_regs then some (record m { reg = update m.reg i v }) else none

unfoldable pub get_byte : ℕ → Machine → Option ℕ
get_byte a m = if ltb a mem_size then some (m.mem a) else none

unfoldable pub set_byte : ℕ → ℕ → Machine → Option Machine
set_byte a v m = if ltb a mem_size then some (record m { mem = update m.mem a v }) else none

abbrev pub report : Event → Machine → Machine
report e m = record m { log = e ∷ m.log }
