-- ===== src/Machine/Exec.antt =====
-- `exec` of a8/q3/sm.c, one function for each instruction. The system calls of an `f1` instruction
-- are those of the operating system, a parameter.
use cs213_assignments.Common.{
  ℕ, zero, suc, ◌+◌, ◌-◌, ◌||◌, Bool, true, false, Option, none, some, List, ◌>>=◌, leb, ◌==◌,
  if◌then◌else◌, bit_and,
}
use cs213_assignments.Machine.Words.{
  add32, sub32, not32, shl32, sar32, shift_defined, is_positive, is_positive_char, int_of_char,
  ushort_of_char, neg_char,
}
use cs213_assignments.Machine.State.{
  Machine, Event, illegal_instruction, illegal_alu, sys_read, sys_write, sys_exec, would_execute,
  mem_size, get_reg, set_reg, report,
}
use cs213_assignments.Machine.Memory.{load_word, store_word}

-- The answers of the operating system, each of which may depend on the calls before it:
-- `read` gives its result and the memory behind it, `write` and `system` their results, and
-- `allow_exec` says whether SIMPLE_MACHINE_ALLOW_EXEC is "1".
pub record Os : Type 0 where
  pub read : List Event → (fd addr count : ℕ) → (ℕ → ℕ) → ℕ
  pub read_into : List Event → (fd addr count : ℕ) → (ℕ → ℕ) → ℕ → ℕ
  pub write : List Event → (fd addr count : ℕ) → (ℕ → ℕ) → ℕ
  pub system : List Event → (size : ℕ) → (ℕ → ℕ) → ℕ
  pub allow_exec : Bool

-- Instructions that go on to the next one, and `halt`.
abbrev pub go_on : Option Machine → Option (Machine × Bool)
go_on r = do m ← r; some (m, true)

-- 0: ld $i, d
unfoldable pub ld_imm : Machine → Option Machine
ld_imm m = set_reg m.ins_op0 m.ins_op_ext m

-- 1: ld o(rs), rd
unfoldable pub ld_base : Machine → Option Machine
ld_base m = do
  base ← get_reg m.ins_op1 m
  val ← load_word (add32 (shl32 m.ins_op0 2) base) m
  set_reg m.ins_op2 val m

-- 2: ld (rs, ri, 2), rd
unfoldable pub ld_indexed : Machine → Option Machine
ld_indexed m = do
  base ← get_reg m.ins_op0 m
  index ← get_reg m.ins_op1 m
  val ← load_word (add32 base (shl32 index 2)) m
  set_reg m.ins_op2 val m

-- 3: st rs, o(rd)
unfoldable pub st_base : Machine → Option Machine
st_base m = do
  base ← get_reg m.ins_op2 m
  val ← get_reg m.ins_op0 m
  store_word (add32 (shl32 m.ins_op1 2) base) val m

-- 4: st rs, (rd, ri, 4)
unfoldable pub st_indexed : Machine → Option Machine
st_indexed m = do
  base ← get_reg m.ins_op1 m
  index ← get_reg m.ins_op2 m
  val ← get_reg m.ins_op0 m
  store_word (add32 base (shl32 index 2)) val m

-- 6: the two-register and the one-register forms of the ALU instructions.
unfoldable pub alu_two : (ℕ → ℕ → ℕ) → Machine → Option Machine
alu_two f m = do s ← get_reg m.ins_op1 m; d ← get_reg m.ins_op2 m; set_reg m.ins_op2 (f s d) m

unfoldable pub alu_one : (ℕ → ℕ) → Machine → Option Machine
alu_one f m = do d ← get_reg m.ins_op2 m; set_reg m.ins_op2 (f d) m

-- 60: mov rs, rd
unfoldable pub alu_mov : Machine → Option Machine
alu_mov m = do s ← get_reg m.ins_op1 m; set_reg m.ins_op2 s m

-- 6f: gpc
unfoldable pub alu_gpc : Machine → Option Machine
alu_gpc m = set_reg m.ins_op2 (add32 m.pc (shl32 m.ins_op1 1)) m

unfoldable pub alu : ℕ → Machine → Option Machine
alu fun m =
    if fun == 0x0
    then alu_mov m
    else if fun == 0x1
    then alu_two add32 m
    else if fun == 0x2
    then alu_two bit_and m
    else if fun == 0x3
    then alu_one (λ d. add32 d 1) m
    else if fun == 0x4
    then alu_one (λ d. add32 d 4) m
    else if fun == 0x5
    then alu_one (λ d. sub32 d 1) m
    else if fun == 0x6
    then alu_one (λ d. sub32 d 4) m
    else if fun == 0x7
    then alu_one not32 m
    else if fun == 0xf
    then alu_gpc m
    else some (report (illegal_alu m.pc fun) m)

-- 7: sh? $i, rd
unfoldable pub shift : Machine → Option Machine
shift m = do
  d ← get_reg m.ins_op0 m
  if is_positive_char m.ins_op_imm
      then (if shift_defined m.ins_op_imm then set_reg m.ins_op0 (shl32 d m.ins_op_imm) m else none)
      else (if shift_defined (neg_char m.ins_op_imm)
          then set_reg m.ins_op0 (sar32 d (neg_char m.ins_op_imm)) m
          else none)

-- 8: br o
abbrev pub branch : Machine → Machine
branch m = record m { pc = add32 m.pc (shl32 (int_of_char m.ins_op_imm) 1) }

-- 9: beq rs, o
unfoldable pub branch_eq : Machine → Option Machine
branch_eq m = do s ← get_reg m.ins_op0 m; if s == 0 then some (branch m) else some m

-- a: bgt rs, o
unfoldable pub branch_gt : Machine → Option Machine
branch_gt m = do s ← get_reg m.ins_op0 m; if is_positive s then some (branch m) else some m

-- b: j i
abbrev pub jump : Machine → Machine
jump m = record m { pc = m.ins_op_ext }

-- c: j o(rr)
unfoldable pub jump_base : Machine → Option Machine
jump_base m = do
  base ← get_reg m.ins_op0 m
  some (record m { pc = add32 (shl32 (ushort_of_char m.ins_op_imm) 1) base })

-- A buffer of `count` bytes from `addr` on lies in memory.
abbrev pub in_memory : ℕ → ℕ → Bool
in_memory addr count = leb (addr + count) mem_size

-- One of `left` bytes from `addr` on is 0.
unfoldable pub text_ends : (left addr : ℕ) → (ℕ → ℕ) → Bool
text_ends zero addr mem = false
text_ends (suc left) addr mem = mem addr == 0 || text_ends left (addr + 1) mem

-- What printf reads of a text at `addr` with the precision `size`: up to a 0, and no more than `size`
-- bytes unless `size` is negative, which is larger than any address here.
abbrev pub text_in_memory : ℕ → ℕ → (ℕ → ℕ) → Bool
text_in_memory addr size mem = in_memory addr size || text_ends (mem_size - addr) addr mem

module _ (os : Os) where
  -- f1 0: sys read
  unfoldable pub read : Machine → Option Machine
  read m =
      let fd = m.reg 0 in
      let addr = m.reg 1 in
      let count = m.reg 2 in
      if in_memory addr count
      then set_reg 0 (os.read m.log fd addr count m.mem)
          (record (report (sys_read fd addr count) m) {
            mem = os.read_into m.log fd addr count m.mem;
          })
      else none

  -- f1 1: sys write
  unfoldable pub write : Machine → Option Machine
  write m =
      let fd = m.reg 0 in
      let addr = m.reg 1 in
      let count = m.reg 2 in
      if in_memory addr count
      then set_reg 0 (os.write m.log fd addr count m.mem)
          (report (sys_write fd addr count (λ i. m.mem (addr + i))) m)
      else none

  -- f1 2: sys exec
  unfoldable pub execute : Machine → Option Machine
  execute m =
      let addr = m.reg 0 in
      let size = m.reg 1 in
      if os.allow_exec
      then (if in_memory addr size
          then set_reg 0 (os.system m.log size (λ i. m.mem (addr + i)))
              (report (sys_exec size (λ i. m.mem (addr + i))) m)
          else none)
      else (if text_in_memory addr size m.mem
          then some (report (would_execute addr size) m)
          else none)

  unfoldable pub sys : ℕ → Machine → Option Machine
  sys call m =
      if call == 0
      then read m
      else if call == 1
      then write m
      else if call == 2
      then execute m
      else some m

  -- f: halt, sys or nop
  unfoldable pub halt_or_sys : Machine → Option (Machine × Bool)
  halt_or_sys m =
      if m.ins_op0 == 0
      then some (m, false)
      else if m.ins_op0 == 1
      then go_on (sys m.ins_op_imm m)
      else some (m, true)

  unfoldable pub dispatch : ℕ → Machine → Option (Machine × Bool)
  dispatch op m =
      if op == 0x0
      then go_on (ld_imm m)
      else if op == 0x1
      then go_on (ld_base m)
      else if op == 0x2
      then go_on (ld_indexed m)
      else if op == 0x3
      then go_on (st_base m)
      else if op == 0x4
      then go_on (st_indexed m)
      else if op == 0x6
      then go_on (alu m.ins_op0 m)
      else if op == 0x7
      then go_on (shift m)
      else if op == 0x8
      then some (branch m, true)
      else if op == 0x9
      then go_on (branch_eq m)
      else if op == 0xa
      then go_on (branch_gt m)
      else if op == 0xb
      then some (jump m, true)
      else if op == 0xc
      then go_on (jump_base m)
      else if op == 0xf
      then halt_or_sys m
      else some (report (illegal_instruction m.pc op) m, true)

  -- The new state, and whether the machine goes on.
  unfoldable pub exec : Machine → Option (Machine × Bool)
  unfolding dispatch
  exec m = dispatch m.ins_op_code m
