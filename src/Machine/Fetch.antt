-- ===== src/Machine/Fetch.antt =====
-- `fetch` of a8/q3/sm.c: it reads an instruction of two or six bytes and decodes its fields.
use cs213_assignments.Common.{
  ℕ, ◌/◌, ◌^◌, Bool, ◌||◌, Option, some, ◌>>=◌, ◌==◌, if◌then◌else◌, bit_and,
}
use cs213_assignments.Machine.Words.{add32}
use cs213_assignments.Machine.State.{Machine, get_byte}
use cs213_assignments.Machine.Memory.{load_word}

-- The fields of the first two bytes.
unfoldable pub decode : ℕ → ℕ → Machine → Machine
decode b0 b1 m = record m {
  ins_op_code = b0 / 2 ^ 4;
  ins_op0 = bit_and b0 0xf;
  ins_op1 = b1 / 2 ^ 4;
  ins_op2 = bit_and b1 0xf;
  ins_op_imm = b1;
  pc = add32 m.pc 2;
}

-- The operations that a four-byte extension follows.
abbrev pub has_ext : ℕ → Bool
has_ext op_code = op_code == 0x0 || op_code == 0xb

unfoldable pub fetch_ext : Machine → Option Machine
fetch_ext m = do ext ← load_word m.pc m; some (record m { ins_op_ext = ext; pc = add32 m.pc 4 })

unfoldable pub fetch : Machine → Option Machine
unfolding decode fetch_ext
fetch m = do
  b0 ← get_byte m.pc m
  b1 ← get_byte (add32 m.pc 1) m
  if has_ext (b0 / 2 ^ 4) then fetch_ext (decode b0 b1 m) else some (decode b0 b1 m)
