-- ===== src/Machine/Tests.antt =====
-- Runs of the simulator of a8/q3/sm.c on small programs, and its theorems at concrete states.
use cs213_assignments.Common.{ℕ, ◌+◌, ◌<◌, ◌≡◌, refl, ◌⊎◌, false, some, List, [], ◌∷◌, arith}
use cs213_assignments.Machine.State.{Machine, initial, get_byte, get_reg, set_reg}
use cs213_assignments.Machine.Memory.{load_word, store_word, word_of_bytes, load_word-store_word}
use cs213_assignments.Machine.Fetch.{fetch}
use cs213_assignments.Machine.Exec.{Os, exec, ld_imm, alu, alu_one, halt_or_sys}
use cs213_assignments.Machine.JumpTable.{exec_jt, exec_jt-eq-exec}
use cs213_assignments.Machine.Decode.{assemble, decoded, fetch-assemble}
use cs213_assignments.Machine.Compute.{Run, halted, cycle, compute}

-- An operating system that reads nothing and answers 0.
abbrev quiet_os : Os
quiet_os = record {
  read = λ log fd addr count mem. 0;
  read_into = λ log fd addr count mem. mem;
  write = λ log fd addr count mem. 0;
  system = λ log size bytes. 0;
  allow_exec = false;
}

abbrev bytes_of : List ℕ → ℕ → ℕ
bytes_of [] a = 0
bytes_of (b ∷ bs) ℕ.zero = b
bytes_of (b ∷ bs) (ℕ.suc a) = bytes_of bs a

-- ld $5, r1; inc r1; halt
abbrev program : Machine
program = record initial {
  mem = bytes_of (0x01 ∷ 0 ∷ 0 ∷ 0 ∷ 0 ∷ 5 ∷ 0x63 ∷ 0x01 ∷ 0xf0 ∷ 0 ∷ []);
  pc = 0;
}

reg1 : Run → ℕ
reg1 (halted m) = m.reg 1
reg1 _ = 99

program_runs : reg1 (compute (exec quiet_os) 3 program) ≡ 6
unfolding reg1 compute cycle fetch exec ld_imm alu alu_one halt_or_sys load_word get_byte get_reg
    set_reg word_of_bytes
program_runs = refl

-- The state behind the decoding of `inc r1`.
abbrev at_inc : Machine
at_inc = record program {
  ins_op_code = 6;
  ins_op0 = 3;
  ins_op1 = 0;
  ins_op2 = 1;
  ins_op_imm = 1;
  pc = 8;
}

exec_jt-eq-exec_example : exec_jt quiet_os at_inc ≡ exec quiet_os at_inc
exec_jt-eq-exec_example = exec_jt-eq-exec quiet_os at_inc

load_word-store_word_example :
    (m' : Machine) × (store_word 100 0xdead_beef program ≡ some m')
    × (load_word 100 m' ≡ some 0xdead_beef)
    × ((j : ℕ) → (j < 100) ⊎ (100 + 3 < j) → m'.mem j ≡ program.mem j)
    × (m' ≡ record program { mem = m'.mem })
load_word-store_word_example =
    load_word-store_word 100 0xdead_beef program (omega arith) (omega arith)

fetch-assemble_example :
    fetch (record program { mem = assemble 0 6 3 0 1 program.mem })
    ≡ some (decoded 6 3 0 1 2 (record program { mem = assemble 0 6 3 0 1 program.mem }))
fetch-assemble_example =
    fetch-assemble program 6 3 0 1 (omega arith) (omega arith) refl (omega arith)
