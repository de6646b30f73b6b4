-- ===== src/Machine/Decode.antt =====
-- `fetch` of a8/q3/sm.c reads back the instructions that an assembler lays down.
use cs213_assignments.Common.{
  ℕ, ◌+◌, ◌*◌, ◌/◌, ◌^◌, ◌<◌, ◌≡◌, refl, false, true, some, arith, if◌then◌else◌, update, ◌∙◌, ap,
}
use cs213_assignments.Common.Bits.{and_nibble}
use cs213_assignments.Machine.Words.{word_mod, add32}
use cs213_assignments.Machine.State.{Machine, mem_size}
use cs213_assignments.Machine.Memory.{
  put_word, load_word-inside, put_word-bytes, word_of_bytes-bytes, get_byte-inside, add32-inside,
}
use cs213_assignments.Machine.Fetch.{decode, has_ext, fetch_ext, fetch}

-- The two bytes of an instruction with four fields of four bits.
abbrev pub assemble : (addr op op0 op1 op2 : ℕ) → (ℕ → ℕ) → ℕ → ℕ
assemble addr op op0 op1 op2 mem =
    update (update mem addr (op * 16 + op0)) (addr + 1) (op1 * 16 + op2)

abbrev pub assemble_ext : (addr op op0 op1 op2 ext : ℕ) → (ℕ → ℕ) → ℕ → ℕ
assemble_ext addr op op0 op1 op2 ext mem =
    put_word (addr + 2) ext (assemble addr op op0 op1 op2 mem)

-- The state after the instruction has been read: its fields, and the address behind it.
abbrev pub decoded : (op op0 op1 op2 size : ℕ) → Machine → Machine
decoded op op0 op1 op2 size m = record m {
  ins_op_code = op;
  ins_op0 = op0;
  ins_op1 = op1;
  ins_op2 = op2;
  ins_op_imm = op1 * 16 + op2;
  pc = m.pc + size;
}

decode-nibbles :
    (m : Machine) (op op0 op1 op2 : ℕ)
    → op0 < 16
    → op2 < 16
    → m.pc + 1 < mem_size
    → decode (op * 16 + op0) (op1 * 16 + op2) m ≡ decoded op op0 op1 op2 2 m
unfolding decode
decode-nibbles m op op0 op1 op2 h0 h2 h =
    ground (arith, and_nibble (op * 16 + op0), and_nibble (op1 * 16 + op2))

fetch-bytes :
    (m : Machine) (b0 b1 : ℕ)
    → m.pc + 1 < mem_size
    → m.mem m.pc ≡ b0
    → m.mem (m.pc + 1) ≡ b1
    → fetch m ≡ (if has_ext (b0 / 2 ^ 4) then fetch_ext (decode b0 b1 m) else some (decode b0 b1 m))
unfolding fetch
fetch-bytes m b0 b1 h e0 e1 = rw (
  get_byte-inside m.pc m (omega arith),
  add32-inside m.pc 1 h,
  get_byte-inside (m.pc + 1) m h,
  e0,
  e1,
)

op_code-nibble : (op op0 : ℕ) → op0 < 16 → (op * 16 + op0) / 2 ^ 4 ≡ op
op_code-nibble op op0 h = omega arith

-- The extension behind the first two bytes.
fetch_ext-put_word :
    (m : Machine) (ext : ℕ) (mem : ℕ → ℕ)
    → ext < word_mod
    → m.pc + 3 < mem_size
    → m.mem ≡ put_word m.pc ext mem
    → fetch_ext m ≡ some (record m { ins_op_ext = ext; pc = m.pc + 4 })
unfolding fetch_ext
fetch_ext-put_word m ext mem he h e =
    let (b0, b1, b2, b3) = put_word-bytes m.pc ext mem in
    let at : (a : ℕ) → m.mem a ≡ put_word m.pc ext mem a = λ a. ap (λ f. f a) e in
    let next : add32 m.pc 4 ≡ m.pc + 4 = omega arith in
    rw (
      next,
      load_word-inside m.pc m h,
      at m.pc ∙ b0,
      at (m.pc + 1) ∙ b1,
      at (m.pc + 2) ∙ b2,
      at (m.pc + 3) ∙ b3,
      word_of_bytes-bytes ext he,
    )

module _ (m : Machine) (op op0 op1 op2 : ℕ) (h0 : op0 < 16) (h2 : op2 < 16) where
  -- A two-byte instruction with the fields `op`, `op0`, `op1` and `op2`, laid down at `pc` inside
  -- the memory: if its operation has no extension, `fetch` gives these fields and moves `pc` by 2.
  pub fetch-assemble :
      has_ext op ≡ false
      → m.pc + 1 < mem_size
      → fetch (record m { mem = assemble m.pc op op0 op1 op2 m.mem })
        ≡ some (decoded op op0 op1 op2 2 (record m { mem = assemble m.pc op op0 op1 op2 m.mem }))
  fetch-assemble short h =
      let m' : Machine = record m { mem = assemble m.pc op op0 op1 op2 m.mem } in
      fetch-bytes m' (op * 16 + op0) (op1 * 16 + op2) h (ground arith) (ground arith)
      ∙ rw (op_code-nibble op op0 h0, short, decode-nibbles m' op op0 op1 op2 h0 h2 h)

  -- The same for an operation with an extension, whose word lies behind the two bytes: `fetch` gives
  -- the fields and that word, and moves `pc` by 6.
  pub fetch-assemble_ext :
      (ext : ℕ)
      → has_ext op ≡ true
      → ext < word_mod
      → m.pc + 5 < mem_size
      → fetch (record m { mem = assemble_ext m.pc op op0 op1 op2 ext m.mem })
        ≡ some
            (record (decoded op op0 op1 op2 6
              (record m { mem = assemble_ext m.pc op op0 op1 op2 ext m.mem })) { ins_op_ext = ext })
  fetch-assemble_ext ext long he h =
      let m' : Machine = record m { mem = assemble_ext m.pc op op0 op1 op2 ext m.mem } in
      fetch-bytes m' (op * 16 + op0) (op1 * 16 + op2) (omega arith) (ground arith) (ground arith)
      ∙ rw (op_code-nibble op op0 h0, long, decode-nibbles m' op op0 op1 op2 h0 h2 (omega arith))
          (fetch_ext-put_word (decoded op op0 op1 op2 2 m') ext (assemble m.pc op op0 op1 op2 m.mem)
              he (omega arith) refl
            ∙ ap (λ p. some (record (decoded op op0 op1 op2 6 m') { ins_op_ext = ext; pc = p }))
                (omega arith))
