-- ===== src/Machine/TextTests.antt =====
-- The file and the command line of a8/q3/sm.c at concrete texts, with the hexadecimal digits of C.
use cs213_assignments.Common.{
  ℕ, ◌+◌, ◌-◌, ◌*◌, ◌/◌, ◌%◌, ◌≤◌, ◌<◌, ◌≡◌, ◌⊎◌, inr, refl, true, false, none, some, List, [], ◌∷◌,
  map, arith, ltb, ◌==◌, if◌then◌else◌,
}
use cs213_assignments.Machine.State.{Machine, initial, get_byte, mem_size}
use cs213_assignments.Machine.Loader.{Text, Row, load_lines, show_mem}
use cs213_assignments.Machine.Loading.{Format, ReadsBack, row_text, load-show}
use cs213_assignments.Machine.Program.{parsed, parse_args, kind, main, file_error}
use cs213_assignments.Machine.CommandLine.{
  Choice, start_pc, show_memory, show_registers, words, parse_args-words,
}

digit : ℕ → ℕ
digit d = if ltb d 10 then d + 48 else d + 87

value : ℕ → ℕ
value c = if ltb c 58 then c - 48 else c - 87

value-digit : (d : ℕ) → d < 16 → value (digit d) ≡ d
unfolding value digit
value-digit d h = ground arith

digit_other :
    (d : ℕ)
    → d < 16
    → ((digit d == b':') ≡ false) × ((digit d == b' ') ≡ false) × ((digit d == b'x') ≡ false)
unfolding digit
digit_other d h = ground arith

read_digits : ℕ → Text → ℕ
read_digits acc [] = acc
read_digits acc (c ∷ cs) = read_digits (acc * 16 + value c) cs

-- `strtol` with base 16, for a text of digits with or without 0x before them.
hex : Text → ℕ
unfolding read_digits
hex [] = 0
hex (c ∷ []) = value c
hex (c ∷ d ∷ cs) = if d == b'x' then read_digits 0 cs else read_digits 0 (c ∷ d ∷ cs)

abbrev format : Format
format = record {
  show_addr = λ a.
      b'0'
      ∷ b'x'
      ∷ digit (a / 4096 % 16)
      ∷ digit (a / 256 % 16)
      ∷ digit (a / 16 % 16)
      ∷ digit (a % 16)
      ∷ [];
  high = λ b. digit (b / 16 % 16);
  low = λ b. digit (b % 16);
}

addr_read : (a : ℕ) → a < mem_size → hex (format.show_addr a) ≡ a
unfolding hex
addr_read a h =
    rw
      (
        value-digit (a / 4096 % 16) (omega arith),
        value-digit (a / 256 % 16) (omega arith),
        value-digit (a / 16 % 16) (omega arith),
        value-digit (a % 16) (omega arith),
      )
      (omega arith)

byte_read : (b : ℕ) → b < 256 → hex (format.high b ∷ format.low b ∷ []) ≡ b
unfolding hex
byte_read b h =
    rw
      (
        (digit_other (b % 16) (omega arith)).2,
        value-digit (b / 16 % 16) (omega arith),
        value-digit (b % 16) (omega arith),
      )
      (omega arith)

format-ReadsBack : ReadsBack hex format
format-ReadsBack = record {
  addr_back = addr_read;
  no_colon = λ a. (
    refl,
    (
      refl,
      (
        (digit_other (a / 4096 % 16) (omega arith)).0,
        (
          (digit_other (a / 256 % 16) (omega arith)).0,
          (
            (digit_other (a / 16 % 16) (omega arith)).0,
            ((digit_other (a % 16) (omega arith)).0, tt),
          ),
        ),
      ),
    ),
  );
  byte_back = byte_read;
  no_space = λ b. (digit_other (b / 16 % 16) (omega arith)).1;
}

abbrev filled : Machine
filled = record initial { mem = λ a. a % 256 }

abbrev row : Row
row = record { addr = 0x120; byte0 = 0x20; byte1 = 0x21; byte2 = 0x22; byte3 = 0x23 }

row_shown : show_mem 0x120 1 filled ≡ some (row ∷ [])
unfolding show_mem get_byte
row_shown = refl

load-show_example :
    (m2 : Machine) × (load_lines hex (map (row_text format) (row ∷ [])) initial ≡ some m2)
    × ((a : ℕ) → 0x120 ≤ a → a < 0x120 + 4 * 1 → m2.mem a ≡ filled.mem a)
    × ((a : ℕ) → (a < 0x120) ⊎ (0x120 + 4 * 1 ≤ a) → m2.mem a ≡ initial.mem a)
load-show_example =
    load-show hex format format-ReadsBack 0x120 1 filled initial (row ∷ []) (λ a. omega arith)
      row_shown

abbrev choices : List Choice
choices = show_memory (b'1' ∷ b'2' ∷ []) (b'2' ∷ []) ∷ show_registers ∷ []

parse_args-words_example :
    parse_args hex (words (start_pc (b'1' ∷ []) ∷ choices) ((b's' ∷ []) ∷ []))
    ≡ parsed (record {
      machine = record initial { pc = 1 };
      show_mem_list = (0x12, 2) ∷ [];
      show_reg = true;
    })
unfolding kind hex read_digits value
parse_args-words_example =
    parse_args-words hex (start_pc (b'1' ∷ [])) choices ((b's' ∷ []) ∷ [])
      (inr (b's' ∷ [], refl, refl)) ((refl, (refl, tt)), tt)

-- With options only, the last of them is opened as the file.
no_file :
    main hex 0
      (λ m. some (m, false))
      (λ name. elim name [ [] ↦ none | c ∷ _ ↦ if c == b'-' then none else some [] ])
      ((b'-' ∷ b'r' ∷ []) ∷ [])
    ≡ file_error
unfolding main
no_file = refl
