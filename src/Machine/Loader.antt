-- ===== src/Machine/Loader.antt =====
-- `loadFile` and `showMem` of a8/q3/sm.c. A text is the list of its characters without the NUL at its
-- end; `strtol` with base 16 is a parameter, which gives a word. A line without a colon is read beyond
-- its end, which is undefined.
use cs213_assignments.Common.{
  ℕ, zero, suc, ◌+◌, ◌%◌, ◌^◌, Option, none, some, ◌>>=◌, List, [], ◌∷◌, ◌==◌, leb, if◌then◌else◌,
}
use cs213_assignments.Machine.Words.{add32}
use cs213_assignments.Machine.State.{Machine, get_byte, set_byte}

abbrev pub Text : Type 0
Text = List ℕ

-- `while (*sep != ':') sep++`, and the two parts of the text.
unfoldable pub at_colon : Text → Option (Text × Text)
at_colon [] = none
at_colon (c ∷ cs) =
    let rest = (do (before, after) ← at_colon cs; some (c ∷ before, after)) in
    if c == b':' then some ([], cs) else rest

-- `if (pc < 0) pc = addr`
abbrev pub start_at : ℕ → Machine → Machine
start_at addr m = record m { pc = if leb (2 ^ 31) m.pc then addr else m.pc }

module _ (strtol : Text → ℕ) where
  -- Two digits after the other, with any spaces before them. A single character at the end, which is the end of the
  -- line, is left.
  unfoldable pub load_bytes : Text → ℕ → Machine → Option Machine
  load_bytes [] addr m = some m
  load_bytes (c ∷ []) addr m = some m
  load_bytes (c ∷ d ∷ cs) addr m =
      let skipped = load_bytes (d ∷ cs) addr m in
      let stored = (do
        m ← set_byte addr (strtol (c ∷ d ∷ []) % 256) m
        load_bytes cs (add32 addr 1) m) in
      if c == b' ' then skipped else stored

  unfoldable pub load_line : Text → Machine → Option Machine
  unfolding at_colon load_bytes
  load_line line m = do
    (before, after) ← at_colon line
    load_bytes after (strtol before) (start_at (strtol before) m)

  unfoldable pub load_lines : List Text → Machine → Option Machine
  unfolding load_line
  load_lines [] m = some m
  load_lines (line ∷ lines) m = do m ← load_line line m; load_lines lines m

-- A row of `showMem`: an address and four bytes.
pub record Row : Type 0 where
  pub addr : ℕ
  pub byte0 : ℕ
  pub byte1 : ℕ
  pub byte2 : ℕ
  pub byte3 : ℕ

unfoldable pub show_row : ℕ → Machine → Option Row
show_row addr m = do
  b0 ← get_byte addr m
  b1 ← get_byte (addr + 1) m
  b2 ← get_byte (addr + 2) m
  b3 ← get_byte (addr + 3) m
  some (record { addr = addr; byte0 = b0; byte1 = b1; byte2 = b2; byte3 = b3 })

-- `count` rows; there is no memory from 2 ^ 31 on.
unfoldable pub show_mem : (start count : ℕ) → Machine → Option (List Row)
unfolding show_row
show_mem start zero m = some []
show_mem start (suc count) m = do
  row ← show_row start m
  rows ← show_mem (start + 4) count m
  some (row ∷ rows)
