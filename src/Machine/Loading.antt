-- ===== src/Machine/Loading.antt =====
-- `loadFile` of a8/q3/sm.c reads back what `showMem` prints.
use cs213_assignments.Common.{
  ℕ, zero, suc, ◌+◌, ◌*◌, ◌%◌, ◌≤◌, ◌<◌, ◌≡◌, ◌∙◌, ◌⊎◌, inl, refl, subst, false, some, >>=-eq-some,
  List, [], ◌∷◌, ◌++◌, map, arith, ◌==◌, lt→ltb, update, dec_lt,
}
use mathlib.Core.Option.{some-injective}
use cs213_assignments.Machine.Words.{add32}
use cs213_assignments.Machine.State.{Machine, mem_size, get_byte, set_byte}
use cs213_assignments.Machine.Loader.{
  Text, at_colon, load_bytes, start_at, load_line, load_lines, Row, show_row, show_mem,
}

-- What printf makes of "0x%08x", and the two characters that it makes of "%02x".
pub record Format : Type 0 where
  pub show_addr : ℕ → Text
  pub high : ℕ → ℕ
  pub low : ℕ → ℕ

abbrev pub NoColon : Text → Type 0
NoColon [] = Unit {0}
NoColon (c ∷ cs) = ((c == b':') ≡ false) × NoColon cs

-- `strtol` with base 16 reads them back.
pub record ReadsBack (strtol : Text → ℕ) (format : Format) : Type 0 where
  pub addr_back : (addr : ℕ) → addr < mem_size → strtol (format.show_addr addr) ≡ addr
  pub no_colon : (addr : ℕ) → NoColon (format.show_addr addr)
  pub byte_back : (b : ℕ) → b < 256 → strtol (format.high b ∷ format.low b ∷ []) ≡ b
  pub no_space : (b : ℕ) → (format.high b == b' ') ≡ false

-- `printf ("0x%08x: %02x %02x %02x %02x\n", ...)`
abbrev pub byte_text : Format → ℕ → Text → Text
byte_text f b cs = b' ' ∷ f.high b ∷ f.low b ∷ cs

abbrev pub row_text : Format → Row → Text
row_text f row =
    f.show_addr row.addr
    ++ b':'
      ∷ byte_text f row.byte0
          (byte_text f row.byte1 (byte_text f row.byte2 (byte_text f row.byte3 (10 ∷ []))))

pub at_colon-append :
    (before after : Text)
    → NoColon before
    → at_colon (before ++ b':' ∷ after) ≡ some (before, after)
unfolding at_colon
at_colon-append [] after h = refl
at_colon-append (c ∷ before) after (h, rest) = rw (h, at_colon-append before after rest) refl

module _ (strtol : Text → ℕ) (f : Format) (back : ReadsBack strtol f) where
  load_bytes-space :
      (d : ℕ) (cs : Text) (addr : ℕ) (m : Machine)
      → load_bytes strtol (b' ' ∷ d ∷ cs) addr m ≡ load_bytes strtol (d ∷ cs) addr m
  unfolding load_bytes
  load_bytes-space d cs addr m = refl

  load_bytes-byte :
      (b : ℕ) (cs : Text) (addr : ℕ) (m : Machine)
      → b < 256
      → addr < mem_size
      → load_bytes strtol (b' ' ∷ f.high b ∷ f.low b ∷ cs) addr m
        ≡ load_bytes strtol cs (addr + 1) (record m { mem = update m.mem addr b })
  unfolding load_bytes set_byte
  load_bytes-byte b cs addr m small inside =
      let next : add32 addr 1 ≡ addr + 1 = omega arith in
      let kept : b % 256 ≡ b = omega arith in
      rw (back.no_space b, back.byte_back b small, kept, next, lt→ltb addr mem_size inside) refl

  load_bytes-end : (addr : ℕ) (m : Machine) → load_bytes strtol (10 ∷ []) addr m ≡ some m
  unfolding load_bytes
  load_bytes-end addr m = refl

  abbrev put_row : Row → (ℕ → ℕ) → ℕ → ℕ
  put_row row mem =
      update
        (update (update (update mem row.addr row.byte0) (row.addr + 1) row.byte1) (row.addr + 1 + 1)
          row.byte2)
        (row.addr + 1 + 1 + 1) row.byte3

  abbrev AreBytes : Row → Type 0
  AreBytes row = (row.byte0 < 256) × (row.byte1 < 256) × (row.byte2 < 256) × (row.byte3 < 256)

  load_line-row :
      (row : Row) (m : Machine)
      → row.addr + 3 < mem_size
      → AreBytes row
      → load_line strtol (row_text f row) m
        ≡ some (record (start_at row.addr m) { mem = put_row row m.mem })
  unfolding load_line
  load_line-row row m inside (small0, small1, small2, small3) =
      let a = row.addr in
      let text3 = byte_text f row.byte3 (10 ∷ []) in
      let text2 = byte_text f row.byte2 text3 in
      let text1 = byte_text f row.byte1 text2 in
      let split = at_colon-append (f.show_addr a) (byte_text f row.byte0 text1) (back.no_colon a) in
      let m = start_at a m in
      let m1 : Machine = record m { mem = update m.mem a row.byte0 } in
      let m2 : Machine = record m { mem = update m1.mem (a + 1) row.byte1 } in
      let m3 : Machine = record m { mem = update m2.mem (a + 1 + 1) row.byte2 } in
      rw (split, back.addr_back a (omega arith))
        (load_bytes-byte row.byte0 text1 a m small0 (omega arith)
          ∙ load_bytes-byte row.byte1 text2 (a + 1) m1 small1 (omega arith)
          ∙ load_bytes-byte row.byte2 text3 (a + 1 + 1) m2 small2 (omega arith)
          ∙ load_bytes-byte row.byte3 (10 ∷ []) (a + 1 + 1 + 1) m3 small3 (omega arith)
          ∙ load_bytes-end (a + 1 + 1 + 1 + 1) _)

  show_row-inside :
      (a : ℕ) (m : Machine) (row : Row)
      → show_row a m ≡ some row
      → (a + 3 < mem_size)
        × (row.addr ≡ a)
        × (row.byte0 ≡ m.mem a)
        × (row.byte1 ≡ m.mem (a + 1))
        × (row.byte2 ≡ m.mem (a + 2))
        × (row.byte3 ≡ m.mem (a + 3))
  unfolding show_row get_byte
  show_row-inside a m row e = ground arith

  put_row-inside :
      (row : Row) (m : Machine) (mem : ℕ → ℕ) (start a : ℕ)
      → row.addr ≡ start
      → row.byte0 ≡ m.mem start
      → row.byte1 ≡ m.mem (start + 1)
      → row.byte2 ≡ m.mem (start + 2)
      → row.byte3 ≡ m.mem (start + 3)
      → start ≤ a
      → a < start + 4
      → put_row row mem a ≡ m.mem a
  put_row-inside row m mem start a addr byte0 byte1 byte2 byte3 low high = ground arith

  -- The bytes that are printed come back, and nothing else changes but the start of the program.
  pub load-show :
      (start count : ℕ) (m m1 : Machine) (rows : List Row)
      → ((a : ℕ) → m.mem a < 256)
      → show_mem start count m ≡ some rows
      → (m2 : Machine) × (load_lines strtol (map (row_text f) rows) m1 ≡ some m2)
        × ((a : ℕ) → start ≤ a → a < start + 4 * count → m2.mem a ≡ m.mem a)
        × ((a : ℕ) → (a < start) ⊎ (start + 4 * count ≤ a) → m2.mem a ≡ m1.mem a)
  unfolding show_mem load_lines
  load-show start zero m m1 rows bytes e = (
    m1,
    subst (λ rows. load_lines strtol (map (row_text f) rows) m1 ≡ some m1)
        (some-injective [] rows e) refl,
    λ a low high. absurd (omega arith),
    λ a h. refl,
  )
  load-show start (suc count) m m1 rows bytes e =
      let (row, shown, more) = >>=-eq-some (show_row start m) _ e in
      let (rest, rest_shown, all) = >>=-eq-some (show_mem (start + 4) count m) _ more in
      let (inside, addr, byte0, byte1, byte2, byte3) = show_row-inside start m row shown in
      let small : AreBytes row = (
        rw byte0 (bytes start),
        rw byte1 (bytes (start + 1)),
        rw byte2 (bytes (start + 2)),
        rw byte3 (bytes (start + 3)),
      ) in
      let loaded = load_line-row row m1 (rw addr inside) small in
      let m1' : Machine = record (start_at row.addr m1) { mem = put_row row m1.mem } in
      let (m2, done, same, kept) = load-show (start + 4) count m m1' rest bytes rest_shown in
      (
        m2,
        subst (λ rows. load_lines strtol (map (row_text f) rows) m1 ≡ some m2)
            (some-injective (row ∷ rest) rows all) (rw loaded done),
        λ a low high. elim (dec_lt a (start + 4)) [
          | yes first ↦
              kept a (inl first)
              ∙ put_row-inside row m m1.mem start a addr byte0 byte1 byte2 byte3 low first
          | no later ↦ same a (omega arith) (omega arith)
        ],
        λ a out. ground (arith, kept a, addr),
      )
