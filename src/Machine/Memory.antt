-- ===== src/Machine/Memory.antt =====
-- Words in memory, highest byte first: the loads and stores of a8/q3/sm.c.
use cs213_assignments.Common.{
  ℕ, ◌+◌, ◌*◌, ◌/◌, ◌%◌, ◌^◌, ◌<◌, ◌≡◌, refl, ◌∙◌, ap, ◌⊎◌, ◌≤◌, Option, none, some, ◌>>=◌, lt→ltb,
  arith, bit_and, bit_or, update,
}
use cs213_assignments.Common.Bits.{or_disjoint, and_byte}
use cs213_assignments.Machine.Words.{word_mod, add32, shl32, sar32}
use cs213_assignments.Machine.State.{Machine, mem_size, get_byte, set_byte}

-- `b0 << 24 | b1 << 16 | b2 << 8 | b3`
unfoldable pub word_of_bytes : ℕ → ℕ → ℕ → ℕ → ℕ
word_of_bytes b0 b1 b2 b3 = bit_or (bit_or (bit_or (shl32 b0 24) (shl32 b1 16)) (shl32 b2 8)) b3

-- `mem [addr] << 24 | mem [addr+1] << 16 | mem [addr+2] << 8 | mem [addr+3]`
unfoldable pub load_word : ℕ → Machine → Option ℕ
load_word addr m = do
  b0 ← get_byte addr m
  b1 ← get_byte (add32 addr 1) m
  b2 ← get_byte (add32 addr 2) m
  b3 ← get_byte (add32 addr 3) m
  some (word_of_bytes b0 b1 b2 b3)

-- `mem [addr] = val >> 24 & 0xff;` and so on for the lower bytes.
unfoldable pub store_word : ℕ → ℕ → Machine → Option Machine
store_word addr val m = do
  m ← set_byte addr (bit_and (sar32 val 24) 0xff) m
  m ← set_byte (add32 addr 1) (bit_and (sar32 val 16) 0xff) m
  m ← set_byte (add32 addr 2) (bit_and (sar32 val 8) 0xff) m
  set_byte (add32 addr 3) (bit_and val 0xff) m

-- The memory with the four bytes of `val` from `addr` on.
abbrev pub put_word : ℕ → ℕ → (ℕ → ℕ) → ℕ → ℕ
put_word addr val mem =
    update
      (update (update (update mem addr (val / 2 ^ 24 % 256)) (addr + 1) (val / 2 ^ 16 % 256))
        (addr + 2) (val / 2 ^ 8 % 256))
      (addr + 3) (val % 256)

pub word_of_bytes-sum :
    (b0 b1 b2 b3 : ℕ)
    → b0 < 256
    → b1 < 256
    → b2 < 256
    → b3 < 256
    → word_of_bytes b0 b1 b2 b3 ≡ b0 * 2 ^ 24 + b1 * 2 ^ 16 + b2 * 2 ^ 8 + b3
unfolding word_of_bytes
word_of_bytes-sum b0 b1 b2 b3 h0 h1 h2 h3 = ground (
  arith,
  or_disjoint 24 b0 (b1 * 2 ^ 16) (omega arith),
  or_disjoint 16 (b0 * 2 ^ 8 + b1) (b2 * 2 ^ 8) (omega arith),
  or_disjoint 8 (b0 * 2 ^ 16 + b1 * 2 ^ 8 + b2) b3 (omega arith),
)

sar32-byte :
    (w : ℕ)
    → w < word_mod
    → (bit_and (sar32 w 24) 0xff ≡ w / 2 ^ 24 % 256)
      × (bit_and (sar32 w 16) 0xff ≡ w / 2 ^ 16 % 256)
      × (bit_and (sar32 w 8) 0xff ≡ w / 2 ^ 8 % 256)
sar32-byte w h = (
  ground (arith, and_byte (sar32 w 24)),
  ground (arith, and_byte (sar32 w 16)),
  ground (arith, and_byte (sar32 w 8)),
)

pub set_byte-inside :
    (a v : ℕ) (m : Machine)
    → a < mem_size
    → set_byte a v m ≡ some (record m { mem = update m.mem a v })
unfolding set_byte
set_byte-inside a v m h = rw (lt→ltb _ _ h)

pub get_byte-inside : (a : ℕ) (m : Machine) → a < mem_size → get_byte a m ≡ some (m.mem a)
unfolding get_byte
get_byte-inside a m h = rw (lt→ltb _ _ h)

pub add32-inside : (a k : ℕ) → a + k < mem_size → add32 a k ≡ a + k
add32-inside a k h = omega arith

pub store_word-inside :
    (addr val : ℕ) (m : Machine)
    → val < word_mod
    → addr + 3 < mem_size
    → store_word addr val m ≡ some (record m { mem = put_word addr val m.mem })
unfolding store_word
store_word-inside addr val m hv h =
    let (b24, b16, b8) = sar32-byte val hv in
    rw (
      b24,
      b16,
      b8,
      and_byte val,
      add32-inside addr 1 (omega arith),
      add32-inside addr 2 (omega arith),
      add32-inside addr 3 (omega arith),
      set_byte-inside addr _ m (omega arith),
      set_byte-inside (addr + 1) _ _ (omega arith),
      set_byte-inside (addr + 2) _ _ (omega arith),
      set_byte-inside (addr + 3) _ _ (omega arith),
    )

pub load_word-inside :
    (addr : ℕ) (m : Machine)
    → addr + 3 < mem_size
    → load_word addr m
      ≡ some (word_of_bytes (m.mem addr) (m.mem (addr + 1)) (m.mem (addr + 2)) (m.mem (addr + 3)))
unfolding load_word
load_word-inside addr m h = rw (
  add32-inside addr 1 (omega arith),
  add32-inside addr 2 (omega arith),
  add32-inside addr 3 (omega arith),
  get_byte-inside addr m (omega arith),
  get_byte-inside (addr + 1) m (omega arith),
  get_byte-inside (addr + 2) m (omega arith),
  get_byte-inside (addr + 3) m (omega arith),
)

-- Outside the memory neither succeeds.
pub load_word-outside :
    (addr : ℕ) (m : Machine) → addr < word_mod → mem_size ≤ addr + 3 → load_word addr m ≡ none
unfolding load_word get_byte
load_word-outside addr m hw h = ground arith

pub store_word-outside :
    (addr val : ℕ) (m : Machine)
    → addr < word_mod
    → mem_size ≤ addr + 3
    → store_word addr val m ≡ none
unfolding store_word set_byte
store_word-outside addr val m hw h = ground arith

pub put_word-bytes :
    (addr val : ℕ) (mem : ℕ → ℕ)
    → (put_word addr val mem addr ≡ val / 2 ^ 24 % 256)
      × (put_word addr val mem (addr + 1) ≡ val / 2 ^ 16 % 256)
      × (put_word addr val mem (addr + 2) ≡ val / 2 ^ 8 % 256)
      × (put_word addr val mem (addr + 3) ≡ val % 256)
put_word-bytes addr val mem = (ground arith, ground arith, ground arith, ground arith)

pub word_of_bytes-bytes :
    (val : ℕ)
    → val < word_mod
    → word_of_bytes (val / 2 ^ 24 % 256) (val / 2 ^ 16 % 256) (val / 2 ^ 8 % 256) (val % 256) ≡ val
word_of_bytes-bytes val h = omega (
  arith,
  word_of_bytes-sum (val / 2 ^ 24 % 256) (val / 2 ^ 16 % 256) (val / 2 ^ 8 % 256) (val % 256)
      (omega arith) (omega arith) (omega arith) (omega arith),
)

-- A store of the word `val` at an address whose four bytes lie in memory succeeds, a load from that
-- address then gives `val`, and the store changes no byte outside the four and no other global.
pub load_word-store_word :
    (addr val : ℕ) (m : Machine)
    → val < word_mod
    → addr + 3 < mem_size
    → (m' : Machine) × (store_word addr val m ≡ some m')
      × (load_word addr m' ≡ some val)
      × ((j : ℕ) → (j < addr) ⊎ (addr + 3 < j) → m'.mem j ≡ m.mem j)
      × (m' ≡ record m { mem = m'.mem })
load_word-store_word addr val m hv h =
    let (b0, b1, b2, b3) = put_word-bytes addr val m.mem in
    (
      record m { mem = put_word addr val m.mem },
      store_word-inside addr val m hv h,
      load_word-inside addr _ h ∙ ap some (rw (b0, b1, b2, b3, word_of_bytes-bytes val hv)),
      (λ j out. ground arith),
      refl,
    )
