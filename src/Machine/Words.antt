-- ===== src/Machine/Words.antt =====
-- The `int` arithmetic of a8/q3/sm.c on 32-bit patterns: two's complement, with wrap-around.
use cs213_assignments.Common.{ℕ, ◌+◌, ◌-◌, ◌*◌, ◌/◌, ◌%◌, ◌^◌, Bool, ◌&&◌, ltb, if◌then◌else◌}

abbrev pub word_mod : ℕ
word_mod = 2 ^ 32

abbrev pub add32 : ℕ → ℕ → ℕ
add32 a b = (a + b) % word_mod

abbrev pub sub32 : ℕ → ℕ → ℕ
sub32 a b = (a + word_mod - b) % word_mod

abbrev pub not32 : ℕ → ℕ
not32 a = word_mod - 1 - a

-- `a << k`, of which the low 32 bits stay.
abbrev pub shl32 : ℕ → ℕ → ℕ
shl32 a k = (a * 2 ^ k) % word_mod

-- `a >> k` of an `int`: the sign bit comes in from the left.
abbrev pub sar32 : ℕ → ℕ → ℕ
sar32 a k = if ltb a (2 ^ 31) then a / 2 ^ k else not32 (not32 a / 2 ^ k)

-- A shift by 32 or more is undefined.
abbrev pub shift_defined : ℕ → Bool
shift_defined k = ltb k 32

-- The sign of a word, and of a `char`.
abbrev pub is_positive : ℕ → Bool
is_positive a = ltb 0 a && ltb a (2 ^ 31)

abbrev pub is_positive_char : ℕ → Bool
is_positive_char c = ltb 0 c && ltb c 128

-- A `char` is signed here: its promotion to `int`, its conversion to `unsigned short`, and the
-- value of `-c` where `c` is not positive.
abbrev pub int_of_char : ℕ → ℕ
int_of_char c = if ltb c 128 then c else c + (word_mod - 256)

abbrev pub ushort_of_char : ℕ → ℕ
ushort_of_char c = if ltb c 128 then c else c + (2 ^ 16 - 256)

abbrev pub neg_char : ℕ → ℕ
neg_char c = (256 - c) % 256
