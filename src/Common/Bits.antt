-- ===== src/Common/Bits.antt =====
-- `|` and `&` on native numbers as arithmetic: disjoint fields add up, and a mask bounds.
use Prim.Native.Nat.{
  ℕ, zero, suc, ◌+◌, ◌*◌, ◌/◌, ◌%◌, ◌^◌, ◌≤◌, ◌<◌, min, max, digits, bit_and, bit_or,
  bit_and-bitwise, bit_or-bitwise,
}
use mathlib.Core.Path.{◌≡◌, refl, sym, ap, ◌∙◌}
use native.Mathlib.Nat.{pow-suc, le_refl}
use native.Mathlib.Omega.{arith}

-- The first number has no more digits than itself, so more fuel than that changes nothing.
module _ (rest : ℕ → ℕ) (digit : ℕ → ℕ → ℕ) where
  digits-zero : (n b : ℕ) → digits rest digit n zero b ≡ rest b
  digits-zero zero b = refl
  digits-zero (suc n) b = refl

  digits_enough : (n m a b : ℕ) → a ≤ n → a ≤ m → digits rest digit n a b ≡ digits rest digit m a b
  digits_enough n m zero b hn hm = digits-zero n b ∙ sym (digits-zero m b)
  digits_enough zero m (suc a) b hn hm = absurd (omega arith)
  digits_enough (suc n) zero (suc a) b hn hm = absurd (omega arith)
  digits_enough (suc n) (suc m) (suc a) b hn hm =
      ap (λ d. d * 2 + digit (suc a % 2) (b % 2))
        (digits_enough n m (suc a / 2) (b / 2) (omega arith) (omega arith))

or_step : (a b : ℕ) → bit_or a b ≡ bit_or (a / 2) (b / 2) * 2 + max (a % 2) (b % 2)
or_step zero b = simp bit_or-bitwise (omega arith)
or_step (suc a) b = simp bit_or-bitwise (
    ap (λ d. d * 2 + max (suc a % 2) (b % 2))
      (digits_enough (λ y. y) max a (suc a / 2) (suc a / 2) (b / 2) (omega arith) (le_refl _)))

and_step : (a b : ℕ) → bit_and a b ≡ bit_and (a / 2) (b / 2) * 2 + min (a % 2) (b % 2)
and_step zero b = simp bit_and-bitwise (omega arith)
and_step (suc a) b = simp bit_and-bitwise (
    ap (λ d. d * 2 + min (suc a % 2) (b % 2))
      (digits_enough (λ y. 0) min a (suc a / 2) (suc a / 2) (b / 2) (omega arith) (le_refl _)))

-- The laws below go from `a / 2` to `a`, by recursion on a bound.
or_nothing : (n a : ℕ) → a ≤ n → bit_or a 0 ≡ a
or_nothing n zero h = refl
or_nothing zero (suc a) h = absurd (omega arith)
or_nothing (suc n) (suc a) h =
    omega (arith, or_step (suc a) 0, or_nothing n (suc a / 2) (omega arith))

and_nothing : (n a : ℕ) → a ≤ n → bit_and a 0 ≡ 0
and_nothing n zero h = refl
and_nothing zero (suc a) h = absurd (omega arith)
and_nothing (suc n) (suc a) h =
    omega (arith, and_step (suc a) 0, and_nothing n (suc a / 2) (omega arith))

shift_suc : (q k : ℕ) → q * 2 ^ suc k ≡ 2 * (q * 2 ^ k)
shift_suc q k = omega (arith, ap (λ (t : ℕ). q * t) (pow-suc 2 k))

-- `(q << k) | r` is a sum where `r` has at most `k` bits.
pub or_disjoint : (k q r : ℕ) → r < 2 ^ k → bit_or (q * 2 ^ k) r ≡ q * 2 ^ k + r
or_disjoint zero q r h = ground (arith, or_nothing q q)
or_disjoint (suc k) q r h =
    ground (arith, or_step (q * 2 ^ suc k) r, shift_suc q k, or_disjoint k q (r / 2) (omega arith))

and_le_bounded : (n a b : ℕ) → a ≤ n → bit_and a b ≤ b
and_le_bounded n zero b h = omega (arith, and_step zero b, and_zero_left b)
  where
    and_zero_left : (b : ℕ) → bit_and zero b ≡ 0
    and_zero_left b = simp bit_and-bitwise
and_le_bounded zero (suc a) b h = absurd (omega arith)
and_le_bounded (suc n) (suc a) b h =
    omega (arith, and_step (suc a) b, and_le_bounded n (suc a / 2) (b / 2) (omega arith))

pub and_le : (a b : ℕ) → bit_and a b ≤ b
and_le a b = and_le_bounded a a b (le_refl a)

and_one : (a : ℕ) → bit_and a 1 ≡ a % 2
and_one a = omega (arith, and_step a 1, and_nothing (a / 2) (a / 2))

and_three : (a : ℕ) → bit_and a 3 ≡ a % 4
and_three a = omega (arith, and_step a 3, and_one (a / 2))

-- The masks of four and of eight bits.
pub and_nibble : (a : ℕ) → bit_and a 0xf ≡ a % 16
and_nibble a = omega (arith, and_step a 15, and_step (a / 2) 7, and_three (a / 2 / 2))

pub and_byte : (a : ℕ) → bit_and a 0xff ≡ a % 256
and_byte a = omega (
  arith,
  and_step a 255,
  and_step (a / 2) 127,
  and_step (a / 2 / 2) 63,
  and_step (a / 2 / 2 / 2) 31,
  and_nibble (a / 2 / 2 / 2 / 2),
)
