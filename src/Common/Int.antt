-- ===== src/Common/Int.antt =====
-- The integers over the native numbers, and how they compare.
use Prim.Native.Nat.{ℕ, suc, ◌+◌, ◌-◌, ◌*◌, ◌≤◌, Ordering, compare}
use Prim.Native.Nat.Ordering.{eq, gt, lt}
use native.Mathlib.Omega.{arith}
use mathlib.Core.Path.{◌≡◌}
use mathlib.Core.Bool.{Bool}
use cs213_assignments.Common.Tests.{ltb, leb, if◌then◌else◌}

-- `negsuc n` is -(n + 1).
pub data ℤ : Type 0 where
  pos : ℕ → ℤ
  negsuc : ℕ → ℤ

abbrev pub compare_ℤ : ℤ → ℤ → Ordering
compare_ℤ (pos a) (pos b) = compare a b
compare_ℤ (pos a) (negsuc b) = gt
compare_ℤ (negsuc a) (pos b) = lt
compare_ℤ (negsuc a) (negsuc b) = compare b a

-- The laws of an order that is given by the sign of a comparison.
pub record IsOrder {ℓ} {V : Type ℓ} (order : V → V → Ordering) : Type ℓ where
  pub chains : (low mid high : V) → order low mid ≡ lt → order mid high ≡ lt → order low high ≡ lt
  pub turns : (high low : V) → order high low ≡ gt → order low high ≡ lt
  pub equal_only : (v w : V) → order v w ≡ eq → v ≡ w
  pub equal_self : (v : V) → order v v ≡ eq

pub compare_ℤ-IsOrder : IsOrder compare_ℤ
compare_ℤ-IsOrder = record {
  chains = ground arith;
  turns = ground arith;
  equal_only = ground arith;
  equal_self = ground arith;
}

-- An integer is the difference of its parts, one of which is 0.
abbrev pub pos_part : ℤ → ℕ
pos_part (pos n) = n
pos_part (negsuc n) = 0

abbrev pub neg_part : ℤ → ℕ
neg_part (pos n) = 0
neg_part (negsuc n) = suc n

abbrev pub sub_ℕ : ℕ → ℕ → ℤ
sub_ℕ a b = if leb b a then pos (a - b) else negsuc (b - a - 1)

infixl 65 ◌+ℤ◌ ◌-ℤ◌
infix 50 ◌≤ℤ◌
unfoldable pub ◌+ℤ◌ : ℤ → ℤ → ℤ
a +ℤ b = sub_ℕ (pos_part a + pos_part b) (neg_part a + neg_part b)

unfoldable pub ◌-ℤ◌ : ℤ → ℤ → ℤ
a -ℤ b = sub_ℕ (pos_part a + neg_part b) (neg_part a + pos_part b)

abbrev pub ◌≤ℤ◌ : ℤ → ℤ → Type 0
a ≤ℤ b = pos_part a + neg_part b ≤ pos_part b + neg_part a

abbrev pub ltb_ℤ : ℤ → ℤ → Bool
ltb_ℤ a b = ltb (pos_part a + neg_part b) (pos_part b + neg_part a)

-- `k` times `a`.
unfoldable pub times : ℕ → ℤ → ℤ
times k a = sub_ℕ (k * pos_part a) (k * neg_part a)

pub +ℤ_parts :
    (a b : ℤ)
    → pos_part (a +ℤ b) + neg_part a + neg_part b ≡ neg_part (a +ℤ b) + pos_part a + pos_part b
unfolding ◌+ℤ◌
+ℤ_parts a b = ground arith

pub -ℤ_parts :
    (a b : ℤ)
    → pos_part (a -ℤ b) + neg_part a + pos_part b ≡ neg_part (a -ℤ b) + pos_part a + neg_part b
unfolding ◌-ℤ◌
-ℤ_parts a b = ground arith

pub times_parts :
    (k : ℕ) (a : ℤ) → pos_part (times k a) + k * neg_part a ≡ neg_part (times k a) + k * pos_part a
unfolding times
times_parts k a = ground arith

pub eq_of_parts : (a b : ℤ) → pos_part a + neg_part b ≡ pos_part b + neg_part a → a ≡ b
eq_of_parts a b h = ground arith

pub ruleset int_laws = (arith, +ℤ_parts, -ℤ_parts, times_parts, eq_of_parts)
