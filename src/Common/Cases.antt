-- ===== src/Common/Cases.antt =====
-- A statement about every number, from its instances below a bound and a proof for all others.
use Prim.Native.Nat.{ℕ, zero, suc, ◌+◌, ◌≤◌, ◌<◌}
use mathlib.Core.Path.{subst}
use native.Mathlib.Decide.{dec_lt, ℕ_discrete}
use native.Mathlib.Omega.{arith}

-- `P` at the `n` numbers from `k` on.
abbrev pub AtEach {ℓ} : ℕ → ℕ → (ℕ → Type ℓ) → Type ℓ
AtEach zero k P = Unit
AtEach (suc n) k P = P k × AtEach n (k + 1) P

from_each {ℓ} : (n k : ℕ) (P : ℕ → Type ℓ) → AtEach n k P → (m : ℕ) → k ≤ m → m < k + n → P m
from_each zero k P each m lo hi = absurd (omega arith)
from_each (suc n) k P each m lo hi = elim (ℕ_discrete k m) [
  | yes e ↦ subst P e (each.0)
  | no later ↦ from_each n (k + 1) P (each.1) m (omega arith) (omega arith)
]

pub split_below {ℓ} :
    (n : ℕ) (P : ℕ → Type ℓ) → AtEach n 0 P → ((m : ℕ) → n ≤ m → P m) → (m : ℕ) → P m
split_below n P each rest m = elim (dec_lt m n) [
  | yes inside ↦ from_each n 0 P each m (omega arith) (omega arith)
  | no outside ↦ rest m (omega arith)
]
