-- ===== src/Disk/Blocks.antt =====
-- What the blocks of a9/disk.c hold.
use cs213_assignments.Common.{
  ℕ, zero, suc, ◌+◌, ◌<◌, ◌%◌, ◌≡◌, refl, Option, none, some, List, [], ◌∷◌, arith, length,
  get_elem?,
}
use cs213_assignments.Disk.{story, block}

get_elem?-some {ℓ} :
    {A : Type ℓ} (xs : List A) (i : ℕ) → i < length xs → (a : A) × (get_elem? xs i ≡ some a)
get_elem?-some [] i h = absurd (omega arith)
get_elem?-some (x ∷ xs) zero h = (x, refl)
get_elem?-some (x ∷ xs) (suc i) h = get_elem?-some xs i (omega arith)

number_or_0 : Option ℕ → ℕ
number_or_0 none = 0
number_or_0 (some n) = n

number_or_0-eq : (o : Option ℕ) (n : ℕ) → o ≡ some n → o ≡ some (number_or_0 o)
unfolding number_or_0
number_or_0-eq none n e = cc
number_or_0-eq (some m) n e = refl

-- The number in a block.
unfoldable pub number_in : ℕ → ℕ
unfolding number_or_0
number_in block_no = number_or_0 (block block_no)

pub block-number_in : (block_no : ℕ) → block block_no ≡ some (number_in block_no)
unfolding number_in block
block-number_in block_no =
    let long : length story ≡ 30 = refl in
    let (n, e) = get_elem?-some story (block_no % 30) (omega (arith, long)) in
    number_or_0-eq (block block_no) n e

-- The sum of the first blocks.
unfoldable pub sum_of_blocks : ℕ → ℕ
sum_of_blocks zero = 0
sum_of_blocks (suc n) = sum_of_blocks n + number_in n

pub sum_of_blocks-next : (n : ℕ) → sum_of_blocks (n + 1) ≡ sum_of_blocks n + number_in n
unfolding sum_of_blocks
sum_of_blocks-next n = let next : n + 1 ≡ suc n = omega arith in rw next refl
