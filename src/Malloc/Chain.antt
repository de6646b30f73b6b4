-- ===== src/Malloc/Chain.antt =====
-- The list of free blocks of a5/q2/mymalloc.c as a list of addresses.
use cs213_assignments.Common.{
  ℕ, ◌≡◌, Bool, true, false, ◌||◌, Option, none, some, List, [], ◌∷◌, arith, ◌==◌, if◌then◌else◌,
}
use cs213_assignments.Malloc.{Node}

-- From `p` the `next` pointers lead through the blocks of the list to NULL.
pub data Chain (node : ℕ → Node) : Option ℕ → List ℕ → Type 0 where
  nil : Chain node none []
  cons :
      {p : ℕ} {q : Option ℕ} {xs : List ℕ}
      → (node p).next ≡ q
      → Chain node q xs
      → Chain node (some p) (p ∷ xs)

abbrev pub has : ℕ → List ℕ → Bool
has a [] = false
has a (x ∷ xs) = a == x || has a xs

-- No block stands in the list twice.
abbrev pub Distinct : List ℕ → Type 0
Distinct [] = Unit {0}
Distinct (x ∷ xs) = (has x xs ≡ false) × Distinct xs

-- The chain depends on the blocks in it alone.
pub Chain-frame :
    {node node' : ℕ → Node} {p : Option ℕ} {xs : List ℕ}
    → Chain node p xs
    → ((a : ℕ) → has a xs ≡ true → node' a ≡ node a)
    → Chain node' p xs
Chain-frame nil same = nil
Chain-frame (cons {p} e rest) same =
    cons (ground (arith, same p)) (Chain-frame rest λ a i. same a (ground arith))

-- The first block of the list that has the size, and the list without it.
unfoldable pub first_fit : (ℕ → Node) → ℕ → List ℕ → Option ℕ
first_fit node size [] = none
first_fit node size (x ∷ xs) = if (node x).size == size then some x else first_fit node size xs

unfoldable pub without_fit : (ℕ → Node) → ℕ → List ℕ → List ℕ
without_fit node size [] = []
without_fit node size (x ∷ xs) = if (node x).size == size then xs else x ∷ without_fit node size xs
