-- ===== src/Malloc/Tests.antt =====
-- The allocator of a5/q2/mymalloc.c on small heaps.
use cs213_assignments.Common.{
  ℕ, ◌+◌, ◌<◌, ◌≤◌, ◌≡◌, ◌⊎◌, refl, Option, none, some, [], ◌∷◌, arith, update,
}
use cs213_assignments.Malloc.{Node, Heap, header, allocated, null, mymalloc, myfree}
use cs213_assignments.Malloc.Chain.{Chain, nil, cons, first_fit}
use cs213_assignments.Malloc.Walking.{Reused}
use cs213_assignments.Malloc.FirstFit.{mymalloc-first_fit, mymalloc-fresh}
use cs213_assignments.Malloc.Free.{myfree-Chain, myfree_stale, mymalloc_overrun}

abbrev node : ℕ → Option ℕ → Node
node size next = record { size = size; next = next }

-- Three blocks, of 8, 16 and 8 bytes, at 0, 24 and 56. The first two are free, the last is in use.
abbrev headers : ℕ → Node
headers =
    update (update (update (λ _. node 0 none) 0 (node 8 (some 24))) 24 (node 16 none)) 56
      (node 8 none)

abbrev three : Heap
three = record { node = headers; head = some 0; heapsize = 200; top = 80 }

three-Chain : Chain headers (some 0) (0 ∷ 24 ∷ [])
three-Chain = cons refl (cons refl nil)

-- A request of 13 bytes takes the second block.
mymalloc-first_fit_example : Reused three 16 (0 ∷ 24 ∷ []) 24 (mymalloc 2 13 three)
unfolding first_fit
mymalloc-first_fit_example =
    mymalloc-first_fit 2 13 three three-Chain (refl, (refl, tt)) (omega arith) (omega arith) refl

-- A request of 20 bytes fits none of them.
mymalloc-fresh_example :
    ((200 < 80 + 24) × (mymalloc 2 20 three ≡ null))
    ⊎ ((80 + 24 ≤ 200)
        × ((h' : Heap) × (mymalloc 2 20 three ≡ allocated (80 + header) h')
            × ((h'.node 80).size ≡ 24)
            × (h'.top ≡ 80 + 24 + header)
            × (h'.head ≡ some 0)))
unfolding first_fit
mymalloc-fresh_example =
    mymalloc-fresh 2 20 three three-Chain (refl, (refl, tt)) (omega arith) (omega arith) refl

myfree-Chain_example :
    Chain (myfree (56 + header) three).node (myfree (56 + header) three).head (56 ∷ 0 ∷ 24 ∷ [])
myfree-Chain_example = myfree-Chain 56 three three-Chain refl (λ e. absurd (cc e))

-- Both blocks are in use, and the first still points at the second.
abbrev in_use : Heap
in_use = record three { head = none }

myfree_stale_example :
    (h1 h2 : Heap) × (mymalloc 2 8 (myfree (0 + header) in_use) ≡ allocated (0 + header) h1)
    × (mymalloc 2 16 h1 ≡ allocated (24 + header) h2)
myfree_stale_example =
    myfree_stale 0 in_use 2 8 16 refl refl refl (omega arith) (omega arith) (omega arith) refl refl
      (omega arith)

abbrev small : Heap
small = record { node = λ _. node 0 none; head = none; heapsize = 64; top = 0 }

-- The whole heap as one block: its last 16 bytes lie behind the heap.
mymalloc_overrun_example :
    (ptr : ℕ) × (h' : Heap) × (mymalloc 0 64 small ≡ allocated ptr h') × (64 < ptr + 64)
unfolding first_fit
mymalloc_overrun_example =
    mymalloc_overrun 0 64 small nil tt (omega arith) (omega arith) refl (omega arith) (omega arith)
