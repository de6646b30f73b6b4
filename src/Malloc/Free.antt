-- ===== src/Malloc/Free.antt =====
-- `myfree` of a5/q2/mymalloc.c, and what goes wrong with the blocks that it and `mymalloc` hand over.
use cs213_assignments.Common.{
  ℕ, ◌+◌, ◌-◌, ◌<◌, ◌≤◌, ◌≡◌, ◌≢◌, refl, ap, ap₂, sym, subst, ◌∙◌, true, false, inl, inr, Option,
  none, some, List, [], ◌∷◌, arith, ◌==◌, length,
}
use cs213_assignments.Malloc.{Heap, header, allocated, set_next, round_up, mymalloc, myfree}
use cs213_assignments.Malloc.Chain.{
  Chain, nil, cons, has, Distinct, Chain-frame, first_fit, without_fit,
}
use cs213_assignments.Malloc.Walking.{Reused}
use cs213_assignments.Malloc.FirstFit.{mymalloc-first_fit, mymalloc-fresh}

-- The first free block has the size that is asked for.
take_head :
    (fuel r n : ℕ) (h : Heap) {xs : List ℕ}
    → Chain h.node h.head (n ∷ xs)
    → Distinct (n ∷ xs)
    → length (n ∷ xs) ≤ fuel
    → round_up r ≤ h.heapsize
    → (h.node n).size ≡ round_up r
    → (h' : Heap) × (mymalloc fuel r h ≡ allocated (n + header) h')
      × Chain h'.node h'.head xs
      × (h'.heapsize ≡ h.heapsize)
      × ((a : ℕ) → (h'.node a).size ≡ (h.node a).size)
unfolding first_fit without_fit
take_head fuel r n h {xs} chain apart enough fits size =
    (taken.heap, taken.returned, rw same at taken.chain, taken.heapsize, taken.sizes)
  where
    same : ((h.node n).size == round_up r) ≡ true
    same = ground arith

    taken : Reused h (round_up r) (n ∷ xs) n (mymalloc fuel r h)
    taken = mymalloc-first_fit fuel r h chain apart enough fits (rw same)

-- The heap behind the call, by the head of the list.
freed : Heap → ℕ → Option ℕ → Heap
freed h n none = record h { head = some n }
freed h n (some p) = record (set_next n (some p) h) { head = some n }

module _ (n : ℕ) (h : Heap) where
  myfree-freed : {q : Option ℕ} → h.head ≡ q → myfree (n + header) h ≡ freed h n q
  unfolding myfree freed
  myfree-freed e = ap₂ (freed h) {x = n + header - header} {y = n} (omega arith) e

  free_onto :
      {q : Option ℕ} {xs : List ℕ}
      → Chain h.node q xs
      → has n xs ≡ false
      → (xs ≡ [] → (h.node n).next ≡ none)
      → Chain (freed h n q).node (freed h n q).head (n ∷ xs)
  unfolding freed set_next
  free_onto nil new last = cons (last refl) nil
  free_onto (cons {p} e rest) new last =
      cons (ground arith) (Chain-frame (cons e rest) λ a i. ground arith)

  -- A block that is not in the list of free blocks goes to its front. If the list is empty, this
  -- needs that the `next` of the block is NULL already: `myfree` does not write it.
  pub myfree-Chain :
      {xs : List ℕ}
      → Chain h.node h.head xs
      → has n xs ≡ false
      → (xs ≡ [] → (h.node n).next ≡ none)
      → Chain (myfree (n + header) h).node (myfree (n + header) h).head (n ∷ xs)
  myfree-Chain {xs} chain new last =
      subst (λ (h' : Heap). Chain h'.node h'.head (n ∷ xs)) (sym (myfree-freed refl))
        (free_onto chain new last)

  -- Freed while the list is empty, a block with a `next` that is left over from an earlier list
  -- brings the block behind it back into the list, though nobody has freed that one: two requests of
  -- the two blocks' sizes then hand out both.
  pub myfree_stale :
      {q : ℕ} (fuel r r' : ℕ)
      → h.head ≡ none
      → (h.node n).next ≡ some q
      → (h.node q).next ≡ none
      → n ≢ q
      → round_up r ≤ h.heapsize
      → round_up r' ≤ h.heapsize
      → (h.node n).size ≡ round_up r
      → (h.node q).size ≡ round_up r'
      → 1 < fuel
      → (h1 h2 : Heap) × (mymalloc fuel r (myfree (n + header) h) ≡ allocated (n + header) h1)
        × (mymalloc fuel r' h1 ≡ allocated (q + header) h2)
  unfolding freed
  myfree_stale {q} fuel r r' empty link last apart fits fits' size size' enough =
      let (h1, got, chain1, heap1, sizes1) =
        take_head fuel r n (record h { head = some n }) {xs = q ∷ []} (cons link (cons last nil))
          (ground arith, (refl, tt)) (omega arith) fits size in
      let (h2, got', chain2, heap2, sizes2) =
        take_head fuel r' q h1 {xs = []} chain1 (refl, tt) (omega arith) (omega (arith, heap1))
          (sizes1 q ∙ size') in
      (h1, h2, ap (mymalloc fuel r) (myfree-freed empty) ∙ got, got')

-- A block from `top` that leaves fewer than 16 bytes free between its end, as the test computes it,
-- and the end of the heap reaches beyond the heap: the test leaves out the header.
pub mymalloc_overrun :
    (fuel request : ℕ) (h : Heap) {xs : List ℕ}
    → Chain h.node h.head xs
    → Distinct xs
    → length xs ≤ fuel
    → round_up request ≤ h.heapsize
    → first_fit h.node (round_up request) xs ≡ none
    → h.top + round_up request ≤ h.heapsize
    → h.heapsize < h.top + round_up request + header
    → (ptr : ℕ) × (h' : Heap) × (mymalloc fuel request h ≡ allocated ptr h')
      × (h.heapsize < ptr + round_up request)
mymalloc_overrun fuel request h chain apart enough fits none_fits room short =
    elim (mymalloc-fresh fuel request h chain apart enough fits none_fits) [
      | inl (full, e) ↦ absurd (omega (arith, full, room))
      | inr (room', (h', e, _, _, _)) ↦ (h.top + header, h', e, omega arith)
    ]
