-- ===== src/Malloc/FirstFit.antt =====
-- `mymalloc` of a5/q2/mymalloc.c takes the first free block of the rounded size.
use cs213_assignments.Common.{
  ℕ, zero, suc, ◌+◌, ◌<◌, ◌≤◌, ◌≡◌, ◌⊎◌, dec_lt, refl, ap, subst, ◌∙◌, true, false, Option, none,
  some, List, [], ◌∷◌, arith, ltb, ◌==◌, update, length, inl, inr, Bool-cases, ==_refl,
}
use mathlib.Core.Option.{some-injective}
use cs213_assignments.Malloc.{
  null, Node, Heap, header, Result, allocated, taken, is_head, walk, or_else, bump, reuse, round_up,
  mymalloc,
}
use cs213_assignments.Malloc.Walking.{
  Walked, walk-Walked, Reused, head-Reused, Walked-Reused, Walked-none,
}
use cs213_assignments.Malloc.Chain.{Chain, nil, cons, has, Distinct, first_fit}

-- Behind the head of a list of distinct blocks no block is the head.
not_head :
    (h : Heap) (n : ℕ) (xs : List ℕ)
    → h.head ≡ some n
    → has n xs ≡ false
    → (a : ℕ) → has a xs ≡ true
    → is_head a h.head ≡ false
not_head h n xs head new a i = rw head (ground arith)

Chain-none : {node : ℕ → Node} {q : Option ℕ} {xs : List ℕ} → Chain node q xs → q ≡ none → xs ≡ []
Chain-none nil e = refl
Chain-none (cons e' rest) e = cc

-- The head of the list fits, and is not the last block.
walk-head :
    (h : Heap) (size fuel n q : ℕ)
    → h.head ≡ some n
    → (h.node n).next ≡ some q
    → ((h.node n).size == size) ≡ true
    → 0 < fuel
    → walk fuel n size h ≡ taken (n + header) (record h { head = some q })
unfolding walk
walk-head h size zero n q head e fits enough = absurd (omega arith)
walk-head h size (suc fuel) n q head e fits enough = rw (e, walk) (rw (head, fits, ==_refl n))

module _ (h : Heap) (size fuel n : ℕ) (xs : List ℕ) (head : h.head ≡ some n)
    (apart : Distinct (n ∷ xs)) (enough : length xs < fuel) where
  walk_behind :
      {q : Option ℕ}
      → Chain h.node q xs
      → (h.node n).next ≡ q
      → ((h.node n).size == size) ≡ false
      → Walked h size n xs (walk fuel n size h)
  walk_behind chain e miss =
      walk-Walked size fuel n chain e (apart.0) (apart.1) (rw (miss, head) (ground arith))
        (not_head h n xs head (apart.0)) enough

  reuse-fits :
      {q : Option ℕ}
      → Chain h.node q xs
      → (h.node n).next ≡ q
      → ((h.node n).size == size) ≡ true
      → Reused h size (n ∷ xs) n (reuse fuel n size h)
  unfolding reuse or_else
  reuse-fits {q = none} chain e fits = rw (e, reuse) (rw fits (head-Reused size n chain fits))
  reuse-fits {q = some q} chain e fits =
      rw (e, reuse)
        (rw (walk-head h size fuel n q head e fits (omega arith)) (head-Reused size n chain fits))

  reuse-behind :
      {q : Option ℕ} {p : ℕ}
      → Chain h.node q xs
      → (h.node n).next ≡ q
      → ((h.node n).size == size) ≡ false
      → first_fit h.node size (n ∷ xs) ≡ some p
      → Reused h size (n ∷ xs) p (reuse fuel n size h)
  unfolding reuse first_fit
  reuse-behind {q = none} {p} chain e miss found = absurd (
      cc (
        subst (λ ys. first_fit h.node size ys ≡ some p) (Chain-none chain refl) (rw miss at found)))
  reuse-behind {q = some q} chain e miss found =
      rw (e, reuse) (Walked-Reused size _ head miss found (walk_behind chain e miss))

  reuse-Reused :
      {q : Option ℕ} {p : ℕ}
      → Chain h.node q xs
      → (h.node n).next ≡ q
      → first_fit h.node size (n ∷ xs) ≡ some p
      → Reused h size (n ∷ xs) p (reuse fuel n size h)
  unfolding first_fit
  reuse-Reused {q} {p} chain e found = elim (Bool-cases ((h.node n).size == size)) [
    | inl fits ↦
        subst (λ a. Reused h size (n ∷ xs) a (reuse fuel n size h))
          (some-injective n p (rw fits at found)) (reuse-fits chain e fits)
    | inr miss ↦ reuse-behind chain e miss found
  ]

  head_misses : first_fit h.node size (n ∷ xs) ≡ none → ((h.node n).size == size) ≡ false
  unfolding first_fit
  head_misses found = elim (Bool-cases ((h.node n).size == size)) [
    | inl fits ↦ absurd (cc (rw fits at found))
    | inr miss ↦ miss
  ]

  reuse-bump :
      {q : Option ℕ}
      → Chain h.node q xs
      → (h.node n).next ≡ q
      → first_fit h.node size (n ∷ xs) ≡ none
      → reuse fuel n size h ≡ bump size h
  unfolding reuse
  reuse-bump {q = none} chain e found = rw (e, reuse) (rw (head_misses found))
  reuse-bump {q = some q} chain e found =
      let miss = head_misses found in
      let nothing =
        λ (after : Result). Walked-none size after miss found (walk_behind chain e miss) in
      rw (e, reuse) (nothing _ ∙ nothing _)

module _ (fuel request : ℕ) (h : Heap) where
  -- What the code does behind the test of the size, by the head of the list.
  by_head : Option ℕ → Result
  by_head none = bump (round_up request) h
  by_head (some n) = reuse fuel n (round_up request) h

  mymalloc-by_head :
      {q : Option ℕ}
      → h.head ≡ q
      → round_up request ≤ h.heapsize
      → mymalloc fuel request h ≡ by_head q
  unfolding mymalloc by_head
  mymalloc-by_head e fits = rw within (ap by_head e)
    where
      within : ltb h.heapsize (round_up request) ≡ false
      within = ground arith

  serve :
      {q : Option ℕ} {xs : List ℕ} {p : ℕ}
      → h.head ≡ q
      → Chain h.node q xs
      → Distinct xs
      → length xs ≤ fuel
      → round_up request ≤ h.heapsize
      → first_fit h.node (round_up request) xs ≡ some p
      → Reused h (round_up request) xs p (mymalloc fuel request h)
  unfolding first_fit by_head
  serve e nil apart enough fits found = absurd (cc found)
  serve e (cons {p = n} {xs} e' rest) apart enough fits found =
      rw (mymalloc-by_head e fits)
        (reuse-Reused h (round_up request) fuel n xs e apart (omega arith) rest e' found)

  -- The blocks `xs` are the free ones in the order of the list, no block twice, there are at least as
  -- many rounds as blocks, and the rounded request is at most the size of the heap. If `p` is the
  -- first free block of exactly the rounded size, `mymalloc` gives the pointer behind its header,
  -- the list of free blocks is then the old one without it, and no size and not `top` has changed.
  pub mymalloc-first_fit :
      {xs : List ℕ} {p : ℕ}
      → Chain h.node h.head xs
      → Distinct xs
      → length xs ≤ fuel
      → round_up request ≤ h.heapsize
      → first_fit h.node (round_up request) xs ≡ some p
      → Reused h (round_up request) xs p (mymalloc fuel request h)
  mymalloc-first_fit chain = serve refl chain

  no_block :
      {q : Option ℕ} {xs : List ℕ}
      → h.head ≡ q
      → Chain h.node q xs
      → Distinct xs
      → length xs ≤ fuel
      → round_up request ≤ h.heapsize
      → first_fit h.node (round_up request) xs ≡ none
      → mymalloc fuel request h ≡ bump (round_up request) h
  unfolding by_head
  no_block e nil apart enough fits found = mymalloc-by_head e fits
  no_block e (cons {p = n} {xs} e' rest) apart enough fits found =
      mymalloc-by_head e fits
      ∙ reuse-bump h (round_up request) fuel n xs e apart (omega arith) rest e' found

  -- With a well-formed list of free blocks, a round for each of them and a request whose rounded size
  -- is at most that of the heap, if no free block has that size, the block comes from `top`: the call
  -- fails exactly if fewer than the rounded size bytes lie above `top`, and otherwise gives
  -- the pointer behind a header at `top`, which holds the rounded size, moves `top` behind the block
  -- and leaves the list of free blocks as it is.
  pub mymalloc-fresh :
      {xs : List ℕ}
      → Chain h.node h.head xs
      → Distinct xs
      → length xs ≤ fuel
      → round_up request ≤ h.heapsize
      → first_fit h.node (round_up request) xs ≡ none
      → ((h.heapsize < h.top + round_up request) × (mymalloc fuel request h ≡ null))
        ⊎ ((h.top + round_up request ≤ h.heapsize)
            × ((h' : Heap) × (mymalloc fuel request h ≡ allocated (h.top + header) h')
                × ((h'.node h.top).size ≡ round_up request)
                × (h'.top ≡ h.top + round_up request + header)
                × (h'.head ≡ h.head)))
  unfolding bump
  mymalloc-fresh chain apart enough fits found =
      let fresh = no_block refl chain apart enough fits found in
      elim (dec_lt h.heapsize (h.top + round_up request)) [
        | yes full ↦ inl (full, fresh ∙ ground arith)
        | no room ↦ inr (
          omega (arith, room),
          (
            record h {
              node =
                  update h.node h.top
                    (record { size = round_up request; next = (h.node h.top).next });
              top = h.top + round_up request + header;
            },
            fresh ∙ ground arith,
            ground arith,
            refl,
            refl,
          ),
        )
      ]

-- A request whose rounded size is more than the heap's fails.
pub mymalloc-too_large :
    (fuel request : ℕ) (h : Heap) → h.heapsize < round_up request → mymalloc fuel request h ≡ null
unfolding mymalloc
mymalloc-too_large fuel request h large = ground arith
