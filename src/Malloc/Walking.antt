-- ===== src/Malloc/Walking.antt =====
-- The walk of `mymalloc` in a5/q2/mymalloc.c along the list of free blocks.
use cs213_assignments.Common.{
  ℕ, zero, suc, ◌+◌, ◌<◌, ◌≡◌, refl, ap, sym, subst, ◌∙◌, true, false, ◌&&◌, Option, none, some,
  List, ◌∷◌, arith, ◌==◌, length, inl, inr, Bool-cases,
}
use mathlib.Core.Option.{some-injective}
use cs213_assignments.Malloc.{
  Node, Heap, header, Result, allocated, Walk, taken, no_fit, set_next, is_head, walk, or_else,
}
use cs213_assignments.Malloc.Chain.{
  Chain, nil, cons, has, Distinct, Chain-frame, first_fit, without_fit,
}

-- The walk from `n`, which does not fit, along the blocks `xs` behind it.
pub data Walked (h : Heap) (size n : ℕ) (xs : List ℕ) : Walk → Type 0 where
  missed : first_fit h.node size xs ≡ none → Walked h size n xs no_fit
  hit :
      {p : ℕ} {h' : Heap}
      → first_fit h.node size xs ≡ some p
      → Chain h'.node ((h'.node n).next) (without_fit h.node size xs)
      → (h'.head ≡ h.head) × (h'.top ≡ h.top) × (h'.heapsize ≡ h.heapsize)
      → ((a : ℕ) → has a (n ∷ xs) ≡ false → h'.node a ≡ h.node a)
      → ((a : ℕ) → (h'.node a).size ≡ (h.node a).size)
      → Walked h size n xs (taken (p + header) h')

-- The block behind `n` is unlinked.
unlinked :
    (h : Heap) (n q : ℕ) {r : Option ℕ} {xs : List ℕ}
    → has n (q ∷ xs) ≡ false
    → (h.node q).next ≡ r
    → Chain h.node r xs
    → Chain
        (set_next n ((h.node q).next) h).node
        (((set_next n ((h.node q).next) h).node n).next)
        xs
unfolding set_next
unlinked h n q {r} {xs} new e' rest =
    subst (λ t. Chain (set_next n ((h.node q).next) h).node t xs) {x = r} (ground arith)
      (Chain-frame rest λ a i. ground arith)

module _ {h : Heap} (size : ℕ) where
  Walked-cons :
      {n q : ℕ} {xs : List ℕ} {w : Walk}
      → (h.node n).next ≡ some q
      → has n (q ∷ xs) ≡ false
      → ((h.node q).size == size) ≡ false
      → Walked h size q xs w
      → Walked h size n (q ∷ xs) w
  unfolding first_fit without_fit
  Walked-cons e new miss (missed none_fits) = missed (rw miss none_fits)
  Walked-cons {n} {q} {xs} e new miss (hit {h' = h'} found chain kept same sizes) =
      hit (rw miss found)
        (rw miss (
          subst (λ r. Chain h'.node r (q ∷ without_fit h.node size xs))
            (sym (ap (λ (m : Node). m.next) (same n new) ∙ e)) (cons refl chain)))
        kept (λ a out. same a (ground arith)) sizes

  pub walk-Walked :
      (fuel n : ℕ) {q : Option ℕ} {xs : List ℕ}
      → Chain h.node q xs
      → (h.node n).next ≡ q
      → has n xs ≡ false
      → Distinct xs
      → (is_head n h.head && (h.node n).size == size) ≡ false
      → ((a : ℕ) → has a xs ≡ true → is_head a h.head ≡ false)
      → length xs < fuel
      → Walked h size n xs (walk fuel n size h)
  unfolding walk first_fit without_fit set_next
  walk-Walked zero n chain e new apart head_fails behind enough = absurd (omega arith)
  walk-Walked (suc fuel) n nil e new apart head_fails behind enough = rw (e, walk) (missed refl)
  walk-Walked (suc fuel) n (cons {p = q} {q = r} {xs} e' rest) e new apart head_fails behind
        enough =
      rw (e, walk)
        (rw head_fails (elim (Bool-cases ((h.node q).size == size)) [
          | inl fits ↦ rw fits (
              hit (rw fits) (rw fits (unlinked h n q new e' rest)) (refl, refl, refl)
                (λ a out. ground arith) (λ a. ground arith))
          | inr miss ↦ rw miss (
              Walked-cons e new miss (
                walk-Walked fuel q rest e' (apart.0) (apart.1) (rw (behind q (ground arith)))
                  (λ a i. behind a (ground arith)) (omega arith)))
        ]))

-- A call that takes a free block: the pointer behind its header, and the list without it.
pub record Reused (h : Heap) (size : ℕ) (xs : List ℕ) (p : ℕ) (r : Result) : Type 0 where
  pub heap : Heap
  pub returned : r ≡ allocated (p + header) heap
  pub chain : Chain heap.node heap.head (without_fit h.node size xs)
  pub top : heap.top ≡ h.top
  pub heapsize : heap.heapsize ≡ h.heapsize
  pub sizes : (a : ℕ) → (heap.node a).size ≡ (h.node a).size

module _ {h : Heap} (size : ℕ) where
  -- The head of the list fits.
  pub head-Reused :
      (n : ℕ) {q : Option ℕ} {xs : List ℕ}
      → Chain h.node q xs
      → ((h.node n).size == size) ≡ true
      → Reused h size (n ∷ xs) n (allocated (n + header) (record h { head = q }))
  unfolding without_fit
  head-Reused n {q} chain fits = record {
    heap = record h { head = q };
    returned = refl;
    chain = rw fits chain;
    top = refl;
    heapsize = refl;
    sizes = λ a. refl;
  }

  -- The walk took a block behind the head, which does not fit.
  pub Walked-Reused :
      {n p : ℕ} {xs : List ℕ} {w : Walk} (after : Result)
      → h.head ≡ some n
      → ((h.node n).size == size) ≡ false
      → first_fit h.node size (n ∷ xs) ≡ some p
      → Walked h size n xs w
      → Reused h size (n ∷ xs) p (or_else w after)
  unfolding first_fit without_fit or_else
  Walked-Reused after e miss found (missed none_fits) = absurd (cc (none_fits, rw miss at found))
  Walked-Reused {n} {p} {xs} after e miss found
        (hit {p = p'} {h' = h'} found' chain kept same sizes) =
      record {
        heap = h';
        returned =
            ap (λ (a : ℕ). allocated (a + header) h')
              (some-injective p' p (sym found' ∙ (rw miss at found)));
        chain = rw miss (
            subst (λ r. Chain h'.node r (n ∷ without_fit h.node size xs)) (sym (kept.0 ∙ e))
              (cons refl chain));
        top = kept.1;
        heapsize = kept.2;
        sizes = sizes;
      }

  pub Walked-none :
      {n : ℕ} {xs : List ℕ} {w : Walk} (after : Result)
      → ((h.node n).size == size) ≡ false
      → first_fit h.node size (n ∷ xs) ≡ none
      → Walked h size n xs w
      → or_else w after ≡ after
  unfolding first_fit or_else
  Walked-none after miss found (missed none_fits) = refl
  Walked-none after miss found (hit found' chain kept same sizes) =
      absurd (cc (found', rw miss at found))
