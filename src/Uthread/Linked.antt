-- ===== src/Uthread/Linked.antt =====
-- A queue of a11/uthreads/uthread.c as the list of its threads.
use cs213_assignments.Common.{
  ℕ, ◌≡◌, refl, sym, ap, subst, suc, length, ◌≤◌, Bool-cases, inl, inr, ℕ_discrete, Bool, true,
  false, ◌||◌, Option, none, some, List, [], ◌∷◌, ◌++◌, arith, ◌==◌, update,
}
use cs213_assignments.Uthread.{link_last, first_or}

-- From the head the `next` pointers lead through the threads of the list to the tail, whose `next`
-- is NULL.
pub data Linked (next : ℕ → Option ℕ) : Option ℕ → Option ℕ → List ℕ → Type 0 where
  nil : Linked next none none []
  one : {p : ℕ} → next p ≡ none → Linked next (some p) (some p) (p ∷ [])
  cons :
      {p q : ℕ} {tail : Option ℕ} {xs : List ℕ}
      → next p ≡ some q
      → Linked next (some q) tail xs
      → Linked next (some p) tail (p ∷ xs)

abbrev pub has : ℕ → List ℕ → Bool
has a [] = false
has a (x ∷ xs) = a == x || has a xs

pub has-append : (a : ℕ) (xs ys : List ℕ) → has a (xs ++ ys) ≡ (has a xs || has a ys)
has-append a [] ys = refl
has-append a (x ∷ xs) ys = ground (arith, has-append a xs ys)

pub Linked-frame :
    {next next' : ℕ → Option ℕ} {head tail : Option ℕ} {xs : List ℕ}
    → Linked next head tail xs
    → ((a : ℕ) → has a xs ≡ true → next' a ≡ next a)
    → Linked next' head tail xs
Linked-frame nil same = nil
Linked-frame (one {p} e) same = one (ground (arith, same p))
Linked-frame (cons {p} e rest) same =
    cons (ground (arith, same p)) (Linked-frame rest λ a i. same a (ground arith))

module _ {next : ℕ → Option ℕ} where
  -- The tail is a thread of the list without a `next`.
  pub tail-last :
      {head : Option ℕ} {l : ℕ} {xs : List ℕ}
      → Linked next head (some l) xs
      → (next l ≡ none) × (has l xs ≡ true)
  tail-last (one e) = (e, ground arith)
  tail-last (cons e rest) = ((tail-last rest).0, ground (arith, (tail-last rest).1))

  -- Only the tail has no `next`.
  pub last-tail :
      {head tail : Option ℕ} {xs : List ℕ} (a : ℕ)
      → Linked next head tail xs
      → has a xs ≡ true
      → next a ≡ none
      → tail ≡ some a
  last-tail a nil i e = ground arith
  last-tail a (one {p} d) i e = ground arith
  last-tail a (cons {p} d rest) i e = ground (arith, last-tail a rest)

  link_more :
      {p l : ℕ} {xs : List ℕ} (a : ℕ)
      → Linked next (some p) (some l) xs
      → has a xs ≡ false
      → Linked (update (update next a none) l (some a)) (some p) (some a) (xs ++ a ∷ [])
  link_more a (one {p} e) new = cons (ground arith) (one (ground arith))
  link_more {l} a (cons {p} e rest) new =
      cons (ground (arith, (tail-last rest).0)) (link_more a rest (ground arith))

  pub link_last-Linked :
      {head tail : Option ℕ} {xs : List ℕ} (a : ℕ)
      → Linked next head tail xs
      → has a xs ≡ false
      → Linked (link_last a tail next) (first_or a head) (some a) (xs ++ a ∷ [])
  unfolding link_last first_or
  link_last-Linked a nil new = one (ground arith)
  link_last-Linked a (one e) new = link_more a (one e) new
  link_last-Linked {tail = none} a (cons e rest) new = absurd (no_tail rest)
    where
      no_tail : {q : ℕ} {ys : List ℕ} → ¬ Linked next (some q) none ys
      no_tail (cons e rest) = no_tail rest
  link_last-Linked {tail = some l} a (cons e rest) new = link_more a (cons e rest) new

  same_length :
      {p p' : ℕ} {t t' : Option ℕ} {xs ys : List ℕ}
      → p ≡ p'
      → Linked next (some p) t xs
      → Linked next (some p') t' ys
      → length xs ≡ length ys
  same_length same (one d) (one e) = ground arith
  same_length same (one {p} d) (cons {p = p'} e rest) = absurd (ground arith)
  same_length same (cons {p} d rest) (one {p = p'} e) = absurd (ground arith)
  same_length same (cons {p} {q} d rest) (cons {p = p'} {q = q'} e rest') =
      ap suc (same_length (ground arith) rest rest')

  from_thread :
      {head tail : Option ℕ} {xs : List ℕ} (a : ℕ)
      → Linked next head tail xs
      → has a xs ≡ true
      → (ys : List ℕ) × Linked next (some a) tail ys × (length ys ≤ length xs)
  from_thread a nil i = ground arith
  from_thread a (one {p} e) i = (
    p ∷ [],
    subst (λ q. Linked next (some q) (some p) (p ∷ [])) {x = p} {y = a} (ground arith) (one e),
    omega arith,
  )
  from_thread a (cons {p} {tail} {xs} e rest) i = elim (ℕ_discrete a p) [
    | yes same ↦ (
      p ∷ xs,
      subst (λ q. Linked next (some q) tail (p ∷ xs)) (sym same) (cons e rest),
      omega arith,
    )
    | no other ↦ let (ys, l, le) = from_thread a rest (ground arith) in (ys, l, omega (arith, le))
  ]

  -- The head does not come again.
  pub head-once :
      (p : ℕ) {q : ℕ} {tail : Option ℕ} {xs : List ℕ}
      → next p ≡ some q
      → Linked next (some q) tail xs
      → has p xs ≡ false
  head-once p {q} {tail} {xs} e rest = elim (Bool-cases (has p xs)) [
    | inl i ↦
        let (ys, l, le) = from_thread p rest i in
        absurd (omega (arith, le, same_length refl l (cons e rest)))
    | inr new ↦ new
  ]
