-- ===== src/RefCount/Counts.antt =====
-- Reference counting is right: the counts of the blocks are the numbers of references that their
-- owners hold, and the last owner to let go frees the block.
use cs213_assignments.Common.{
  ℕ, suc, ◌+◌, ◌-◌, ◌≤◌, ◌<◌, ◌≡◌, refl, ap, ◌∙◌, inl, inr, Option, none, some, List, [], ◌∷◌, ◌++◌,
  arith, ◌==◌, if◌then◌else◌, Option-cases, dec_lt,
}
use cs213_assignments.RefCount.{
  Block, Blocks, set_block, rc_malloc, rc_keep_ref, rc_free_ref, set_body,
}

-- How often an address is among the references.
abbrev pub count : ℕ → List ℕ → ℕ
count a [] = 0
count a (ref ∷ refs) = if a == ref then suc (count a refs) else count a refs

pub count-append :
    (a : ℕ) (refs more : List ℕ) → count a (refs ++ more) ≡ count a refs + count a more
count-append a [] more = omega arith
count-append a (ref ∷ refs) more = ground (arith, count-append a refs more)

module _ {P : Type 0} where
  abbrev pub count_of : Option (Block P) → ℕ
  count_of none = 0
  count_of (some b) = b.refcount

  abbrev pub body_of : Option (Block P) → Option P
  body_of none = none
  body_of (some b) = some b.body

  -- Each block's count is the number of its references in the list; a block without any has been
  -- freed.
  pub record Counts (bs : Blocks P) (refs : List ℕ) : Type 0 where
    pub counted : (a : ℕ) → count_of (bs.block a) ≡ count a refs
    pub live : (a : ℕ) (b : Block P) → bs.block a ≡ some b → 0 < b.refcount
    pub unused : (a : ℕ) → bs.fresh ≤ a → bs.block a ≡ none

  pub Counts-perm :
      {bs : Blocks P} {refs refs' : List ℕ}
      → Counts bs refs
      → ((a : ℕ) → count a refs ≡ count a refs')
      → Counts bs refs'
  Counts-perm c same = record {
    counted = λ a. c.counted a ∙ same a;
    live = c.live;
    unused = c.unused;
  }

  -- Without references nothing is allocated.
  pub Counts-none :
      {bs : Blocks P} {refs : List ℕ}
      → Counts bs refs
      → (a : ℕ) → count a refs ≡ 0
      → bs.block a ≡ none
  Counts-none {bs} c a e = elim (Option-cases (bs.block a)) [
    | inl none_there ↦ none_there
    | inr (b, there) ↦ absurd (ground (arith, c.counted a, c.live a b there))
  ]

  -- A block with a reference is there.
  pub Counts-some :
      {bs : Blocks P} {refs : List ℕ}
      → Counts bs refs
      → (a : ℕ) → 0 < count a refs
      → (b : Block P) × (bs.block a ≡ some b)
  Counts-some {bs} c a p = elim (Option-cases (bs.block a)) [
    | inl none_there ↦ absurd (ground (arith, c.counted a))
    | inr there ↦ there
  ]

  pub body-none :
      {bs : Blocks P} {refs : List ℕ}
      → Counts bs refs
      → (a : ℕ) → count a refs ≡ 0
      → body_of (bs.block a) ≡ none
  body-none c a e = ap body_of (Counts-none c a e)

  -- A new block has one reference, and its address has not been in use.
  pub rc_malloc-Counts :
      (body : P) {bs : Blocks P} {refs : List ℕ}
      → Counts bs refs
      → Counts (rc_malloc body bs).1 ((rc_malloc body bs).0 ∷ refs)
  unfolding rc_malloc set_block
  rc_malloc-Counts body {bs} c = record {
    counted = λ a. ground (arith, c.counted a, c.unused a);
    live = λ a b e. ground (arith, c.live a b);
    unused = λ a le. ground (arith, c.unused a);
  }

  pub rc_malloc-fresh : (body : P) (bs : Blocks P) → (rc_malloc body bs).0 ≡ bs.fresh
  unfolding rc_malloc
  rc_malloc-fresh body bs = refl

  pub rc_malloc-body :
      (body : P) (bs : Blocks P) (x : ℕ)
      → body_of ((rc_malloc body bs).1.block x)
        ≡ (if (rc_malloc body bs).0 == x then some body else body_of (bs.block x))
  unfolding rc_malloc set_block
  rc_malloc-body body bs x = ground arith

  -- Keeping a reference to a block with a reference adds one, and changes no contents.
  pub rc_keep_ref-Counts :
      (a : ℕ) {bs : Blocks P} {refs : List ℕ}
      → Counts bs refs
      → 0 < count a refs
      → (bs' : Blocks P) × (rc_keep_ref a bs ≡ some bs')
        × Counts bs' (a ∷ refs)
        × ((x : ℕ) → body_of (bs'.block x) ≡ body_of (bs.block x))
  unfolding rc_keep_ref set_block
  rc_keep_ref-Counts a {bs} c p =
      let (b, there) = Counts-some c a p in
      (
        set_block a (some (record b { refcount = b.refcount + 1 })) bs,
        rw (rc_keep_ref, there),
        record {
          counted = λ x. ground (arith, c.counted x, there);
          live = λ x b' e. ground (arith, c.live x b');
          unused = λ x le. ground (arith, c.unused x, there);
        },
        λ x. ground (arith, there),
      )

  -- Letting go of a reference takes it away, frees the block if it was the last one, and changes no
  -- other contents.
  pub rc_free_ref-Counts :
      (a : ℕ) {bs : Blocks P} {refs : List ℕ}
      → Counts bs (a ∷ refs)
      → (bs' : Blocks P) × (rc_free_ref a bs ≡ some bs')
        × Counts bs' refs
        × ((x : ℕ) → 0 < count x refs → body_of (bs'.block x) ≡ body_of (bs.block x))
  unfolding rc_free_ref set_block
  rc_free_ref-Counts a {bs} {refs} c =
      let (b, there) = Counts-some c a (ground arith) in
      (
        set_block a
            (if b.refcount - 1 == 0 then none else some (record b { refcount = b.refcount - 1 }))
            bs,
        rw (rc_free_ref, there),
        record {
          counted = λ x. ground (arith, c.counted x, there);
          live = λ x b' e. ground (arith, c.live x b', there);
          unused = λ x le. ground (arith, c.unused x, there);
        },
        λ x p. ground (arith, there, c.counted a),
      )

  pub used-below :
      {bs : Blocks P} {refs : List ℕ} → Counts bs refs → (x : ℕ) → 0 < count x refs → x < bs.fresh
  used-below {bs} c x p = elim (dec_lt x bs.fresh) [
    | yes below ↦ below
    | no above ↦
        let (b, there) = Counts-some c x p in ground (arith, c.unused x (omega arith), there)
  ]

  -- Writing to a block with a reference changes its contents and nothing else.
  pub set_body-Counts :
      (a : ℕ) (body : P) {bs : Blocks P} {refs : List ℕ}
      → Counts bs refs
      → 0 < count a refs
      → (bs' : Blocks P) × (set_body a body bs ≡ some bs')
        × Counts bs' refs
        × ((x : ℕ) → body_of (bs'.block x) ≡ (if a == x then some body else body_of (bs.block x)))
  unfolding set_body set_block
  set_body-Counts a body {bs} c p =
      let (b, there) = Counts-some c a p in
      (
        set_block a (some (record b { body = body })) bs,
        rw (set_body, there),
        record {
          counted = λ x. ground (arith, c.counted x, there);
          live = λ x b' e. ground (arith, c.live x b', c.live a b, there);
          unused = λ x le. ground (arith, c.unused x, there);
        },
        λ x. ground arith,
      )
