-- ===== src/Elements/Owned.antt =====
-- Reference counting of a7/q3's elements: who owns what, and that the copy of a text lives exactly
-- as long as its element.
use cs213_assignments.Common.{
  ℕ, ◌-◌, ◌<◌, ◌≡◌, refl, sym, ap, ◌∙◌, Bool, true, false, Option, none, some, List, ◌∷◌, arith,
  ◌==◌, if◌then◌else◌, update, dec_lt, ℕ_discrete, Bool-cases, inl, inr,
}
use cs213_assignments.Common.Int.{ℤ}
use cs213_assignments.RefCount as RefCount
use cs213_assignments.RefCount.{Block, Blocks}
use cs213_assignments.RefCount.Counts.{
  Counts, Counts-some, Counts-perm, used-below, count, body_of, body-none, rc_malloc-Counts,
  rc_malloc-fresh, rc_malloc-body, rc_keep_ref-Counts, rc_free_ref-Counts,
}
use cs213_assignments.Elements.{
  Element, int_element, str_element, Finalizer, int_finalizer, str_finalizer, Object, Heap,
  rc_malloc, rc_keep_ref, rc_free_ref, finalize, element_at, int_element_new, str_element_new,
}

abbrev pub finalizer_of : Element → Finalizer
finalizer_of (int_element value) = int_finalizer
finalizer_of (str_element string) = str_finalizer

-- An element as its class allocates it.
abbrev object_of : Element → Object
object_of v = record { finalizer = finalizer_of v; element = v }

abbrev is_str : Option Object → Bool
is_str none = false
is_str (some o) = elim o.finalizer [ int_finalizer ↦ false | str_finalizer ↦ true ]

-- The counts are those of the references, and a copy of a text is allocated for each string element
-- that is, and for nothing else.
pub record Owned (h : Heap) (refs : List ℕ) : Type 0 where
  pub counts : Counts h.blocks refs
  pub copies : (a : ℕ) → h.copied a ≡ is_str (body_of (h.blocks.block a))

finalize-some :
    (b : Block Object) (a : ℕ) (copied : ℕ → Bool)
    → copied a ≡ is_str (some b.body)
    → (copied' : ℕ → Bool) × (finalize b.body.finalizer a copied ≡ some copied')
      × ((x : ℕ) → copied' x ≡ (if a == x then false else copied x))
unfolding finalize
finalize-some b a copied e = by_finalizer b.body.finalizer e
  where
    by_finalizer :
        (f : Finalizer)
        → copied a ≡ elim f [ int_finalizer ↦ false | str_finalizer ↦ true ]
        → (copied' : ℕ → Bool) × (finalize f a copied ≡ some copied')
          × ((x : ℕ) → copied' x ≡ (if a == x then false else copied x))
    by_finalizer int_finalizer e = (copied, refl, λ x. ground (arith, e))
    by_finalizer str_finalizer e = (update copied a false, rw (finalize, e), λ x. refl)

-- What the objects are before and after a reference to `a` is taken away.
module _ (a : ℕ) (refs : List ℕ) (before after : ℕ → Option Object)
    (kept : (x : ℕ) → 0 < count x refs → after x ≡ before x)
    (gone : (x : ℕ) → count x refs ≡ 0 → after x ≡ none)
    (absent : (x : ℕ) → count x (a ∷ refs) ≡ 0 → before x ≡ none) where
  shared-copies : 0 < count a refs → (x : ℕ) → is_str (before x) ≡ is_str (after x)
  shared-copies p x = elim (dec_lt 0 (count x refs)) [
    | yes q ↦ ap is_str (sym (kept x q))
    | no q ↦ ap is_str (absent x (ground arith) ∙ sym (gone x (omega arith)))
  ]

  last-copies :
      count a refs ≡ 0 → (x : ℕ) → (if a == x then false else is_str (before x)) ≡ is_str (after x)
  last-copies e x = elim (ℕ_discrete a x) [
    | yes same ↦ ground (arith, gone x)
    | no other ↦ elim (dec_lt 0 (count x refs)) [
      | yes q ↦ ground (arith, kept x)
      | no q ↦ ground (arith, absent x, gone x)
    ]
  ]

module _ (a : ℕ) {h : Heap} {refs : List ℕ} where
  pub rc_keep_ref-Owned :
      Owned h refs
      → 0 < count a refs
      → (h' : Heap) × (rc_keep_ref a h ≡ some h')
        × Owned h' (a ∷ refs)
        × ((x : ℕ) → element_at x h' ≡ element_at x h)
  unfolding rc_keep_ref element_at
  rc_keep_ref-Owned o p =
      let (blocks, got, c, same) = rc_keep_ref-Counts a o.counts p in
      (
        record h { blocks = blocks },
        rw (rc_keep_ref, got),
        record { counts = c; copies = λ x. o.copies x ∙ ap is_str (sym (same x)) },
        λ x. ground (arith, same x),
      )

  pub rc_free_ref-Owned :
      Owned h (a ∷ refs)
      → (h' : Heap) × (rc_free_ref a h ≡ some h')
        × Owned h' refs
        × ((x : ℕ) → 0 < count x refs → element_at x h' ≡ element_at x h)
  unfolding rc_free_ref element_at
  rc_free_ref-Owned o =
      let (b, there) = Counts-some o.counts a (ground arith) in
      let (blocks, got, c, same) = rc_free_ref-Counts a o.counts in
      let (copied, done, changed) =
        finalize-some b a h.copied (o.copies a ∙ ap (λ r. is_str (body_of r)) there) in
      let before : ℕ → Option Object = λ x. body_of (h.blocks.block x) in
      let after : ℕ → Option Object = λ x. body_of (blocks.block x) in
      let left : b.refcount - 1 ≡ count a refs = ground (arith, o.counts.counted a, there) in
      elim (Bool-cases (b.refcount - 1 == 0)) [
        | inl last ↦ (
          record { blocks = blocks; copied = copied },
          rw (rc_free_ref, there, last, done, got),
          record {
            counts = c;
            copies = λ x.
                changed x
                ∙ ap (λ r. if a == x then false else r) (o.copies x)
                ∙ last-copies a refs before after same (body-none c) (body-none o.counts)
                    (ground (arith, left, last)) x;
          },
          λ x p. ground (arith, same x p),
        )
        | inr shared ↦ (
          record { blocks = blocks; copied = h.copied },
          rw (rc_free_ref, there, shared, got),
          record {
            counts = c;
            copies = λ x.
                o.copies x
                ∙ shared-copies a refs before after same (body-none c) (body-none o.counts)
                    (ground (arith, left, shared)) x;
          },
          λ x p. ground (arith, same x p),
        )
      ]

-- No copy is allocated for an address that has not been in use.
fresh-uncopied : {h : Heap} {refs : List ℕ} → Owned h refs → h.copied h.blocks.fresh ≡ false
fresh-uncopied {h} o =
    o.copies h.blocks.fresh
    ∙ ap (λ r. is_str (body_of r)) (o.counts.unused h.blocks.fresh (omega arith))

-- A new element has one reference; its address has not been in use.
pub int_element_new-Owned :
    (value : ℤ) {h : Heap} {refs : List ℕ}
    → Owned h refs
    → Owned (int_element_new value h).1 ((int_element_new value h).0 ∷ refs)
unfolding int_element_new rc_malloc
int_element_new-Owned value {h} o = record {
  counts = rc_malloc-Counts (object_of (int_element value)) o.counts;
  copies = λ x. ground (
    arith,
    o.copies x,
    rc_malloc-body (object_of (int_element value)) h.blocks x,
    rc_malloc-fresh (object_of (int_element value)) h.blocks,
    ap h.copied (rc_malloc-fresh (object_of (int_element value)) h.blocks),
    fresh-uncopied o,
  );
}

pub str_element_new-Owned :
    (str : List ℕ) {h : Heap} {refs : List ℕ}
    → Owned h refs
    → Owned (str_element_new str h).1 ((str_element_new str h).0 ∷ refs)
unfolding str_element_new rc_malloc
str_element_new-Owned str {h} o = record {
  counts = rc_malloc-Counts (object_of (str_element str)) o.counts;
  copies = λ x. ground (arith, o.copies x, rc_malloc-body (object_of (str_element str)) h.blocks x);
}

-- An element with a reference can be read.
pub element_at-some :
    {h : Heap} {refs : List ℕ}
    → Owned h refs
    → (a : ℕ) → 0 < count a refs
    → (v : Element) × (element_at a h ≡ some v)
unfolding element_at
element_at-some o a p = let (b, there) = Counts-some o.counts a p in (b.body.element, rw there)

pub Owned-perm :
    {h : Heap} {refs refs' : List ℕ}
    → Owned h refs
    → ((a : ℕ) → count a refs ≡ count a refs')
    → Owned h refs'
Owned-perm o same = record { counts = Counts-perm o.counts same; copies = o.copies }

pub int_element_new-content :
    (value : ℤ) {h : Heap} {refs : List ℕ}
    → Owned h refs
    → (element_at (int_element_new value h).0 (int_element_new value h).1
        ≡ some (int_element value))
      × ((x : ℕ) → 0 < count x refs → element_at x (int_element_new value h).1 ≡ element_at x h)
unfolding int_element_new rc_malloc element_at
int_element_new-content value {h} {refs} o = (
  ground (
    arith,
    rc_malloc-body (object_of (int_element value)) h.blocks
        (RefCount.rc_malloc (object_of (int_element value)) h.blocks).0,
  ),
  λ x p. ground (
    arith,
    rc_malloc-body (object_of (int_element value)) h.blocks x,
    rc_malloc-fresh (object_of (int_element value)) h.blocks,
    used-below o.counts x p,
  ),
)

pub str_element_new-content :
    (str : List ℕ) {h : Heap} {refs : List ℕ}
    → Owned h refs
    → (element_at (str_element_new str h).0 (str_element_new str h).1 ≡ some (str_element str))
      × ((x : ℕ) → 0 < count x refs → element_at x (str_element_new str h).1 ≡ element_at x h)
unfolding str_element_new rc_malloc element_at
str_element_new-content str {h} o = (
  ground (
    arith,
    rc_malloc-body (object_of (str_element str)) h.blocks
        (RefCount.rc_malloc (object_of (str_element str)) h.blocks).0,
  ),
  λ x p. ground (
    arith,
    rc_malloc-body (object_of (str_element str)) h.blocks x,
    rc_malloc-fresh (object_of (str_element str)) h.blocks,
    used-below o.counts x p,
  ),
)
