-- ===== src/NumberedElements/Owned.antt =====
-- Reference counting of a5/q3's elements: whoever has a reference to an element has one to its text.
use cs213_assignments.Common.{
  ℕ, ◌<◌, ◌≡◌, ◌≢◌, sym, ap, subst, fun_ext, ◌∙◌, Option, none, some, List, ◌∷◌, ◌++◌, map, arith,
  ◌>>=◌, update, update_self, update-ne, ℕ_discrete,
}
use cs213_assignments.RefCount.{rc_malloc}
use cs213_assignments.RefCount.Counts.{
  Counts, Counts-perm, count, count-append, body_of, used-below, rc_malloc-Counts, rc_malloc-fresh,
  rc_malloc-body, rc_keep_ref-Counts, rc_free_ref-Counts, set_body-Counts,
}
use cs213_assignments.RefCount.Mapped.{count-map, count-map-update, count-map-same}
use cs213_assignments.Ownership.{Ownership}
use cs213_assignments.NumberedElements.{
  Content, element, chars, Heap, body_at, rc_strdup, element_new, element_get_num,
  element_get_value, text_at, element_delete, content_at, keep_element,
}

-- The element with its text, at two addresses.
abbrev IsElement : Heap → ℕ → ℕ → Type 0
IsElement h e s =
    (num : ℕ) × (text : List ℕ) × (body_at e h ≡ some (element num s))
    × (body_at s h ≡ some (chars text))

-- `value` finds the text of an element. The counts are those of the references to the elements, and as
-- many to their texts.
pub record Owned (h : Heap) (refs : List ℕ) : Type 0 where
  pub value : ℕ → ℕ
  pub counts : Counts h (refs ++ map value refs)
  pub shaped : (a : ℕ) → 0 < count a refs → IsElement h a (value a)

body_at-body_of : (a : ℕ) (h : Heap) → body_at a h ≡ body_of (h.block a)
unfolding body_at
body_at-body_of a h = ground arith

pub content_at-some :
    (h : Heap) (a s num : ℕ) (text : List ℕ)
    → body_at a h ≡ some (element num s)
    → body_at s h ≡ some (chars text)
    → content_at a h ≡ some (num, text)
unfolding content_at element_get_num element_get_value text_at
content_at-some h a s num text at_a at_s = rw (at_a, at_s)

element_get_value-some :
    (h : Heap) (a s num : ℕ) → body_at a h ≡ some (element num s) → element_get_value a h ≡ some s
unfolding element_get_value
element_get_value-some h a s num at_a = rw at_a

abbrev num_in : Content → Option ℕ
num_in (element num s) = some num
num_in (chars text) = none

abbrev value_in : Content → Option ℕ
value_in (element num s) = some s
value_in (chars text) = none

abbrev text_in : Content → Option (List ℕ)
text_in (element num s) = none
text_in (chars text) = some text

-- What is read of an element depends on the contents of the allocations.
abbrev content_in : (ℕ → Option Content) → ℕ → Option (ℕ × List ℕ)
content_in bodies e = do
  num ← (bodies e >>= num_in)
  s ← (bodies e >>= value_in)
  text ← (bodies s >>= text_in)
  some (num, text)

content_at-content_in : (x : ℕ) (h : Heap) → content_at x h ≡ content_in (λ y. body_at y h) x
unfolding content_at element_get_num element_get_value text_at
content_at-content_in x h = ground arith

content_at-same :
    (x : ℕ) (h h' : Heap)
    → ((y : ℕ) → body_at y h' ≡ body_at y h)
    → content_at x h' ≡ content_at x h
content_at-same x h h' same =
    content_at-content_in x h'
    ∙ ap (λ bodies. content_in bodies x) (fun_ext same)
    ∙ sym (content_at-content_in x h)

-- Where two allocations are as before, so is the element.
same-IsElement :
    (h h' : Heap) (a s : ℕ)
    → body_at a h' ≡ body_at a h
    → body_at s h' ≡ body_at s h
    → IsElement h a s
    → IsElement h' a s × (content_at a h' ≡ content_at a h)
same-IsElement h h' a s same_a same_s (num, text, at_a, at_s) = (
  (num, text, same_a ∙ at_a, same_s ∙ at_s),
  content_at-some h' a s num text (same_a ∙ at_a) (same_s ∙ at_s)
      ∙ sym (content_at-some h a s num text at_a at_s),
)

pub keep_element-Owned :
    (a : ℕ) {h : Heap} {refs : List ℕ}
    → Owned h refs
    → 0 < count a refs
    → (h' : Heap) × (keep_element a h ≡ some h')
      × Owned h' (a ∷ refs)
      × ((x : ℕ) → content_at x h' ≡ content_at x h)
unfolding keep_element
keep_element-Owned a {h} {refs} o p =
    let vals = map o.value refs in
    let (num, text, at_a, at_s) = o.shaped a p in
    let (h1, kept, c1, same1) =
      rc_keep_ref-Counts a o.counts (ground (arith, count-append a refs vals)) in
    let s = o.value a in
    let (h2, kept', c2, same2) =
      rc_keep_ref-Counts s c1
        (ground (arith, count-map o.value a refs p, count-append s refs vals)) in
    let same : (y : ℕ) → body_at y h2 ≡ body_at y h =
      λ y. body_at-body_of y h2 ∙ same2 y ∙ same1 y ∙ sym (body_at-body_of y h) in
    let same' : (y : ℕ) → body_at y h1 ≡ body_at y h =
      λ y. body_at-body_of y h1 ∙ same1 y ∙ sym (body_at-body_of y h) in
    (
      h2,
      rw (keep_element, kept, element_get_value-some h1 a s num (same' a ∙ at_a), kept'),
      record {
        value = o.value;
        counts =
            Counts-perm c2
              (λ x. ground (arith, count-append x refs vals, count-append x (a ∷ refs) (s ∷ vals)));
        shaped = λ x q.
            (same-IsElement h h2 x (o.value x) (same x) (same (o.value x))
              (o.shaped x (ground (arith, p)))).0;
      },
      λ x. content_at-same x h h2 same,
    )

pub element_delete-Owned :
    (a : ℕ) {h : Heap} {refs : List ℕ}
    → Owned h (a ∷ refs)
    → (h' : Heap) × (element_delete a h ≡ some h')
      × Owned h' refs
      × ((x : ℕ) → 0 < count x refs → content_at x h' ≡ content_at x h)
unfolding element_delete
element_delete-Owned a {h} {refs} o =
    let vals = map o.value refs in
    let s = o.value a in
    let (num, text, at_a, at_s) = o.shaped a (ground arith) in
    let c0 = Counts-perm {refs' = s ∷ a ∷ refs ++ vals} o.counts (λ x. ground (
      arith,
      count-append x refs vals,
      count-append x (a ∷ refs) (s ∷ vals),
      count-append x refs (s ∷ vals),
    )) in
    let (h1, freed, c1, same1) = rc_free_ref-Counts s c0 in
    let (h2, freed', c2, same2) = rc_free_ref-Counts a c1 in
    let same : (y : ℕ) → 0 < count y (refs ++ vals) → body_at y h2 ≡ body_at y h =
      λ y p. ground (arith, body_at-body_of y h2, same2 y p, same1 y, body_at-body_of y h) in
    let right : (x : ℕ)
        → 0 < count x refs
        → IsElement h2 x (o.value x) × (content_at x h2 ≡ content_at x h) =
      λ x p.
        same-IsElement h h2 x (o.value x) (same x (ground (arith, count-append x refs vals)))
          (same (o.value x)
            (ground (arith, count-append (o.value x) refs vals, count-map o.value x refs p)))
          (o.shaped x (ground arith)) in
    (
      h2,
      rw (element_delete, element_get_value-some h a s num at_a, freed, freed'),
      record { value = o.value; counts = c2; shaped = λ x p. (right x p).0 },
      λ x p. (right x p).1,
    )

pub Owned-perm :
    {h : Heap} {refs refs' : List ℕ}
    → Owned h refs
    → ((a : ℕ) → count a refs ≡ count a refs')
    → Owned h refs'
Owned-perm {refs} {refs'} o same = record {
  value = o.value;
  counts = Counts-perm o.counts (λ x. ground (
    arith,
    same x,
    count-map-same o.value refs refs' same x,
    count-append x refs (map o.value refs),
    count-append x refs' (map o.value refs'),
  ));
  shaped = λ x p. o.shaped x (ground (arith, same x));
}

abbrev pub elements_owned : Ownership keep_element element_delete content_at
elements_owned = record {
  Owns = Owned;
  owned_content = λ {h} o a p.
      let (num, text, at_a, at_s) = o.shaped a p in
      ((num, text), content_at-some h a (o.value a) num text at_a at_s);
  same_counts = λ o same. Owned-perm o same;
  keep_owned = λ a o p. keep_element-Owned a o p;
  release_owned = λ a o. element_delete-Owned a o;
}

-- Two new allocations that make up an element, beside the others.
added-Owned :
    (h h' : Heap) (e s num : ℕ) (text refs : List ℕ) (o : Owned h refs)
    → Counts h' (s ∷ e ∷ refs ++ map o.value refs)
    → ((y : ℕ) → 0 < count y (refs ++ map o.value refs) → (y ≢ e) × (body_at y h' ≡ body_at y h))
    → body_at e h' ≡ some (element num s)
    → body_at s h' ≡ some (chars text)
    → Owned h' (e ∷ refs)
      × (content_at e h' ≡ some (num, text))
      × ((x : ℕ) → 0 < count x refs → content_at x h' ≡ content_at x h)
added-Owned h h' e s num text refs o c old at_e at_s =
    let vals = map o.value refs in
    let new : count e refs ≡ 0 = ground (arith, old e, count-append e refs vals) in
    let kept : (x : ℕ)
        → 0 < count x refs
        → IsElement h' x (o.value x) × (content_at x h' ≡ content_at x h) =
      λ x p.
        same-IsElement h h' x (o.value x) (old x (ground (arith, count-append x refs vals))).1
          (old (o.value x)
            (ground (arith, count-append (o.value x) refs vals, count-map o.value x refs p))).1
          (o.shaped x p) in
    (
      record {
        value = update o.value e s;
        counts = Counts-perm c (λ x. ground (
          arith,
          new,
          count-append x refs vals,
          count-append x refs (s ∷ map (update o.value e s) refs),
          count-map-update e s x o.value refs new,
        ));
        shaped = λ x p. elim (ℕ_discrete e x) [
          | yes same ↦
              subst (λ y. IsElement h' y (update o.value e s y)) same
                (subst (λ t. IsElement h' e t) (sym (update_self o.value e s))
                  (num, text, at_e, at_s))
          | no other ↦
              subst (λ t. IsElement h' x t) (sym (update-ne o.value e x s other))
                (kept x (ground arith)).0
        ];
      },
      content_at-some h' e s num text at_e at_s,
      λ x p. (kept x p).1,
    )

-- A new element has one reference, and so has its text.
pub element_new-Owned :
    (num : ℕ) (text : List ℕ) {h : Heap} {refs : List ℕ}
    → Owned h refs
    → (e : ℕ) × (h' : Heap) × (element_new num text h ≡ some (e, h'))
      × Owned h' (e ∷ refs)
      × (content_at e h' ≡ some (num, text))
      × ((x : ℕ) → 0 < count x refs → content_at x h' ≡ content_at x h)
unfolding element_new rc_strdup
element_new-Owned num text {h} {refs} o =
    let vals = map o.value refs in
    let (e, h1) = rc_malloc (element num 0) h in
    let (s, h2) = rc_malloc (chars text) h1 in
    let c1 = rc_malloc-Counts (element num 0) o.counts in
    let (h3, written, c3, bodies) =
      set_body-Counts e (element num s) (rc_malloc-Counts (chars text) c1) (ground arith) in
    let first : e ≡ h.fresh = rc_malloc-fresh (element num 0) h in
    let second : s ≡ h1.fresh = rc_malloc-fresh (chars text) h1 in
    let before : e < s = omega (arith, second, used-below c1 e (ground arith)) in
    let old : (y : ℕ) → 0 < count y (refs ++ vals) → (y < s) × (y < e) = λ y p. (
      omega (arith, second, used-below c1 y (ground arith)),
      omega (arith, first, used-below o.counts y p),
    ) in
    let body : (y : ℕ) → y < s → y < e → body_at y h3 ≡ body_at y h = λ y d d'. ground (
      arith,
      body_at-body_of y h3,
      body_at-body_of y h,
      bodies y,
      rc_malloc-body (chars text) h1 y,
      rc_malloc-body (element num 0) h y,
    ) in
    let (owned, new, others) =
      added-Owned h h3 e s num text refs o c3
        (λ y p. (omega (arith, old y p), body y (old y p).0 (old y p).1))
        (ground (arith, body_at-body_of e h3, bodies e))
        (ground
          (arith, body_at-body_of s h3, bodies s, rc_malloc-body (chars text) h1 s, before)) in
    (e, h3, rw (element_new, written), owned, new, others)
