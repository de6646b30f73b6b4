-- ===== src/ElementProgram/Parsing.antt =====
-- Reading the arguments of a7/q3's programs: each becomes an element with one reference.
use cs213_assignments.Common.{
  ℕ, ◌+◌, ◌<◌, ◌≡◌, refl, sym, ap, ◌∙◌, subst, not, ◌&&◌, Bool, true, false, some, List, [], ◌∷◌,
  ◌++◌, map, length, length-append, arith, if◌then◌else◌,
}
use mathlib.Core.List.{append-nil, append_assoc}
use cs213_assignments.Common.Int.{ℤ}
use cs213_assignments.RefCount.Counts.{count, count-append}
use cs213_assignments.Elements.{
  Element, int_element, str_element, Heap, rc_keep_ref, rc_free_ref, element_at, int_element_new,
  str_element_new, is_empty, parse_string,
}
use cs213_assignments.Elements.Owned.{
  Owned, Owned-perm, rc_keep_ref-Owned, rc_free_ref-Owned, int_element_new-Owned,
  str_element_new-Owned, int_element_new-content, str_element_new-content,
}
use cs213_assignments.ElementList.{ElementList}
use cs213_assignments.ElementList.Laws.{IsList}
use cs213_assignments.ElementList.Whole.{list_add_element-IsList}
use cs213_assignments.ListAndTree.Walk.{elems, elems-append}
use cs213_assignments.ElementProgram.{read_arguments, fill_array}

-- What an argument means: a number if all of it is one, and a text otherwise.
abbrev pub parsed : (List ℕ → ℤ × List ℕ) → List ℕ → Element
parsed strtol str =
    let (value, endp) = strtol str in
    if not (is_empty str) && is_empty endp then int_element value else str_element str

-- The contents of elements at several addresses.
abbrev pub Contents : Heap → List ℕ → List Element → Type 0
Contents h [] [] = Unit {0}
Contents h [] (v ∷ vs) = ⊥
Contents h (e ∷ es) [] = ⊥
Contents h (e ∷ es) (v ∷ vs) = (element_at e h ≡ some v) × Contents h es vs

pub Contents-same :
    (h h' : Heap) (es : List ℕ) (vs : List Element)
    → ((x : ℕ) → 0 < count x es → element_at x h' ≡ element_at x h)
    → Contents h es vs
    → Contents h' es vs
Contents-same h h' [] [] same c = tt
Contents-same h h' [] (v ∷ vs) same c = absurd c
Contents-same h h' (e ∷ es) [] same c = absurd c
Contents-same h h' (e ∷ es) (v ∷ vs) same c =
    (same e (ground arith) ∙ c.0, Contents-same h h' es vs (λ x i. same x (ground arith)) c.1)

Contents-append :
    (h : Heap) (es : List ℕ) (vs : List Element) (fs : List ℕ) (ws : List Element)
    → Contents h es vs
    → Contents h fs ws
    → Contents h (es ++ fs) (vs ++ ws)
Contents-append h [] [] fs ws c d = d
Contents-append h [] (v ∷ vs) fs ws c d = absurd c
Contents-append h (e ∷ es) [] fs ws c d = absurd c
Contents-append h (e ∷ es) (v ∷ vs) fs ws c d = (c.0, Contents-append h es vs fs ws c.1 d)

module _ (strtol : List ℕ → ℤ × List ℕ) where
  -- The new element has one reference and is what the argument means; the others are as before.
  pub parse_string-Owned :
      (str : List ℕ) {h : Heap} {refs : List ℕ}
      → Owned h refs
      → Owned (parse_string strtol str h).1 ((parse_string strtol str h).0 ∷ refs)
        × (element_at (parse_string strtol str h).0 (parse_string strtol str h).1
            ≡ some (parsed strtol str))
        × ((x : ℕ) → 0 < count x refs → element_at x (parse_string strtol str h).1 ≡ element_at x h)
  unfolding parse_string
  parse_string-Owned str {h} {refs} o = by_test (not (is_empty str) && is_empty (strtol str).1)
    where
      Right : ℕ × Heap → Element → Type 0
      Right got v =
          Owned got.1 (got.0 ∷ refs)
          × (element_at got.0 got.1 ≡ some v)
          × ((x : ℕ) → 0 < count x refs → element_at x got.1 ≡ element_at x h)

      by_test :
          (numeric : Bool)
          → Right
              (if numeric then int_element_new (strtol str).0 h else str_element_new str h)
              (if numeric then int_element (strtol str).0 else str_element str)
      by_test true = (
        int_element_new-Owned (strtol str).0 o,
        (int_element_new-content (strtol str).0 o).0,
        (int_element_new-content (strtol str).0 o).1,
      )
      by_test false = (
        str_element_new-Owned str o,
        (str_element_new-content str o).0,
        (str_element_new-content str o).1,
      )

  count-elems-snoc :
      (n e x : ℕ) (xs : List (ℕ × ℕ)) → count x (e ∷ elems xs) ≡ count x (elems (xs ++ (n, e) ∷ []))
  count-elems-snoc n e x xs =
      ground
        (arith, ap (count x) (elems-append xs ((n, e) ∷ [])), count-append x (elems xs) (e ∷ []))

  -- Reading the arguments never fails; the list gets the one reference to each new element, in order.
  pub read_arguments-Owned :
      (args : List (List ℕ)) {l : ElementList} {xs : List (ℕ × ℕ)} {h : Heap} (vs : List Element)
      → IsList l xs
      → Owned h (elems xs)
      → Contents h (elems xs) vs
      → (l' : ElementList) × (h' : Heap) × (xs' : List (ℕ × ℕ)) × (read_arguments strtol args l h
          ≡ some (l', h'))
        × IsList l' xs'
        × Owned h' (elems xs')
        × Contents h' (elems xs') (vs ++ map (parsed strtol) args)
        × (length xs' ≡ length xs + length args)
  unfolding read_arguments
  read_arguments-Owned [] {l} {xs} {h} vs i o c =
      (l, h, xs, refl, i, o, subst (Contents h (elems xs)) (sym (append-nil vs)) c, omega arith)
  read_arguments-Owned (arg ∷ args) {l} {xs} {h} vs i o c =
      let (o1, new, same1) = parse_string-Owned arg o in
      let e = (parse_string strtol arg h).0 in
      let (h2, kept, o2, same2) = rc_keep_ref-Owned e o1 (ground arith) in
      let (l2, added, i2) = list_add_element-IsList rc_keep_ref rc_free_ref e i kept in
      let (h3, freed, o3, same3) = rc_free_ref-Owned e o2 in
      let all : Contents h3 (elems (xs ++ (l.fresh, e) ∷ [])) (vs ++ parsed strtol arg ∷ []) =
        subst (λ es. Contents h3 es (vs ++ parsed strtol arg ∷ []))
          (sym (elems-append xs ((l.fresh, e) ∷ [])))
          (Contents-append h3 (elems xs) vs (e ∷ []) (parsed strtol arg ∷ [])
            (Contents-same h h3 (elems xs) vs (λ x p. same3 x (ground arith) ∙ same2 x ∙ same1 x p)
              c)
            (same3 e (ground arith) ∙ same2 e ∙ new, tt)) in
      let (l', h', xs', rest, i', o', c', len) =
        read_arguments-Owned args (vs ++ parsed strtol arg ∷ []) i2
          (Owned-perm o3 (λ x. count-elems-snoc l.fresh e x xs)) all in
      (
        l',
        h',
        xs',
        rw (read_arguments, added, freed, rest),
        i',
        o',
        subst (Contents h' (elems xs'))
            (append_assoc vs (parsed strtol arg ∷ []) (map (parsed strtol) args)) c',
        ground (arith, len, length-append xs ((l.fresh, e) ∷ [])),
      )

  -- The array gets the one reference to each new element, in order.
  pub fill_array-Owned :
      (args : List (List ℕ)) {h : Heap} {refs : List ℕ}
      → Owned h refs
      → Owned (fill_array strtol args h).1 ((fill_array strtol args h).0 ++ refs)
        × Contents
            (fill_array strtol args h).1
            (fill_array strtol args h).0
            (map (parsed strtol) args)
        × ((x : ℕ) → 0 < count x refs → element_at x (fill_array strtol args h).1 ≡ element_at x h)
  unfolding fill_array
  fill_array-Owned [] o = (o, tt, λ x p. refl)
  fill_array-Owned (arg ∷ args) {h} {refs} o =
      let (o1, new, same1) = parse_string-Owned arg o in
      let e = (parse_string strtol arg h).0 in
      let (o2, c, same2) = fill_array-Owned args o1 in
      let es = (fill_array strtol args (parse_string strtol arg h).1).0 in
      (
        Owned-perm o2 (λ x. ground (arith, count-append x es (e ∷ refs), count-append x es refs)),
        (same2 e (ground arith) ∙ new, c),
        λ x p. same2 x (ground arith) ∙ same1 x p,
      )
