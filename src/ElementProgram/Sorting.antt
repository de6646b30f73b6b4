-- ===== src/ElementProgram/Sorting.antt =====
-- The program a7/q3/sortmain.c: it prints the elements in order, and frees them.
use Prim.Native.Nat.{Ordering}
use mathlib.Core.Logic.{∥∥₁_elim}
use mathlib.Core.HLevel.{hedberg}
use mathlib.Core.Bool.{Bool-set}
use mathlib.Core.List.{Perm, Permᴰ, Pairwise, Pairwise-map, append-nil}
use mathlib.Core.List.Perm
use cs213_assignments.Common.{
  ℕ, ◌<◌, ◌≡◌, refl, ◌∙◌, ap, ap₂, subst, true, false, Option, none, some, List, [], ℕ_discrete,
  ◌∷◌, map, arith,
}
use cs213_assignments.Common.Int.{ℤ, pos, IsOrder}
use cs213_assignments.RefCount.Counts.{count}
use cs213_assignments.Elements.{Element, int_element, Heap, element_at, compare}
use cs213_assignments.Elements.Order.{compare-IsOrder}
use cs213_assignments.Elements.Owned.{Owned, Owned-perm, rc_free_ref-Owned, element_at-some}
use cs213_assignments.ElementTree.{is_le}
use cs213_assignments.ElementProgram.{
  no_elements, comparator, fill_array, print_and_free, sort_main,
}
use cs213_assignments.ElementProgram.Owned.{no_elements-Owned, Owned-free}
use cs213_assignments.ElementProgram.Parsing.{parsed, Contents, Contents-same, fill_array-Owned}

-- What `qsort` promises: if its comparison does not fail on the elements of the array, and compares
-- something that they have by an order, then the result is a permutation in ascending order.
abbrev pub Sorts : ((ℕ → ℕ → Option Ordering) → List ℕ → Option (List ℕ)) → Type 1
Sorts qsort =
    (K : Type 0) (ord : K → K → Ordering) (key : ℕ → K) (cmp : ℕ → ℕ → Option Ordering)
    (xs : List ℕ)
    → IsOrder ord
    → ((a b : ℕ) → 0 < count a xs → 0 < count b xs → cmp a b ≡ some (ord (key a) (key b)))
    → (ys : List ℕ) × (qsort cmp xs ≡ some ys)
      × Perm xs ys
      × Pairwise (λ a b. is_le (ord (key a) (key b)) ≡ true) ys

Permᴰ-count : (x : ℕ) {xs ys : List ℕ} → Permᴰ xs ys → count x xs ≡ count x ys
Permᴰ-count x Permᴰ.nil = refl
Permᴰ-count x (Permᴰ.cons e p) = ground (arith, e, Permᴰ-count x p)
Permᴰ-count x (Permᴰ.swap e f) = ground (arith, e, f)
Permᴰ-count x (Permᴰ.trans p q) = Permᴰ-count x p ∙ Permᴰ-count x q

pub perm-count : (x : ℕ) {xs ys : List ℕ} → Perm xs ys → count x xs ≡ count x ys
perm-count x {xs} {ys} p =
    ∥∥₁_elim p (hedberg ℕ_discrete (count x xs) (count x ys)) (λ d. Permᴰ-count x d)

-- What an element is, or 0 where there is none.
key_at : Heap → ℕ → Element
key_at h a = elim (element_at a h) [ none ↦ int_element (pos 0) | some v ↦ v ]

Contents-key_at :
    (h : Heap) (es : List ℕ) (vs : List Element) → Contents h es vs → map (key_at h) es ≡ vs
unfolding key_at
Contents-key_at h [] [] c = refl
Contents-key_at h [] (v ∷ vs) c = absurd c
Contents-key_at h (e ∷ es) [] c = absurd c
Contents-key_at h (e ∷ es) (v ∷ vs) c = ap₂ ◌∷◌ (rw (key_at, c.0)) (Contents-key_at h es vs c.1)

Owned-Contents :
    (es : List ℕ) {h : Heap} {refs : List ℕ}
    → Owned h refs
    → ((x : ℕ) → 0 < count x es → 0 < count x refs)
    → Contents h es (map (key_at h) es)
unfolding key_at
Owned-Contents [] o in_refs = tt
Owned-Contents (e ∷ es) {h} o in_refs =
    let (v, here) = element_at-some o e (in_refs e (ground arith)) in
    (rw (key_at, here), Owned-Contents es o (λ x p. in_refs x (ground arith)))

comparator-key_at :
    (strcmp : List ℕ → List ℕ → Ordering) {h : Heap} {refs : List ℕ}
    → Owned h refs
    → (a b : ℕ) → 0 < count a refs
    → 0 < count b refs
    → comparator strcmp h a b ≡ some (compare strcmp (key_at h a) (key_at h b))
unfolding comparator key_at
comparator-key_at strcmp o a b p q =
    let (v, at_a) = element_at-some o a p in
    let (w, at_b) = element_at-some o b q in rw (comparator, key_at, at_a, at_b)

print_and_free-Owned :
    (es : List ℕ) (vs : List Element) {h : Heap}
    → Owned h es
    → Contents h es vs
    → (h' : Heap) × (print_and_free es h ≡ some (vs, h')) × Owned h' []
unfolding print_and_free
print_and_free-Owned [] [] {h} o c = (h, refl, o)
print_and_free-Owned [] (v ∷ vs) o c = absurd c
print_and_free-Owned (e ∷ es) [] o c = absurd c
print_and_free-Owned (e ∷ es) (v ∷ vs) {h} o c =
    let (h1, freed, o1, same) = rc_free_ref-Owned e o in
    let (h2, rest, o2) = print_and_free-Owned es vs o1 (Contents-same h h1 es vs same c.1) in
    (h2, rw (print_and_free, c.0, freed, rest), o2)

-- The program prints what its arguments mean in ascending order, each as often as it is given, and
-- frees every element and every copy of a text, without a failing read. What is asked is that `strcmp`
-- is an order and that `qsort` sorts.
pub sort_main-Sorts :
    (strcmp : List ℕ → List ℕ → Ordering) (strtol : List ℕ → ℤ × List ℕ)
    (qsort : (ℕ → ℕ → Option Ordering) → List ℕ → Option (List ℕ)) (args : List (List ℕ))
    → IsOrder strcmp
    → Sorts qsort
    → (printed : List Element) × (h : Heap) × (sort_main strcmp strtol qsort args no_elements
        ≡ some (printed, h))
      × Perm (map (parsed strtol) args) printed
      × Pairwise (λ v w. is_le (compare strcmp v w) ≡ true) printed
      × ((a : ℕ) → h.blocks.block a ≡ none)
      × ((a : ℕ) → h.copied a ≡ false)
unfolding sort_main
sort_main-Sorts strcmp strtol qsort args order sorts =
    let es = (fill_array strtol args no_elements).0 in
    let h1 = (fill_array strtol args no_elements).1 in
    let (o, c, _) = fill_array-Owned strtol args no_elements-Owned in
    let o1 = Owned-perm o (λ a. ap (count a) (append-nil es)) in
    let (ys, sorted, perm, ascending) =
      sorts Element (compare strcmp) (key_at h1) (comparator strcmp h1) es
        (compare-IsOrder strcmp order) (comparator-key_at strcmp o1) in
    let o2 = Owned-perm o1 (λ a. perm-count a perm) in
    let (h2, finished, o3) =
      print_and_free-Owned ys (map (key_at h1) ys) o2 (Owned-Contents ys o2 (λ x p. p)) in
    (
      map (key_at h1) ys,
      h2,
      rw (sorted, finished),
      subst (λ vs. Perm vs (map (key_at h1) ys))
          (Contents-key_at h1 es (map (parsed strtol) args) c) (Perm.map (key_at h1) perm),
      (Pairwise-map {R = λ v w. is_le (compare strcmp v w) ≡ true} (λ v w. Bool-set _ _)
            (key_at h1)).1
          ascending,
      (Owned-free o3).0,
      (Owned-free o3).1,
    )
