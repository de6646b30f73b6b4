-- ===== src/ElementProgram/InsertionSort.antt =====
-- A function that keeps the promise of `qsort`, an order of texts in place of `strcmp`, and a function
-- in place of `strtol`, for the tests.
use Prim.Native.Nat.{Ordering, compare}
use Prim.Native.Nat.Ordering.{lt, eq, gt}
use mathlib.Core.Bool.{Bool-set}
use mathlib.Core.List.{Perm, Pairwise, Mem, forall_mem-cons, not-mem-nil}
use mathlib.Core.List.Perm
use cs213_assignments.Common.{
  ℕ, ◌+◌, ◌-◌, ◌*◌, ◌<◌, ◌≡◌, ◌⊎◌, refl, sym, ap, subst, true, false, ◌&&◌, Bool-cases, inl, inr,
  Option, some, List, [], ◌∷◌, arith, ◌>>=◌, leb, if◌then◌else◌,
}
use cs213_assignments.Common.Int.{ℤ, pos, IsOrder}
use cs213_assignments.RefCount.Counts.{count}
use cs213_assignments.ElementTree.{is_le}
use cs213_assignments.ElementTree.Sorted.{is_above}
use cs213_assignments.ElementProgram.Sorting.{Sorts, perm-count}

abbrev pub compare_texts : List ℕ → List ℕ → Ordering
compare_texts [] [] = eq
compare_texts [] (d ∷ t) = lt
compare_texts (c ∷ s) [] = gt
compare_texts (c ∷ s) (d ∷ t) =
    let rest = compare_texts s t in elim (compare c d) [ lt ↦ lt | eq ↦ rest | gt ↦ gt ]

pub compare_texts-IsOrder : IsOrder compare_texts
compare_texts-IsOrder = record {
  equal_self = refl_of;
  equal_only = eq_of;
  turns = lt_of;
  chains = trans;
}
  where
    refl_of : (s : List ℕ) → compare_texts s s ≡ eq
    refl_of [] = refl
    refl_of (c ∷ s) = ground (arith, refl_of s)

    eq_of : (s t : List ℕ) → compare_texts s t ≡ eq → s ≡ t
    eq_of [] [] e = refl
    eq_of [] (d ∷ t) e = cc
    eq_of (c ∷ s) [] e = cc
    eq_of (c ∷ s) (d ∷ t) e = ground (arith, eq_of s t)

    lt_of : (s t : List ℕ) → compare_texts s t ≡ gt → compare_texts t s ≡ lt
    lt_of [] [] e = cc
    lt_of [] (d ∷ t) e = cc
    lt_of (c ∷ s) [] e = refl
    lt_of (c ∷ s) (d ∷ t) e = ground (arith, lt_of s t)

    trans :
        (s t u : List ℕ) → compare_texts s t ≡ lt → compare_texts t u ≡ lt → compare_texts s u ≡ lt
    trans [] [] u d e = cc
    trans [] (y ∷ t) [] d e = cc
    trans [] (y ∷ t) (z ∷ u) d e = refl
    trans (x ∷ s) [] u d e = cc
    trans (x ∷ s) (y ∷ t) [] d e = cc
    trans (x ∷ s) (y ∷ t) (z ∷ u) d e = ground (arith, trans s t u)

-- The number at the start of a text, and what is behind it.
abbrev read_digits : ℕ → List ℕ → ℕ × List ℕ
read_digits sofar [] = (sofar, [])
read_digits sofar (c ∷ s) =
    let rest = read_digits (10 * sofar + (c - 48)) s in
    if leb 48 c && leb c 57 then rest else (sofar, c ∷ s)

abbrev pub read_number : List ℕ → ℤ × List ℕ
read_number s = let (n, rest) = read_digits 0 s in (pos n, rest)

abbrev insert_sorted : (ℕ → ℕ → Option Ordering) → ℕ → List ℕ → Option (List ℕ)
insert_sorted cmp a [] = some (a ∷ [])
insert_sorted cmp a (b ∷ bs) = do
  o ← cmp a b
  cs ← insert_sorted cmp a bs
  some (if is_le o then a ∷ b ∷ bs else b ∷ cs)

abbrev pub insertion_sort : (ℕ → ℕ → Option Ordering) → List ℕ → Option (List ℕ)
insertion_sort cmp [] = some []
insertion_sort cmp (a ∷ xs) = do ys ← insertion_sort cmp xs; insert_sorted cmp a ys

Ordering-cases : (o : Ordering) → (o ≡ eq) ⊎ (o ≡ lt) ⊎ (o ≡ gt)
Ordering-cases eq = inl refl
Ordering-cases lt = inr (inl refl)
Ordering-cases gt = inr (inr refl)

module _ {K : Type 0} (ord : K → K → Ordering) (key : ℕ → K) (cmp : ℕ → ℕ → Option Ordering)
    (order : IsOrder ord) where
  abbrev Below : ℕ → ℕ → Type 0
  Below a b = is_le (ord (key a) (key b)) ≡ true

  Below-total : (a b : ℕ) → is_le (ord (key a) (key b)) ≡ false → Below b a
  Below-total a b above =
      ap is_le (order.turns (key a) (key b) (is_above (ord (key a) (key b)) above))

  Below-trans : (a b c : ℕ) → Below a b → Below b c → Below a c
  Below-trans a b c d e = elim (Ordering-cases (ord (key a) (key b))) [
    | inl same ↦
        subst (λ k. is_le (ord k (key c)) ≡ true) (sym (order.equal_only (key a) (key b) same)) e
    | inr (inl less) ↦ elim (Ordering-cases (ord (key b) (key c))) [
      | inl same ↦
          subst (λ k. is_le (ord (key a) k) ≡ true) (order.equal_only (key b) (key c) same) d
      | inr (inl less') ↦ ap is_le (order.chains (key a) (key b) (key c) less less')
      | inr (inr more) ↦ absurd (ground (arith, e, more))
    ]
    | inr (inr more) ↦ absurd (ground (arith, d, more))
  ]

  -- What is below the first of an ascending list is below all of it.
  Below-all :
      (a b : ℕ) (bs : List ℕ)
      → Below a b
      → Pairwise Below (b ∷ bs)
      → (x : ℕ) → Mem x (b ∷ bs)
      → Below a x
  Below-all a b bs d (Pairwise.cons rest p) =
      (forall_mem-cons (λ x. Bool-set _ _)).1 (d, λ x m. Below-trans a b x d (rest x m))

  insert_sorted-right :
      (a : ℕ) (bs : List ℕ)
      → ((b : ℕ) → 0 < count b bs → cmp a b ≡ some (ord (key a) (key b)))
      → Pairwise Below bs
      → (cs : List ℕ) × (insert_sorted cmp a bs ≡ some cs) × Perm (a ∷ bs) cs × Pairwise Below cs
  insert_sorted-right a [] compares p =
      (a ∷ [], refl, Perm.rfl, Pairwise.cons (λ x m. absurd (not-mem-nil m)) Pairwise.nil)
  insert_sorted-right a (b ∷ bs) compares (Pairwise.cons rest p) =
      let (cs, inserted, perm, ascending) =
        insert_sorted-right a bs (λ x i. compares x (ground arith)) p in
      elim (Bool-cases (is_le (ord (key a) (key b)))) [
        | inl below ↦ (
          a ∷ b ∷ bs,
          rw (compares b (ground arith), inserted, below),
          Perm.rfl,
          Pairwise.cons (Below-all a b bs below (Pairwise.cons rest p)) (Pairwise.cons rest p),
        )
        | inr above ↦ (
          b ∷ cs,
          rw (compares b (ground arith), inserted, above),
          Perm.trans (Perm.swap b a bs) (Perm.cons b perm),
          Pairwise.cons
              (λ x m.
                (forall_mem-cons (λ y. Bool-set _ _)).1 (Below-total a b above, rest) x
                  ((Perm.mem_iff perm).1 m))
              ascending,
        )
      ]

  insertion_sort-right :
      (xs : List ℕ)
      → ((a b : ℕ) → 0 < count a xs → 0 < count b xs → cmp a b ≡ some (ord (key a) (key b)))
      → (ys : List ℕ) × (insertion_sort cmp xs ≡ some ys) × Perm xs ys × Pairwise Below ys
  insertion_sort-right [] compares = ([], refl, Perm.rfl, Pairwise.nil)
  insertion_sort-right (a ∷ xs) compares =
      let (ys, sorted, perm, p) =
        insertion_sort-right xs (λ x y i j. compares x y (ground arith) (ground arith)) in
      let (zs, inserted, perm', p') =
        insert_sorted-right a ys
          (λ x i. compares a x (ground arith) (ground (arith, perm-count x perm))) p in
      (zs, rw (sorted, inserted), Perm.trans (Perm.cons a perm) perm', p')

pub insertion_sort-Sorts : Sorts insertion_sort
insertion_sort-Sorts K ord key cmp xs order compares =
    insertion_sort-right ord key cmp order xs compares
