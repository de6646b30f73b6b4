-- ===== src/Sorting/Printed.antt =====
-- What the program of a3/bubble_sort_dynamic.c prints.
use cs213_assignments.Common.{
  ◌>>=◌, Bool-cases, ltb, ltb→lt, inr, ◌≤◌, zero, suc, lt→ltb, some, ℕ, ◌+◌, ◌<◌, ◌≡◌, ◌∙◌, refl,
  Bool, arith, update, update_self, inl, List, [], ◌∷◌, length, ap,
}
use cs213_assignments.Common.Int.{ℤ}
use cs213_assignments.Sorting.Inside.{sort-inside}
use cs213_assignments.Sorting.{
  values, outside, bad_access, print_sorted, printed, Read, read_from, listed, main, numbers,
}
use cs213_assignments.Sorting.Passes.{sorted, IsOrdered, sorted-IsOrdered}
use cs213_assignments.Sorting.Kept.{count, count-sorted}

module _ (strtol : List ℕ → ℤ × List ℕ) where
  -- Nothing follows the number in any argument.
  abbrev pub AllNumbers : List (List ℕ) → Type 0
  AllNumbers [] = Unit {0}
  AllNumbers (arg ∷ args) = ((strtol arg).1 ≡ []) × AllNumbers args

  abbrev pub numbers_in : List (List ℕ) → List ℤ
  numbers_in [] = []
  numbers_in (arg ∷ args) = (strtol arg).0 ∷ numbers_in args

  -- The values from `i` on.
  abbrev pub values_from : ℕ → ℕ → (ℕ → ℤ) → List ℤ
  values_from i zero val = []
  values_from i (suc n) val = val i ∷ values_from (i + 1) n val

  module _ (size : ℕ) where
    read_from-numbers :
        (i : ℕ) (args : List (List ℕ)) (memory : ℕ → ℤ)
        → AllNumbers args
        → i + length args ≤ size
        → (val : ℕ → ℤ) × (read_from size strtol i args memory ≡ values val)
          × (values_from i (length args) val ≡ numbers_in args)
          × ((k : ℕ) → k < i → val k ≡ memory k)
    unfolding read_from
    read_from-numbers i [] memory ok room = (memory, refl, refl, λ k low. refl)
    read_from-numbers i (arg ∷ args) memory (nothing, ok) room =
        let (val, done, same, kept) =
          read_from-numbers (i + 1) args (update memory i ((strtol arg).0)) ok (omega arith) in
        (
          val,
          rw (lt→ltb i size (omega arith), nothing) done,
          rw (kept i (omega arith) ∙ update_self memory i ((strtol arg).0))
              (ap (λ vs. (strtol arg).0 ∷ vs) same),
          λ k low. ground (arith, kept k),
        )

    listed-inside :
        (i n : ℕ) (val : ℕ → ℤ) → i + n ≤ size → listed size i n val ≡ some (values_from i n val)
    unfolding listed
    listed-inside i zero val room = refl
    listed-inside i (suc n) val room =
        rw (lt→ltb i size (omega arith), listed-inside (i + 1) n val (omega arith)) refl

    read_from-outside :
        (i : ℕ) (args : List (List ℕ)) (memory : ℕ → ℤ)
        → AllNumbers args
        → i ≤ size
        → size < i + length args
        → read_from size strtol i args memory ≡ outside
    unfolding read_from
    read_from-outside i [] memory ok low small = absurd (omega arith)
    read_from-outside i (arg ∷ args) memory (nothing, ok) low small =
        elim (Bool-cases (ltb i size)) [
          | inl here ↦
              rw (here, nothing)
                (read_from-outside (i + 1) args (update memory i ((strtol arg).0)) ok
                  (omega (arith, ltb→lt i size here)) (omega arith))
          | inr there ↦ rw there refl
        ]

    print-inside :
        (n : ℕ) (val : ℕ → ℤ)
        → n ≤ size
        → print_sorted size n (values val) ≡ numbers (values_from 0 n (sorted n val))
    unfolding print_sorted
    print-inside n val room =
        ap (λ r. printed size (do val ← r; listed size 0 n val)) (sort-inside size n val room)
        ∙ ap (printed size) (listed-inside 0 n (sorted n val) (omega arith))

    main_eq :
        (memory : ℕ → ℤ) (args : List (List ℕ)) (r : Read)
        → read_from size strtol 0 args memory ≡ r
        → main size strtol memory args ≡ print_sorted size (length args) r
    unfolding main
    main_eq memory args r e = ap (print_sorted size (length args)) e

    -- If all arguments are numbers and malloc has given room for them, the program prints as many
    -- numbers, in order, and each as often as it stands among the arguments. With less room it
    -- accesses an element outside the array.
    pub main-sorts :
        (memory : ℕ → ℤ) (args : List (List ℕ))
        → AllNumbers args
        → (length args ≤ size
            → (val sorted : ℕ → ℤ) × (values_from 0 (length args) val ≡ numbers_in args)
              × (main size strtol memory args ≡ numbers (values_from 0 (length args) sorted))
              × IsOrdered 0 (length args) sorted
              × ((test : ℤ → Bool)
                  → count test (length args) sorted ≡ count test (length args) val))
          × (size < length args → main size strtol memory args ≡ bad_access)
    unfolding print_sorted
    main-sorts memory args ok = (
      λ room.
          let (val, done, same, kept) = read_from-numbers 0 args memory ok (omega arith) in
          (
            val,
            sorted (length args) val,
            same,
            main_eq memory args (values val) done ∙ print-inside (length args) val room,
            sorted-IsOrdered (length args) val,
            λ test. count-sorted test (length args) val,
          ),
      λ small.
          main_eq memory args outside
            (read_from-outside 0 args memory ok (omega arith) (omega arith)),
    )
