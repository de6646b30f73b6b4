-- ===== src/ElementProgram/Tests.antt =====
-- The programs of a7/q3 on the arguments "7", "b", "-" and "5".
use cs213_assignments.Common.{
  ℕ, true, false, ◌≡◌, refl, ◌++◌, List, [], ◌∷◌, none, some, map, arith,
}
use mathlib.Core.List.{Perm, Pairwise}
use cs213_assignments.Common.Int.{pos}
use cs213_assignments.Elements.{Element, int_element, str_element, Heap, compare}
use cs213_assignments.Elements.Owned.{Owned}
use cs213_assignments.ElementTree.{is_le, leaf}
use cs213_assignments.ListAndTree.{include_element}
use cs213_assignments.ListAndTree.Owned.{IsOwnedTree}
use cs213_assignments.ElementProgram.{no_elements, Finished, main, sort_main, fill_array}
use cs213_assignments.ElementProgram.Parsing.{parsed, fill_array-Owned}
use cs213_assignments.ElementProgram.Owned.{
  main-frees, ints_of, strings_of, elements_owned, no_elements-Owned,
}
use cs213_assignments.ElementProgram.Sorting.{sort_main-Sorts}
use cs213_assignments.ElementProgram.InsertionSort.{
  compare_texts, compare_texts-IsOrder, read_number, insertion_sort, insertion_sort-Sorts,
}

abbrev arguments : List (List ℕ)
arguments = (55 ∷ []) ∷ (98 ∷ []) ∷ (45 ∷ []) ∷ (53 ∷ []) ∷ []

parsed-arguments :
    map (parsed read_number) arguments
    ≡ int_element (pos 7) ∷ str_element (98 ∷ []) ∷ str_element (45 ∷ []) ∷ int_element (pos 5) ∷ []
parsed-arguments = refl

main-frees_example :
    (out : Finished) × (main compare_texts read_number include_element 5
        (72 ∷ 105 ∷ [])
        arguments
        0
        no_elements
      ≡ some out)
    × (out.after ≡ out.before)
    × (out.ints ≡ ints_of (map (parsed read_number) arguments))
    × (out.strings ≡ strings_of (map (parsed read_number) arguments))
    × ((a : ℕ) → out.list.node a ≡ none)
    × ((a : ℕ) → out.heap.blocks.block a ≡ none)
    × ((a : ℕ) → out.heap.copied a ≡ false)
main-frees_example =
    main-frees compare_texts read_number include_element 5 (72 ∷ 105 ∷ []) arguments 0 (omega arith)

sort_main-Sorts_example :
    (printed : List Element) × (h : Heap) × (sort_main compare_texts read_number insertion_sort
        arguments no_elements
      ≡ some (printed, h))
    × Perm (map (parsed read_number) arguments) printed
    × Pairwise (λ v w. is_le (compare compare_texts v w) ≡ true) printed
    × ((a : ℕ) → h.blocks.block a ≡ none)
    × ((a : ℕ) → h.copied a ≡ false)
sort_main-Sorts_example =
    sort_main-Sorts compare_texts read_number insertion_sort arguments compare_texts-IsOrder
      insertion_sort-Sorts

-- The elements of the arguments, in an array.
abbrev filled : List ℕ × Heap
filled = fill_array read_number arguments no_elements

filled-Owned : Owned filled.1 (filled.0 ++ [])
filled-Owned = (fill_array-Owned read_number arguments no_elements-Owned).0

leaf-IsOwnedTree_filled :
    IsOwnedTree elements_owned (compare compare_texts) leaf filled.1 (filled.0 ++ [])
leaf-IsOwnedTree_filled = record { owned = filled-Owned; sorted = tt }
