-- ===== src/NumberedElements/Tests.antt =====
-- The program a5/q3/main.c on the arguments "b", "a" and "b".
use cs213_assignments.Common.{ℕ, ◌≡◌, [], ◌∷◌, none, some, arith}
use cs213_assignments.ListAndTree.{include_element}
use cs213_assignments.ElementProgram.InsertionSort.{compare_texts}
use cs213_assignments.NumberedElements.Program.{no_elements, Finished, main, main-Finished}

main-Finished_example :
    (out : Finished) × (main compare_texts include_element 4
        ((98 ∷ []) ∷ (97 ∷ []) ∷ (98 ∷ []) ∷ [])
        0
        no_elements
      ≡ some out)
    × (out.after ≡ out.before)
    × ((a : ℕ) → out.list.node a ≡ none)
    × ((a : ℕ) → out.heap.block a ≡ none)
main-Finished_example =
    main-Finished compare_texts include_element 4 ((98 ∷ []) ∷ (97 ∷ []) ∷ (98 ∷ []) ∷ []) 0
      (omega arith)
