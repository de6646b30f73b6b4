-- ===== src/BinaryTree/Tests.antt =====
-- The program a4/BinaryTree.c on three numbers.
use mathlib.Core.List.{Perm, Pairwise}
use cs213_assignments.Common.{◌≡◌, refl, [], ◌∷◌, map}
use cs213_assignments.Common.Int.{ℤ, pos, negsuc}
use cs213_assignments.BinaryTree.{
  main, create, insert, insert_below, insert_all, print_in_order, print_below,
}
use cs213_assignments.BinaryTree.Ascending.{AtMost, main-Pairwise}

abbrev same : ℤ → ℤ
same i = i

main_prints :
    main same (pos 3) (negsuc 4 ∷ pos 3 ∷ pos 1 ∷ []) ≡ negsuc 4 ∷ pos 1 ∷ pos 3 ∷ pos 3 ∷ []
unfolding main create insert insert_below insert_all print_in_order print_below
main_prints = refl

main-Pairwise_example :
    Pairwise AtMost (main same (pos 3) (negsuc 4 ∷ pos 3 ∷ pos 1 ∷ []))
    × Perm
        (map same (pos 3 ∷ negsuc 4 ∷ pos 3 ∷ pos 1 ∷ []))
        (main same (pos 3) (negsuc 4 ∷ pos 3 ∷ pos 1 ∷ []))
main-Pairwise_example = main-Pairwise same (pos 3) (negsuc 4 ∷ pos 3 ∷ pos 1 ∷ [])
