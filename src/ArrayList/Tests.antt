-- ===== src/ArrayList/Tests.antt =====
-- The theorems on the growing array of a8/q1/list.c at concrete lists.
use cs213_assignments.Common.{ℕ, ◌≡◌, ◌∷◌, ◌++◌, arith, get_elem?, take, drop}
use cs213_assignments.ArrayList.{ArrayList, IsValid, list_insert, list_remove, list_get}
use cs213_assignments.ArrayList.Cells.{contents}
use cs213_assignments.ArrayList.Edits.{Yields, list_insert-contents, list_remove-contents}
use cs213_assignments.ArrayList.Search.{list_get-contents}

-- A full list of ten elements, 0 to 9, and one with room, of the elements 0 and 1.
abbrev full : ArrayList ℕ
full = record { data_of = λ i. i; len = 10; size = 10 }

abbrev two : ArrayList ℕ
two = record { data_of = λ i. i; len = 2; size = 10 }

abbrev empty : ArrayList ℕ
empty = record { data_of = λ i. 77; len = 0; size = 10 }

full-IsValid : IsValid full
full-IsValid = omega arith

two-IsValid : IsValid two
two-IsValid = omega arith

empty-IsValid : IsValid empty
empty-IsValid = omega arith

list_insert-contents_example :
    Yields (list_insert 3 50 full) (take 3 (contents full) ++ 50 ∷ drop 3 (contents full))
list_insert-contents_example = list_insert-contents 3 50 full full-IsValid (omega arith)

list_get-contents_example : list_get 7 full ≡ get_elem? (contents full) 7
list_get-contents_example = list_get-contents 7 full full-IsValid (omega arith)

list_remove-contents_example :
    Yields (list_remove 3 full) (take 3 (contents full) ++ drop 4 (contents full))
list_remove-contents_example = list_remove-contents 3 full full-IsValid (omega arith)
