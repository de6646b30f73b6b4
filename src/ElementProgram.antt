-- ===== src/ElementProgram.antt =====
-- The programs a7/q3/main.c and a7/q3/sortmain.c. `strcmp`, `strtol` and `qsort` are parameters. The
-- arguments are those behind the program's name.
pub mod Parsing
pub mod Owned
pub mod Sorting
pub mod InsertionSort
pub mod Tests
use Prim.Native.Nat.{Ordering}
use cs213_assignments.Common.{ℕ, Bool, false, Option, none, some, List, [], ◌∷◌, ◌++◌, ◌>>=◌}
use cs213_assignments.Common.Int.{ℤ, pos}
use cs213_assignments.Elements.{
  Element, int_element, str_element, Heap, rc_keep_ref, rc_free_ref, int_element_new,
  str_element_new, element_at, compare, parse_string,
}
use cs213_assignments.ElementList.{ElementList, list_new, list_add_element}
use cs213_assignments.ElementTree.{Tree, Line, tree_new, tree_ordered_print}
use cs213_assignments.ListAndTree.{for_nodes, insert_included, delete_and_print}

-- The heap before the first allocation.
pub no_elements : Heap
no_elements = record { blocks = record { block = λ a. none; fresh = 0 }; copied = λ a. false }

-- The element is printed, and deleted.
pub test_int : Heap → Option (Element × Heap)
test_int h = do
  let (e, h) = int_element_new (pos 42) h
  shown ← element_at e h
  h ← rc_free_ref e h
  some (shown, h)

pub test_str : List ℕ → Heap → Option (Element × Heap)
test_str greeting h = do
  let (e, h) = str_element_new greeting h
  shown ← element_at e h
  h ← rc_free_ref e h
  some (shown, h)

module _ (strtol : List ℕ → ℤ × List ℕ) where
  pub read_arguments : List (List ℕ) → ElementList → Heap → Option (ElementList × Heap)
  read_arguments [] l h = some (l, h)
  read_arguments (arg ∷ args) l h = do
    let (e, h) = parse_string strtol arg h
    (n, l, h) ← list_add_element rc_keep_ref rc_free_ref e l h
    h ← rc_free_ref e h
    read_arguments args l h

-- The bodies of the loops that print only integers and only strings; `out` is what has been printed.
pub print_int : Heap → ℕ → List ℤ → Option (List ℤ)
print_int h e out = do
  v ← element_at e h
  some (elim v [ int_element i ↦ out ++ i ∷ [] | str_element s ↦ out ])

pub print_str : Heap → ℕ → List (List ℕ) → Option (List (List ℕ))
print_str h e out = do
  v ← element_at e h
  some (elim v [ int_element i ↦ out | str_element s ↦ out ++ s ∷ [] ])

-- What is printed, and what is left of the list and of the elements.
pub record Finished : Type 0 where
  pub before : List (Line Element)
  pub ints : List ℤ
  pub strings : List (List ℕ)
  pub after : List (Line Element)
  pub list : ElementList
  pub heap : Heap

module _ {C : Type 0} (strcmp : List ℕ → List ℕ → Ordering) (strtol : List ℕ → ℤ × List ℕ)
    (include : C → C × Bool) where
  -- `greeting` is the text of `test_str`. All walks over the list have the same fuel.
  pub main : ℕ → List ℕ → List (List ℕ) → C → Heap → Option Finished
  main fuel greeting args calls h = do
    (shown, h) ← test_int h
    (shown, h) ← test_str greeting h
    (l, h) ← read_arguments strtol args list_new h
    (calls, t, h) ←
        for_nodes fuel l.head l
          (insert_included element_at (compare strcmp) rc_keep_ref rc_free_ref include)
          (calls, tree_new, h)
    before ← tree_ordered_print element_at t h
    ints ← for_nodes fuel l.head l (print_int h) []
    strings ← for_nodes fuel l.head l (print_str h) []
    (after, l, h) ←
        delete_and_print element_at (compare strcmp) rc_keep_ref rc_free_ref rc_keep_ref fuel l t h
    some (record {
      before = before;
      ints = ints;
      strings = strings;
      after = after;
      list = l;
      heap = h;
    })

-- `(*pe)->class->compare (*pe, *qe)`, of the elements that two cells of the array point to.
pub comparator : (List ℕ → List ℕ → Ordering) → Heap → ℕ → ℕ → Option Ordering
comparator strcmp h p q = do v ← element_at p h; w ← element_at q h; some (compare strcmp v w)

module _ (strtol : List ℕ → ℤ × List ℕ) where
  -- The array of the elements.
  pub fill_array : List (List ℕ) → Heap → List ℕ × Heap
  fill_array [] h = ([], h)
  fill_array (arg ∷ args) h =
      let (e, h) = parse_string strtol arg h in let (es, h) = fill_array args h in (e ∷ es, h)

-- The last loop: each element is printed and deleted.
pub print_and_free : List ℕ → Heap → Option (List Element × Heap)
print_and_free [] h = some ([], h)
print_and_free (e ∷ es) h = do
  v ← element_at e h
  h ← rc_free_ref e h
  (vs, h) ← print_and_free es h
  some (v ∷ vs, h)

-- `qsort` sorts the array by a comparison that can fail where an element cannot be read.
pub sort_main :
    (List ℕ → List ℕ → Ordering)
    → (List ℕ → ℤ × List ℕ)
    → ((ℕ → ℕ → Option Ordering) → List ℕ → Option (List ℕ))
    → List (List ℕ)
    → Heap
    → Option (List Element × Heap)
sort_main strcmp strtol qsort args h = do
  let (elem_list, h) = fill_array strtol args h
  elem_list ← qsort (comparator strcmp h) elem_list
  print_and_free elem_list h
