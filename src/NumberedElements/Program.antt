-- ===== src/NumberedElements/Program.antt =====
-- The program a5/q3/main.c: its definition, and that it never reads what has been freed and frees all
-- that it has allocated. The arguments are those behind the program's name.
use Prim.Native.Nat.{Ordering}
use cs213_assignments.Common.{
  ℕ, ◌+◌, ◌<◌, ◌≡◌, refl, ap, Bool, Option, none, some, List, [], ◌∷◌, length, length-append, arith,
  ◌>>=◌,
}
use cs213_assignments.RefCount.Counts.{Counts-none, count, count-append}
use cs213_assignments.ElementList.{ElementList, list_new}
use cs213_assignments.ElementList.Laws.{IsList, list_new-IsList}
use cs213_assignments.ElementList.Whole.{list_add_element-IsList}
use cs213_assignments.ElementTree.{Line, tree_new}
use cs213_assignments.ListAndTree.{for_nodes, insert_included, delete_and_print}
use cs213_assignments.ListAndTree.Walk.{elems, elems-append, for_nodes-each_of}
use cs213_assignments.ListAndTree.Owned.{
  IsOwnedTree, each_of-insert_included, delete_and_print-owned,
}
use cs213_assignments.NumberedElements.{
  Heap, element_new, element_delete, content_at, take_over, keep_element, compare_values,
  list_add_element, tree_ordered_print,
}
use cs213_assignments.NumberedElements.Owned.{Owned, Owned-perm, elements_owned, element_new-Owned}

-- The heap before the first allocation.
pub no_elements : Heap
no_elements = record { block = λ a. none; fresh = 0 }

-- The loop that fills the list, from the number `num` on.
pub add_arguments : ℕ → List (List ℕ) → ElementList → Heap → Option (ElementList × Heap)
add_arguments num [] l h = some (l, h)
add_arguments num (arg ∷ args) l h = do
  (e, h) ← element_new num arg h
  (n, l, h) ← list_add_element e l h
  add_arguments (num + 1) args l h

-- What is printed, and what is left of the list and of the elements.
pub record Finished : Type 0 where
  pub before : List (Line (ℕ × List ℕ))
  pub after : List (Line (ℕ × List ℕ))
  pub list : ElementList
  pub heap : Heap

-- All walks over the list have the same fuel.
pub main :
    {C : Type 0}
    → (List ℕ → List ℕ → Ordering)
    → (C → C × Bool)
    → ℕ
    → List (List ℕ)
    → C
    → Heap
    → Option Finished
main strcmp include fuel args calls h = do
  (l, h) ← add_arguments 1 args list_new h
  (calls, t, h) ←
      for_nodes fuel l.head l
        (insert_included content_at (compare_values strcmp) keep_element element_delete include)
        (calls, tree_new, h)
  before ← tree_ordered_print t h
  (after, l, h) ←
      delete_and_print content_at (compare_values strcmp) keep_element element_delete take_over fuel
        l t h
  some (record { before = before; after = after; list = l; heap = h })

no_elements-Owned : Owned no_elements []
unfolding no_elements
no_elements-Owned = record {
  value = λ a. a;
  counts = record { counted = λ a. refl; live = λ a b e. ground arith; unused = λ a le. refl };
  shaped = λ a p. absurd (omega arith);
}

-- The list gets the one reference to each new element.
add_arguments-Owned :
    (num : ℕ) (args : List (List ℕ)) {l : ElementList} {xs : List (ℕ × ℕ)} {h : Heap}
    → IsList l xs
    → Owned h (elems xs)
    → (l' : ElementList) × (h' : Heap) × (xs' : List (ℕ × ℕ)) × (add_arguments num args l h
        ≡ some (l', h'))
      × IsList l' xs'
      × Owned h' (elems xs')
      × (length xs' ≡ length xs + length args)
unfolding add_arguments list_add_element take_over
add_arguments-Owned num [] {l} {xs} {h} i o = (l, h, xs, refl, i, o, omega arith)
add_arguments-Owned num (arg ∷ args) {l} {xs} {h} i o =
    let (e, h1, made, o1, new, same) = element_new-Owned num arg o in
    let (l1, added, i1) = list_add_element-IsList take_over element_delete e {h = h1} i refl in
    let (l', h', xs', rest, i', o', len) = add_arguments-Owned (num + 1) args i1 (
      Owned-perm o1 (λ x. ground (
        arith,
        ap (count x) (elems-append xs ((l.fresh, e) ∷ [])),
        count-append x (elems xs) (e ∷ []),
      ))) in
    (
      l',
      h',
      xs',
      rw (add_arguments, made, added, rest),
      i',
      o',
      ground (arith, len, length-append xs ((l.fresh, e) ∷ [])),
    )

leaf-IsOwnedTree :
    (strcmp : List ℕ → List ℕ → Ordering) {h : Heap} {refs : List ℕ}
    → Owned h refs
    → IsOwnedTree elements_owned (compare_values strcmp) tree_new h refs
unfolding tree_new
leaf-IsOwnedTree strcmp o = record { owned = o; sorted = tt }

-- Given a round of fuel for each argument and one more, the program never reads or frees what has been freed, prints the same tree before and after it
-- deletes the list, and in the end no node of the list, no element and no text is allocated, whatever
-- function picks the elements of the tree.
pub main-Finished :
    {C : Type 0} (strcmp : List ℕ → List ℕ → Ordering) (include : C → C × Bool) (fuel : ℕ)
    (args : List (List ℕ)) (calls : C)
    → length args < fuel
    → (out : Finished) × (main strcmp include fuel args calls no_elements ≡ some out)
      × (out.after ≡ out.before)
      × ((a : ℕ) → out.list.node a ≡ none)
      × ((a : ℕ) → out.heap.block a ≡ none)
unfolding main tree_ordered_print
main-Finished strcmp include fuel args calls enough =
    let (l, h1, xs, filled, i, o1, len) =
      add_arguments-Owned 1 args list_new-IsList no_elements-Owned in
    let walk : length xs < fuel = omega (arith, len) in
    let (calls', t, h2, inserted, tree, picks, same) =
      each_of-insert_included elements_owned (compare_values strcmp) include (elems xs) calls
        tree_new (leaf-IsOwnedTree strcmp o1) (λ x p. p) in
    let (lines, l', h3, printed, finished, i', o3) =
      delete_and_print-owned elements_owned (compare_values strcmp) take_over fuel l xs t i walk
        tree.owned in
    (
      record { before = lines; after = lines; list = l'; heap = h3 },
      rw (
        filled,
        for_nodes-each_of
            (insert_included content_at (compare_values strcmp) keep_element element_delete include)
            fuel (calls, tree_new, h1) i walk,
        inserted,
        printed,
        finished,
      ),
      refl,
      λ a. i'.only a refl,
      λ a. Counts-none o3.counts a refl,
    )
