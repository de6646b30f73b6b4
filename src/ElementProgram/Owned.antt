-- ===== src/ElementProgram/Owned.antt =====
-- The program a7/q3/main.c from start to end: it never reads what has been freed, and frees all that
-- it has allocated.
use Prim.Native.Nat.{Ordering}
use cs213_assignments.Common.{
  ℕ, ◌<◌, ◌≡◌, refl, sym, ap, Bool, false, none, some, List, [], ◌∷◌, ◌++◌, map, length, arith,
}
use mathlib.Core.List.{append-nil, append_assoc}
use cs213_assignments.Common.Int.{ℤ, pos}
use cs213_assignments.RefCount.Counts.{Counts-none}
use cs213_assignments.Elements.{
  Element, int_element, str_element, Heap, rc_keep_ref, rc_free_ref, element_at, int_element_new,
  str_element_new, compare,
}
use cs213_assignments.Elements.Owned.{
  Owned, Owned-perm, rc_keep_ref-Owned, rc_free_ref-Owned, element_at-some, int_element_new-Owned,
  str_element_new-Owned, int_element_new-content, str_element_new-content,
}
use cs213_assignments.Ownership.{Ownership}
use cs213_assignments.ElementList.Laws.{list_new-IsList}
use cs213_assignments.ElementTree.{tree_new}
use cs213_assignments.ListAndTree.{insert_included}
use cs213_assignments.ListAndTree.Walk.{elems, each_of, for_nodes-each_of}
use cs213_assignments.ListAndTree.Owned.{
  IsOwnedTree, each_of-insert_included, delete_and_print-owned,
}
use cs213_assignments.ElementProgram.{
  no_elements, test_int, test_str, print_int, print_str, Finished, main,
}
use cs213_assignments.ElementProgram.Parsing.{parsed, Contents, Contents-same, read_arguments-Owned}

abbrev pub elements_owned : Ownership rc_keep_ref rc_free_ref element_at
elements_owned = record {
  Owns = Owned;
  owned_content = λ o a p. element_at-some o a p;
  same_counts = λ o same. Owned-perm o same;
  keep_owned = λ a o p. rc_keep_ref-Owned a o p;
  release_owned = λ a o. rc_free_ref-Owned a o;
}

pub no_elements-Owned : Owned no_elements []
unfolding no_elements
no_elements-Owned = record {
  counts = record { counted = λ a. refl; live = λ a b e. ground arith; unused = λ a le. refl };
  copies = λ a. refl;
}

test_int-Owned :
    {h : Heap} {refs : List ℕ}
    → Owned h refs
    → (h' : Heap) × (test_int h ≡ some (int_element (pos 42), h')) × Owned h' refs
unfolding test_int
test_int-Owned {h} o =
    let (h', freed, o', same) =
      rc_free_ref-Owned (int_element_new (pos 42) h).0 (int_element_new-Owned (pos 42) o) in
    (h', rw ((int_element_new-content (pos 42) o).0, freed), o')

test_str-Owned :
    (greeting : List ℕ) {h : Heap} {refs : List ℕ}
    → Owned h refs
    → (h' : Heap) × (test_str greeting h ≡ some (str_element greeting, h')) × Owned h' refs
unfolding test_str
test_str-Owned greeting {h} o =
    let (h', freed, o', same) =
      rc_free_ref-Owned (str_element_new greeting h).0 (str_element_new-Owned greeting o) in
    (h', rw ((str_element_new-content greeting o).0, freed), o')

-- The numbers among the elements, and the texts.
abbrev pub ints_of : List Element → List ℤ
ints_of [] = []
ints_of (int_element i ∷ vs) = i ∷ ints_of vs
ints_of (str_element s ∷ vs) = ints_of vs

abbrev pub strings_of : List Element → List (List ℕ)
strings_of [] = []
strings_of (int_element i ∷ vs) = strings_of vs
strings_of (str_element s ∷ vs) = s ∷ strings_of vs

each_of-print_int :
    (es : List ℕ) (vs : List Element) (h : Heap) (out : List ℤ)
    → Contents h es vs
    → each_of (print_int h) es out ≡ some (out ++ ints_of vs)
unfolding each_of print_int
each_of-print_int [] [] h out c = ap some (sym (append-nil out))
each_of-print_int [] (v ∷ vs) h out c = absurd c
each_of-print_int (e ∷ es) [] h out c = absurd c
each_of-print_int (e ∷ es) (int_element i ∷ vs) h out c = rw (
  each_of,
  print_int,
  c.0,
  each_of-print_int es vs h (out ++ i ∷ []) c.1,
  append_assoc out (i ∷ []) (ints_of vs),
)
each_of-print_int (e ∷ es) (str_element s ∷ vs) h out c =
    rw (each_of, print_int, c.0, each_of-print_int es vs h out c.1)

each_of-print_str :
    (es : List ℕ) (vs : List Element) (h : Heap) (out : List (List ℕ))
    → Contents h es vs
    → each_of (print_str h) es out ≡ some (out ++ strings_of vs)
unfolding each_of print_str
each_of-print_str [] [] h out c = ap some (sym (append-nil out))
each_of-print_str [] (v ∷ vs) h out c = absurd c
each_of-print_str (e ∷ es) [] h out c = absurd c
each_of-print_str (e ∷ es) (str_element s ∷ vs) h out c = rw (
  each_of,
  print_str,
  c.0,
  each_of-print_str es vs h (out ++ s ∷ []) c.1,
  append_assoc out (s ∷ []) (strings_of vs),
)
each_of-print_str (e ∷ es) (int_element i ∷ vs) h out c =
    rw (each_of, print_str, c.0, each_of-print_str es vs h out c.1)

leaf-IsOwnedTree :
    (strcmp : List ℕ → List ℕ → Ordering) {h : Heap} {refs : List ℕ}
    → Owned h refs
    → IsOwnedTree elements_owned (compare strcmp) tree_new h refs
unfolding tree_new
leaf-IsOwnedTree strcmp o = record { owned = o; sorted = tt }

pub Owned-free :
    {h : Heap} → Owned h [] → ((a : ℕ) → h.blocks.block a ≡ none) × ((a : ℕ) → h.copied a ≡ false)
Owned-free {h} o =
    (λ a. Counts-none o.counts a refl, λ a. ground (arith, o.copies a, Counts-none o.counts a refl))

-- Given a round of fuel for each argument and one more, the program never reads or frees what has been freed. It prints the numbers among the arguments, the
-- texts among them, and the same tree before and after it deletes the list; in the end no node of the
-- list, no element and no copy of a text is allocated. This is so whatever function picks the elements
-- of the tree.
pub main-frees :
    {C : Type 0} (strcmp : List ℕ → List ℕ → Ordering) (strtol : List ℕ → ℤ × List ℕ)
    (include : C → C × Bool) (fuel : ℕ) (greeting : List ℕ) (args : List (List ℕ)) (calls : C)
    → length args < fuel
    → (out : Finished) × (main strcmp strtol include fuel greeting args calls no_elements
        ≡ some out)
      × (out.after ≡ out.before)
      × (out.ints ≡ ints_of (map (parsed strtol) args))
      × (out.strings ≡ strings_of (map (parsed strtol) args))
      × ((a : ℕ) → out.list.node a ≡ none)
      × ((a : ℕ) → out.heap.blocks.block a ≡ none)
      × ((a : ℕ) → out.heap.copied a ≡ false)
unfolding main
main-frees strcmp strtol include fuel greeting args calls enough =
    let (h1, int_shown, o1) = test_int-Owned no_elements-Owned in
    let (h2, str_shown, o2) = test_str-Owned greeting o1 in
    let (l, h3, xs, filled, i, o3, c, len) =
      read_arguments-Owned strtol args [] list_new-IsList o2 tt in
    let walk : length xs < fuel = omega (arith, len) in
    let (calls', t, h4, inserted, tree, picks, same) =
      each_of-insert_included elements_owned (compare strcmp) include (elems xs) calls tree_new
        (leaf-IsOwnedTree strcmp o3) (λ x p. p) in
    let c4 = Contents-same h3 h4 (elems xs) (map (parsed strtol) args) (λ x p. same x) c in
    let (lines, l', h5, printed, finished, i', o5) =
      delete_and_print-owned elements_owned (compare strcmp) rc_keep_ref fuel l xs t i walk
        tree.owned in
    (
      record {
        before = lines;
        ints = ints_of (map (parsed strtol) args);
        strings = strings_of (map (parsed strtol) args);
        after = lines;
        list = l';
        heap = h5;
      },
      rw (
        int_shown,
        str_shown,
        filled,
        for_nodes-each_of
            (insert_included element_at (compare strcmp) rc_keep_ref rc_free_ref include) fuel
            (calls, tree_new, h3) i walk,
        inserted,
        printed,
        for_nodes-each_of (print_int h4) fuel [] i walk,
        each_of-print_int (elems xs) (map (parsed strtol) args) h4 [] c4,
        for_nodes-each_of (print_str h4) fuel [] i walk,
        each_of-print_str (elems xs) (map (parsed strtol) args) h4 [] c4,
        finished,
      ),
      refl,
      refl,
      refl,
      λ a. i'.only a refl,
      (Owned-free o5).0,
      (Owned-free o5).1,
    )
