-- ===== src/ElementTree.antt =====
-- The binary tree of elements of a7/q3/tree.c. The tree owns its nodes, so it is a tree of the
-- addresses of its elements. The heap of the elements, the test by which the walk goes to the left,
-- and what the tree does to an element that it takes in or lets go, are parameters: a5/q3/tree.c is the
-- same otherwise.
pub mod Sorted
pub mod Owned
use Prim.Native.Nat.{Ordering}
use Prim.Native.Nat.Ordering.{gt}
use cs213_assignments.Common.{
  ℕ, ◌+◌, Bool, true, false, Option, none, some, List, [], ◌∷◌, ◌++◌, ◌>>=◌, if◌then◌else◌,
}

-- `struct tree_node *`.
pub data Tree : Type 0 where
  leaf : Tree
  node : (elem : ℕ) → (left right : Tree) → Tree

-- A line of the printed tree: an element behind `depth` spaces.
pub record Line (V : Type 0) : Type 0 where
  pub depth : ℕ
  pub value : V

-- `<= 0` of a comparison's result.
abbrev pub is_le : Ordering → Bool
is_le gt = false
is_le _ = true

-- `compare (e, elem) <= 0`, of the elements as they are now.
pub goes_left : {H V : Type 0} → (ℕ → H → Option V) → (V → V → Ordering) → ℕ → ℕ → H → Option Bool
goes_left content cmp e elem h = do v ← content e h; w ← content elem h; some (is_le (cmp v w))

module _ {H : Type 0} (goes_left : ℕ → ℕ → H → Option Bool) (keep release : ℕ → H → Option H) where
  -- `e` goes to the left of an element that it is not above. The recursion is on the tree.
  pub tree_insert_node : Tree → ℕ → H → Option (Tree × H)
  tree_insert_node leaf e h = do h ← keep e h; some (node e leaf leaf, h)
  tree_insert_node (node elem left right) e h = do
    to_left ← goes_left e elem h
    elim to_left [
      | true ↦ do (left, h) ← tree_insert_node left e h; some (node elem left right, h)
      | false ↦ do (right, h) ← tree_insert_node right e h; some (node elem left right, h)
    ]

  pub tree_delete : Tree → H → Option H
  tree_delete leaf h = some h
  tree_delete (node elem left right) h = do
    h ← tree_delete left h
    h ← tree_delete right h
    release elem h

unfoldable pub tree_new : Tree
tree_new = leaf

module _ {H V : Type 0} (content : ℕ → H → Option V) where
  -- Each element is printed before those below it. To read a freed element is undefined behaviour.
  pub tree_ordered_print_helper : Tree → ℕ → H → Option (List (Line V))
  tree_ordered_print_helper leaf depth h = some []
  tree_ordered_print_helper (node elem left right) depth h = do
    v ← content elem h
    above ← tree_ordered_print_helper left (depth + 1) h
    below ← tree_ordered_print_helper right (depth + 1) h
    some (record { depth = depth; value = v } ∷ (above ++ below))

  pub tree_ordered_print : Tree → H → Option (List (Line V))
  unfolding tree_ordered_print_helper
  tree_ordered_print t h = tree_ordered_print_helper t 0 h
