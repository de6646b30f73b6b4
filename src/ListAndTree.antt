-- ===== src/ListAndTree.antt =====
-- The parts that the programs a5/q3/main.c and a7/q3/main.c have in common: the walk over the list,
-- the insertion of some of its elements into the tree, and the deletion of the list before the tree is
-- printed again.
pub mod Walk
pub mod Owned
use Prim.Native.Nat.{Ordering}
use cs213_assignments.Common.{
  ℕ, zero, suc, ◌+◌, ◌%◌, Bool, true, false, Option, none, some, List, ◌==◌, ◌>>=◌,
}
use cs213_assignments.ElementList.{
  ElementList, list_node_get_next, list_node_get_element, list_delete,
}
use cs213_assignments.ElementTree.{
  Tree, Line, goes_left, tree_insert_node, tree_delete, tree_ordered_print,
}

-- `for (n = list_get_head (l); n != NULL; n = list_node_get_next (n))`, on fuel: one round for each
-- node and one more is enough. The body works on the node's element.
pub for_nodes : {S : Type 0} → ℕ → Option ℕ → ElementList → (ℕ → S → Option S) → S → Option S
for_nodes zero n l body s = none
for_nodes (suc fuel) none l body s = some s
for_nodes (suc fuel) (some n) l body s = do
  e ← list_node_get_element n l
  s ← body e s
  n ← list_node_get_next n l
  for_nodes fuel n l body s

-- The calls so far are the state of `includeElement`; they stay below 2 ^ 31.
pub include_element : ℕ → ℕ × Bool
include_element calls = (calls + 1, (calls + 1) % 2 == 1)

module _ {H V : Type 0} (content : ℕ → H → Option V) (cmp : V → V → Ordering)
    (keep release : ℕ → H → Option H) where
  -- `if (includeElement ()) tree_insert_node (t, e)`, with any function in place of `includeElement`.
  pub insert_included : {C : Type 0} → (C → C × Bool) → ℕ → C × Tree × H → Option (C × Tree × H)
  insert_included include e (calls, t, h) =
      let (calls, included) = include calls in
      elim included [
        | true ↦ do
          (t, h) ← tree_insert_node (goes_left content cmp) keep release t e h
          some (calls, t, h)
        | false ↦ some (calls, t, h)
      ]

  -- The end of `main`, from `list_delete` on, with what is printed.
  pub delete_and_print :
      (list_keep : ℕ → H → Option H)
      → ℕ
      → ElementList
      → Tree
      → H
      → Option (List (Line V) × ElementList × H)
  delete_and_print list_keep fuel l t h = do
    (l, h) ← list_delete list_keep release fuel l h
    after ← tree_ordered_print content t h
    h ← tree_delete (goes_left content cmp) keep release t h
    some (after, l, h)
