-- ===== src/NumberedElements.antt =====
-- The reference-counted elements of a5/q3, element.c, and what its list.c and tree.c do with them: both
-- are otherwise those of a7/q3. An element is a number and a text that is allocated on its own. A text
-- is the list of its bytes without the final NUL. An allocation does not fail.
pub mod Owned
pub mod Program
pub mod Tests
use Prim.Native.Nat.{Ordering}
use cs213_assignments.Common.{ℕ, Bool, Option, none, some, List, ◌>>=◌}
use cs213_assignments.RefCount.{Blocks, rc_malloc, rc_keep_ref, rc_free_ref, set_body}
use cs213_assignments.ElementList as ElementList
use cs213_assignments.ElementList.{ElementList}
use cs213_assignments.ElementTree as ElementTree
use cs213_assignments.ElementTree.{Tree, Line}

-- What is in an allocation: `struct element`, with the address of its text, or a text.
pub data Content : Type 0 where
  element : (num : ℕ) → (value : ℕ) → Content
  chars : (text : List ℕ) → Content

abbrev pub Heap : Type 0
Heap = Blocks Content

-- What is at an address: undefined behaviour if it has been freed.
pub body_at : ℕ → Heap → Option Content
body_at a h = do b ← h.block a; some b.body

-- `n` gets the bytes and the final NUL.
pub rc_strdup : List ℕ → Heap → ℕ × Heap
rc_strdup value h = rc_malloc (chars value) h

-- The number is written before the text is allocated, and its address after that.
pub element_new : ℕ → List ℕ → Heap → Option (ℕ × Heap)
unfolding rc_strdup
element_new num value h = do
  let (e, h) = rc_malloc (element num 0) h
  let (s, h) = rc_strdup value h
  h ← set_body e (element num s) h
  some (e, h)

pub element_get_num : ℕ → Heap → Option ℕ
element_get_num e h = do
  c ← body_at e h
  elim c [ element num value ↦ some num | chars text ↦ none ]

pub element_get_value : ℕ → Heap → Option ℕ
element_get_value e h = do
  c ← body_at e h
  elim c [ element num value ↦ some value | chars text ↦ none ]

pub text_at : ℕ → Heap → Option (List ℕ)
text_at s h = do c ← body_at s h; elim c [ element num value ↦ none | chars text ↦ some text ]

pub element_delete : ℕ → Heap → Option Heap
unfolding element_get_value
element_delete e h = do s ← element_get_value e h; h ← rc_free_ref s h; rc_free_ref e h

-- A number and a text, as they are printed.
pub content_at : ℕ → Heap → Option (ℕ × List ℕ)
unfolding element_get_num element_get_value text_at
content_at e h = do
  num ← element_get_num e h
  s ← element_get_value e h
  text ← text_at s h
  some (num, text)

-- The list takes over the reference of its caller.
pub take_over : ℕ → Heap → Option Heap
take_over e h = some h

-- The tree keeps references of its own to the element and to its text.
pub keep_element : ℕ → Heap → Option Heap
unfolding element_get_value
keep_element e h = do h ← rc_keep_ref e h; s ← element_get_value e h; rc_keep_ref s h

pub list_add_element : ℕ → ElementList → Heap → Option (ℕ × ElementList × Heap)
list_add_element e l h = ElementList.list_add_element take_over element_delete e l h

pub list_delete_element : ℕ → ElementList → Heap → Option (ElementList × Heap)
list_delete_element n l h = ElementList.list_delete_element take_over element_delete n l h

pub list_delete : ℕ → ElementList → Heap → Option (ElementList × Heap)
list_delete fuel l h = ElementList.list_delete take_over element_delete fuel l h

module _ (strcmp : List ℕ → List ℕ → Ordering) where
  -- Elements compare as their texts.
  pub compare_values : ℕ × List ℕ → ℕ × List ℕ → Ordering
  compare_values (num1, text1) (num2, text2) = strcmp text1 text2

  pub tree_insert_node : Tree → ℕ → Heap → Option (Tree × Heap)
  unfolding compare_values
  tree_insert_node t e h =
      ElementTree.tree_insert_node (ElementTree.goes_left content_at compare_values) keep_element
        element_delete t e h

  pub tree_delete : Tree → Heap → Option Heap
  unfolding compare_values
  tree_delete t h =
      ElementTree.tree_delete (ElementTree.goes_left content_at compare_values) keep_element
        element_delete t h

pub tree_ordered_print : Tree → Heap → Option (List (Line (ℕ × List ℕ)))
tree_ordered_print t h = ElementTree.tree_ordered_print content_at t h
