-- ===== src/Elements.antt =====
-- The reference-counted elements of a7/q3: refcount.c, int_element.c and str_element.c. A text is
-- the list of its bytes, without the final NUL. `strcmp`, of which only the sign counts, and `strtol`
-- are parameters.
pub mod Order
pub mod Owned
use Prim.Native.Nat.{Ordering}
use cs213_assignments.Common.{
  ℕ, ◌-◌, Bool, true, false, not, ◌&&◌, Option, none, some, List, [], ◌∷◌, ◌==◌, ◌>>=◌,
  if◌then◌else◌, update,
}
use cs213_assignments.Common.Int.{ℤ, pos, negsuc, compare_ℤ}
use cs213_assignments.RefCount as RefCount
use cs213_assignments.RefCount.{Block, Blocks}

-- An element with its class. The text of a string element is a copy of its own.
pub data Element : Type 0 where
  int_element : (value : ℤ) → Element
  str_element : (string : List ℕ) → Element

-- The functions that `rc_malloc` is given.
pub data Finalizer : Type 0 where
  int_finalizer : Finalizer
  str_finalizer : Finalizer

pub record Object : Type 0 where
  pub finalizer : Finalizer
  pub element : Element

-- The blocks, and for each string element whether the copy of its text is allocated.
pub record Heap : Type 0 where
  pub blocks : Blocks Object
  pub copied : ℕ → Bool

pub rc_malloc : Finalizer → Element → Heap → ℕ × Heap
rc_malloc finalizer element h =
    let (a, blocks) =
      RefCount.rc_malloc (record { finalizer = finalizer; element = element }) h.blocks in
    (a, record h { blocks = blocks })

pub rc_keep_ref : ℕ → Heap → Option Heap
rc_keep_ref a h = do blocks ← RefCount.rc_keep_ref a h.blocks; some (record h { blocks = blocks })

-- `int_finalizer` does nothing; `str_finalizer` frees the copy, which is undefined behaviour if it
-- has been freed.
pub finalize : Finalizer → ℕ → (ℕ → Bool) → Option (ℕ → Bool)
finalize int_finalizer a copied = some copied
finalize str_finalizer a copied = if copied a then some (update copied a false) else none

pub rc_free_ref : ℕ → Heap → Option Heap
unfolding finalize
rc_free_ref a h = do
  b ← h.blocks.block a
  copied ← (if b.refcount - 1 == 0 then finalize b.body.finalizer a h.copied else some h.copied)
  blocks ← RefCount.rc_free_ref a h.blocks
  some (record { blocks = blocks; copied = copied })

pub int_element_new : ℤ → Heap → ℕ × Heap
unfolding rc_malloc
int_element_new value h = rc_malloc int_finalizer (int_element value) h

pub str_element_new : List ℕ → Heap → ℕ × Heap
unfolding rc_malloc
str_element_new str h =
    let (a, h) = rc_malloc str_finalizer (str_element str) h in
    (a, record h { copied = update h.copied a true })

abbrev pub is_int_element : Element → Bool
is_int_element (int_element value) = true
is_int_element (str_element string) = false

abbrev pub is_str_element : Element → Bool
is_str_element (int_element value) = false
is_str_element (str_element string) = true

-- The element behind a pointer: to read a freed one is undefined behaviour.
pub element_at : ℕ → Heap → Option Element
element_at a h = do b ← h.blocks.block a; some b.body.element

pub intcmp : ℤ → ℤ → Ordering
intcmp a b = compare_ℤ a b

module _ (strcmp : List ℕ → List ℕ → Ordering) where
  -- A result below 0 is `lt`, 0 is `eq`, and one above 0 is `gt`.
  pub int_compare : ℤ → Element → Ordering
  unfolding intcmp
  int_compare i (int_element j) = intcmp i j
  int_compare i (str_element t) = Ordering.lt

  pub str_compare : List ℕ → Element → Ordering
  str_compare s (int_element j) = Ordering.gt
  str_compare s (str_element t) = strcmp s t

  -- `e->class->compare (e, e2)`.
  pub compare : Element → Element → Ordering
  unfolding int_compare str_compare
  compare (int_element i) e2 = int_compare i e2
  compare (str_element s) e2 = str_compare s e2

abbrev pub is_empty : List ℕ → Bool
is_empty [] = true
is_empty (c ∷ cs) = false

-- `strtol` gives the number, as an int, and the text behind it.
unfoldable pub parse_string : (strtol : List ℕ → ℤ × List ℕ) → List ℕ → Heap → ℕ × Heap
unfolding int_element_new str_element_new
parse_string strtol str h =
    let (value, endp) = strtol str in
    if not (is_empty str) && is_empty endp then int_element_new value h else str_element_new str h
