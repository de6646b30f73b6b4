-- ===== src/ArrayList/Mapping.antt =====
-- The functions of a8/q1/list.c that take a function: `list_map1`, `list_map2`, `list_foldl`,
-- `list_filter` and `list_foreach`.
pub mod Written
pub mod Elementwise
pub mod Traversals
use cs213_assignments.Common.{
  ℕ, zero, suc, ◌+◌, Bool, ◌||◌, Option, some, List, [], ◌∷◌, ◌++◌, ◌>>=◌, leb, if◌then◌else◌,
}
use cs213_assignments.ArrayList.{ArrayList, get_cell, set_cell, make_room, list_insert}

module _ {E : Type 0} where
  -- `f(&out_list->data[i], in_list->data[i])`: `f` sees what the cell holds and what the element is,
  -- and gives what the cell holds afterwards. The cell is that at `i`, not at the end of the list.
  pub map1_from : (E → E → E) → (rounds i : ℕ) → (out in_list : ArrayList E) → Option (ArrayList E)
  map1_from f zero i out in_list = some out
  map1_from f (suc rounds) i out in_list = do
    let out = make_room out
    old ← get_cell i out
    x ← get_cell i in_list
    out ← set_cell i (f old x) out
    map1_from f rounds (i + 1) (record out { len = out.len + 1 }) in_list

  -- `same` says whether `out_list == in_list`.
  pub list_map1 : (E → E → E) → (same : Bool) → (out in_list : ArrayList E) → Option (ArrayList E)
  unfolding map1_from
  list_map1 f same out in_list = if same then some out else map1_from f in_list.len 0 out in_list

  pub map2_from :
      (E → E → E → E)
      → (rounds i : ℕ) → (out in_list0 in_list1 : ArrayList E) → Option (ArrayList E)
  map2_from f zero i out in_list0 in_list1 = some out
  map2_from f (suc rounds) i out in_list0 in_list1 = do
    let out = make_room out
    old ← get_cell i out
    x ← get_cell i in_list0
    y ← get_cell i in_list1
    out ← set_cell i (f old x y) out
    map2_from f rounds (i + 1) (record out { len = out.len + 1 }) in_list0 in_list1

  -- `same0` and `same1` say whether `out_list` is the one or the other list.
  pub list_map2 :
      (E → E → E → E)
      → (same0 same1 : Bool) → (out in_list0 in_list1 : ArrayList E) → Option (ArrayList E)
  unfolding map2_from
  list_map2 f same0 same1 out in_list0 in_list1 =
      if same0 || same1
      then some out
      else map2_from f (if leb in_list1.len in_list0.len then in_list1.len else in_list0.len) 0 out
          in_list0 in_list1

  -- `f(out_element_p, *out_element_p, in_list->data[i])`: `f` sees the accumulator twice.
  pub foldl_from : (E → E → E → E) → (rounds i : ℕ) → E → ArrayList E → Option E
  foldl_from f zero i acc in_list = some acc
  foldl_from f (suc rounds) i acc in_list = do
    x ← get_cell i in_list
    foldl_from f rounds (i + 1) (f acc acc x) in_list

  pub list_foldl : (E → E → E → E) → E → ArrayList E → Option E
  unfolding foldl_from
  list_foldl f acc in_list = foldl_from f in_list.len 0 acc in_list

  -- The lists are two lists: the loop's bound does not change.
  pub filter_from : (E → Bool) → (rounds i : ℕ) → (out in_list : ArrayList E) → Option (ArrayList E)
  filter_from f zero i out in_list = some out
  filter_from f (suc rounds) i out in_list = do
    x ← get_cell i in_list
    out ← (if f x then list_insert out.len x out else some out)
    filter_from f rounds (i + 1) out in_list

  pub list_filter : (E → Bool) → (out in_list : ArrayList E) → Option (ArrayList E)
  unfolding filter_from
  list_filter f out in_list = filter_from f in_list.len 0 out in_list

  -- The elements that `f` is called with, in the order of the calls.
  pub foreach_from : (rounds i : ℕ) → ArrayList E → Option (List E)
  foreach_from zero i l = some []
  foreach_from (suc rounds) i l = do
    x ← get_cell i l
    rest ← foreach_from rounds (i + 1) l
    some (x ∷ rest)

  pub list_foreach : ArrayList E → Option (List E)
  unfolding foreach_from
  list_foreach l = foreach_from l.len 0 l
