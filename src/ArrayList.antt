-- ===== src/ArrayList.antt =====
-- The growing array of a8/q1/list.c. The cells of `data` from `size` on are not the list's: an access
-- there is undefined, and after `realloc` they hold what the memory holds. `malloc` and `realloc`
-- succeed, and `len` and `size` do not reach 2 ^ 31.
pub mod Slice
pub mod Cells
pub mod Edits
pub mod Search
pub mod Mapping
pub mod Tests
use cs213_assignments.Common.{
  ℕ, zero, suc, ◌+◌, ◌-◌, ◌*◌, ◌≤◌, ◌<◌, Bool, true, false, ◌||◌, Option, none, some, List, [], ◌∷◌,
  ◌>>=◌, ltb, leb, ◌==◌, if◌then◌else◌, update,
}

abbrev pub initial_size : ℕ
initial_size = 10

abbrev pub growth_factor : ℕ
growth_factor = 5

-- `E` is `element_t`.
pub record ArrayList (E : Type 0) : Type 0 where
  pub data_of : ℕ → E
  pub len : ℕ
  pub size : ℕ

module _ {E : Type 0} where
  -- `memory` is what the new cells hold.
  pub list_create : (memory : ℕ → E) → ArrayList E
  list_create memory = record { data_of = memory; len = 0; size = initial_size }

  pub get_cell : ℕ → ArrayList E → Option E
  get_cell i l = if ltb i l.size then some (l.data_of i) else none

  pub set_cell : ℕ → E → ArrayList E → Option (ArrayList E)
  set_cell i e l = if ltb i l.size then some (record l { data_of = update l.data_of i e }) else none

  pub expand_list : ArrayList E → ArrayList E
  expand_list l = record l { size = l.size * growth_factor }

  -- `if (list->len == list->size) expand_list (list);`
  pub make_room : ArrayList E → ArrayList E
  unfolding expand_list
  make_room l = if l.len == l.size then expand_list l else l

  pub list_append : E → ArrayList E → Option (ArrayList E)
  list_append element l = do
    let l = make_room l
    l ← set_cell l.len element l
    some (record l { len = l.len + 1 })

  -- The loop over `elements [0] .. elements [n-1]`.
  pub list_append_array : List E → ArrayList E → Option (ArrayList E)
  list_append_array [] l = some l
  list_append_array (e ∷ elements) l = do l ← list_append e l; list_append_array elements l

  -- `list->data [i] = list->data [j];`
  pub copy_cell : (i j : ℕ) → ArrayList E → Option (ArrayList E)
  copy_cell i j l = do e ← get_cell j l; set_cell i e l

  -- `for (int i = list->len; i > pos; i--)` with `rounds` values of `i` left, the last one `pos + 1`.
  pub move_down : (rounds pos : ℕ) → ArrayList E → Option (ArrayList E)
  move_down zero pos l = some l
  move_down (suc rounds) pos l = do
    l ← copy_cell (pos + rounds + 1) (pos + rounds) l
    move_down rounds pos l

  pub list_insert : (pos : ℕ) → E → ArrayList E → Option (ArrayList E)
  list_insert pos element l = do
    let l = make_room l
    l ← move_down (l.len - pos) pos l
    l ← set_cell pos element l
    some (record l { len = l.len + 1 })

  -- `for (int i = pos; i < list->len - 1; i++)` with `rounds` values of `i` left.
  pub move_up : (rounds i : ℕ) → ArrayList E → Option (ArrayList E)
  move_up zero i l = some l
  move_up (suc rounds) i l = do l ← copy_cell i (i + 1) l; move_up rounds (i + 1) l

  -- On an empty list `len` would become -1, which is outside the model.
  pub list_remove : (pos : ℕ) → ArrayList E → Option (ArrayList E)
  list_remove pos l =
      if l.len == 0
      then none
      else (do l ← move_up (l.len - 1 - pos) pos l; some (record l { len = l.len - 1 }))

  pub list_get : (pos : ℕ) → ArrayList E → Option E
  list_get pos l = get_cell pos l

  -- The loop of `list_index` from `i` on, with `rounds` values of `i` left: `some none` is -1.
  pub index_from : (E → E → Bool) → (rounds i : ℕ) → E → ArrayList E → Option (Option ℕ)
  index_from equal zero i element l = some none
  index_from equal (suc rounds) i element l =
      let rest = index_from equal rounds (i + 1) element l in
      do e ← get_cell i l; if equal e element then some (some i) else rest

  pub list_index : (E → E → Bool) → E → ArrayList E → Option (Option ℕ)
  unfolding index_from
  list_index equal element l = index_from equal l.len 0 element l

  pub list_len : ArrayList E → ℕ
  list_len l = l.len

-- A well-formed list has room for its elements, and grows when it is full.
pub record IsValid {E : Type 0} (l : ArrayList E) : Type 0 where
  pub fits : l.len ≤ l.size
  pub nonempty : 0 < l.size
