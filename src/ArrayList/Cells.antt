-- ===== src/ArrayList/Cells.antt =====
-- Cells of the growing array of a8/q1/list.c: access inside the array, growth, and the two loops that
-- move elements.
use cs213_assignments.Common.{
  ℕ, zero, suc, ◌+◌, ◌-◌, ◌*◌, ◌<◌, ◌≡◌, ap, ◌∙◌, fun_ext, ◌&&◌, some, List, arith, ltb, leb, ◌==◌,
  if◌then◌else◌, update, lt→ltb,
}
use cs213_assignments.ArrayList.{
  ArrayList, get_cell, set_cell, make_room, copy_cell, move_down, move_up, IsValid,
}
use cs213_assignments.ArrayList.Slice.{slice}

module _ {E : Type 0} where
  -- The elements of the list, in order.
  abbrev pub contents : ArrayList E → List E
  contents l = slice l.data_of 0 l.len

  pub get_cell-inside : (i : ℕ) (l : ArrayList E) → i < l.size → get_cell i l ≡ some (l.data_of i)
  unfolding get_cell
  get_cell-inside i l h = rw (lt→ltb _ _ h)

  pub set_cell-inside :
      (i : ℕ) (e : E) (l : ArrayList E)
      → i < l.size
      → set_cell i e l ≡ some (record l { data_of = update l.data_of i e })
  unfolding set_cell
  set_cell-inside i e l h = rw (lt→ltb _ _ h)

  -- A full list grows, so that there is room for one more element.
  pub room_of : ArrayList E → ℕ
  room_of l = if l.len == l.size then l.size * 5 else l.size

  pub make_room-room_of : (l : ArrayList E) → make_room l ≡ record l { size = room_of l }
  unfolding make_room room_of
  make_room-room_of l = ground arith

  pub len-lt-room_of : (l : ArrayList E) → IsValid l → l.len < room_of l
  unfolding room_of
  len-lt-room_of l v = ground arith

  copy_cell-inside :
      (i j : ℕ) (l : ArrayList E)
      → i < l.size
      → j < l.size
      → copy_cell i j l ≡ some (record l { data_of = update l.data_of i (l.data_of j) })
  unfolding copy_cell
  copy_cell-inside i j l hi hj = rw (get_cell-inside j l hj, set_cell-inside i (l.data_of j) l hi)

  -- The cells after the loop of `list_insert`: those behind `pos` have moved down by one.
  abbrev pub moved_down : (ℕ → E) → (pos rounds : ℕ) → ℕ → E
  moved_down d pos rounds j = if ltb pos j && leb j (pos + rounds) then d (j - 1) else d j

  moved_down-suc :
      (d : ℕ → E) (pos rounds j : ℕ)
      → moved_down (update d (pos + rounds + 1) (d (pos + rounds))) pos rounds j
        ≡ moved_down d pos (suc rounds) j
  moved_down-suc d pos rounds j = ground arith

  pub move_down-moved_down :
      (rounds pos : ℕ) (l : ArrayList E)
      → pos + rounds < l.size
      → move_down rounds pos l ≡ some (record l { data_of = moved_down l.data_of pos rounds })
  unfolding move_down
  move_down-moved_down zero pos l h =
      ap (λ d. some (record l { data_of = d })) (fun_ext (λ j. ground arith))
  move_down-moved_down (suc rounds) pos l h =
      rw (copy_cell-inside (pos + rounds + 1) (pos + rounds) l (omega arith) (omega arith)) (
        move_down-moved_down rounds pos _ (omega arith)
        ∙ ap (λ d. some (record l { data_of = d })) (fun_ext (moved_down-suc l.data_of pos rounds)))

  -- The cells after the loop of `list_remove`: those behind `i` have moved up by one.
  abbrev pub moved_up : (ℕ → E) → (i rounds : ℕ) → ℕ → E
  moved_up d i rounds j = if leb i j && ltb j (i + rounds) then d (j + 1) else d j

  moved_up-suc :
      (d : ℕ → E) (i rounds j : ℕ)
      → moved_up (update d i (d (i + 1))) (i + 1) rounds j ≡ moved_up d i (suc rounds) j
  moved_up-suc d i rounds j = ground arith

  pub move_up-moved_up :
      (rounds i : ℕ) (l : ArrayList E)
      → i + rounds < l.size
      → move_up rounds i l ≡ some (record l { data_of = moved_up l.data_of i rounds })
  unfolding move_up
  move_up-moved_up zero i l h =
      ap (λ d. some (record l { data_of = d })) (fun_ext (λ j. ground arith))
  move_up-moved_up (suc rounds) i l h =
      rw (copy_cell-inside i (i + 1) l (omega arith) (omega arith)) (
        move_up-moved_up rounds (i + 1) _ (omega arith)
        ∙ ap (λ d. some (record l { data_of = d })) (fun_ext (moved_up-suc l.data_of i rounds)))
