-- ===== src/ArrayList/Mapping/Elementwise.antt =====
-- What `list_map1` and `list_map2` of a8/q1/list.c leave in the output list.
use cs213_assignments.Common.{
  ℕ, zero, suc, ◌+◌, ◌≤◌, ◌≡◌, refl, ap, sym, ◌∙◌, false, Option, some, ◌++◌, arith, update, map,
  min,
}
use cs213_assignments.ArrayList.{ArrayList, IsValid}
use cs213_assignments.ArrayList.Slice.{slice}
use cs213_assignments.ArrayList.Cells.{
  contents, get_cell-inside, set_cell-inside, room_of, make_room-room_of, len-lt-room_of,
}
use cs213_assignments.ArrayList.Mapping.{map1_from, list_map1, map2_from, list_map2}
use cs213_assignments.ArrayList.Mapping.Written.{
  written, written-suc, Holds, Holds-contents, map-slice, zip_with, zip_with-slice,
}

module _ {E : Type 0} where
  -- The output list after one more element.
  abbrev grown : (i : ℕ) → E → ArrayList E → ArrayList E
  grown i e out = record out {
    data_of = update out.data_of i e;
    len = out.len + 1;
    size = room_of out;
  }

  grown-IsValid : (i : ℕ) (e : E) (out : ArrayList E) → IsValid out → IsValid (grown i e out)
  grown-IsValid i e out v = omega (arith, len-lt-room_of out v)

  -- A loop that goes on from the list after one round.
  Holds-grown :
      {r : Option (ArrayList E)} (values : ℕ → E) (i rounds : ℕ) (out : ArrayList E)
      → Holds r
          (written (grown i (values i) out).data_of values (i + 1) rounds)
          ((grown i (values i) out).len + rounds)
      → Holds r (written out.data_of values i (suc rounds)) (out.len + suc rounds)
  Holds-grown values i rounds out h = record {
    result = h.result;
    returned = h.returned;
    valid = h.valid;
    count = h.count ∙ omega arith;
    cells = λ j. h.cells j ∙ written-suc out.data_of values i rounds j;
  }

  map1_from-Holds :
      (f : E → E → E) (g : E → E)
      → ((old x : E) → f old x ≡ g x)
      → (rounds i : ℕ) (out in_list : ArrayList E) → IsValid out
      → i ≤ out.len
      → i + rounds ≤ in_list.size
      → Holds
          (map1_from f rounds i out in_list)
          (written out.data_of (λ j. g (in_list.data_of j)) i rounds)
          (out.len + rounds)
  unfolding map1_from
  map1_from-Holds f g same zero i out in_list v behind inside = record {
    result = out;
    returned = refl;
    valid = v;
    count = omega arith;
    cells = λ j. ground arith;
  }
  map1_from-Holds f g same (suc rounds) i out in_list v behind inside =
      let room = len-lt-room_of out v in
      rw
        (
          make_room-room_of out,
          get_cell-inside i (record out { size = room_of out }) (omega arith),
          get_cell-inside i in_list (omega arith),
          same (out.data_of i) (in_list.data_of i),
          set_cell-inside i (g (in_list.data_of i)) (record out { size = room_of out })
              (omega arith),
        )
        (Holds-grown (λ j. g (in_list.data_of j)) i rounds out
          (map1_from-Holds f g same rounds (i + 1) (grown i (g (in_list.data_of i)) out) in_list
            (grown-IsValid i _ out v) (omega arith) (omega arith)))

  -- `list_map1` into another list, with a function that ignores what a cell held: it never leaves
  -- an array, and the first cells of the output list, from 0 on, get the images of the elements.
  -- The output list grows by their number. So where it was empty, its elements are the images; what
  -- it held before is overwritten, and behind the images stand the cells that lay there.
  pub list_map1-contents :
      (f : E → E → E) (g : E → E) (out in_list : ArrayList E)
      → ((old x : E) → f old x ≡ g x)
      → IsValid out
      → IsValid in_list
      → (r : ArrayList E) × (list_map1 f false out in_list ≡ some r)
        × IsValid r
        × (contents r ≡ map g (contents in_list) ++ slice out.data_of in_list.len out.len)
  unfolding list_map1
  list_map1-contents f g out in_list same v v' =
      let h = map1_from-Holds f g same in_list.len 0 out in_list v (omega arith) (omega arith) in
      (
        h.result,
        h.returned,
        h.valid,
        Holds-contents out.data_of (λ j. g (in_list.data_of j)) in_list.len out.len h
            ∙ ap (λ xs. xs ++ slice out.data_of in_list.len out.len)
                (sym (map-slice g in_list.data_of 0 in_list.len)),
      )

  map2_from-Holds :
      (f : E → E → E → E) (g : E → E → E)
      → ((old x y : E) → f old x y ≡ g x y)
      → (rounds i : ℕ) (out in_list0 in_list1 : ArrayList E) → IsValid out
      → i ≤ out.len
      → i + rounds ≤ in_list0.size
      → i + rounds ≤ in_list1.size
      → Holds
          (map2_from f rounds i out in_list0 in_list1)
          (written out.data_of (λ j. g (in_list0.data_of j) (in_list1.data_of j)) i rounds)
          (out.len + rounds)
  unfolding map2_from
  map2_from-Holds f g same zero i out in_list0 in_list1 v behind inside0 inside1 = record {
    result = out;
    returned = refl;
    valid = v;
    count = omega arith;
    cells = λ j. ground arith;
  }
  map2_from-Holds f g same (suc rounds) i out in_list0 in_list1 v behind inside0 inside1 =
      let room = len-lt-room_of out v in
      let values : ℕ → E = λ j. g (in_list0.data_of j) (in_list1.data_of j) in
      rw
        (
          make_room-room_of out,
          get_cell-inside i (record out { size = room_of out }) (omega arith),
          get_cell-inside i in_list0 (omega arith),
          get_cell-inside i in_list1 (omega arith),
          same (out.data_of i) (in_list0.data_of i) (in_list1.data_of i),
          set_cell-inside i (values i) (record out { size = room_of out }) (omega arith),
        )
        (Holds-grown values i rounds out (
          map2_from-Holds f g same rounds (i + 1) (grown i (values i) out) in_list0 in_list1
            (grown-IsValid i (values i) out v) (omega arith) (omega arith) (omega arith)))

  -- `list_map2` of two lists into a third, with a function that ignores what a cell held: it never
  -- leaves an array, as many cells of the output list from 0 on as the shorter input has elements get
  -- the results, and the output list grows by their number.
  pub list_map2-contents :
      (f : E → E → E → E) (g : E → E → E) (out in_list0 in_list1 : ArrayList E)
      → ((old x y : E) → f old x y ≡ g x y)
      → IsValid out
      → IsValid in_list0
      → IsValid in_list1
      → (r : ArrayList E) × (list_map2 f false false out in_list0 in_list1 ≡ some r)
        × IsValid r
        × (contents r
            ≡ zip_with g (contents in_list0) (contents in_list1)
              ++ slice out.data_of (min in_list0.len in_list1.len) out.len)
  unfolding list_map2
  list_map2-contents f g out in_list0 in_list1 same v v0 v1 =
      let n : ℕ = min in_list0.len in_list1.len in
      let values : ℕ → E = λ j. g (in_list0.data_of j) (in_list1.data_of j) in
      let h =
        map2_from-Holds f g same n 0 out in_list0 in_list1 v (omega arith) (omega arith)
          (omega arith) in
      (
        h.result,
        ap (λ (m : ℕ). map2_from f m 0 out in_list0 in_list1) (ground arith) ∙ h.returned,
        h.valid,
        Holds-contents out.data_of values n out.len h
            ∙ ap (λ xs. xs ++ slice out.data_of n out.len)
                (sym
                  (zip_with-slice g in_list0.data_of in_list1.data_of 0 in_list0.len in_list1.len)),
      )
