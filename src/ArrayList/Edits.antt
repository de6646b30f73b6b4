-- ===== src/ArrayList/Edits.antt =====
-- `list_append`, `list_append_array`, `list_insert` and `list_remove` of a8/q1/list.c on the list of
-- the elements.
use cs213_assignments.Common.{
  ℕ, suc, ◌+◌, ◌-◌, ◌<◌, ◌≤◌, ◌≡◌, refl, ap, ap₂, sym, ◌∙◌, false, Option, some, List, [], ◌∷◌,
  ◌++◌, arith, ◌==◌, update, take, drop,
}
use mathlib.Core.List.{append-nil, append_assoc}
use cs213_assignments.ArrayList.{
  ArrayList, list_append, list_append_array, list_insert, list_remove, IsValid,
}
use cs213_assignments.ArrayList.Slice.{
  slice, slice_ext, slice-append, slice-snoc, take-slice, drop-slice,
}
use cs213_assignments.ArrayList.Cells.{
  contents, room_of, make_room-room_of, len-lt-room_of, set_cell-inside, moved_down,
  move_down-moved_down, moved_up, move_up-moved_up,
}

module _ {E : Type 0} where
  -- The list `r` results, well-formed and with the elements `xs`.
  pub record Yields (r : Option (ArrayList E)) (xs : List E) : Type 0 where
    pub result : ArrayList E
    pub returned : r ≡ some result
    pub valid : IsValid result
    pub elements : contents result ≡ xs

  -- `list_append` on a well-formed list, full or not, adds the element behind the others.
  pub list_append-contents :
      (e : E) (l : ArrayList E) → IsValid l → Yields (list_append e l) (contents l ++ e ∷ [])
  unfolding list_append
  list_append-contents e l v = record {
    result = record l { data_of = update l.data_of l.len e; len = l.len + 1; size = room_of l };
    returned = rw (
      make_room-room_of l,
      set_cell-inside l.len e (record l { size = room_of l }) (len-lt-room_of l v),
    );
    valid = omega (arith, len-lt-room_of l v);
    elements =
        slice-snoc _ 0 l.len
        ∙ ap₂ (λ xs x. xs ++ x ∷ []) (slice_ext _ l.data_of 0 0 l.len (λ k h. ground arith))
            (ground arith);
  }

  -- `list_append_array` adds all elements of the array, in order.
  pub list_append_array-contents :
      (elements : List E) (l : ArrayList E)
      → IsValid l
      → Yields (list_append_array elements l) (contents l ++ elements)
  unfolding list_append_array
  list_append_array-contents [] l v = record {
    result = l;
    returned = refl;
    valid = v;
    elements = sym (append-nil _);
  }
  list_append_array-contents (e ∷ elements) l v =
      let first = list_append-contents e l v in
      let rest = list_append_array-contents elements first.result first.valid in
      record {
        result = rest.result;
        returned = rw first.returned rest.returned;
        valid = rest.valid;
        elements =
            rest.elements
            ∙ ap (λ xs. xs ++ elements) first.elements
            ∙ append_assoc (contents l) (e ∷ []) elements;
      }

  insert-slices :
      (d : ℕ → E) (e : E) (pos n : ℕ)
      → pos ≤ n
      → slice (update (moved_down d pos (n - pos)) pos e) 0 (n + 1)
        ≡ take pos (slice d 0 n) ++ e ∷ drop pos (slice d 0 n)
  unfolding slice
  insert-slices d e pos n h =
      let d' : ℕ → E = update (moved_down d pos (n - pos)) pos e in
      rw (take-slice d 0 n pos h, drop-slice d 0 n pos h)
        (ap (slice d' 0) {x = n + 1} {y = pos + suc (n - pos)} (omega arith)
          ∙ slice-append d' 0 pos (suc (n - pos))
          ∙ ap₂ ◌++◌ (slice_ext d' d 0 0 pos (λ k hk. ground arith)) (
              ap₂ ◌∷◌ (ground arith)
                (slice_ext d' d (0 + pos + 1) (0 + pos) (n - pos) (λ k hk. moved_cell k hk))))
    where
      moved_cell :
          (k : ℕ)
          → k < n - pos
          → update (moved_down d pos (n - pos)) pos e (0 + pos + 1 + k) ≡ d (0 + pos + k)
      moved_cell k hk = ground arith

  -- `list_insert` at a position up to the length puts the element there, and what stood there and
  -- behind it follows.
  pub list_insert-contents :
      (pos : ℕ) (e : E) (l : ArrayList E)
      → IsValid l
      → pos ≤ l.len
      → Yields (list_insert pos e l) (take pos (contents l) ++ e ∷ drop pos (contents l))
  unfolding list_insert
  list_insert-contents pos e l v h = record {
    result = record l {
      data_of = update (moved_down l.data_of pos (l.len - pos)) pos e;
      len = l.len + 1;
      size = room_of l;
    };
    returned = rw (
      make_room-room_of l,
      move_down-moved_down (l.len - pos) pos (record l { size = room_of l })
          (omega (arith, len-lt-room_of l v)),
      set_cell-inside pos e
          (record l { data_of = moved_down l.data_of pos (l.len - pos); size = room_of l })
          (omega (arith, len-lt-room_of l v)),
    );
    valid = omega (arith, len-lt-room_of l v);
    elements = insert-slices l.data_of e pos l.len h;
  }

  remove-slices :
      (d : ℕ → E) (pos n : ℕ)
      → pos < n
      → slice (moved_up d pos (n - 1 - pos)) 0 (n - 1)
        ≡ take pos (slice d 0 n) ++ drop (pos + 1) (slice d 0 n)
  remove-slices d pos n h =
      let d' : ℕ → E = moved_up d pos (n - 1 - pos) in
      rw (take-slice d 0 n pos (omega arith), drop-slice d 0 n (pos + 1) (omega arith))
        (ap (slice d' 0) {x = n - 1} {y = pos + (n - (pos + 1))} (omega arith)
          ∙ slice-append d' 0 pos (n - (pos + 1))
          ∙ ap₂ ◌++◌ (slice_ext d' d 0 0 pos (λ k hk. ground arith))
              (slice_ext d' d (0 + pos) (0 + (pos + 1)) (n - (pos + 1)) (λ k hk. ground arith)))

  -- `list_remove` at a position of the list takes out the element there, and what stood behind it
  -- follows.
  pub list_remove-contents :
      (pos : ℕ) (l : ArrayList E)
      → IsValid l
      → pos < l.len
      → Yields (list_remove pos l) (take pos (contents l) ++ drop (pos + 1) (contents l))
  unfolding list_remove
  list_remove-contents pos l v h = record {
    result = record l { data_of = moved_up l.data_of pos (l.len - 1 - pos); len = l.len - 1 };
    returned = rw (nonempty, move_up-moved_up (l.len - 1 - pos) pos l (omega arith));
    valid = omega arith;
    elements = remove-slices l.data_of pos l.len h;
  }
    where
      nonempty : (l.len == 0) ≡ false
      nonempty = ground arith
