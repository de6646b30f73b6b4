-- ===== src/ArrayList/Mapping/Traversals.antt =====
-- What `list_filter`, `list_foldl` and `list_foreach` of a8/q1/list.c give.
use mathlib.Core.List.{foldl, append-nil, append_assoc}
use cs213_assignments.Common.{
  ℕ, zero, suc, ◌+◌, ◌≤◌, ◌≡◌, refl, ap, ap₂, sym, ◌∙◌, Bool, some, List, [], ◌∷◌, ◌++◌, arith,
  if◌then◌else◌, drop, Bool-cases, inl, inr,
}
use cs213_assignments.ArrayList.{ArrayList, IsValid, list_insert}
use cs213_assignments.ArrayList.Slice.{slice, take-slice, drop-slice}
use cs213_assignments.ArrayList.Cells.{contents, get_cell-inside}
use cs213_assignments.ArrayList.Edits.{Yields, list_insert-contents}
use cs213_assignments.ArrayList.Mapping.{
  foldl_from, list_foldl, filter_from, list_filter, foreach_from, list_foreach,
}

module _ {E : Type 0} where
  -- The elements that pass the test, in order.
  pub keep : (E → Bool) → List E → List E
  keep f [] = []
  keep f (x ∷ xs) = if f x then x ∷ keep f xs else keep f xs

  -- An insertion at the length is an addition at the end.
  list_insert_last :
      (e : E) (l : ArrayList E) → IsValid l → Yields (list_insert l.len e l) (contents l ++ e ∷ [])
  unfolding slice
  list_insert_last e l v =
      let y = list_insert-contents l.len e l v (omega arith) in
      record {
        result = y.result;
        returned = y.returned;
        valid = y.valid;
        elements =
            y.elements
            ∙ ap₂ (λ xs ys. xs ++ e ∷ ys) (take-slice l.data_of 0 l.len l.len (omega arith))
                (nothing_left l.data_of l.len);
      }
    where
      nothing_left : (d : ℕ → E) (n : ℕ) → drop n (slice d 0 n) ≡ []
      nothing_left d n =
          drop-slice d 0 n n (omega arith) ∙ ap (slice d (0 + n)) {y = 0} (omega arith)

  filter_from-keep :
      (f : E → Bool) (rounds i : ℕ) (out in_list : ArrayList E)
      → IsValid out
      → i + rounds ≤ in_list.size
      → Yields
          (filter_from f rounds i out in_list)
          (contents out ++ keep f (slice in_list.data_of i rounds))
  unfolding filter_from keep slice
  filter_from-keep f zero i out in_list v inside = record {
    result = out;
    returned = refl;
    valid = v;
    elements = sym (append-nil _);
  }
  filter_from-keep f (suc rounds) i out in_list v inside =
      let x : E = in_list.data_of i in
      rw (get_cell-inside i in_list (omega arith)) (elim (Bool-cases (f x)) [
        | inl kept ↦
            let first = list_insert_last x out v in
            let rest =
              filter_from-keep f rounds (i + 1) first.result in_list first.valid (omega arith) in
            rw (kept, first.returned)
              (record {
                result = rest.result;
                returned = rest.returned;
                valid = rest.valid;
                elements =
                    rest.elements
                    ∙ ap (λ xs. xs ++ keep f (slice in_list.data_of (i + 1) rounds)) first.elements
                    ∙ append_assoc (contents out) (x ∷ [])
                        (keep f (slice in_list.data_of (i + 1) rounds));
              })
        | inr dropped ↦ rw dropped (filter_from-keep f rounds (i + 1) out in_list v (omega arith))
      ])

  -- `list_filter` from one well-formed list into another adds the elements that pass the test behind
  -- those of the output list, in order.
  pub list_filter-contents :
      (f : E → Bool) (out in_list : ArrayList E)
      → IsValid out
      → IsValid in_list
      → Yields (list_filter f out in_list) (contents out ++ keep f (contents in_list))
  unfolding list_filter
  list_filter-contents f out in_list v v' =
      filter_from-keep f in_list.len 0 out in_list v (omega arith)

  foldl_from-foldl :
      (f : E → E → E → E) (rounds i : ℕ) (acc : E) (l : ArrayList E)
      → i + rounds ≤ l.size
      → foldl_from f rounds i acc l ≡ some (foldl (λ a x. f a a x) acc (slice l.data_of i rounds))
  unfolding foldl_from slice
  foldl_from-foldl f zero i acc l h = refl
  foldl_from-foldl f (suc rounds) i acc l h =
      rw (get_cell-inside i l (omega arith))
        (foldl_from-foldl f rounds (i + 1) (f acc acc (l.data_of i)) l (omega arith))

  foreach_from-slice :
      (rounds i : ℕ) (l : ArrayList E)
      → i + rounds ≤ l.size
      → foreach_from rounds i l ≡ some (slice l.data_of i rounds)
  unfolding foreach_from slice
  foreach_from-slice zero i l h = refl
  foreach_from-slice (suc rounds) i l h =
      rw (get_cell-inside i l (omega arith), foreach_from-slice rounds (i + 1) l (omega arith))

  -- On a well-formed list `list_foldl` is the left fold over the elements, the function being given
  -- the accumulator twice, and `list_foreach` calls its function with the elements in order.
  pub list_foldl-contents :
      (f : E → E → E → E) (acc : E) (l : ArrayList E)
      → IsValid l
      → (list_foldl f acc l ≡ some (foldl (λ a x. f a a x) acc (contents l)))
        × (list_foreach l ≡ some (contents l))
  unfolding list_foldl list_foreach
  list_foldl-contents f acc l v =
      (foldl_from-foldl f l.len 0 acc l (omega arith), foreach_from-slice l.len 0 l (omega arith))
