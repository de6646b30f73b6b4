-- ===== src/ArrayList/Search.antt =====
-- `list_get` and `list_index` of a8/q1/list.c on the list of the elements.
use cs213_assignments.Common.{
  ℕ, zero, suc, ◌+◌, ◌<◌, ◌≤◌, ◌≡◌, refl, ap, sym, ◌∙◌, Bool, Option, some, none, List, [], ◌∷◌,
  arith, if◌then◌else◌, get_elem?, Bool-cases, inl, inr,
}
use cs213_assignments.ArrayList.{ArrayList, list_get, list_index, index_from, IsValid}
use cs213_assignments.ArrayList.Slice.{slice, get_elem?-slice}
use cs213_assignments.ArrayList.Cells.{contents, get_cell-inside}

-- The position of the first element that passes the test, counted from `i`.
pub first_index {ℓ} : {A : Type ℓ} → (A → Bool) → ℕ → List A → Option ℕ
first_index p i [] = none
first_index p i (x ∷ xs) = if p x then some i else first_index p (i + 1) xs

module _ {E : Type 0} where
  -- `list_get` at a position of a well-formed list gives the element there.
  pub list_get-contents :
      (pos : ℕ) (l : ArrayList E)
      → IsValid l
      → pos < l.len
      → list_get pos l ≡ get_elem? (contents l) pos
  unfolding list_get
  list_get-contents pos l v h =
      get_cell-inside pos l (omega arith)
      ∙ sym (
          get_elem?-slice l.data_of 0 l.len pos h
          ∙ ap (λ (j : ℕ). some (l.data_of j)) (omega arith))

  index_from-first_index :
      (equal : E → E → Bool) (rounds i : ℕ) (e : E) (l : ArrayList E)
      → i + rounds ≤ l.size
      → index_from equal rounds i e l
        ≡ some (first_index (λ x. equal x e) i (slice l.data_of i rounds))
  unfolding index_from first_index slice
  index_from-first_index equal zero i e l h = refl
  index_from-first_index equal (suc rounds) i e l h =
      rw (get_cell-inside i l (omega arith)) (elim (Bool-cases (equal (l.data_of i) e)) [
        | inl found ↦ rw found
        | inr other ↦ rw other (index_from-first_index equal rounds (i + 1) e l (omega arith))
      ])

  -- On a well-formed list `list_index` never reads outside the array. It gives the position of the
  -- first element that equals `e`, and -1 where there is none.
  pub list_index-contents :
      (equal : E → E → Bool) (e : E) (l : ArrayList E)
      → IsValid l
      → list_index equal e l ≡ some (first_index (λ x. equal x e) 0 (contents l))
  unfolding list_index
  list_index-contents equal e l v = index_from-first_index equal l.len 0 e l (omega arith)
