-- ===== src/ElementList/Tests.antt =====
-- A list of three elements, of which the one in the middle is deleted.
use cs213_assignments.Common.{ℕ, ◌≡◌, refl, Option, some, List, [], ◌∷◌, ◌++◌}
use cs213_assignments.ElementList.{ElementList, list_new, list_delete_element}
use cs213_assignments.ElementList.Laws.{IsList, list_new-IsList}
use cs213_assignments.ElementList.Whole.{list_add_element-IsList, list_delete_element-IsList}

-- The elements are counted in and out.
abbrev keep : ℕ → ℕ → Option ℕ
keep e h = some h

abbrev release : ℕ → ℕ → Option ℕ
release e h = some e

added :
    (e : ℕ) {l : ElementList} {xs : List (ℕ × ℕ)}
    → IsList l xs
    → (l' : ElementList) × IsList l' (xs ++ (l.fresh, e) ∷ [])
added e i = let (l', got, i') = list_add_element-IsList keep release e {h = 0} i refl in (l', i')

abbrev one : ElementList
one = (added 5 list_new-IsList).0

abbrev two : ElementList
two = (added 6 (added 5 list_new-IsList).1).0

abbrev three : ElementList
three = (added 7 (added 6 (added 5 list_new-IsList).1).1).0

three-IsList : IsList three ((list_new.fresh, 5) ∷ (one.fresh, 6) ∷ (two.fresh, 7) ∷ [])
three-IsList = (added 7 (added 6 (added 5 list_new-IsList).1).1).1

list_delete_element-IsList_example :
    (l' : ElementList) × (list_delete_element keep release one.fresh three 0 ≡ some (l', 6))
    × IsList l' ((list_new.fresh, 5) ∷ (two.fresh, 7) ∷ [])
list_delete_element-IsList_example =
    list_delete_element-IsList keep release one.fresh 6 ((list_new.fresh, 5) ∷ [])
      ((two.fresh, 7) ∷ []) three-IsList refl
