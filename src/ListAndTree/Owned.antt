-- ===== src/ListAndTree/Owned.antt =====
-- The references of the programs a5/q3/main.c and a7/q3/main.c: the tree and the list hold theirs on
-- their own, so that the tree is as it was when the list is gone.
use Prim.Native.Nat.{Ordering}
use cs213_assignments.Common.{
  ℕ, ◌<◌, ◌≡◌, refl, sym, ◌∙◌, fun_ext, subst, Bool, Bool-cases, inl, inr, Option, some, List, [],
  ◌∷◌, ◌++◌, length, arith, if◌then◌else◌,
}
use cs213_assignments.RefCount.Counts.{count, count-append}
use cs213_assignments.Ownership.{Ownership}
use cs213_assignments.ElementList.{ElementList}
use cs213_assignments.ElementList.Laws.{IsList}
use cs213_assignments.ElementList.Whole.{release_all, list_delete-IsList}
use cs213_assignments.ElementTree.{Tree, Line, tree_insert_node, goes_left, tree_ordered_print}
use cs213_assignments.ElementTree.Sorted.{
  elements, insert, IsSearchTree, insert-IsSearchTree, count-insert,
}
use cs213_assignments.ElementTree.Owned.{
  compare_contents, tree_insert_node-owned, tree_delete-owned, tree_ordered_print-owned,
  tree_ordered_print-same,
}
use cs213_assignments.ListAndTree.{insert_included, delete_and_print}
use cs213_assignments.ListAndTree.Walk.{elems, each_of}

-- The elements that the function picks, called once for each.
abbrev pub picked : {C : Type 0} → (C → C × Bool) → C → List ℕ → List ℕ
picked include calls [] = []
picked include calls (e ∷ es) =
    let (calls, included) = include calls in
    let rest = picked include calls es in if included then e ∷ rest else rest

module _ {H V : Type 0} {keep release : ℕ → H → Option H} {content : ℕ → H → Option V}
    (own : Ownership keep release content) (cmp : V → V → Ordering) where
  -- The tree is a search tree of what its elements contain.
  abbrev pub IsSorted : H → Tree → Type 0
  IsSorted h t = IsSearchTree (compare_contents cmp) (λ a. content a h) t

  -- A search tree, with references of its own beside the others.
  pub record IsOwnedTree (t : Tree) (h : H) (refs : List ℕ) : Type 0 where
    pub owned : own.Owns h (elements t ++ refs)
    pub sorted : IsSorted h t

  IsOwnedTree-insert :
      (e : ℕ) (t : Tree) {h : H} {refs : List ℕ}
      → IsOwnedTree t h refs
      → 0 < count e refs
      → (t' : Tree) × (h' : H) × (tree_insert_node (goes_left content cmp) keep release t e h
          ≡ some (t', h'))
        × IsOwnedTree t' h' refs
        × ((x : ℕ) → count x (elements t') ≡ count x (e ∷ elements t))
        × ((x : ℕ) → content x h' ≡ content x h)
  IsOwnedTree-insert e t {h} {refs} o here =
      let value : ℕ → Option V = λ a. content a h in
      let t' = insert (compare_contents cmp) value e t in
      let in_tree : (x : ℕ) → count x (elements t') ≡ count x (e ∷ elements t) =
        λ x. count-insert (compare_contents cmp) value e x t in
      let (h', got, owns, same) =
        tree_insert_node-owned own cmp e t o.owned
          (ground (arith, count-append e (elements t) refs))
          (λ x i. ground (arith, count-append x (elements t) refs)) in
      (
        t',
        h',
        got,
        record {
          owned = own.same_counts owns (λ x. ground (
            arith,
            in_tree x,
            count-append x (elements t) refs,
            count-append x (elements t') refs,
          ));
          sorted =
              subst (λ v. IsSearchTree (compare_contents cmp) v t') (fun_ext λ a. sym (same a))
                (insert-IsSearchTree (compare_contents cmp) value e t o.sorted);
        },
        in_tree,
        same,
      )

  -- If all elements have references, then whatever function picks them, the tree is a search tree in
  -- the end, with a reference of its own to each element that is picked beside those that it has had.
  pub each_of-insert_included :
      {C : Type 0} (include : C → C × Bool) (es : List ℕ) (calls : C) (t : Tree) {h : H}
      {refs : List ℕ}
      → IsOwnedTree t h refs
      → ((x : ℕ) → 0 < count x es → 0 < count x refs)
      → (calls' : C) × (t' : Tree) × (h' : H) × (each_of
            (insert_included content cmp keep release include)
            es
            (calls, t, h)
          ≡ some (calls', t', h'))
        × IsOwnedTree t' h' refs
        × ((x : ℕ) → count x (elements t') ≡ count x (picked include calls es ++ elements t))
        × ((x : ℕ) → content x h' ≡ content x h)
  unfolding each_of insert_included
  each_of-insert_included include [] calls t {h} o in_refs =
      (calls, t, h, refl, o, λ x. refl, λ x. refl)
  each_of-insert_included include (e ∷ es) calls t {h} o in_refs =
      elim (Bool-cases (include calls).1) [
        | inl yes_it ↦
            let (t1, h1, got, o1, more, same1) =
              IsOwnedTree-insert e t o (in_refs e (ground arith)) in
            let (calls', t', h', rest, o', counts, same) =
              each_of-insert_included include es (include calls).0 t1 o1
                (λ x i. in_refs x (ground arith)) in
            (
              calls',
              t',
              h',
              rw (each_of, insert_included, yes_it, got, rest),
              o',
              λ x. ground (
                arith,
                yes_it,
                counts x,
                more x,
                count-append x (picked include (include calls).0 es) (elements t1),
                count-append x (picked include (include calls).0 es) (elements t),
              ),
              λ x. same x ∙ same1 x,
            )
        | inr not_it ↦
            let (calls', t', h', rest, o', counts, same) =
              each_of-insert_included include es (include calls).0 t o
                (λ x i. in_refs x (ground arith)) in
            (
              calls',
              t',
              h',
              rw (each_of, insert_included, not_it, rest),
              o',
              λ x. ground (arith, not_it, counts x),
              same,
            )
      ]

  release_all-owned :
      (list_keep : ℕ → H → Option H) (xs : List (ℕ × ℕ)) {h : H} {refs : List ℕ}
      → own.Owns h (elems xs ++ refs)
      → (h' : H) × (release_all list_keep release xs h ≡ some h')
        × own.Owns h' refs
        × ((x : ℕ) → 0 < count x refs → content x h' ≡ content x h)
  unfolding release_all
  release_all-owned list_keep [] {h} o = (h, refl, o, λ x i. refl)
  release_all-owned list_keep ((a, e) ∷ xs) {h} {refs} o =
      let (h1, first, o1, same1) = own.release_owned e o in
      let (h', rest, o', same) = release_all-owned list_keep xs o1 in
      (
        h',
        rw (first, rest),
        o',
        λ x i. same x i ∙ same1 x (ground (arith, count-append x (elems xs) refs)),
      )

  -- With the references of the list and of the tree and no others, the list is deleted, the tree is
  -- printed as before, and nothing is left in the end.
  pub delete_and_print-owned :
      (list_keep : ℕ → H → Option H) (fuel : ℕ) (l : ElementList) (xs : List (ℕ × ℕ)) (t : Tree)
      {h : H}
      → IsList l xs
      → length xs < fuel
      → own.Owns h (elements t ++ elems xs)
      → (lines : List (Line V)) × (l' : ElementList) × (h' : H) × (tree_ordered_print content t h
          ≡ some lines)
        × (delete_and_print content cmp keep release list_keep fuel l t h ≡ some (lines, l', h'))
        × IsList l' []
        × own.Owns h' []
  unfolding delete_and_print
  delete_and_print-owned list_keep fuel l xs t {h} i enough o =
      let o0 = own.same_counts {refs' = elems xs ++ (elements t ++ [])} o (λ a. ground (
        arith,
        count-append a (elements t) (elems xs),
        count-append a (elems xs) (elements t ++ []),
        count-append a (elements t) [],
      )) in
      let (h1, released, o1, same) = release_all-owned list_keep xs o0 in
      let (l', deleted, i') = list_delete-IsList list_keep release fuel xs l h i enough released in
      let (lines, printed) =
        tree_ordered_print-owned own t o
          (λ x p. ground (arith, count-append x (elements t) (elems xs))) in
      let again =
        tree_ordered_print-same own t
          (λ x p. same x (ground (arith, count-append x (elements t) []))) in
      let (h2, tree_gone, o2, _) = tree_delete-owned own cmp t o1 in
      (lines, l', h2, printed, rw (deleted, again, printed, tree_gone), i', o2)
