-- ===== src/ElementTree/Owned.antt =====
-- The references of the tree of a7/q3/tree.c: it keeps one for each place at which an element stands.
use Prim.Native.Nat.{Ordering}
use Prim.Native.Nat.Ordering.{eq}
use cs213_assignments.Common.{ℕ, ◌+◌, ◌<◌, ◌≡◌, refl, ◌∙◌, Option, some, List, [], ◌∷◌, ◌++◌, arith}
use cs213_assignments.RefCount.Counts.{count, count-append}
use cs213_assignments.Ownership.{Ownership}
use cs213_assignments.ElementTree.{
  Tree, leaf, node, goes_left, tree_insert_node, tree_delete, Line, tree_ordered_print,
  tree_ordered_print_helper,
}
use cs213_assignments.ElementTree.Sorted.{elements, insert, tree_insert_node-insert}

-- The comparison of what is read, which is there.
abbrev pub compare_contents : {V : Type 0} → (V → V → Ordering) → Option V → Option V → Ordering
compare_contents cmp (some v) (some w) = cmp v w
compare_contents cmp v w = eq

module _ {H V : Type 0} {keep release : ℕ → H → Option H} {content : ℕ → H → Option V}
    (own : Ownership keep release content) (cmp : V → V → Ordering) where
  -- An element that has a reference is inserted and has one more.
  pub tree_insert_node-owned :
      (e : ℕ) (t : Tree) {h : H} {refs : List ℕ}
      → own.Owns h refs
      → 0 < count e refs
      → ((x : ℕ) → 0 < count x (elements t) → 0 < count x refs)
      → (h' : H) × (tree_insert_node (goes_left content cmp) keep release t e h
          ≡ some (insert (compare_contents cmp) (λ a. content a h) e t, h'))
        × own.Owns h' (e ∷ refs)
        × ((x : ℕ) → content x h' ≡ content x h)
  unfolding goes_left
  tree_insert_node-owned e t {h} o here in_refs =
      let (h', kept, o', same) = own.keep_owned e o here in
      let (v, v_is) = own.owned_content o e here in
      (
        h',
        tree_insert_node-insert (compare_contents cmp) (λ a. content a h) (goes_left content cmp)
            keep release e t h
            (λ x i.
              let (w, w_is) = own.owned_content o x (in_refs x i) in rw (goes_left, v_is, w_is))
            kept,
        o',
        same,
      )

  -- Deleting the tree lets go of all its references.
  pub tree_delete-owned :
      (t : Tree) {h : H} {refs : List ℕ}
      → own.Owns h (elements t ++ refs)
      → (h' : H) × (tree_delete (goes_left content cmp) keep release t h ≡ some h')
        × own.Owns h' refs
        × ((x : ℕ) → 0 < count x refs → content x h' ≡ content x h)
  unfolding tree_delete
  tree_delete-owned leaf {h} o = (h, refl, o, λ x p. refl)
  tree_delete-owned (node e l r) {h} {refs} o =
      let o0 = own.same_counts {refs' = elements l ++ (elements r ++ (e ∷ refs))} o (λ a. ground (
        arith,
        count-append a (elements l ++ e ∷ elements r) refs,
        count-append a (elements l) (e ∷ elements r),
        count-append a (elements l) (elements r ++ (e ∷ refs)),
        count-append a (elements r) (e ∷ refs),
      )) in
      let (h1, left, o1, same1) = tree_delete-owned l o0 in
      let (h2, right, o2, same2) = tree_delete-owned r o1 in
      let (h3, last, o3, same3) = own.release_owned e o2 in
      (
        h3,
        rw (left, right, last),
        o3,
        λ x p.
            same3 x p
            ∙ same2 x (ground arith)
            ∙ same1 x (ground (arith, count-append x (elements r) (e ∷ refs))),
      )

module _ {H V : Type 0} {keep release : ℕ → H → Option H} {content : ℕ → H → Option V}
    (own : Ownership keep release content) where
  -- What is in the tree can be printed.
  tree_ordered_print_helper-owned :
      (t : Tree) (depth : ℕ) {h : H} {refs : List ℕ}
      → own.Owns h refs
      → ((x : ℕ) → 0 < count x (elements t) → 0 < count x refs)
      → (lines : List (Line V)) × (tree_ordered_print_helper content t depth h ≡ some lines)
  unfolding tree_ordered_print_helper
  tree_ordered_print_helper-owned leaf depth o in_refs = ([], refl)
  tree_ordered_print_helper-owned (node e l r) depth o in_refs =
      let (v, here) =
        own.owned_content o e
          (in_refs e (ground (arith, count-append e (elements l) (e ∷ elements r)))) in
      let (above, left) =
        tree_ordered_print_helper-owned l (depth + 1) o
          (λ x i. in_refs x (ground (arith, count-append x (elements l) (e ∷ elements r)))) in
      let (below, right) =
        tree_ordered_print_helper-owned r (depth + 1) o
          (λ x i. in_refs x (ground (arith, count-append x (elements l) (e ∷ elements r)))) in
      (record { depth = depth; value = v } ∷ (above ++ below), rw (here, left, right))

  -- The print depends on what the elements of the tree contain.
  tree_ordered_print_helper-same :
      (t : Tree) (depth : ℕ) {h h' : H}
      → ((x : ℕ) → 0 < count x (elements t) → content x h' ≡ content x h)
      → tree_ordered_print_helper content t depth h' ≡ tree_ordered_print_helper content t depth h
  unfolding tree_ordered_print_helper
  tree_ordered_print_helper-same leaf depth same = refl
  tree_ordered_print_helper-same (node e l r) depth same = rw (
    same e (ground (arith, count-append e (elements l) (e ∷ elements r))),
    tree_ordered_print_helper-same l (depth + 1)
        (λ x i. same x (ground (arith, count-append x (elements l) (e ∷ elements r)))),
    tree_ordered_print_helper-same r (depth + 1)
        (λ x i. same x (ground (arith, count-append x (elements l) (e ∷ elements r)))),
  )

  pub tree_ordered_print-owned :
      (t : Tree) {h : H} {refs : List ℕ}
      → own.Owns h refs
      → ((x : ℕ) → 0 < count x (elements t) → 0 < count x refs)
      → (lines : List (Line V)) × (tree_ordered_print content t h ≡ some lines)
  unfolding tree_ordered_print
  tree_ordered_print-owned t o in_refs = tree_ordered_print_helper-owned t 0 o in_refs

  pub tree_ordered_print-same :
      (t : Tree) {h h' : H}
      → ((x : ℕ) → 0 < count x (elements t) → content x h' ≡ content x h)
      → tree_ordered_print content t h' ≡ tree_ordered_print content t h
  unfolding tree_ordered_print
  tree_ordered_print-same t same = tree_ordered_print_helper-same t 0 same
