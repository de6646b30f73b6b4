-- ===== src/ElementTree/Sorted.antt =====
-- The tree of a7/q3/tree.c is a search tree, and what is inserted is in it.
use Prim.Native.Nat.{Ordering}
use Prim.Native.Nat.Ordering.{lt, eq, gt}
use cs213_assignments.Common.{
  ℕ, ◌<◌, ◌≡◌, refl, sym, subst, Bool, true, false, Option, some, List, [], ◌∷◌, ◌++◌, arith,
  Bool-cases, inl, inr,
}
use cs213_assignments.RefCount.Counts.{count, count-append}
use cs213_assignments.ElementTree.{is_le, Tree, leaf, node, tree_insert_node}

-- The elements from the left to the right.
abbrev pub elements : Tree → List ℕ
elements leaf = []
elements (node elem left right) = elements left ++ elem ∷ elements right

pub is_above : (o : Ordering) → is_le o ≡ false → o ≡ gt
is_above lt e = ground arith
is_above eq e = ground arith
is_above gt e = refl

module _ {K : Type 0} (cmp : K → K → Ordering) (value : ℕ → K) where
  abbrev pub AllBelow : ℕ → Tree → Type 0
  AllBelow top leaf = Unit {0}
  AllBelow top (node e l r) =
      (is_le (cmp (value e) (value top)) ≡ true) × AllBelow top l × AllBelow top r

  abbrev pub AllAbove : ℕ → Tree → Type 0
  AllAbove top leaf = Unit {0}
  AllAbove top (node e l r) = (cmp (value e) (value top) ≡ gt) × AllAbove top l × AllAbove top r

  -- To the left stand elements that are not above, to the right elements that are above.
  abbrev pub IsSearchTree : Tree → Type 0
  IsSearchTree leaf = Unit {0}
  IsSearchTree (node e l r) = AllBelow e l × AllAbove e r × IsSearchTree l × IsSearchTree r

  -- The insertion alone.
  pub insert : ℕ → Tree → Tree
  insert e leaf = node e leaf leaf
  insert e (node x l r) = elim (is_le (cmp (value e) (value x))) [
    | true ↦ node x (insert e l) r
    | false ↦ node x l (insert e r)
  ]

  insert-left :
      (e x : ℕ) (l r : Tree)
      → is_le (cmp (value e) (value x)) ≡ true
      → insert e (node x l r) ≡ node x (insert e l) r
  unfolding insert
  insert-left e x l r le = rw (insert, le)

  insert-right :
      (e x : ℕ) (l r : Tree)
      → is_le (cmp (value e) (value x)) ≡ false
      → insert e (node x l r) ≡ node x l (insert e r)
  unfolding insert
  insert-right e x l r above = rw (insert, above)

  module _ {H : Type 0} (goes_left : ℕ → ℕ → H → Option Bool)
      (keep release : ℕ → H → Option H) where
    -- If the test compares the values and the element can be kept, the insertion keeps it and puts it
    -- into the tree.
    pub tree_insert_node-insert :
        (e : ℕ) (t : Tree) (h : H) {h' : H}
        → ((x : ℕ)
            → 0 < count x (elements t)
            → goes_left e x h ≡ some (is_le (cmp (value e) (value x))))
        → keep e h ≡ some h'
        → tree_insert_node goes_left keep release t e h ≡ some (insert e t, h')
    unfolding tree_insert_node insert
    tree_insert_node-insert e leaf h tests k = rw (tree_insert_node, insert, k)
    tree_insert_node-insert e (node x l r) h tests k =
        elim (Bool-cases (is_le (cmp (value e) (value x)))) [
          | inl le ↦ rw (
            tests x (ground (arith, count-append x (elements l) (x ∷ elements r))),
            le,
            insert-left e x l r le,
            tree_insert_node-insert e l h
                (λ y i. tests y (ground (arith, count-append y (elements l) (x ∷ elements r)))) k,
          )
          | inr above ↦ rw (
            tests x (ground (arith, count-append x (elements l) (x ∷ elements r))),
            above,
            insert-right e x l r above,
            tree_insert_node-insert e r h
                (λ y i. tests y (ground (arith, count-append y (elements l) (x ∷ elements r)))) k,
          )
        ]

  -- The element is in the tree once more, and all others as often as before.
  pub count-insert :
      (e y : ℕ) (t : Tree) → count y (elements (insert e t)) ≡ count y (e ∷ elements t)
  unfolding insert
  count-insert e y leaf = refl
  count-insert e y (node x l r) = elim (Bool-cases (is_le (cmp (value e) (value x)))) [
    | inl le ↦ ground (
      arith,
      insert-left e x l r le,
      count-insert e y l,
      count-append y (elements (insert e l)) (x ∷ elements r),
      count-append y (elements l) (x ∷ elements r),
    )
    | inr above ↦ ground (
      arith,
      insert-right e x l r above,
      count-insert e y r,
      count-append y (elements l) (x ∷ elements (insert e r)),
      count-append y (elements l) (x ∷ elements r),
    )
  ]

  AllBelow-insert :
      (top e : ℕ) (t : Tree)
      → is_le (cmp (value e) (value top)) ≡ true
      → AllBelow top t
      → AllBelow top (insert e t)
  unfolding insert
  AllBelow-insert top e leaf le a = (le, tt, tt)
  AllBelow-insert top e (node x l r) under a = elim (Bool-cases (is_le (cmp (value e) (value x)))) [
    | inl le ↦
        subst (AllBelow top) (sym (insert-left e x l r le))
          (a.0, AllBelow-insert top e l under a.1, a.2)
    | inr above ↦
        subst (AllBelow top) (sym (insert-right e x l r above))
          (a.0, a.1, AllBelow-insert top e r under a.2)
  ]

  AllAbove-insert :
      (top e : ℕ) (t : Tree)
      → cmp (value e) (value top) ≡ gt
      → AllAbove top t
      → AllAbove top (insert e t)
  unfolding insert
  AllAbove-insert top e leaf over a = (over, tt, tt)
  AllAbove-insert top e (node x l r) over a = elim (Bool-cases (is_le (cmp (value e) (value x)))) [
    | inl le ↦
        subst (AllAbove top) (sym (insert-left e x l r le))
          (a.0, AllAbove-insert top e l over a.1, a.2)
    | inr above ↦
        subst (AllAbove top) (sym (insert-right e x l r above))
          (a.0, a.1, AllAbove-insert top e r over a.2)
  ]

  -- The insertion keeps a search tree a search tree.
  pub insert-IsSearchTree : (e : ℕ) (t : Tree) → IsSearchTree t → IsSearchTree (insert e t)
  unfolding insert
  insert-IsSearchTree e leaf s = (tt, tt, tt, tt)
  insert-IsSearchTree e (node x l r) s = elim (Bool-cases (is_le (cmp (value e) (value x)))) [
    | inl le ↦
        subst IsSearchTree (sym (insert-left e x l r le))
          (AllBelow-insert x e l le s.0, s.1, insert-IsSearchTree e l s.2, s.3)
    | inr above ↦ subst IsSearchTree (sym (insert-right e x l r above)) (
      s.0,
      AllAbove-insert x e r (is_above (cmp (value e) (value x)) above) s.1,
      s.2,
      insert-IsSearchTree e r s.3,
    )
  ]
