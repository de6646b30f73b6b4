-- ===== src/ElementList/Whole.antt =====
-- The operations of a7/q3/list.c on the list as a whole.
use cs213_assignments.Common.{
  ℕ, zero, suc, ◌≡◌, ◌≢◌, ◌<◌, refl, sym, ◌∙◌, ap, subst, true, false, Option, none, some, List, [],
  ◌∷◌, ◌++◌, arith, update, update-ne, >>=-eq-some, ℕ_discrete, ◌>>=◌, length,
}
use cs213_assignments.ElementList.{
  ListNode, ElementList, set_node, list_add_element, list_delete_element, delete_from, list_delete,
  list_node_get_next,
}
use cs213_assignments.ElementList.Segment.{
  Segment, nil, cons, node_of, has, has-append, Distinct, frame, join, split,
}
use cs213_assignments.ElementList.Laws.{IsList, linked, unlinked_next, unlinked_prev, Distinct-snoc}

Distinct-split :
    (n e : ℕ) (xs ys : List (ℕ × ℕ))
    → Distinct (xs ++ (n, e) ∷ ys)
    → Distinct xs
      × Distinct ys
      × Distinct (xs ++ ys)
      × (has n xs ≡ false)
      × (has n ys ≡ false)
      × ((a : ℕ) → has a xs ≡ true → has a ys ≡ false)
Distinct-split n e [] ys d = (tt, d.1, d.1, refl, d.0, λ a i. cc)
Distinct-split n e ((x, f) ∷ xs) ys d =
    let (dx, dy, both, nx, ny, apart) = Distinct-split n e xs ys d.1 in
    let outside = has-append x xs ((n, e) ∷ ys) in
    (
      (ground (arith, outside, d.0), dx),
      dy,
      (ground (arith, outside, d.0, has-append x xs ys), both),
      ground (arith, nx, outside, d.0),
      ny,
      λ a i. ground (arith, apart a, outside, d.0),
    )

other :
    (n a : ℕ) (xs ys : List (ℕ × ℕ))
    → has n xs ≡ false
    → has n ys ≡ false
    → has a (xs ++ ys) ≡ true
    → n ≢ a
other n a xs ys nx ny j e = ground (arith, has-append n xs ys, ap (λ b. has b (xs ++ ys)) e)

gone :
    (n e a : ℕ) (xs ys : List (ℕ × ℕ)) (node : ℕ → Option ListNode)
    → has a (xs ++ ys) ≡ false
    → ((has a xs ≡ false) × (has a ys ≡ false) × (has a (xs ++ (n, e) ∷ ys) ≡ false)
        → node a ≡ none)
    → update node n none a ≡ none
gone n e a xs ys node out rest = elim (ℕ_discrete n a) [
  | yes same ↦ ground (arith, same)
  | no d ↦
      update-ne node n a none d
      ∙ rest (
        ground (arith, has-append a xs ys),
        ground (arith, has-append a xs ys),
        ground (arith, has-append a xs ys, has-append a xs ((n, e) ∷ ys)),
      )
]

first_of :
    {node : ℕ → Option ListNode} {p f l q : Option ℕ} {n e : ℕ} {ys : List (ℕ × ℕ)}
    → Segment node p f l q ((n, e) ∷ ys)
    → (f ≡ some n)
      × (r : Option ℕ) × (node n ≡ some (node_of e p r))
      × Segment node (some n) r l q ys
first_of (cons {f} h s) = (refl, f, h, s)

abbrev first_or : Option ℕ → List (ℕ × ℕ) → Option ℕ
first_or q [] = q
first_or q ((a, e) ∷ xs) = some a

starts :
    {node : ℕ → Option ListNode} {p f l q : Option ℕ} {xs : List (ℕ × ℕ)}
    → Segment node p f l q xs
    → f ≡ first_or q xs
starts nil = refl
starts (cons h s) = refl

module _ {H : Type 0} (keep release : ℕ → H → Option H) where
  -- If the element can be kept, the list gets it at its end, in a new node.
  pub list_add_element-IsList :
      (e : ℕ) {l : ElementList} {xs : List (ℕ × ℕ)} {h h' : H}
      → IsList l xs
      → keep e h ≡ some h'
      → (l' : ElementList) × (list_add_element keep release e l h ≡ some (l.fresh, l', h'))
        × IsList l' (xs ++ (l.fresh, e) ∷ [])
  unfolding list_add_element
  list_add_element-IsList e {l} {xs} i k =
      let (l', got, fresh, s, others) = linked e l xs i in
      (
        l',
        rw (list_add_element, k, got),
        record {
          segment = s;
          distinct = Distinct-snoc l.fresh e xs i.distinct (i.below l.fresh (omega arith));
          only = λ a out. ground (arith, others a, i.only a, has-append a xs ((l.fresh, e) ∷ []));
          below = λ a le. ground (arith, i.below a, has-append a xs ((l.fresh, e) ∷ []), fresh);
        },
      )

  -- Wherever the node stands, if its element can be let go then it is, and the list is that of the
  -- other nodes.
  pub list_delete_element-IsList :
      (n e : ℕ) (xs ys : List (ℕ × ℕ)) {l : ElementList} {h h' : H}
      → IsList l (xs ++ (n, e) ∷ ys)
      → release e h ≡ some h'
      → (l' : ElementList) × (list_delete_element keep release n l h ≡ some (l', h'))
        × IsList l' (xs ++ ys)
  unfolding list_delete_element set_node
  list_delete_element-IsList n e xs ys {l} i k =
      let (m, r0, s, t) = split xs i.segment in
      let (here, r, there, u) = first_of t in
      let (dx, dy, both, nx, ny, apart) = Distinct-split n e xs ys i.distinct in
      let (l1, got1, s1, tail1, fresh1, others1) =
        unlinked_next n m r e l xs (subst (λ f. Segment l.node none l.head m f xs) here s) dx nx in
      let u1 =
        subst (λ f. Segment l1.node (some n) r f none ys) (sym tail1)
          (frame {node' = l1.node} u λ a j. others1 a (ground (arith, apart a))) in
      let (l2, got2, u2, head2, fresh2, others2) = unlinked_prev n m r e l1 ys u1 dy ny in
      let s2 =
        subst (λ f. Segment l2.node none f m r xs) (sym head2)
          (frame {node' = l2.node} s1 λ a j. others2 a (apart a j)) in
      (
        record l2 { node = update l2.node n none },
        rw (list_delete_element, there, got1, got2, k),
        record {
          segment = frame (join s2 u2) λ a j. update-ne l2.node n a none (other n a xs ys nx ny j);
          distinct = both;
          only = λ a out.
              gone n e a xs ys l2.node out λ b. others2 a b.1 ∙ others1 a b.0 ∙ i.only a b.2;
          below = λ a le.
              ground (
                arith,
                i.below a,
                fresh1,
                fresh2,
                has-append a xs ys,
                has-append a xs ((n, e) ∷ ys),
              );
        },
      )

  -- What deleting the list does to the elements: it lets go of each, in order.
  unfoldable pub release_all : List (ℕ × ℕ) → H → Option H
  release_all [] h = some h
  release_all ((a, e) ∷ xs) h = do h ← release e h; release_all xs h

  delete_from-next :
      (fuel : ℕ) (l : ElementList) (h : H) {n r : Option ℕ} {a : ℕ} {l1 : ElementList} {h1 : H}
      → n ≡ some a
      → list_node_get_next a l ≡ some r
      → list_delete_element keep release a l h ≡ some (l1, h1)
      → delete_from keep release (suc fuel) n l h ≡ delete_from keep release fuel r l1 h1
  unfolding delete_from
  delete_from-next fuel l h at_first next deleted = rw (at_first, next, deleted)

  delete_from-IsList :
      (fuel : ℕ) (xs : List (ℕ × ℕ)) (l : ElementList) (h : H) {h' : H} {n : Option ℕ}
      → IsList l xs
      → n ≡ first_or none xs
      → length xs < fuel
      → release_all xs h ≡ some h'
      → (l' : ElementList) × (delete_from keep release fuel n l h ≡ some (l', h')) × IsList l' []
  unfolding delete_from release_all list_node_get_next
  delete_from-IsList zero xs l h i e enough done = absurd (omega arith)
  delete_from-IsList (suc fuel) [] l h i e enough done = (l, ground (arith, e, done), i)
  delete_from-IsList (suc fuel) ((a, e) ∷ xs) l h i at_first enough done =
      let (h1, let_go, rest) = >>=-eq-some (release e h) (release_all xs) done in
      let (first, r, there, s) = first_of i.segment in
      let (l1, got, i1) = list_delete_element-IsList a e [] xs i let_go in
      let (l2, deleted, i2) = delete_from-IsList fuel xs l1 h1 i1 (starts s) (omega arith) rest in
      (l2, delete_from-next fuel l h at_first (rw (list_node_get_next, there)) got ∙ deleted, i2)

  -- With a round for each node and one more, deleting the list lets go of all its elements in order,
  -- and leaves no node allocated.
  pub list_delete-IsList :
      (fuel : ℕ) (xs : List (ℕ × ℕ)) (l : ElementList) (h : H) {h' : H}
      → IsList l xs
      → length xs < fuel
      → release_all xs h ≡ some h'
      → (l' : ElementList) × (list_delete keep release fuel l h ≡ some (l', h')) × IsList l' []
  unfolding list_delete
  list_delete-IsList fuel xs l h i enough done =
      delete_from-IsList fuel xs l h i (starts i.segment) enough done
