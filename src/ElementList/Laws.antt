-- ===== src/ElementList/Laws.antt =====
-- Adding to and deleting from the list of a7/q3/list.c.
use cs213_assignments.Common.{
  ℕ, ◌≡◌, ◌≢◌, ◌≤◌, ◌+◌, refl, sym, subst, false, Option, none, some, List, [], ◌∷◌, ◌++◌, arith,
  update, update_self, update-ne,
}
use cs213_assignments.ElementList.{
  ListNode, ElementList, list_new, set_node, set_next, set_prev, link_last, unlink_next,
  unlink_prev,
}
use cs213_assignments.ElementList.Segment.{
  Segment, nil, cons, node_of, has, has-append, Distinct, frame, join, relink_next, relink_prev,
}

-- The list holds the nodes at the addresses with the elements, in this order, and no other node is
-- allocated.
pub record IsList (l : ElementList) (xs : List (ℕ × ℕ)) : Type 0 where
  pub segment : Segment l.node none l.head l.tail none xs
  pub distinct : Distinct xs
  pub only : (a : ℕ) → has a xs ≡ false → l.node a ≡ none
  pub below : (a : ℕ) → l.fresh ≤ a → has a xs ≡ false

empty-ends :
    {node : ℕ → Option ListNode} {p f l q : Option ℕ} {xs : List (ℕ × ℕ)}
    → Segment node p f l q xs
    → xs ≡ []
    → (f ≡ q) × (l ≡ p)
empty-ends nil e = (refl, refl)
empty-ends (cons h s) e = absurd (ground arith)

pub Distinct-snoc :
    (a e : ℕ) (xs : List (ℕ × ℕ)) → Distinct xs → has a xs ≡ false → Distinct (xs ++ (a, e) ∷ [])
Distinct-snoc a e [] d new = (refl, tt)
Distinct-snoc a e ((b, e') ∷ xs) d new =
    (ground (arith, has-append b xs ((a, e) ∷ []), d.0), Distinct-snoc a e xs d.1 (ground arith))

link_last-behind :
    (n b c : ℕ) (nb nn : ListNode) (fresh : ℕ) (node : ℕ → Option ListNode) {head tail : Option ℕ}
    → head ≡ some c
    → tail ≡ some b
    → node b ≡ some nb
    → update node b (some (record nb { next = some n })) n ≡ some nn
    → link_last n (record { head = head; tail = tail; node = node; fresh = fresh })
      ≡ some (record {
        head = head;
        tail = some n;
        node =
            update
              (update node b (some (record nb { next = some n })))
              n
              (some (record nn { prev = some b }));
        fresh = fresh;
      })
unfolding link_last set_node set_next set_prev
link_last-behind n b c nb nn fresh node first last there sep = ground arith

-- The new node in the list: its address is that of no node.
pub linked :
    (e : ℕ) (l : ElementList) (xs : List (ℕ × ℕ))
    → IsList l xs
    → (l' : ElementList) × (link_last l.fresh
          (set_node l.fresh (some (node_of e none none)) (record l { fresh = l.fresh + 1 }))
        ≡ some l')
      × (l'.fresh ≡ l.fresh + 1)
      × Segment l'.node none l'.head l'.tail none (xs ++ (l.fresh, e) ∷ [])
      × ((a : ℕ) → has a xs ≡ false → l.fresh ≢ a → l'.node a ≡ l.node a)
unfolding link_last set_node set_next set_prev
linked e l [] i =
    let (head, tail) = empty-ends i.segment refl in
    (
      record l {
        head = some l.fresh;
        tail = some l.fresh;
        fresh = l.fresh + 1;
        node = update l.node l.fresh (some (node_of e none none));
      },
      rw (link_last, head),
      refl,
      cons (update_self l.node l.fresh _) nil,
      λ a new d. update-ne l.node l.fresh a _ d,
    )
linked e l ((a, e') ∷ xs) i =
    let n = l.fresh in
    let node1 : ℕ → Option ListNode = update l.node n (some (node_of e none none)) in
    let s =
      frame {node' = node1} i.segment (λ b j. update-ne l.node n b _ (ground (arith, i.below n))) in
    let (b, nb, last, there, next, j, to) = relink_next (a, e') s i.distinct in
    let (c, nc, first, _, _, _, _) = relink_prev (a, e') s i.distinct in
    let node2 : ℕ → Option ListNode = update node1 b (some (record nb { next = some n })) in
    let node3 : ℕ → Option ListNode = update node2 n (some (node_of e (some b) none)) in
    let sep : node2 n ≡ some (node_of e none none) = ground (arith, i.below n, j) in
    (
      record l { tail = some n; fresh = n + 1; node = node3 },
      link_last-behind n b c nb (node_of e none none) (n + 1) node1 first last there sep,
      refl,
      join (frame (to (some n)) λ x k. update-ne node2 n x _ (ground (arith, i.below n))) (
          subst (λ t. Segment node3 t (some n) (some n) none ((n, e) ∷ [])) (sym last)
            (cons (update_self node2 n _) nil)),
      λ x new d. ground (arith, j),
    )

-- The first half of unlinking a node: the nodes in front of it lead to those behind it.
pub unlinked_next :
    (n : ℕ) (m r : Option ℕ) (e : ℕ) (l : ElementList) (xs : List (ℕ × ℕ))
    → Segment l.node none l.head m (some n) xs
    → Distinct xs
    → has n xs ≡ false
    → (l' : ElementList) × (unlink_next n (node_of e m r) l ≡ some l')
      × Segment l'.node none l'.head m r xs
      × (l'.tail ≡ l.tail)
      × (l'.fresh ≡ l.fresh)
      × ((a : ℕ) → has a xs ≡ false → l'.node a ≡ l.node a)
unfolding unlink_next set_next set_node
unlinked_next n m r e l [] s d new =
    let (head, last) = empty-ends s refl in
    (
      record l { head = r },
      ground arith,
      subst (λ t. Segment l.node none r t r []) (sym last) nil,
      refl,
      refl,
      λ a i. refl,
    )
unlinked_next n m r e l (x ∷ xs) s d new =
    let (b, nb, last, there, _, j, to) = relink_next x s d in
    let (c, nc, first, _, _, same, _) = relink_prev x s d in
    (
      record l { node = update l.node b (some (record nb { next = r })) },
      ground (arith, first, last, there, same),
      to r,
      refl,
      refl,
      λ a i. ground (arith, j),
    )

-- The second half: the nodes behind it lead back to those in front of it.
pub unlinked_prev :
    (n : ℕ) (m r : Option ℕ) (e : ℕ) (l : ElementList) (ys : List (ℕ × ℕ))
    → Segment l.node (some n) r l.tail none ys
    → Distinct ys
    → has n ys ≡ false
    → (l' : ElementList) × (unlink_prev n (node_of e m r) l ≡ some l')
      × Segment l'.node m r l'.tail none ys
      × (l'.head ≡ l.head)
      × (l'.fresh ≡ l.fresh)
      × ((a : ℕ) → has a ys ≡ false → l'.node a ≡ l.node a)
unfolding unlink_prev set_prev set_node
unlinked_prev n m r e l [] s d new =
    let (first, last) = empty-ends s refl in
    (
      record l { tail = m },
      ground (arith, last),
      subst (λ t. Segment l.node m t m none []) (sym first) nil,
      refl,
      refl,
      λ a i. refl,
    )
unlinked_prev n m r e l (x ∷ ys) s d new =
    let (c, nc, first, there, _, same, to) = relink_prev x s d in
    let (b, nb, last, _, _, j, _) = relink_next x s d in
    (
      record l { node = update l.node c (some (record nc { prev = m })) },
      ground (arith, first, last, there, j, d),
      to m,
      refl,
      refl,
      λ a i. ground (arith, same),
    )

pub list_new-IsList : IsList list_new []
unfolding list_new
list_new-IsList = record {
  segment = nil;
  distinct = tt;
  only = λ a out. refl;
  below = λ a le. refl;
}
