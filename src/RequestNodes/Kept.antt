-- ===== src/RequestNodes/Kept.antt =====
-- The nodes of a queue in order: which of them are in the queue and which are free.
use cs213_assignments.Common.{
  ℕ, ◌+◌, ◌<◌, ◌≡◌, ◌≢◌, refl, sym, subst, Bool-cases, inl, inr, true, false, Option, none, some,
  List, [], ◌∙◌, ◌∷◌, ◌++◌, arith, update, update_self, update-ne, length, length-append, max,
}
use cs213_assignments.RequestNodes.{
  Node, Links, no_nodes, new_node, fill_node, set_prev, link_last, enqueue,
}
use cs213_assignments.RequestNodes.Line.{
  has, Distinct, has-append, has-move, Distinct-move, Distinct-pull, Distinct-apart, Distinct-front,
  Spare, addresses, contents, addresses-link, length-contents, Line, last_from, last_of,
  last_of-append, has-last_from, Spare-frame, relink_last,
}

module _ {C : Type 0} where
  -- The queue holds the nodes of `line`, and those of `spare` are free. No node is in both, and each
  -- node that has been allocated is in one of them.
  pub record IsQueue (q : Links C) (line : List (ℕ × C)) (spare : List ℕ) : Type 0 where
    pub in_line : Line q.node q.front line
    pub at_back : q.back ≡ last_of line
    pub spared : Spare q.node q.free spare
    pub apart : Distinct (addresses line ++ spare)
    pub used : (a : ℕ) → has a (addresses line ++ spare) ≡ true → a < q.unused
    pub all_kept : length (addresses line ++ spare) ≡ q.unused

  pub no_nodes-IsQueue : IsQueue (no_nodes {C = C}) [] []
  unfolding no_nodes
  no_nodes-IsQueue = record {
    in_line = refl;
    at_back = refl;
    spared = refl;
    apart = tt;
    used = λ a h. cc;
    all_kept = refl;
  }

  Spare-filled :
      (node : ℕ → Option (Node C)) (p : Option ℕ) (xs : List ℕ) (a : ℕ) (m : Option (Node C))
      → Spare node p xs
      → has a xs ≡ false
      → Spare (update node a m) p xs
  Spare-filled node p xs a m h out =
      Spare-frame {node = node} p xs h
        λ b i n at. (n, update-ne node a b m (ground arith) ∙ at, refl)

  link_last-alone :
      (a : ℕ) (q : Links C)
      → q.back ≡ none
      → link_last a q ≡ some (record q { front = some a; back = some a })
  unfolding link_last
  link_last-alone a q back = rw back refl

  link_last-behind :
      (a : ℕ) (q : Links C) (l : ℕ) (n : Node C)
      → q.back ≡ some l
      → q.node l ≡ some n
      → link_last a q
        ≡ some
            (record q { node = update q.node l (some (record n { prev = some a })); back = some a })
  unfolding link_last set_prev
  link_last-behind a q l n back at = rw (back, at) refl

  -- A node `a` that is neither in the queue nor free, linked behind the last one.
  pub linked-IsQueue :
      (a : ℕ) (c : C) (q : Links C) (line : List (ℕ × C)) (spare : List ℕ)
      → Line q.node q.front line
      → q.back ≡ last_of line
      → Spare q.node q.free spare
      → Distinct (addresses line ++ a ∷ spare)
      → ((b : ℕ) → has b (addresses line ++ a ∷ spare) ≡ true → b < q.unused)
      → length (addresses line ++ a ∷ spare) ≡ q.unused
      → (q' : Links C) × (link_last a (fill_node a c q) ≡ some q')
        × IsQueue q' (line ++ (a, c) ∷ []) spare
        × (q'.unused ≡ q.unused)
  unfolding fill_node
  linked-IsQueue a c q [] spare line back free d used kept = (
    record (fill_node a c q) { front = some a; back = some a },
    link_last-alone a (fill_node a c q) back,
    record {
      in_line = (
        record { content = c; prev = none; next = q.back },
        refl,
        update_self q.node a _,
        refl,
        refl,
      );
      at_back = refl;
      spared = Spare-filled q.node q.free spare a _ free (d.0);
      apart = d;
      used = used;
      all_kept = kept;
    },
    refl,
  )
  linked-IsQueue a c q ((x, y) ∷ xs) spare line back free d used kept =
      let cells = (x, y) ∷ xs in
      let l = last_from x xs in
      let out = Distinct-pull a (addresses cells) spare d in
      let (n, at, linked) =
        relink_last q.front x y xs line (Distinct-front (addresses cells) (a ∷ spare) d) in
      let m : Node C = record { content = c; prev = none; next = q.back } in
      let filled = update q.node a (some m) in
      let node' = update filled l (some (record n { prev = some a })) in
      let has_l = has-last_from x y xs in
      let not_a : a ≢ l = ground (arith, has-append a (addresses cells) spare, out.0) in
      let at_l : filled l ≡ some n = update-ne q.node a l (some m) not_a ∙ at in
      let list = sym (addresses-link a c cells spare) in
      (
        record (fill_node a c q) { node = node'; back = some a },
        link_last-behind a (fill_node a c q) l n back at_l,
        record {
          in_line =
              linked node' a m (update_self filled l _)
                (λ b i not_l.
                  update-ne filled l b _ (ground arith)
                  ∙ update-ne q.node a b _
                      (ground (arith, has-append a (addresses cells) spare, out.0)))
                (update-ne filled l a _ (ground arith) ∙ update_self q.node a _) refl;
          at_back = sym (last_of-append a c cells);
          spared =
              Spare-filled filled q.free spare l _
                (Spare-filled q.node q.free spare a _ free
                  (ground (arith, has-append a (addresses cells) spare, out.0)))
                (ground (arith, Distinct-apart l (addresses cells) (a ∷ spare) d, has_l));
          apart = subst Distinct list d;
          used = subst (λ xs. (b : ℕ) → has b xs ≡ true → b < q.unused) list used;
          all_kept = subst (λ xs. length xs ≡ q.unused) list kept;
        },
        refl,
      )

  -- A new node is neither in the queue nor free.
  fresh :
      (q : Links C) (line : List (ℕ × C)) (spare : List ℕ)
      → IsQueue q line spare
      → has q.unused (addresses line ++ spare) ≡ false
  fresh q line spare i = elim (Bool-cases (has q.unused (addresses line ++ spare))) [
    | inl h ↦ absurd (omega (arith, i.used q.unused h))
    | inr h ↦ h
  ]

  new_node-allocates :
      (q : Links C)
      → q.free ≡ none
      → new_node q ≡ some (q.unused, record q { unused = q.unused + 1 })
  unfolding new_node
  new_node-allocates q free = rw free refl

  new_node-reuses :
      (q : Links C) (a : ℕ) (n : Node C)
      → q.free ≡ some a
      → q.node a ≡ some n
      → new_node q ≡ some (a, record q { free = n.next })
  unfolding new_node
  new_node-reuses q a n free at = rw (free, at) refl

  pub enqueue-IsQueue :
      (c : C) (q : Links C) (line : List (ℕ × C)) (spare : List ℕ)
      → IsQueue q line spare
      → (q' : Links C) × (a : ℕ) × (spare' : List ℕ) × (enqueue c q ≡ some q')
        × IsQueue q' (line ++ (a, c) ∷ []) spare'
        × (q'.unused ≡ max q.unused (length (contents line) + 1))
  unfolding enqueue
  enqueue-IsQueue c q line [] i =
      let free : q.free ≡ none = i.spared in
      let a = q.unused in
      let d = Distinct-move a (addresses line) [] (fresh q line [] i, i.apart) in
      let used : (b : ℕ) → has b (addresses line ++ a ∷ []) ≡ true → b < a + 1 =
        λ b h. ground (arith, has-move b a (addresses line) [], i.used b) in
      let len : length (addresses line ++ a ∷ []) ≡ a + 1 = omega (
        arith,
        length-append (addresses line) (a ∷ []),
        length-append (addresses line) [],
        i.all_kept,
      ) in
      let (q', e, i', same) =
        linked-IsQueue a c (record q { unused = a + 1 }) line [] i.in_line i.at_back i.spared d used
          len in
      (
        q',
        a,
        [],
        rw (new_node-allocates q free) e,
        i',
        ground (arith, same, i.all_kept, length-append (addresses line) [], length-contents line),
      )
  enqueue-IsQueue c q line (s ∷ spare) i =
      let (n, free, at, rest) = i.spared in
      let (q', e, i', same) =
        linked-IsQueue s c (record q { free = n.next }) line spare i.in_line i.at_back rest i.apart
          i.used i.all_kept in
      (
        q',
        s,
        spare,
        rw (new_node-reuses q s n free at) e,
        i',
        ground (
          arith,
          same,
          i.all_kept,
          length-append (addresses line) (s ∷ spare),
          length-contents line,
        ),
      )
