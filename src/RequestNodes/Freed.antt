-- ===== src/RequestNodes/Freed.antt =====
-- The first node of a queue in order becomes a free one.
use cs213_assignments.Common.{
  ℕ, ◌≡◌, ◌≢◌, sym, subst, true, some, List, ◌∙◌, ◌∷◌, arith, length-append,
}
use mathlib.Core.Option.{some-injective}
use cs213_assignments.RequestNodes.{Node, Links}
use cs213_assignments.RequestNodes.Kept.{IsQueue}
use cs213_assignments.RequestNodes.Line.{
  has, has-append, has-move, Distinct-move, addresses, Line, last_of, Line-frame, Spare-frame,
}

module _ {C : Type 0} where
  -- The first node, taken out of the queue and put before the free ones.
  pub freed-IsQueue :
      (q q' : Links C) (a : ℕ) (c : C) (n : Node C) (line : List (ℕ × C)) (spare : List ℕ)
      → IsQueue q ((a, c) ∷ line) spare
      → q'.front ≡ n.prev
      → q'.back ≡ last_of line
      → q'.free ≡ some a
      → q'.unused ≡ q.unused
      → q.node a ≡ some n
      → q'.node a ≡ some (record n { next = q.free })
      → ((b : ℕ)
          → a ≢ b
          → (m : Node C) → q.node b ≡ some m
          → (m' : Node C) × (q'.node b ≡ some m')
            × (m'.content ≡ m.content)
            × (m'.prev ≡ m.prev)
            × (has b spare ≡ true → m'.next ≡ m.next))
      → IsQueue q' line (a ∷ spare)
  freed-IsQueue q q' a c n line spare i front back free unused at at' same =
      let (n0, _, at0, _, rest) = i.in_line in
      let one_node : n0 ≡ n = some-injective n0 n (sym at0 ∙ at) in
      let out = i.apart.0 in
      record {
        in_line = rw front (
            Line-frame {node = q.node} n.prev line
              (subst (λ n. Line q.node n.prev line) one_node rest)
              λ b h m at_b.
                let (m', e, is, prev, _) =
                  same b (ground (arith, has-append a (addresses line) spare)) m at_b in
                (m', e, is, prev));
        at_back = back;
        spared = (
          record n { next = q.free },
          free,
          at',
          Spare-frame {node = q.node} q.free spare i.spared λ b h m at_b.
              let (m', e, _, _, next) =
                same b (ground (arith, has-append a (addresses line) spare)) m at_b in
              (m', e, next h),
        );
        apart = Distinct-move a (addresses line) spare i.apart;
        used = λ b h. rw unused (i.used b (ground (arith, has-move b a (addresses line) spare)));
        all_kept = rw unused (
            omega (
              arith,
              length-append (addresses line) (a ∷ spare),
              length-append (addresses line) spare,
              i.all_kept,
            ));
      }
