-- ===== src/RequestQueue/Fifo.antt =====
-- The queue of a9/queue.c is first in, first out, and keeps its nodes.
use cs213_assignments.Common.{
  ℕ, ◌≡◌, ◌≢◌, ◌∙◌, refl, sym, subst, none, some, List, [], ◌∷◌, arith, update, update_self,
  update-ne, ℕ_discrete,
}
use mathlib.Core.Option.{some-injective}
use cs213_assignments.RequestNodes.{Node, Links}
use cs213_assignments.RequestNodes.Line.{addresses, contents, Distinct-apart}
use cs213_assignments.RequestNodes.Kept.{IsQueue}
use cs213_assignments.RequestNodes.Freed.{freed-IsQueue}
use cs213_assignments.RequestQueue.{Request, Outputs, write_out, queue_dequeue, unlink_front}

module _ {K : Type 0} where
  -- What `queue_dequeue` writes, given the requests that are in the queue.
  unfoldable pub written : Outputs K → List (Request K) → Outputs K
  written out [] = record out { val = 0; callback = write_out out.callback none }
  written out (r ∷ rs) = record {
    val = r.val;
    arg = write_out out.arg r.arg;
    callback = write_out out.callback r.callback;
  }

  pub queue_dequeue-empty :
      (out : Outputs K) (q : Links (Request K))
      → q.front ≡ none
      → queue_dequeue out q ≡ some (written out [], q)
  unfolding queue_dequeue written
  queue_dequeue-empty out q front = rw front refl

  queue_dequeue-first :
      (out : Outputs K) (q q' : Links (Request K)) (p : ℕ) (n : Node (Request K))
      (rs : List (Request K))
      → q.front ≡ some p
      → q.node p ≡ some n
      → unlink_front p n.prev q ≡ some q'
      → queue_dequeue out q ≡ some (written out (n.content ∷ rs), q')
  unfolding queue_dequeue written
  queue_dequeue-first out q q' p n rs front at un = ground arith

  unlink_front-only :
      (q : Links (Request K)) (a : ℕ) (n : Node (Request K))
      → q.node a ≡ some n
      → unlink_front a none q
        ≡ some (record q {
          node = update q.node a (some (record n { next = q.free }));
          front = none;
          back = none;
          free = some a;
        })
  unfolding unlink_front
  unlink_front-only q a n at = rw at refl

  unlink_front-more :
      (q : Links (Request K)) (a b : ℕ) (n m : Node (Request K))
      → q.node a ≡ some n
      → update q.node a (some (record n { next = q.free })) b ≡ some m
      → unlink_front a (some b) q
        ≡ some (record q {
          node =
              update
                (update q.node a (some (record n { next = q.free })))
                b
                (some (record m { next = none }));
          front = some b;
          free = some a;
        })
  unfolding unlink_front
  unlink_front-more q a b n m at at' = rw (at, at') refl

  pub queue_dequeue-IsQueue :
      (out : Outputs K) (q : Links (Request K)) (a : ℕ) (r : Request K)
      (line : List (ℕ × Request K)) (spare : List ℕ)
      → IsQueue q ((a, r) ∷ line) spare
      → (q' : Links (Request K)) × (queue_dequeue out q
          ≡ some (written out (r ∷ contents line), q'))
        × IsQueue q' line (a ∷ spare)
        × (q'.unused ≡ q.unused)
  queue_dequeue-IsQueue out q a r [] spare i =
      let (n, front, at, is, behind) = i.in_line in
      let q' : Links (Request K) = record q {
        node = update q.node a (some (record n { next = q.free }));
        front = none;
        back = none;
        free = some a;
      } in
      (
        q',
        queue_dequeue-first out q q' a n [] front at
              (subst (λ p. unlink_front a p q ≡ some q') (sym behind) (unlink_front-only q a n at))
            ∙ rw is refl,
        freed-IsQueue q q' a r n [] spare i (sym behind) refl refl refl at (update_self q.node a _)
            λ b ne m at_b. (m, update-ne q.node a b _ ne ∙ at_b, refl, refl, λ h. refl),
        refl,
      )
  queue_dequeue-IsQueue out q a r ((b, r') ∷ line) spare i =
      let (n, front, at, is, behind) = i.in_line in
      let (m, second, at_b, _, _) = behind in
      let not_b : a ≢ b = ground (arith, i.apart.0) in
      let freed = update q.node a (some (record n { next = q.free })) in
      let at_b' : freed b ≡ some m = update-ne q.node a b _ not_b ∙ at_b in
      let q' : Links (Request K) = record q {
        node = update freed b (some (record m { next = none }));
        front = some b;
        free = some a;
      } in
      (
        q',
        queue_dequeue-first out q q' a n (r' ∷ contents line) front at (
              subst (λ p. unlink_front a p q ≡ some q') (sym second)
                (unlink_front-more q a b n m at at_b'))
            ∙ rw is refl,
        freed-IsQueue q q' a r n ((b, r') ∷ line) spare i (sym second) i.at_back refl refl at
            (update-ne freed b a _ (ground arith) ∙ update_self q.node a _)
            λ b' ne m' at_b''. elim (ℕ_discrete b b') [
              | yes e ↦
                  let one_node : m' ≡ m =
                    some-injective m' m (sym at_b'' ∙ (subst (λ b. q.node b ≡ some m) e at_b)) in
                  (
                    record m { next = none },
                    subst
                        (λ b'.
                          update freed b (some (record m { next = none })) b'
                          ≡ some (record m { next = none }))
                        e (update_self freed b _),
                    rw one_node refl,
                    rw one_node refl,
                    λ h.
                        absurd
                          (ground (arith, Distinct-apart b (b ∷ addresses line) spare (i.apart.1))),
                  )
              | no other ↦ (
                m',
                update-ne freed b b' _ other ∙ update-ne q.node a b' _ ne ∙ at_b'',
                refl,
                refl,
                λ h. refl,
              )
            ],
        refl,
      )
