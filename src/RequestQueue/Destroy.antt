-- ===== src/RequestQueue/Destroy.antt =====
-- `queue_destroy` of a9/queue.c reads the links of nodes that it has freed.
use cs213_assignments.Common.{
  ℕ, zero, suc, ◌<◌, ◌≡◌, ◌≢◌, refl, none, some, List, [], ◌∷◌, arith, ◌==◌, if◌then◌else◌, length,
}
use cs213_assignments.RequestNodes.{Node, Links}
use cs213_assignments.RequestNodes.Line.{contents}
use cs213_assignments.RequestNodes.Kept.{IsQueue}
use cs213_assignments.RequestQueue.{
  Request, Outputs, destroyed, bad_access, free_from, queue_destroy,
}
use cs213_assignments.RequestQueue.Fifo.{written, queue_dequeue-empty, queue_dequeue-IsQueue}

module _ {K : Type 0} where
  -- No value is NULL.
  abbrev pub NoNull : List (Request K) → Type 0
  NoNull [] = Unit {0}
  NoNull (r ∷ rs) = (r.val ≢ 0) × NoNull rs

  free_from-none : (fuel : ℕ) (q : Links (Request K)) → free_from (suc fuel) none q ≡ destroyed
  unfolding free_from
  free_from-none fuel q = refl

  free_from-some :
      (fuel a : ℕ) (n : Node (Request K)) (q : Links (Request K))
      → q.node a ≡ some n
      → free_from (suc fuel) (some a) q ≡ bad_access
  unfolding free_from
  free_from-some fuel a n q at = ground arith

  -- For a queue in order whose values are not NULL, and a round of fuel for each request and one
  -- more, `queue_destroy` reads a node that it has freed, unless there has never been a request.
  pub queue_destroy-reads_freed :
      (fuel : ℕ) (q : Links (Request K)) (line : List (ℕ × Request K)) (spare : List ℕ)
      → IsQueue q line spare
      → NoNull (contents line)
      → length line < fuel
      → queue_destroy fuel q ≡ (if q.unused == 0 then destroyed else bad_access)
  unfolding queue_destroy written
  queue_destroy-reads_freed zero q line spare i ok enough = absurd (omega arith)
  queue_destroy-reads_freed (suc fuel) q [] [] i ok enough = ground (
    arith,
    queue_dequeue-empty (record { val = 0; arg = none; callback = none }) q i.in_line,
    free_from-none fuel q,
    i.all_kept,
    i.spared,
  )
  queue_destroy-reads_freed (suc fuel) q [] (s ∷ spare) i ok enough =
      let (n, free, at, _) = i.spared in
      let first =
        queue_dequeue-empty (record { val = 0; arg = none; callback = none }) q i.in_line in
      ground (arith, first, free_from-some fuel s n q at, free, i.all_kept)
  queue_destroy-reads_freed (suc fuel) q ((a, r) ∷ line) spare i ok enough =
      let out : Outputs K = record { val = 0; arg = none; callback = none } in
      let (q', done, i', same) = queue_dequeue-IsQueue out q a r line spare i in
      let rec = queue_destroy-reads_freed fuel q' line (a ∷ spare) i' (ok.1) (omega arith) in
      ground (arith, done, rec, same, ok.0)
