-- ===== src/RequestQueue/Runs.antt =====
-- Calls of a9/queue.c in any order, against a list that is first in, first out.
use cs213_assignments.Common.{
  ℕ, ◌+◌, ◌-◌, ◌≡◌, ◌∙◌, refl, sym, ap, ap₂, subst, Option, some, ◌>>=◌, List, [], ◌∷◌, ◌++◌, arith,
  length, length-append, max,
}
use cs213_assignments.RequestNodes.{Links}
use cs213_assignments.RequestNodes.Line.{contents, contents-append}
use cs213_assignments.RequestNodes.Kept.{IsQueue, no_nodes-IsQueue, enqueue-IsQueue}
use cs213_assignments.RequestQueue.{Request, Outputs, queue_create, queue_enqueue, queue_dequeue}
use cs213_assignments.RequestQueue.Fifo.{written, queue_dequeue-empty, queue_dequeue-IsQueue}

pub data Op (K : Type 0) : Type 0 where
  put : Request K → Op K
  get : Outputs K → Op K

abbrev pub rest_of {ℓ} : {A : Type ℓ} → List A → List A
rest_of [] = []
rest_of (x ∷ xs) = xs

length-rest_of {ℓ} : {A : Type ℓ} (xs : List A) → length (rest_of xs) ≡ length xs - 1
length-rest_of [] = omega arith
length-rest_of (x ∷ xs) = omega arith

module _ {K : Type 0} where
  -- The calls one after the other, and what each `queue_dequeue` writes.
  pub run : Links (Request K) → List (Op K) → Option (List (Outputs K) × Links (Request K))
  run q [] = some ([], q)
  run q (put r ∷ ops) = do q ← queue_enqueue r.val r.arg r.callback q; run q ops
  run q (get out ∷ ops) = do
    (out, q) ← queue_dequeue out q
    (outs, q) ← run q ops
    some (out ∷ outs, q)

  -- First in, first out.
  unfoldable pub run_fifo : List (Request K) → List (Op K) → List (Outputs K)
  run_fifo rs [] = []
  run_fifo rs (put r ∷ ops) = run_fifo (rs ++ r ∷ []) ops
  run_fifo rs (get out ∷ ops) = written out rs ∷ run_fifo (rest_of rs) ops

  -- The requests that are left, and the most that there have been at a time.
  pub left_over : List (Request K) → List (Op K) → List (Request K)
  left_over rs [] = rs
  left_over rs (put r ∷ ops) = left_over (rs ++ r ∷ []) ops
  left_over rs (get out ∷ ops) = left_over (rest_of rs) ops

  unfoldable pub most : ℕ → ℕ → List (Op K) → ℕ
  most now peak [] = peak
  most now peak (put r ∷ ops) = most (now + 1) (max peak (now + 1)) ops
  most now peak (get out ∷ ops) = most (now - 1) peak ops

  -- The queue holds these requests, in order.
  pub Holds : Links (Request K) → List (Request K) → Type 0
  Holds q rs =
      (line : List (ℕ × Request K)) × (spare : List ℕ) × IsQueue q line spare × (contents line ≡ rs)

  pub queue_enqueue-Holds :
      (r : Request K) (q : Links (Request K)) (rs : List (Request K))
      → Holds q rs
      → (q' : Links (Request K)) × (queue_enqueue r.val r.arg r.callback q ≡ some q')
        × Holds q' (rs ++ r ∷ [])
        × (q'.unused ≡ max q.unused (length rs + 1))
  unfolding queue_enqueue Holds
  queue_enqueue-Holds r q rs (line, spare, i, e) =
      let (q', a, spare', done, i', peak) = enqueue-IsQueue r q line spare i in
      (
        q',
        done,
        (line ++ (a, r) ∷ [], spare', i', contents-append line ((a, r) ∷ []) ∙ rw e refl),
        rw (sym e) peak,
      )

  pub queue_dequeue-Holds :
      (out : Outputs K) (q : Links (Request K)) (rs : List (Request K))
      → Holds q rs
      → (q' : Links (Request K)) × (queue_dequeue out q ≡ some (written out rs, q'))
        × Holds q' (rest_of rs)
        × (q'.unused ≡ q.unused)
  unfolding Holds
  queue_dequeue-Holds out q rs ([], spare, i, e) = (
    q,
    subst (λ rs. queue_dequeue out q ≡ some (written out rs, q)) e
        (queue_dequeue-empty out q i.in_line),
    ([], spare, i, ap rest_of e),
    refl,
  )
  queue_dequeue-Holds out q rs ((a, r) ∷ line, spare, i, e) =
      let (q', done, i', same) = queue_dequeue-IsQueue out q a r line spare i in
      (
        q',
        subst (λ rs. queue_dequeue out q ≡ some (written out rs, q')) e done,
        (line, a ∷ spare, i', ap rest_of e),
        same,
      )

  run-Holds :
      (ops : List (Op K)) (q : Links (Request K)) (rs : List (Request K))
      → Holds q rs
      → (q' : Links (Request K)) × (run q ops ≡ some (run_fifo rs ops, q'))
        × Holds q' (left_over rs ops)
        × (q'.unused ≡ most (length rs) q.unused ops)
  unfolding run run_fifo left_over most
  run-Holds [] q rs h = (q, refl, h, refl)
  run-Holds (put r ∷ ops) q rs h =
      let (q1, done, h1, peak) = queue_enqueue-Holds r q rs h in
      let (q2, all, h2, peak2) = run-Holds ops q1 (rs ++ r ∷ []) h1 in
      (q2, rw done all, h2, peak2 ∙ ap₂ (λ n m. most n m ops) (length-append rs (r ∷ [])) peak)
  run-Holds (get out ∷ ops) q rs h =
      let (q1, done, h1, peak) = queue_dequeue-Holds out q rs h in
      let (q2, all, h2, peak2) = run-Holds ops q1 (rest_of rs) h1 in
      (q2, rw (done, all) refl, h2, peak2 ∙ ap₂ (λ n m. most n m ops) (length-rest_of rs) peak)

  -- Whatever the calls, none of them fails, the queue is first in, first out, and as many nodes have
  -- been allocated as there have been requests in it at a time at most.
  pub run-eq-run_fifo :
      (ops : List (Op K))
      → (q : Links (Request K)) × (run queue_create ops ≡ some (run_fifo [] ops, q))
        × Holds q (left_over [] ops)
        × (q.unused ≡ most 0 0 ops)
  unfolding queue_create Holds
  run-eq-run_fifo ops = run-Holds ops queue_create [] ([], [], no_nodes-IsQueue, refl)

pub queue_create-Holds : (K : Type 0) → Holds (queue_create {K = K}) []
unfolding queue_create Holds
queue_create-Holds K = ([], [], no_nodes-IsQueue, refl)
