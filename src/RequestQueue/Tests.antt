-- ===== src/RequestQueue/Tests.antt =====
-- The queue of a9/queue.c at concrete requests, and its theorems at concrete inputs.
use cs213_assignments.Common.{update, ℕ, ◌≡◌, refl, none, some, List, [], ◌∷◌, arith}
use cs213_assignments.RequestNodes.{Links}
use cs213_assignments.RequestNodes.Kept.{IsQueue}
use cs213_assignments.RequestQueue.{
  Request, Outputs, queue_create, queue_destroy, bad_access, queue_enqueue,
}
use cs213_assignments.RequestQueue.Fifo.{written}
use cs213_assignments.RequestQueue.Runs.{
  Op, put, get, run, run_fifo, left_over, most, Holds, run-eq-run_fifo,
}
use cs213_assignments.RequestQueue.Destroy.{queue_destroy-reads_freed}

abbrev request : ℕ → Request ℕ
request val = record { val = val; arg = 7; callback = some 1 }

abbrev all_of : Outputs ℕ
all_of = record { val = 0; arg = some 0; callback = some none }

abbrev value_only : Outputs ℕ
value_only = record { val = 0; arg = none; callback = none }

-- Two requests, one taken, and a third one, which gets the node of the first one.
abbrev calls : List (Op ℕ)
calls = put (request 3) ∷ put (request 4) ∷ get all_of ∷ put (request 5) ∷ get value_only ∷ []

calls_fifo :
    run_fifo [] calls
    ≡ record { val = 3; arg = some 7; callback = some (some 1) }
      ∷ record { val = 4; arg = none; callback = none }
      ∷ []
unfolding run_fifo written
calls_fifo = refl

calls_peak : most 0 0 calls ≡ 2
unfolding most
calls_peak = refl

run-eq-run_fifo_example :
    (q : Links (Request ℕ)) × (run queue_create calls ≡ some (run_fifo [] calls, q))
    × Holds q (left_over [] calls)
    × (q.unused ≡ most 0 0 calls)
run-eq-run_fifo_example = run-eq-run_fifo calls

-- A queue with one request, at the first node.
abbrev one_request : Links (Request ℕ)
one_request = record {
  node = update (λ a. none) 0 (some (record { content = request 3; next = none; prev = none }));
  front = some 0;
  back = some 0;
  free = none;
  unused = 1;
}

one_request_queued : queue_enqueue 3 7 (some 1) queue_create ≡ some one_request
unfolding queue_enqueue queue_create
one_request_queued = refl

one_request-IsQueue : IsQueue one_request ((0, request 3) ∷ []) []
one_request-IsQueue = record {
  in_line = (record { content = request 3; next = none; prev = none }, refl, refl, refl, refl);
  at_back = refl;
  spared = refl;
  apart = (refl, tt);
  used = λ a h. ground (arith, h);
  all_kept = refl;
}

queue_destroy-reads_freed_example : queue_destroy 2 one_request ≡ bad_access
queue_destroy-reads_freed_example =
    queue_destroy-reads_freed 2 one_request ((0, request 3) ∷ []) [] one_request-IsQueue
      ((λ e. cc e), tt) (omega arith)
