-- ===== src/DiskReads.antt =====
-- What a9/aRead.c and a9/treasureHunt.c do when a read completes: the interrupt service routine takes
-- the oldest request from the queue of pending reads and calls its callback. `K` is what a callback is, and
-- `call` what it does with the value and the argument.
pub mod Async
pub mod AsyncInvariant
pub mod AsyncRuns
pub mod AsyncResults
pub mod Tests
use cs213_assignments.Common.{ℕ, Option, none, some, ◌>>=◌}
use cs213_assignments.RequestNodes.{Links}
use cs213_assignments.RequestQueue.{Request, Outputs, queue_dequeue}
use cs213_assignments.Disk.{Client}

-- `pending_read_queue`, and the variables of the program.
pub record Program (K V : Type 0) : Type 0 where
  pub pending_reads : Links (Request K)
  pub vars : V

module _ {K : Type 0} where
  -- `*callback`, which is NULL if the queue is empty.
  unfoldable pub callback_of : Outputs K → Option K
  callback_of out = elim out.callback [ none ↦ none | some callback ↦ callback ]

  unfoldable pub argument_of : Outputs K → ℕ
  argument_of out = elim out.arg [ none ↦ 0 | some arg ↦ arg ]
  -- `queue_dequeue (pending_read_queue, ...); callback (val, arg)`, with the variables at first.

module _ {K V : Type 0} where
  unfoldable pub service :
      (K → (val arg : ℕ) → Client (Program K V) → Option (Client (Program K V)))
      → Outputs K
      → Client (Program K V)
      → Option (Client (Program K V))
  unfolding callback_of argument_of
  service call out w = do
    (out, q) ← queue_dequeue out w.state.pending_reads
    callback ← callback_of out
    call callback out.val (argument_of out)
        (record w { state = record w.state { pending_reads = q } })
