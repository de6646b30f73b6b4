-- ===== src/Uthread/Semaphore.antt =====
-- The semaphores of a11/uthreads/uthread_sem.c. What stands between locking and unlocking the spin
-- lock is one step. Initial values are not negative, and values do not reach 2 ^ 31.
pub mod Runs
pub mod Invariant
pub mod Tests
use cs213_assignments.Common.{
  ℕ, ◌+◌, ◌-◌, Bool, true, false, ◌||◌, Option, none, some, List, [], ◌∷◌, ltb, ◌==◌, if◌then◌else◌,
  length,
}
use cs213_assignments.Uthread.{Store, uthread_initqueue, uthread_enqueue, wake_first}

-- `struct uthread_sem`, with the address of its queue.
pub record Sem : Type 0 where
  pub value : ℕ
  pub waiter_queue : ℕ

pub uthread_sem_create : ℕ → ℕ → Store → Sem × Store
uthread_sem_create initial_value waiter_queue s = (
  record { value = initial_value; waiter_queue = waiter_queue },
  uthread_initqueue waiter_queue s,
)

-- The semaphore, the thread that is woken, and the queues.
pub uthread_sem_signal : Sem → Store → Sem × (Option ℕ × Store)
unfolding wake_first
uthread_sem_signal sem s = (record sem { value = sem.value + 1 }, wake_first sem.waiter_queue s)

-- How one turn of the loop in `uthread_sem_wait` ends: the thread blocks, to come back to the test
-- when it is woken, or it has decremented the value.
pub data Turn : Type 0 where
  blocks : Store → Turn
  passes : Sem → Turn

pub uthread_sem_wait : ℕ → Sem → Store → Turn
uthread_sem_wait self sem s =
    if ltb sem.value 1
    then blocks (uthread_enqueue sem.waiter_queue self s)
    else passes (record sem { value = sem.value - 1 })
