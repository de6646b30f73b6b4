-- ===== src/Uthread/Semaphore/Runs.antt =====
-- The runs of threads that wait for and signal one semaphore of a11/uthreads/uthread_sem.c, as a
-- step relation: each step is what one thread does under the spin locks.
use cs213_assignments.Common.{
  ℕ, ◌+◌, ◌≡◌, true, false, Option, none, some, List, [], ◌∷◌, ◌==◌, if◌then◌else◌,
}
use cs213_assignments.Uthread.{Store, uthread_enqueue, uthread_dequeue, ready_queue}
use cs213_assignments.Uthread.Linked.{has}
use cs213_assignments.Uthread.Waiting.{no_waiters}
use cs213_assignments.Uthread.Wakeups.{Running}
use cs213_assignments.Uthread.Semaphore.{
  Sem, uthread_sem_create, uthread_sem_signal, uthread_sem_wait, Turn, blocks, passes,
}

-- Besides the semaphore and the queues: the threads that a signal has woken and that have not been
-- at the test again, and how many signals and waits have been completed.
pub record World : Type 0 where
  pub sem : Sem
  pub store : Store
  pub woken : List ℕ
  pub signals : ℕ
  pub waits : ℕ

abbrev pub without : ℕ → List ℕ → List ℕ
without a [] = []
without a (x ∷ xs) = if a == x then xs else x ∷ without a xs

abbrev pub noted : Option ℕ → List ℕ → List ℕ
noted none woken = woken
noted (some a) woken = a ∷ woken

unfoldable pub signal : World → World
unfolding uthread_sem_signal
signal w =
    let (sem, (waiter, store)) = uthread_sem_signal w.sem w.store in
    record w { sem = sem; store = store; woken = noted waiter w.woken; signals = w.signals + 1 }

unfoldable pub turned : World → Turn → World
turned w (blocks store) = record w { store = store }
turned w (passes sem) = record w { sem = sem; waits = w.waits + 1 }

unfoldable pub attempt : ℕ → World → World
unfolding turned
attempt self w = turned w (uthread_sem_wait self w.sem w.store)

pub data Step : World → World → Type 0 where
  signals : {w : World} → Step w (signal w)
  arrives : {w : World} (a : ℕ) → Running w.store a → has a w.woken ≡ false → Step w (attempt a w)
  retries :
      {w : World} (a : ℕ)
      → Running w.store a
      → has a w.woken ≡ true
      → Step w (attempt a (record w { woken = without a w.woken }))
  yields :
      {w : World} (a : ℕ)
      → Running w.store a
      → Step w (record w { store = uthread_enqueue ready_queue a w.store })
  runs : {w : World} → Step w (record w { store = (uthread_dequeue ready_queue w.store).1 })

pub data Reaches (start : World) : World → Type 0 where
  here : Reaches start start
  and_then : {w w' : World} → Reaches start w → Step w w' → Reaches start w'

-- The world in which nobody has been at the semaphore.
unfoldable pub start : ℕ → ℕ → World
unfolding uthread_sem_create
start initial q =
    let (sem, store) = uthread_sem_create initial q no_waiters in
    record { sem = sem; store = store; woken = []; signals = 0; waits = 0 }
