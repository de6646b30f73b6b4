-- ===== src/Uthread/Mutex/Runs.antt =====
-- The runs of threads that lock and unlock one mutex of a11/uthreads/uthread_mutex_cond.c, as a step
-- relation: each step is what one thread does under the spin locks.
use cs213_assignments.Common.{ℕ, ◌≡◌, true, List, [], ◌∷◌, ◌==◌, if◌then◌else◌}
use cs213_assignments.Uthread.{Store}
use cs213_assignments.Uthread.Linked.{has}
use cs213_assignments.Uthread.Mutex.{
  Mutex, Turn, blocks, passes, returned, uthread_mutex_create, uthread_mutex_lock,
  uthread_mutex_lock_readonly, uthread_mutex_unlock,
}

-- The mutex, the queues, and the threads that have it: to write and to read.
pub record World : Type 0 where
  pub mutex : Mutex
  pub store : Store
  pub writing : List ℕ
  pub reading : List ℕ

abbrev pub without : ℕ → List ℕ → List ℕ
without a [] = []
without a (x ∷ xs) = if a == x then xs else x ∷ without a xs

unfoldable pub writes : ℕ → World → Turn → World
writes a w (blocks s) = record w { store = s }
writes a w (passes mutex) = record w { mutex = mutex; writing = a ∷ w.writing }

unfoldable pub reads : ℕ → World → Turn → World
reads a w (blocks s) = record w { store = s }
reads a w (passes mutex) = record w { mutex = mutex; reading = a ∷ w.reading }

-- A thread unlocks only what it has locked. The scheduler and other code change the queues at will.
pub data Step : World → World → Type 0 where
  locks : {w : World} (a : ℕ) → Step w (writes a w (uthread_mutex_lock a w.mutex w.store))
  locks_readonly :
      {w : World} (a : ℕ) → Step w (reads a w (uthread_mutex_lock_readonly a w.mutex w.store))
  unlocks_writing :
      {w : World} {mutex : Mutex} {s : Store} (fuel a : ℕ)
      → has a w.writing ≡ true
      → uthread_mutex_unlock fuel a w.mutex w.store ≡ returned mutex s
      → Step w (record w { mutex = mutex; store = s; writing = without a w.writing })
  unlocks_reading :
      {w : World} {mutex : Mutex} {s : Store} (fuel a : ℕ)
      → has a w.reading ≡ true
      → uthread_mutex_unlock fuel a w.mutex w.store ≡ returned mutex s
      → Step w (record w { mutex = mutex; store = s; reading = without a w.reading })
  queues_change : {w : World} (s : Store) → Step w (record w { store = s })

pub data Reaches (start : World) : World → Type 0 where
  here : Reaches start start
  and_then : {w w' : World} → Reaches start w → Step w w' → Reaches start w'

-- Nobody has the new mutex.
unfoldable pub start : ℕ → ℕ → Store → World
start waiters readers s =
    let (mutex, store) = uthread_mutex_create waiters readers s in
    record { mutex = mutex; store = store; writing = []; reading = [] }
