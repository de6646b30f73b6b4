-- ===== src/Uthread/Mutex/Tests.antt =====
-- Concrete runs at a mutex and at queues with waiting threads.
use cs213_assignments.Common.{
  ℕ, ◌≤◌, ◌≡◌, ◌≢◌, ◌⊎◌, refl, ◌||◌, true, none, some, List, [], ◌∷◌, ◌++◌, arith, length, update,
}
use cs213_assignments.Uthread.{Store, uthread_enqueue, uthread_dequeue}
use cs213_assignments.Uthread.Waiting.{
  Represents, no_waiters, no_waiters-Represents, enqueue-Represents, dequeue-first,
}
use cs213_assignments.Uthread.Linked.{has}
use cs213_assignments.Uthread.Mutex.{
  Mutex, assertion_failed, returned, uthread_mutex_create, uthread_mutex_lock, uthread_mutex_unlock,
}
use cs213_assignments.Uthread.Mutex.Runs.{World, Reaches, here, and_then, locks, start, writes}
use cs213_assignments.Uthread.Mutex.Exclusion.{mutual_exclusion, unlock-asserts}
use cs213_assignments.Uthread.Mutex.Release.{released, unlock-wakes}

-- Thread 11 waits in the queue 1.
abbrev lists : ℕ → List ℕ
lists = update (λ p. []) 1 ([] ++ 11 ∷ [])

abbrev queues : Store
queues = uthread_enqueue 1 11 no_waiters

queues-Represents : Represents queues lists
queues-Represents = enqueue-Represents 1 11 no_waiters-Represents λ p. refl

enqueue-Represents_example :
    Represents (uthread_enqueue 1 12 queues) (update lists 1 (lists 1 ++ 12 ∷ []))
enqueue-Represents_example = enqueue-Represents 1 12 queues-Represents λ p. ground arith

dequeue-first_example :
    (s' : Store) × (uthread_dequeue 1 queues ≡ (some 11, s')) × Represents s' (update lists 1 [])
dequeue-first_example = dequeue-first 1 queues-Represents refl

-- Thread 7 has the mutex.
abbrev mutex : Mutex
mutex = record { holder = some 7; reader_count = 0; waiter_queue = 1; reader_waiter_queue = 2 }

abbrev locked : World
locked =
    writes 5 (start 1 2 no_waiters)
      (uthread_mutex_lock 5 (start 1 2 no_waiters).mutex (start 1 2 no_waiters).store)

run : Reaches (start 1 2 no_waiters) locked
run = and_then here (locks 5)

mutual_exclusion_example :
    (length locked.writing ≤ 1)
    × ((locked.writing ≡ []) ⊎ (locked.reading ≡ []))
    × (locked.mutex.reader_count ≡ length locked.reading)
mutual_exclusion_example = mutual_exclusion 1 2 no_waiters run

inside : (has 5 locked.writing || has 5 locked.reading) ≡ true
unfolding start writes uthread_mutex_create uthread_mutex_lock
inside = refl

unlock-asserts_example : uthread_mutex_unlock 1 5 locked.mutex locked.store ≢ assertion_failed
unlock-asserts_example = unlock-asserts 1 2 no_waiters 1 5 run inside

unlock-wakes_example :
    (s' : Store) × (uthread_mutex_unlock 1 7 mutex queues
      ≡ returned (record mutex { holder = none }) s')
    × Represents s' (released mutex (11 ∷ []) lists)
unlock-wakes_example =
    unlock-wakes 1 7 mutex queues-Represents refl refl (omega arith) (omega arith)
