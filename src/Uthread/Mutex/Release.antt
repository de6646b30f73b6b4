-- ===== src/Uthread/Mutex/Release.antt =====
-- Whom `uthread_mutex_unlock` and `uthread_cond_broadcast` of a11/uthreads/uthread_mutex_cond.c wake.
use cs213_assignments.Common.{
  ℕ, ◌<◌, ◌≡◌, ◌≢◌, refl, ap, ◌∙◌, true, Option, none, some, List, [], ◌⊎◌, inl, inr, ◌∷◌, arith,
  ==_refl, length,
}
use cs213_assignments.Uthread.{Store, ready_queue, wake_first, is_at}
use cs213_assignments.Uthread.Waiting.{Represents}
use cs213_assignments.Uthread.Wakeups.{
  moved, emptied, wake_first-moved, wake_first-empty, wake_all-emptied,
}
use cs213_assignments.Uthread.Mutex.{
  Mutex, returned, all_woken, or_readers, wake_waiters, uthread_mutex_unlock,
  uthread_cond_broadcast,
}

at_holder : (self : ℕ) (holder : Option ℕ) → holder ≡ some self → is_at self holder ≡ true
at_holder self none e = ground arith
at_holder self (some a) e = ground arith

unlock-held :
    (fuel self : ℕ) (mutex : Mutex) (s : Store)
    → mutex.holder ≡ some self
    → mutex.reader_count ≡ 0
    → uthread_mutex_unlock fuel self mutex s
      ≡ or_readers fuel (record mutex { holder = none }) (wake_first mutex.waiter_queue s)
unfolding uthread_mutex_unlock wake_waiters
unlock-held fuel self mutex s e free = rw (uthread_mutex_unlock, e, ==_refl, wake_waiters, free)

-- The lists of threads behind an unlocking, by the threads that wait for the mutex.
abbrev pub released : Mutex → List ℕ → (ℕ → List ℕ) → ℕ → List ℕ
released mutex [] waiting = emptied mutex.reader_waiter_queue waiting
released mutex (a ∷ xs) waiting = moved mutex.waiter_queue a xs waiting

list_cases : (xs : List ℕ) → (xs ≡ []) ⊎ ((a : ℕ) × (ys : List ℕ) × (xs ≡ a ∷ ys))
list_cases [] = inl refl
list_cases (a ∷ ys) = inr (a, ys, refl)

module _ {s : Store} {waiting : ℕ → List ℕ} (fuel self : ℕ) (mutex : Mutex) where
  -- When the holder unlocks, the first thread that waits for the mutex becomes ready to run; if none
  -- waits, all threads that wait to read become ready to run, in their order.
  pub unlock-wakes :
      Represents s waiting
      → mutex.holder ≡ some self
      → mutex.reader_count ≡ 0
      → mutex.reader_waiter_queue ≢ ready_queue
      → length (waiting mutex.reader_waiter_queue) < fuel
      → (s' : Store) × (uthread_mutex_unlock fuel self mutex s
          ≡ returned (record mutex { holder = none }) s')
        × Represents s' (released mutex (waiting mutex.waiter_queue) waiting)
  unfolding or_readers all_woken
  unlock-wakes rep held free apart enough = elim (list_cases (waiting mutex.waiter_queue)) [
    | inl e ↦
        let (s', got, rep') =
          wake_all-emptied fuel mutex.reader_waiter_queue _ rep apart refl enough in
        (
          s',
          unlock-held fuel self mutex s held free
              ∙ ap (or_readers fuel (record mutex { holder = none }))
                  (wake_first-empty mutex.waiter_queue rep e)
              ∙ ap (all_woken (record mutex { holder = none })) got,
          rw e rep',
        )
    | inr (a, xs, e) ↦
        let (s', got, rep') = wake_first-moved mutex.waiter_queue a xs rep e in
        (
          s',
          unlock-held fuel self mutex s held free
              ∙ ap (or_readers fuel (record mutex { holder = none })) got,
          rw e rep',
        )
  ]

  -- The holder's broadcast makes all threads that wait at the condition variable ready to run, in
  -- their order, and keeps the mutex.
  pub broadcast-wakes :
      (queue : ℕ)
      → Represents s waiting
      → mutex.holder ≡ some self
      → queue ≢ ready_queue
      → length (waiting queue) < fuel
      → (s' : Store) × (uthread_cond_broadcast fuel self queue mutex s ≡ returned mutex s')
        × Represents s' (emptied queue waiting)
  unfolding uthread_cond_broadcast all_woken
  broadcast-wakes queue rep held apart enough =
      let (s', got, rep') = wake_all-emptied fuel queue _ rep apart refl enough in
      (s', rw (at_holder self mutex.holder held) (ap (all_woken mutex) got), rep')
