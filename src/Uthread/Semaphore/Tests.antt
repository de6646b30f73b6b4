-- ===== src/Uthread/Semaphore/Tests.antt =====
-- Concrete runs at a semaphore.
use cs213_assignments.Common.{◌+◌, ◌≤◌, ◌≡◌, refl, false, arith, length}
use cs213_assignments.Uthread.{
  uthread_enqueue, uthread_dequeue, set_queue, uthread_initqueue, link_last, first_or, tail_behind,
  uthread_queue_is_empty, wake_first, wake, uthread_unblock,
}
use cs213_assignments.Uthread.Semaphore.{uthread_sem_create, uthread_sem_wait, uthread_sem_signal}
use cs213_assignments.Uthread.Semaphore.Runs.{
  World, Reaches, signals, arrives, here, and_then, start, attempt, signal, turned,
}
use cs213_assignments.Uthread.Semaphore.Invariant.{sem-counted, sem-no_lost_wakeup}

-- Threads 11 and 12 find the value 0, and a signal wakes 11.
abbrev blocked : World
blocked = attempt 12 (attempt 11 (start 0 1))

abbrev after : World
after = signal blocked

run : Reaches (start 0 1) after
unfolding start attempt turned uthread_sem_create uthread_sem_wait uthread_initqueue uthread_enqueue
    set_queue link_last first_or
run =
    and_then
      (and_then (and_then here (arrives 11 (refl, λ q. ground arith) refl))
        (arrives 12 (refl, λ q. ground arith) refl))
      signals

sem-counted_example : after.sem.value + after.waits ≡ 0 + after.signals
sem-counted_example = sem-counted 0 1 (omega arith) run

some_wait : uthread_queue_is_empty after.sem.waiter_queue after.store ≡ false
unfolding start attempt turned signal uthread_sem_signal uthread_sem_create uthread_sem_wait
    uthread_initqueue uthread_enqueue set_queue link_last first_or wake_first wake uthread_dequeue
    uthread_unblock tail_behind uthread_queue_is_empty
some_wait = refl

sem-no_lost_wakeup_example : after.sem.value ≤ length after.woken
sem-no_lost_wakeup_example = sem-no_lost_wakeup 0 1 (omega arith) run some_wait
