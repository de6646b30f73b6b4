-- ===== src/Uthread/Mutex.antt =====
-- The mutexes with readers and the condition variables of a11/uthreads/uthread_mutex_cond.c. What
-- stands between locking and unlocking the spin lock is one step.
pub mod Release
pub mod Turns
pub mod Runs
pub mod Exclusion
pub mod Tests
use cs213_assignments.Common.{
  ℕ, ◌+◌, ◌-◌, Bool, true, false, not, ◌||◌, Option, none, some, ltb, ◌==◌, if◌then◌else◌,
}
use cs213_assignments.Uthread.{
  Store, uthread_initqueue, uthread_enqueue, uthread_queue_is_empty, wake_first, wake_all, is_some,
  is_at,
}

-- `struct uthread_mutex`, with the addresses of its queues.
pub record Mutex : Type 0 where
  pub holder : Option ℕ
  pub reader_count : ℕ
  pub waiter_queue : ℕ
  pub reader_waiter_queue : ℕ

pub uthread_mutex_create : ℕ → ℕ → Store → Mutex × Store
uthread_mutex_create waiter_queue reader_waiter_queue s = (
  record {
    holder = none;
    reader_count = 0;
    waiter_queue = waiter_queue;
    reader_waiter_queue = reader_waiter_queue;
  },
  uthread_initqueue reader_waiter_queue (uthread_initqueue waiter_queue s),
)

-- How one turn of the loops in `uthread_mutex_lock` and `uthread_mutex_lock_readonly` ends: the
-- thread blocks, to come back to the test when it is woken, or it has the mutex.
pub data Turn : Type 0 where
  blocks : Store → Turn
  passes : Mutex → Turn

pub uthread_mutex_lock : ℕ → Mutex → Store → Turn
uthread_mutex_lock self mutex s =
    if is_some mutex.holder || ltb 0 mutex.reader_count
    then blocks (uthread_enqueue mutex.waiter_queue self s)
    else passes (record mutex { holder = some self })

pub uthread_mutex_lock_readonly : ℕ → Mutex → Store → Turn
unfolding uthread_queue_is_empty
uthread_mutex_lock_readonly self mutex s =
    if is_some mutex.holder || not (uthread_queue_is_empty mutex.waiter_queue s)
    then blocks (uthread_enqueue mutex.reader_waiter_queue self s)
    else passes (record mutex { reader_count = mutex.reader_count + 1 })

-- The mutex and the queues behind a call, or a failed `assert`. The loop takes fuel: enough is one
-- round for each waiting reader and one more.
pub data Outcome : Type 0 where
  returned : Mutex → Store → Outcome
  assertion_failed : Outcome
  out_of_fuel : Outcome

pub all_woken : Mutex → Option Store → Outcome
all_woken mutex none = out_of_fuel
all_woken mutex (some s) = returned mutex s

-- The readers are woken if no writer was.
pub or_readers : ℕ → Mutex → Option ℕ × Store → Outcome
unfolding all_woken
or_readers fuel mutex (none, s) = all_woken mutex (wake_all fuel mutex.reader_waiter_queue s)
or_readers fuel mutex (some waiter, s) = returned mutex s

pub wake_waiters : ℕ → Mutex → Store → Outcome
wake_waiters fuel mutex s =
    if mutex.reader_count == 0
    then or_readers fuel mutex (wake_first mutex.waiter_queue s)
    else returned mutex s

pub uthread_mutex_unlock : ℕ → ℕ → Mutex → Store → Outcome
uthread_mutex_unlock fuel self mutex s = elim mutex.holder [
  | some holder ↦
      if holder == self
      then wake_waiters fuel (record mutex { holder = none }) s
      else assertion_failed
  | none ↦
      if ltb 0 mutex.reader_count
      then wake_waiters fuel (record mutex { reader_count = mutex.reader_count - 1 }) s
      else assertion_failed
]

-- `uthread_cond_wait` up to where the thread blocks, from which it goes on with
-- `uthread_mutex_lock`; `queue` is the queue of the condition variable.
pub uthread_cond_wait : ℕ → ℕ → ℕ → Mutex → Store → Outcome
unfolding uthread_mutex_unlock
uthread_cond_wait fuel self queue mutex s =
    if is_at self mutex.holder
    then uthread_mutex_unlock fuel self mutex (uthread_enqueue queue self s)
    else assertion_failed

pub uthread_cond_signal : ℕ → ℕ → Mutex → Store → Outcome
uthread_cond_signal self queue mutex s =
    if is_at self mutex.holder then returned mutex ((wake_first queue s).1) else assertion_failed

pub uthread_cond_broadcast : ℕ → ℕ → ℕ → Mutex → Store → Outcome
unfolding all_woken
uthread_cond_broadcast fuel self queue mutex s =
    if is_at self mutex.holder then all_woken mutex (wake_all fuel queue s) else assertion_failed
