-- ===== src/Uthread.antt =====
-- The thread queues of a11/uthreads/uthread.c. Threads and queues are known by their addresses; the
-- queues are linked through the threads' own `next`, so that all queues share it.
pub mod Linked
pub mod Waiting
pub mod Wakeups
pub mod Semaphore
pub mod Mutex
pub mod Lifetime
use cs213_assignments.Common.{
  ℕ, zero, suc, Bool, true, false, ◌||◌, Option, none, some, ◌==◌, if◌then◌else◌, update,
}

-- `uthread_queue_t`.
pub record Queue : Type 0 where
  pub head : Option ℕ
  pub tail : Option ℕ

-- The field `next` of the threads and the queues of the program.
pub record Store : Type 0 where
  pub next : ℕ → Option ℕ
  pub queue : ℕ → Queue

pub set_queue : ℕ → Queue → Store → Store
set_queue q to s = record s { queue = update s.queue q to }

pub uthread_initqueue : ℕ → Store → Store
unfolding set_queue
uthread_initqueue q s = set_queue q (record { head = none; tail = none }) s

abbrev pub is_some : Option ℕ → Bool
is_some none = false
is_some (some p) = true

abbrev pub is_at : ℕ → Option ℕ → Bool
is_at a none = false
is_at a (some p) = a == p

-- `thread->next = 0`, then the tail, if there is one, gets the thread as its `next`.
pub link_last : ℕ → Option ℕ → (ℕ → Option ℕ) → ℕ → Option ℕ
link_last thread none next = update next thread none
link_last thread (some last) next = update (update next thread none) last (some thread)

pub first_or : ℕ → Option ℕ → Option ℕ
first_or thread none = some thread
first_or thread (some p) = some p

pub uthread_enqueue : ℕ → ℕ → Store → Store
unfolding link_last first_or set_queue
uthread_enqueue q thread s =
    let queue = s.queue q in
    if is_some (s.next thread) || is_at thread queue.tail
    then s
    else set_queue q (record { head = first_or thread queue.head; tail = some thread })
        (record s { next = link_last thread queue.tail s.next })

-- `queue->tail = 0` if the head has become NULL.
pub tail_behind : Option ℕ → Option ℕ → Option ℕ
tail_behind none tail = none
tail_behind (some p) tail = tail

pub uthread_dequeue : ℕ → Store → Option ℕ × Store
unfolding tail_behind set_queue
uthread_dequeue q s = elim ((s.queue q).head) [
  | none ↦ (none, s)
  | some thread ↦ (
    some thread,
    set_queue q
        (record { head = s.next thread; tail = tail_behind (s.next thread) ((s.queue q).tail) })
        (record s { next = update s.next thread none }),
  )
]

pub uthread_queue_is_empty : ℕ → Store → Bool
uthread_queue_is_empty q s = elim ((s.queue q).head) [ none ↦ true | some p ↦ false ]

-- The address of the queue of the threads that are ready to run.
abbrev pub ready_queue : ℕ
ready_queue = 0

pub uthread_unblock : ℕ → Store → Store
uthread_unblock thread s = uthread_enqueue ready_queue thread s

-- `waiter_thread = uthread_dequeue (queue); if (waiter_thread) uthread_unblock (waiter_thread)`, and
-- the thread.
pub wake : Option ℕ × Store → Option ℕ × Store
wake (none, s) = (none, s)
wake (some thread, s) = (some thread, uthread_unblock thread s)

pub wake_first : ℕ → Store → Option ℕ × Store
wake_first q s = wake (uthread_dequeue q s)

-- `while ((waiter_thread = uthread_dequeue (queue))) uthread_unblock (waiter_thread)`, on fuel.
pub while_woken : (Store → Option Store) → Option ℕ × Store → Option Store
while_woken body (none, s) = some s
while_woken body (some thread, s) = body s

pub wake_all : ℕ → ℕ → Store → Option Store
wake_all zero q s = none
wake_all (suc fuel) q s = while_woken (λ s'. wake_all fuel q s') (wake_first q s)
