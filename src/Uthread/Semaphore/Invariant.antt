-- ===== src/Uthread/Semaphore/Invariant.antt =====
-- What holds in every run of threads at a semaphore of a11/uthreads/uthread_sem.c.
use cs213_assignments.Common.{
  ℕ, suc, ◌+◌, ◌≤◌, ◌<◌, ◌≡◌, ◌≢◌, refl, sym, subst, true, false, Option, none, List, [], ◌∷◌, ◌++◌,
  arith, ◌-◌, ltb, length, dec_lt, update, update-ne, inl, inr, ◌⊎◌,
}
use cs213_assignments.Uthread.{
  Queue, Store, set_queue, uthread_initqueue, uthread_enqueue, uthread_dequeue, ready_queue,
  uthread_queue_is_empty,
}
use cs213_assignments.Uthread.Linked.{Linked, nil, has}
use cs213_assignments.Uthread.Waiting.{
  Represents, enqueue-Represents, dequeue-first, dequeue-empty, is_empty-waiting,
}
use cs213_assignments.Uthread.Wakeups.{
  Running, Running-new, moved, wake_first-moved, wake_first-empty,
}
use cs213_assignments.Uthread.Semaphore.{
  Sem, uthread_sem_create, uthread_sem_signal, uthread_sem_wait, blocks, passes,
}
use cs213_assignments.Uthread.Semaphore.Runs.{
  World, without, noted, signal, turned, attempt, Step, signals, arrives, retries, yields, runs,
  Reaches, here, and_then, start,
}

-- Nobody waits, or a thread that has been woken is under way for each unit of the value.
abbrev pub Covered : World → List ℕ → Type 0
Covered w waiters = (waiters ≡ []) ⊎ (w.sem.value ≤ length w.woken)

pub record Good (initial : ℕ) (w : World) : Type 0 where
  pub waiting : ℕ → List ℕ
  pub represents : Represents w.store waiting
  pub covered : Covered w (waiting w.sem.waiter_queue)
  pub counted : w.sem.value + w.waits ≡ initial + w.signals
  pub apart : w.sem.waiter_queue ≢ ready_queue

length-without : (a : ℕ) (xs : List ℕ) → has a xs ≡ true → length xs ≡ suc (length (without a xs))
length-without a [] i = ground arith
length-without a (x ∷ xs) i = ground (arith, length-without a xs)

list_cases : (xs : List ℕ) → (xs ≡ []) ⊎ ((a : ℕ) × (ys : List ℕ) × (xs ≡ a ∷ ys))
list_cases [] = inl refl
list_cases (a ∷ ys) = inr (a, ys, refl)

module _ (a : ℕ) (sem : Sem) (s : Store) where
  wait-blocks :
      sem.value ≡ 0 → uthread_sem_wait a sem s ≡ blocks (uthread_enqueue sem.waiter_queue a s)
  unfolding uthread_sem_wait
  wait-blocks e = rw e

  wait-passes :
      0 < sem.value → uthread_sem_wait a sem s ≡ passes (record sem { value = sem.value - 1 })
  unfolding uthread_sem_wait
  wait-passes p = rw (lt→ltb_false sem.value p)
    where
      lt→ltb_false : (n : ℕ) → 0 < n → ltb n 1 ≡ false
      lt→ltb_false n p = ground arith

module _ {initial : ℕ} where
  signal-Good : {w : World} → Good initial w → Good initial (signal w)
  unfolding signal uthread_sem_signal
  signal-Good {w} g =
      let q = w.sem.waiter_queue in
      let after : Option ℕ × Store → World = λ r. record w {
        sem = record { value = w.sem.value + 1; waiter_queue = q };
        store = r.1;
        woken = noted (r.0) w.woken;
        signals = w.signals + 1;
      } in
      elim (list_cases (g.waiting q)) [
        | inl e ↦
            subst (λ r. Good initial (after r)) (sym (wake_first-empty q g.represents e))
              (record {
                waiting = g.waiting;
                represents = g.represents;
                covered = inl e;
                counted = omega (arith, g.counted);
                apart = g.apart;
              })
        | inr (a, xs, e) ↦
            let (s', got, rep) = wake_first-moved q a xs g.represents e in
            subst (λ r. Good initial (after r)) (sym got)
              (record {
                waiting = moved q a xs g.waiting;
                represents = rep;
                covered = (elim g.covered [
                  | inl none_wait ↦ absurd (ground (arith, e, none_wait))
                  | inr le ↦ inr (omega (arith, le))
                ]);
                counted = omega (arith, g.counted);
                apart = g.apart;
              })
      ]

  -- `left` is the list of the woken threads without the thread itself.
  attempt-Good :
      {w : World} (a : ℕ) (left : List ℕ)
      → Good initial w
      → Running w.store a
      → length w.woken ≤ suc (length left)
      → Good initial (attempt a (record w { woken = left }))
  unfolding attempt turned
  attempt-Good {w} a left g free le = elim (dec_lt 0 w.sem.value) [
    | yes p ↦
        subst (λ t. Good initial (turned (record w { woken = left }) t))
          (sym (wait-passes a w.sem w.store p))
          (record {
            waiting = g.waiting;
            represents = g.represents;
            covered = elim g.covered [
              | inl e ↦ inl e
              | inr cover ↦ inr (omega (arith, cover, le, p))
            ];
            counted = omega (arith, g.counted, p);
            apart = g.apart;
          })
    | no none_left ↦
        subst (λ t. Good initial (turned (record w { woken = left }) t))
          (sym (wait-blocks a w.sem w.store (omega arith)))
          (record {
            waiting = update g.waiting w.sem.waiter_queue (g.waiting w.sem.waiter_queue ++ a ∷ []);
            represents =
                enqueue-Represents w.sem.waiter_queue a g.represents
                  (Running-new a g.represents free);
            covered = inr (omega arith);
            counted = g.counted;
            apart = g.apart;
          })
  ]

  still :
      (w : World) (g : Good initial w) (xs : List ℕ)
      → Covered w (update g.waiting ready_queue xs w.sem.waiter_queue)
  still w g xs =
      subst (Covered w)
        (sym (update-ne g.waiting ready_queue w.sem.waiter_queue xs λ e. g.apart (sym e))) g.covered

  yield-Good :
      {w : World} (a : ℕ)
      → Good initial w
      → Running w.store a
      → Good initial (record w { store = uthread_enqueue ready_queue a w.store })
  yield-Good {w} a g free = record {
    waiting = update g.waiting ready_queue (g.waiting ready_queue ++ a ∷ []);
    represents = enqueue-Represents ready_queue a g.represents (Running-new a g.represents free);
    covered = still w g (g.waiting ready_queue ++ a ∷ []);
    counted = g.counted;
    apart = g.apart;
  }

  run-Good :
      {w : World}
      → Good initial w
      → Good initial (record w { store = (uthread_dequeue ready_queue w.store).1 })
  run-Good {w} g = elim (list_cases (g.waiting ready_queue)) [
    | inl e ↦
        subst (λ (r : Option ℕ × Store). Good initial (record w { store = r.1 }))
          (sym (dequeue-empty ready_queue g.represents e)) g
    | inr (a, xs, e) ↦
        let (s', got, rep) = dequeue-first ready_queue g.represents e in
        subst (λ (r : Option ℕ × Store). Good initial (record w { store = r.1 })) (sym got)
          (record {
            waiting = update g.waiting ready_queue xs;
            represents = rep;
            covered = still w g (xs);
            counted = g.counted;
            apart = g.apart;
          })
  ]

  Step-Good : {w w' : World} → Step w w' → Good initial w → Good initial w'
  Step-Good signals g = signal-Good g
  Step-Good (arrives {w} a free new) g = attempt-Good a w.woken g free (omega arith)
  Step-Good (retries {w} a free old) g =
      attempt-Good a (without a w.woken) g free (omega (arith, length-without a w.woken old))
  Step-Good (yields a free) g = yield-Good a g free
  Step-Good runs g = run-Good g

  pub Reaches-Good : {w w' : World} → Good initial w → Reaches w w' → Good initial w'
  Reaches-Good g here = g
  Reaches-Good g (and_then r s) = Step-Good s (Reaches-Good g r)

no_threads : Queue
no_threads = record { head = none; tail = none }

still_none : (q p : ℕ) → update (λ p'. no_threads) q no_threads p ≡ no_threads
still_none q p = ground arith

start-Good : (initial q : ℕ) → q ≢ ready_queue → Good initial (start initial q)
unfolding start uthread_sem_create uthread_initqueue set_queue no_threads
start-Good initial q apart = record {
  waiting = λ p. [];
  represents = record {
    linked =
        λ p. subst (λ (r : Queue). Linked (λ a. none) r.head r.tail []) (sym (still_none q p)) nil;
    apart = λ a p r i j. ground arith;
    unlinked = λ a out. refl;
  };
  covered = inl refl;
  counted = omega arith;
  apart = apart;
}

-- Whatever the order of the steps, the value and the number of completed waits make up the initial
-- value and the number of signals.
pub sem-counted :
    (initial q : ℕ) {w : World}
    → q ≢ ready_queue
    → Reaches (start initial q) w
    → w.sem.value + w.waits ≡ initial + w.signals
sem-counted initial q apart r = (Reaches-Good (start-Good initial q apart) r).counted

-- No wake-up is lost: as long as a thread waits in the queue of the semaphore, the value is at most
-- the number of threads that have been woken and have not been at the test again.
pub sem-no_lost_wakeup :
    (initial q : ℕ) {w : World}
    → q ≢ ready_queue
    → Reaches (start initial q) w
    → uthread_queue_is_empty w.sem.waiter_queue w.store ≡ false
    → w.sem.value ≤ length w.woken
sem-no_lost_wakeup initial q {w} apart r some_wait =
    let g = Reaches-Good (start-Good initial q apart) r in
    elim g.covered [
      | inl e ↦
          absurd (ground (arith, some_wait, is_empty-waiting w.sem.waiter_queue g.represents e))
      | inr covered ↦ covered
    ]
