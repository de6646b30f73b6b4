-- ===== src/Uthread/Mutex/Exclusion.antt =====
-- Mutual exclusion of writers and readers by a mutex of a11/uthreads/uthread_mutex_cond.c, for every
-- order of the steps of any number of threads.
use cs213_assignments.Common.{
  ℕ, suc, ◌≤◌, ◌≡◌, ◌≢◌, refl, ap, sym, ◌∙◌, true, ◌||◌, none, some, List, [], ◌∷◌, arith, length,
  ◌⊎◌, inl, inr,
}
use cs213_assignments.Uthread.{Store}
use cs213_assignments.Uthread.Linked.{has}
use cs213_assignments.Uthread.Mutex.{
  Mutex, returned, assertion_failed, uthread_mutex_create, uthread_mutex_lock,
  uthread_mutex_lock_readonly, uthread_mutex_unlock,
}
use cs213_assignments.Uthread.Mutex.Runs.{
  World, without, writes, reads, Step, locks, locks_readonly, unlocks_writing, unlocks_reading,
  queues_change, Reaches, here, and_then, start,
}
use cs213_assignments.Uthread.Mutex.Turns.{
  Returns-eq, Returns-no_assertion, lock-result, readonly-result, unlock-writing, unlock-reading,
}

pub data Exclusive (w : World) : Type 0 where
  shared :
      w.mutex.holder ≡ none → w.writing ≡ [] → w.mutex.reader_count ≡ length w.reading → Exclusive w
  held :
      (a : ℕ)
      → w.mutex.holder ≡ some a
      → w.writing ≡ a ∷ []
      → w.mutex.reader_count ≡ 0
      → w.reading ≡ []
      → Exclusive w

length-without : (a : ℕ) (xs : List ℕ) → has a xs ≡ true → length xs ≡ suc (length (without a xs))
length-without a [] i = ground arith
length-without a (x ∷ xs) i = ground (arith, length-without a xs)

length-zero : (xs : List ℕ) → length xs ≡ 0 → xs ≡ []
length-zero [] e = refl
length-zero (x ∷ xs) e = absurd (omega (arith, e))

module _ {w : World} where
  restored : (s : Store) → Exclusive w → Exclusive (record w { store = s })
  restored s (shared h n c) = shared h n c
  restored s (held b h n c r) = held b h n c r

  locks-Exclusive :
      (a : ℕ) → Exclusive w → Exclusive (writes a w (uthread_mutex_lock a w.mutex w.store))
  unfolding writes
  locks-Exclusive a x = elim (lock-result a w.mutex w.store) [
    | inl (free, unread, e) ↦ rw e (elim x [
      | shared h n c ↦
          held a refl (ap (λ ys. a ∷ ys) n) unread (length-zero w.reading (sym c ∙ unread))
      | held b h n c r ↦ absurd (ground (arith, h, free))
    ])
    | inr e ↦ rw e (restored _ x)
  ]

  locks_readonly-Exclusive :
      (a : ℕ) → Exclusive w → Exclusive (reads a w (uthread_mutex_lock_readonly a w.mutex w.store))
  unfolding reads
  locks_readonly-Exclusive a x = elim (readonly-result a w.mutex w.store) [
    | inl (free, e) ↦ rw e (elim x [
      | shared h n c ↦ shared h n (omega (arith, c))
      | held b h n c r ↦ absurd (ground (arith, h, free))
    ])
    | inr e ↦ rw e (restored _ x)
  ]

  unlocks_writing-Exclusive :
      {m : Mutex} {s : Store} (fuel a : ℕ)
      → Exclusive w
      → has a w.writing ≡ true
      → uthread_mutex_unlock fuel a w.mutex w.store ≡ returned m s
      → Exclusive (record w { mutex = m; store = s; writing = without a w.writing })
  unlocks_writing-Exclusive fuel a (shared h n c) i e = absurd (ground (arith, ap (has a) n))
  unlocks_writing-Exclusive {m} fuel a (held b h n c r) i e =
      let same =
        Returns-eq (unlock-writing fuel a b w.mutex w.store h (ap (has a) (sym n) ∙ i)) e in
      let gone : without a (b ∷ []) ≡ [] = ground (arith, ap (has a) n) in
      shared (ap (λ (m : Mutex). m.holder) (sym same)) (ap (without a) n ∙ gone)
        (ap (λ (m : Mutex). m.reader_count) (sym same) ∙ c ∙ ap length (sym r))

  unlocks_reading-Exclusive :
      {m : Mutex} {s : Store} (fuel a : ℕ)
      → Exclusive w
      → has a w.reading ≡ true
      → uthread_mutex_unlock fuel a w.mutex w.store ≡ returned m s
      → Exclusive (record w { mutex = m; store = s; reading = without a w.reading })
  unlocks_reading-Exclusive fuel a (held b h n c r) i e = absurd (ground (arith, ap (has a) r))
  unlocks_reading-Exclusive {m} fuel a (shared h n c) i e =
      let fewer = length-without a w.reading i in
      let same = Returns-eq (unlock-reading fuel a w.mutex w.store h (omega (arith, c, fewer))) e in
      shared (ap (λ (m : Mutex). m.holder) (sym same) ∙ h) n
        (omega (arith, ap (λ (m : Mutex). m.reader_count) same, c, fewer))

Step-Exclusive : {w w' : World} → Step w w' → Exclusive w → Exclusive w'
Step-Exclusive (locks a) x = locks-Exclusive a x
Step-Exclusive (locks_readonly a) x = locks_readonly-Exclusive a x
Step-Exclusive (unlocks_writing fuel a i e) x = unlocks_writing-Exclusive fuel a x i e
Step-Exclusive (unlocks_reading fuel a i e) x = unlocks_reading-Exclusive fuel a x i e
Step-Exclusive (queues_change s) x = restored s x

Reaches-Exclusive :
    (waiters readers : ℕ) (s : Store) {w : World}
    → Reaches (start waiters readers s) w
    → Exclusive w
unfolding start uthread_mutex_create
Reaches-Exclusive waiters readers s here = shared refl refl refl
Reaches-Exclusive waiters readers s (and_then r step) =
    Step-Exclusive step (Reaches-Exclusive waiters readers s r)

-- Whatever the order of the steps and whatever happens to the queues, at most one thread has the
-- mutex to write, none has it to read meanwhile, and `reader_count` is the number of the threads
-- that have it to read.
pub mutual_exclusion :
    (waiters readers : ℕ) (s : Store) {w : World}
    → Reaches (start waiters readers s) w
    → (length w.writing ≤ 1)
      × ((w.writing ≡ []) ⊎ (w.reading ≡ []))
      × (w.mutex.reader_count ≡ length w.reading)
mutual_exclusion waiters readers s r = elim (Reaches-Exclusive waiters readers s r) [
  | shared h n c ↦ (omega (arith, ap length n), inl n, c)
  | held a h n c e ↦ (omega (arith, ap length n), inr e, c ∙ ap length (sym e))
]

-- A thread that has the mutex never fails an assertion when it unlocks it.
pub unlock-asserts :
    (waiters readers : ℕ) (s : Store) {w : World} (fuel a : ℕ)
    → Reaches (start waiters readers s) w
    → (has a w.writing || has a w.reading) ≡ true
    → uthread_mutex_unlock fuel a w.mutex w.store ≢ assertion_failed
unlock-asserts waiters readers s {w} fuel a r i failed =
    elim (Reaches-Exclusive waiters readers s r) [
      | shared h n c ↦
          Returns-no_assertion
            (unlock-reading fuel a w.mutex w.store h
              (ground (arith, c, ap (has a) n, length-without a w.reading)))
            failed
      | held b h n c e ↦
          Returns-no_assertion
            (unlock-writing fuel a b w.mutex w.store h (ground (arith, ap (has a) n, ap (has a) e)))
            failed
    ]
