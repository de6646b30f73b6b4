-- ===== src/Uthread/Mutex/Turns.antt =====
-- What one turn of the locking loops, and unlocking, make of a mutex of
-- a11/uthreads/uthread_mutex_cond.c.
use cs213_assignments.Common.{
  ℕ, ◌+◌, ◌-◌, ◌<◌, ◌≡◌, ◌≢◌, sym, subst, true, false, Option, none, some, [], ◌∷◌, arith, ltb,
  ◌==◌, dec_lt, lt→ltb, Option-cases, Bool-cases, ◌⊎◌, inl, inr,
}
use cs213_assignments.Uthread.{Store, uthread_enqueue, uthread_queue_is_empty, wake_first, wake_all}
use cs213_assignments.Uthread.Linked.{has}
use cs213_assignments.Uthread.Mutex.{
  Mutex, blocks, passes, Outcome, returned, assertion_failed, out_of_fuel, all_woken, or_readers,
  wake_waiters, uthread_mutex_lock, uthread_mutex_lock_readonly, uthread_mutex_unlock,
}

-- If the call returns, it returns the mutex.
pub data Returns (m : Mutex) : Outcome → Type 0 where
  returns : {s : Store} → Returns m (returned m s)
  does_not : Returns m out_of_fuel

module _ (a : ℕ) (m : Mutex) (s : Store) where
  pub lock-result :
      ((m.holder ≡ none)
        × (m.reader_count ≡ 0)
        × (uthread_mutex_lock a m s ≡ passes (record m { holder = some a })))
      ⊎ (uthread_mutex_lock a m s ≡ blocks (uthread_enqueue m.waiter_queue a s))
  unfolding uthread_mutex_lock
  lock-result = elim (Option-cases m.holder) [
    | inl e ↦ elim (dec_lt 0 m.reader_count) [
      | yes p ↦ inr (rw (e, lt→ltb 0 m.reader_count p))
      | no none_reads ↦ inl (e, omega arith, rw (e, no-ltb m.reader_count (omega arith)))
    ]
    | inr (b, e) ↦ inr (rw e)
  ]
    where
      no-ltb : (n : ℕ) → n ≡ 0 → ltb 0 n ≡ false
      no-ltb n e = ground arith

  pub readonly-result :
      ((m.holder ≡ none)
        × (uthread_mutex_lock_readonly a m s
            ≡ passes (record m { reader_count = m.reader_count + 1 })))
      ⊎ (uthread_mutex_lock_readonly a m s ≡ blocks (uthread_enqueue m.reader_waiter_queue a s))
  unfolding uthread_mutex_lock_readonly
  readonly-result = elim (Option-cases m.holder) [
    | inl e ↦ elim (Bool-cases (uthread_queue_is_empty m.waiter_queue s)) [
      | inl empty ↦ inl (e, rw (e, empty))
      | inr some_wait ↦ inr (rw (e, some_wait))
    ]
    | inr (b, e) ↦ inr (rw e)
  ]

-- What unlocking does to the mutex, whomever it wakes.
module _ (fuel : ℕ) where
  or_readers-same : (m : Mutex) (r : Option ℕ × Store) → Returns m (or_readers fuel m r)
  unfolding or_readers all_woken
  or_readers-same m (some a, s) = returns
  or_readers-same m (none, s) = elim (Option-cases (wake_all fuel m.reader_waiter_queue s)) [
    | inl e ↦ rw e does_not
    | inr (s', e) ↦ rw e returns
  ]

  wake_waiters-same : (m : Mutex) (s : Store) → Returns m (wake_waiters fuel m s)
  unfolding wake_waiters
  wake_waiters-same m s = elim (Bool-cases (m.reader_count == 0)) [
    | inl e ↦ rw e (or_readers-same m (wake_first m.waiter_queue s))
    | inr e ↦ rw e returns
  ]

  pub unlock-writing :
      (a b : ℕ) (m : Mutex) (s : Store)
      → m.holder ≡ some b
      → has a (b ∷ []) ≡ true
      → Returns (record m { holder = none }) (uthread_mutex_unlock fuel a m s)
  unfolding uthread_mutex_unlock
  unlock-writing a b m s e i =
      rw (uthread_mutex_unlock, e, same) (wake_waiters-same (record m { holder = none }) s)
    where
      same : (b == a) ≡ true
      same = ground arith

  unlock-shared :
      (a : ℕ) (m : Mutex) (s : Store)
      → m.holder ≡ none
      → 0 < m.reader_count
      → uthread_mutex_unlock fuel a m s
        ≡ wake_waiters fuel (record m { reader_count = m.reader_count - 1 }) s
  unfolding uthread_mutex_unlock
  unlock-shared a m s e p = simp (uthread_mutex_unlock, e, lt→ltb 0 m.reader_count p)

  pub unlock-reading :
      (a : ℕ) (m : Mutex) (s : Store)
      → m.holder ≡ none
      → 0 < m.reader_count
      → Returns (record m { reader_count = m.reader_count - 1 }) (uthread_mutex_unlock fuel a m s)
  unlock-reading a m s e p =
      subst (Returns (record m { reader_count = m.reader_count - 1 }))
        (sym (unlock-shared a m s e p))
        (wake_waiters-same (record m { reader_count = m.reader_count - 1 }) s)

pub Returns-eq :
    {m m' : Mutex} {o : Outcome} {s' : Store} → Returns m o → o ≡ returned m' s' → m ≡ m'
Returns-eq returns e = cc
Returns-eq does_not e = cc

pub Returns-no_assertion : {m : Mutex} {o : Outcome} → Returns m o → o ≢ assertion_failed
Returns-no_assertion returns e = cc
Returns-no_assertion does_not e = cc
