-- ===== src/ItemPool/Invariant.antt =====
-- What the semaphores of a11/soln/pc_sem.c promise at every point of every run.
use cs213_assignments.Common.{
  ℕ, zero, suc, ◌+◌, ◌-◌, ◌≤◌, ◌≡◌, ◌≢◌, refl, subst, Bool, true, false, ◌&&◌, List, [], ◌∷◌, ◌++◌,
  arith, ◌==◌, ltb, leb, if◌then◌else◌, update,
}
use cs213_assignments.ItemPool.{
  Pool, create_pool, Point, at_loop, at_slot, at_mutex, inside, leaving, handing_on, ended, Thread,
  Next, steps, waits, fails, over, changed, wait_at, producer, consumer, next, create_threads,
  max_items, num_iterations, sum_to,
}
use cs213_assignments.ItemPool.Runs.{Step, step, Reaches, start, then_step}

abbrev pub total : (Thread → ℕ) → List Thread → ℕ
total f [] = 0
total f (t ∷ ts) = f t + total f ts

pub total-append :
    (f : Thread → ℕ) (xs ys : List Thread) → total f (xs ++ ys) ≡ total f xs + total f ys
total-append f [] ys = omega arith
total-append f (x ∷ xs) ys = omega (arith, total-append f xs ys)

-- Whether the thread has the mutex.
abbrev pub has_mutex : Thread → ℕ
has_mutex t = elim t.point [ inside ↦ 1 | leaving ↦ 1 | _ ↦ 0 ]

-- The free slots that a thread has taken and not yet filled, or freed and not yet handed on.
abbrev pub has_free : Thread → ℕ
has_free t =
    if t.produces
    then elim t.point [ at_mutex ↦ 1 | inside ↦ 1 | _ ↦ 0 ]
    else elim t.point [ leaving ↦ 1 | handing_on ↦ 1 | _ ↦ 0 ]

-- The full slots, in the same way.
abbrev pub has_full : Thread → ℕ
has_full t =
    if t.produces
    then elim t.point [ leaving ↦ 1 | handing_on ↦ 1 | _ ↦ 0 ]
    else elim t.point [ at_mutex ↦ 1 | inside ↦ 1 | _ ↦ 0 ]

-- The changes of `items` that a thread has made.
abbrev pub changes : Thread → ℕ
changes t = elim t.point [ leaving ↦ t.i + 1 | handing_on ↦ t.i + 1 | _ ↦ t.i ]

abbrev pub produced : Thread → ℕ
produced t = if t.produces then changes t else 0

abbrev pub consumed : Thread → ℕ
consumed t = if t.produces then 0 else changes t

abbrev pub has_ended : Thread → ℕ
has_ended t = elim t.point [ ended ↦ 1 | _ ↦ 0 ]

pub record IsRight (p : Pool) (ts : List Thread) : Type 0 where
  pub one_mutex : p.mutex + total has_mutex ts ≡ 1
  pub slots_free : p.free_slots + total has_free ts + p.items ≡ max_items
  pub slots_full : p.full_slots + total has_full ts ≡ p.items
  pub balance : p.items + total consumed ts ≡ total produced ts
  pub recorded : sum_to (max_items + 1) p.histogram ≡ total changes ts
  pub all_done : p.done ≡ total has_ended ts

sum_to-update :
    (n k : ℕ) (f : ℕ → ℕ)
    → sum_to n (update f k (f k + 1)) ≡ (if ltb k n then sum_to n f + 1 else sum_to n f)
unfolding sum_to
sum_to-update zero k f = ground arith
sum_to-update (suc n) k f = ground (arith, sum_to-update n k f)

-- What a step of one thread does to the sums over all threads.
record IsStep (p : Pool) (t : Thread) (p' : Pool) (t' : Thread) : Type 0 where
  one_mutex : p.mutex + has_mutex t ≡ p'.mutex + has_mutex t'
  slots_free : p.free_slots + has_free t + p.items ≡ p'.free_slots + has_free t' + p'.items
  slots_full : p.full_slots + has_full t + p'.items ≡ p'.full_slots + has_full t' + p.items
  balance : p.items + consumed t + produced t' ≡ p'.items + consumed t' + produced t
  recorded :
      sum_to (max_items + 1) p.histogram + changes t'
      ≡ sum_to (max_items + 1) p'.histogram + changes t
  all_done : p.done + has_ended t' ≡ p'.done + has_ended t

abbrev IsNext : Pool → Thread → Next → Type 0
IsNext p t (steps t' p') = IsStep p t p' t'
IsNext p t waits = Unit {0}
IsNext p t fails = Unit {0}
IsNext p t over = Unit {0}

IsNext-if :
    (p : Pool) (t : Thread) (b : Bool) (yes_next no_next : Next)
    → (b ≡ true → IsNext p t yes_next)
    → (b ≡ false → IsNext p t no_next)
    → IsNext p t (if b then yes_next else no_next)
IsNext-if p t true n m f g = f refl
IsNext-if p t false n m f g = g refl

producer-IsNext :
    (point : Point) (i : ℕ) (p : Pool)
    → IsNext p (record { produces = true; point = point; i = i }) (producer point i p)
unfolding producer changed wait_at
producer-IsNext at_loop i p =
    IsNext-if p _ (ltb i num_iterations) _ _
      (λ e. record {
        one_mutex = refl;
        slots_free = refl;
        slots_full = refl;
        balance = refl;
        recorded = refl;
        all_done = refl;
      })
      (λ e. record {
        one_mutex = refl;
        slots_free = refl;
        slots_full = refl;
        balance = refl;
        recorded = refl;
        all_done = omega arith;
      })
producer-IsNext at_slot i p =
    IsNext-if p _ (p.free_slots == 0) _ _ (λ e. tt)
      (λ e. record {
        one_mutex = refl;
        slots_free = ground (arith, e);
        slots_full = refl;
        balance = refl;
        recorded = refl;
        all_done = refl;
      })
producer-IsNext at_mutex i p =
    IsNext-if p _ (p.mutex == 0) _ _ (λ e. tt)
      (λ e. record {
        one_mutex = ground (arith, e);
        slots_free = refl;
        slots_full = refl;
        balance = refl;
        recorded = refl;
        all_done = refl;
      })
producer-IsNext inside i p =
    IsNext-if p _ (leb 0 (p.items + 1) && leb (p.items + 1 - 0) max_items) _ _
      (λ e. record {
        one_mutex = refl;
        slots_free = omega arith;
        slots_full = omega arith;
        balance = omega arith;
        recorded = ground (arith, e, sum_to-update (max_items + 1) (p.items + 1 - 0) p.histogram);
        all_done = refl;
      })
      (λ e. tt)
producer-IsNext leaving i p = record {
  one_mutex = omega arith;
  slots_free = refl;
  slots_full = refl;
  balance = refl;
  recorded = refl;
  all_done = refl;
}
producer-IsNext handing_on i p = record {
  one_mutex = refl;
  slots_free = refl;
  slots_full = omega arith;
  balance = refl;
  recorded = refl;
  all_done = refl;
}
producer-IsNext ended i p = tt

consumer-IsNext :
    (point : Point) (i : ℕ) (p : Pool)
    → IsNext p (record { produces = false; point = point; i = i }) (consumer point i p)
unfolding consumer changed wait_at
consumer-IsNext at_loop i p =
    IsNext-if p _ (ltb i num_iterations) _ _
      (λ e. record {
        one_mutex = refl;
        slots_free = refl;
        slots_full = refl;
        balance = refl;
        recorded = refl;
        all_done = refl;
      })
      (λ e. record {
        one_mutex = refl;
        slots_free = refl;
        slots_full = refl;
        balance = refl;
        recorded = refl;
        all_done = omega arith;
      })
consumer-IsNext at_slot i p =
    IsNext-if p _ (p.full_slots == 0) _ _ (λ e. tt)
      (λ e. record {
        one_mutex = refl;
        slots_free = refl;
        slots_full = ground (arith, e);
        balance = refl;
        recorded = refl;
        all_done = refl;
      })
consumer-IsNext at_mutex i p =
    IsNext-if p _ (p.mutex == 0) _ _ (λ e. tt)
      (λ e. record {
        one_mutex = ground (arith, e);
        slots_free = refl;
        slots_full = refl;
        balance = refl;
        recorded = refl;
        all_done = refl;
      })
consumer-IsNext inside i p =
    IsNext-if p _ (leb 1 p.items && leb (p.items - 1) max_items) _ _
      (λ e. record {
        one_mutex = refl;
        slots_free = ground (arith, e);
        slots_full = ground (arith, e);
        balance = ground (arith, e);
        recorded = ground (arith, e, sum_to-update (max_items + 1) (p.items - 1) p.histogram);
        all_done = refl;
      })
      (λ e. tt)
consumer-IsNext leaving i p = record {
  one_mutex = omega arith;
  slots_free = refl;
  slots_full = refl;
  balance = refl;
  recorded = refl;
  all_done = refl;
}
consumer-IsNext handing_on i p = record {
  one_mutex = refl;
  slots_free = omega arith;
  slots_full = refl;
  balance = refl;
  recorded = refl;
  all_done = refl;
}
consumer-IsNext ended i p = tt

next-IsNext : (t : Thread) (p : Pool) → IsNext p t (next t p)
unfolding next
next-IsNext t p = by_kind t.produces
  where
    by_kind :
        (b : Bool)
        → IsNext p
            (record { produces = b; point = t.point; i = t.i })
            (if b then producer t.point t.i p else consumer t.point t.i p)
    by_kind true = producer-IsNext t.point t.i p
    by_kind false = consumer-IsNext t.point t.i p

Step-IsRight :
    {p p' : Pool} {ts ts' : List Thread} → Step p ts p' ts' → IsRight p ts → IsRight p' ts'
Step-IsRight {p} (step before t t' after e) r =
    let s = subst (IsNext p t) e (next-IsNext t p) in
    let sums : (f : Thread → ℕ)
        → (total f (before ++ t ∷ after) ≡ total f before + (f t + total f after))
          × (total f (before ++ t' ∷ after) ≡ total f before + (f t' + total f after)) =
      λ f. (total-append f before (t ∷ after), total-append f before (t' ∷ after)) in
    record {
      one_mutex = omega (arith, r.one_mutex, s.one_mutex, sums has_mutex);
      slots_free = omega (arith, r.slots_free, s.slots_free, sums has_free);
      slots_full = omega (arith, r.slots_full, s.slots_full, sums has_full);
      balance = omega (arith, r.balance, s.balance, sums consumed, sums produced);
      recorded = omega (arith, r.recorded, s.recorded, sums changes);
      all_done = omega (arith, r.all_done, s.all_done, sums has_ended);
    }

-- In every run from the start of `main`, the semaphores agree with `items` and with where the threads
-- stand, and the histogram and `done` count what has happened: the mutex is free or one thread has it,
-- `items` is what has been produced and not consumed, the free slots and the items make up MAX_ITEMS
-- together with the slots that threads have taken, and the histogram records each change.
pub reaches-IsRight : {p : Pool} {ts : List Thread} → Reaches p ts → IsRight p ts
unfolding create_pool create_threads sum_to
reaches-IsRight start = record {
  one_mutex = refl;
  slots_free = refl;
  slots_full = refl;
  balance = refl;
  recorded = refl;
  all_done = refl;
}
reaches-IsRight (then_step r s) = Step-IsRight s (reaches-IsRight r)

asserts_with_room :
    (produces : Bool) (point : Point) (i : ℕ) (p : Pool)
    → has_free (record { produces = produces; point = point; i = i }) + p.items ≤ max_items
    → has_full (record { produces = produces; point = point; i = i }) ≤ p.items
    → next (record { produces = produces; point = point; i = i }) p ≢ fails
unfolding next producer consumer changed wait_at
asserts_with_room true at_loop i p room full e = ground (arith, e)
asserts_with_room true at_slot i p room full e = ground (arith, e)
asserts_with_room true at_mutex i p room full e = ground (arith, e)
asserts_with_room true inside i p room full e = ground (arith, e)
asserts_with_room true leaving i p room full e = ground (arith, e)
asserts_with_room true handing_on i p room full e = ground (arith, e)
asserts_with_room true ended i p room full e = ground (arith, e)
asserts_with_room false at_loop i p room full e = ground (arith, e)
asserts_with_room false at_slot i p room full e = ground (arith, e)
asserts_with_room false at_mutex i p room full e = ground (arith, e)
asserts_with_room false inside i p room full e = ground (arith, e)
asserts_with_room false leaving i p room full e = ground (arith, e)
asserts_with_room false handing_on i p room full e = ground (arith, e)
asserts_with_room false ended i p room full e = ground (arith, e)

-- In every run, no thread fails its assertion when its turn comes.
pub next-asserts :
    {p : Pool} (before : List Thread) (t : Thread) (after : List Thread)
    → Reaches p (before ++ t ∷ after)
    → next t p ≢ fails
next-asserts {p} before t after reached =
    let r = reaches-IsRight reached in
    asserts_with_room t.produces t.point t.i p
      (omega (arith, r.slots_free, total-append has_free before (t ∷ after)))
      (omega (arith, r.slots_full, total-append has_full before (t ∷ after)))

-- In every run, at most one thread stands where it has the mutex.
has_mutex-alone :
    {p : Pool} (before : List Thread) (t : Thread) (after : List Thread)
    → Reaches p (before ++ t ∷ after)
    → has_mutex t ≡ 1
    → (p.mutex ≡ 0) × (total has_mutex before ≡ 0) × (total has_mutex after ≡ 0)
has_mutex-alone before t after reached inside_it =
    let r = reaches-IsRight reached in
    let sum = total-append has_mutex before (t ∷ after) in
    (
      omega (arith, r.one_mutex, sum, inside_it),
      omega (arith, r.one_mutex, sum, inside_it),
      omega (arith, r.one_mutex, sum, inside_it),
    )
