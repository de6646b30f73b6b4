-- ===== src/ItemPool.antt =====
-- The producers and consumers of a11/soln/pc_sem.c. A thread is known by the call at which it stands, and
-- a semaphore by its value: to wait where it is 0 blocks.
pub mod Runs
pub mod Invariant
pub mod Crew
pub mod Stuck
pub mod Progress
pub mod Tests
use cs213_assignments.Common.{
  ℕ, zero, suc, ◌+◌, ◌-◌, Bool, true, false, ◌&&◌, List, [], ◌∷◌, ◌++◌, ◌==◌, ltb, leb,
  if◌then◌else◌, update,
}

abbrev pub max_items : ℕ
max_items = 10

abbrev pub num_iterations : ℕ
num_iterations = 100

abbrev pub num_threads : ℕ
num_threads = 4

-- `struct Pool` with the histogram, which is global. A semaphore is its value.
pub record Pool : Type 0 where
  pub mutex : ℕ
  pub free_slots : ℕ
  pub full_slots : ℕ
  pub done : ℕ
  pub items : ℕ
  pub histogram : ℕ → ℕ

unfoldable pub create_pool : Pool
create_pool = record {
  mutex = 1;
  free_slots = max_items;
  full_slots = 0;
  done = 0;
  items = 0;
  histogram = λ i. 0;
}

-- Where a thread stands: at the test of the loop, before a wait, in front of the change of `items`,
-- before a signal, or behind the last one.
pub data Point : Type 0 where
  at_loop : Point
  at_slot : Point
  at_mutex : Point
  inside : Point
  leaving : Point
  handing_on : Point
  ended : Point

pub record Thread : Type 0 where
  pub produces : Bool
  pub point : Point
  pub i : ℕ

-- What a thread does next: it takes a step, it has to wait, or its assertion fails; and nothing if it
-- has ended.
pub data Next : Type 0 where
  steps : Thread → Pool → Next
  waits : Next
  fails : Next
  over : Next

-- `assert (items >= 0 && items <= MAX_ITEMS); histogram [items] ++`, of the items less `taken`.
unfoldable pub changed : Thread → ℕ → ℕ → Pool → Next
changed t items taken p =
    if leb taken items && leb (items - taken) max_items
    then steps (record t { point = leaving })
        (record p {
          items = items - taken;
          histogram = update p.histogram (items - taken) (p.histogram (items - taken) + 1);
        })
    else fails

-- `uthread_sem_wait` at the semaphore with the value, and what follows.
unfoldable pub wait_at : ℕ → Thread → Pool → Next
wait_at value t p = if value == 0 then waits else steps t p

unfoldable pub producer : Point → ℕ → Pool → Next
unfolding changed wait_at
producer at_loop i p =
    if ltb i num_iterations
    then steps (record { produces = true; point = at_slot; i = i }) p
    else steps (record { produces = true; point = ended; i = i }) (record p { done = p.done + 1 })
producer at_slot i p =
    wait_at p.free_slots (record { produces = true; point = at_mutex; i = i })
      (record p { free_slots = p.free_slots - 1 })
producer at_mutex i p =
    wait_at p.mutex (record { produces = true; point = inside; i = i })
      (record p { mutex = p.mutex - 1 })
producer inside i p = changed (record { produces = true; point = inside; i = i }) (p.items + 1) 0 p
producer leaving i p =
    steps (record { produces = true; point = handing_on; i = i }) (record p { mutex = p.mutex + 1 })
producer handing_on i p =
    steps (record { produces = true; point = at_loop; i = i + 1 })
      (record p { full_slots = p.full_slots + 1 })
producer ended i p = over

unfoldable pub consumer : Point → ℕ → Pool → Next
unfolding changed wait_at
consumer at_loop i p =
    if ltb i num_iterations
    then steps (record { produces = false; point = at_slot; i = i }) p
    else steps (record { produces = false; point = ended; i = i }) (record p { done = p.done + 1 })
consumer at_slot i p =
    wait_at p.full_slots (record { produces = false; point = at_mutex; i = i })
      (record p { full_slots = p.full_slots - 1 })
consumer at_mutex i p =
    wait_at p.mutex (record { produces = false; point = inside; i = i })
      (record p { mutex = p.mutex - 1 })
consumer inside i p = changed (record { produces = false; point = inside; i = i }) p.items 1 p
consumer leaving i p =
    steps (record { produces = false; point = handing_on; i = i })
      (record p { mutex = p.mutex + 1 })
consumer handing_on i p =
    steps (record { produces = false; point = at_loop; i = i + 1 })
      (record p { free_slots = p.free_slots + 1 })
consumer ended i p = over

unfoldable pub next : Thread → Pool → Next
unfolding producer consumer
next t p = if t.produces then producer t.point t.i p else consumer t.point t.i p

-- The threads that `main` creates: a consumer, a producer, and so on.
unfoldable pub create_threads : List Thread
create_threads =
    record { produces = false; point = at_loop; i = 0 }
    ∷ record { produces = true; point = at_loop; i = 0 }
    ∷ record { produces = false; point = at_loop; i = 0 }
    ∷ record { produces = true; point = at_loop; i = 0 }
    ∷ []

-- The sum of the histogram's first entries.
unfoldable pub sum_to : ℕ → (ℕ → ℕ) → ℕ
sum_to zero f = 0
sum_to (suc n) f = sum_to n f + f n
