-- ===== src/ItemPool/Crew.antt =====
-- How far the threads of a11/soln/pc_sem.c can be in their rounds, in every run.
use cs213_assignments.Common.{
  ℕ, ◌+◌, ◌-◌, ◌<◌, ◌≤◌, ◌≡◌, refl, subst, Bool, true, false, ◌&&◌, List, [], ◌∷◌, ◌++◌, arith,
  ◌==◌, ltb, leb, if◌then◌else◌,
}
use cs213_assignments.ItemPool.{
  Pool, Point, at_loop, at_slot, at_mutex, inside, leaving, handing_on, ended, Thread, Next, steps,
  waits, fails, over, changed, wait_at, producer, consumer, next, create_threads, max_items,
  num_iterations,
}
use cs213_assignments.ItemPool.Runs.{step, Reaches, start, then_step}
use cs213_assignments.ItemPool.Invariant.{total, total-append}

abbrev pub All : (Thread → Type 0) → List Thread → Type 0
All P [] = Unit
All P (t ∷ ts) = P t × All P ts

All-replace :
    (P : Thread → Type 0) (before : List Thread) (t t' : Thread) (after : List Thread)
    → (P t → P t')
    → All P (before ++ t ∷ after)
    → All P (before ++ t' ∷ after)
All-replace P [] t t' after f a = (f a.0, a.1)
All-replace P (x ∷ before) t t' after f a = (a.0, All-replace P before t t' after f a.1)

-- How many rounds a thread can have begun, by where it stands.
abbrev pub IsWithin : Thread → Type 0
IsWithin t = elim t.point [
  | at_loop ↦ t.i ≤ num_iterations
  | ended ↦ t.i ≡ num_iterations
  | _ ↦ t.i < num_iterations
]

abbrev pub is_producer : Thread → ℕ
is_producer t = if t.produces then 1 else 0

abbrev pub is_consumer : Thread → ℕ
is_consumer t = if t.produces then 0 else 1

record IsNear (t t' : Thread) : Type 0 where
  same_kind : t.produces ≡ t'.produces
  within : IsWithin t → IsWithin t'

abbrev IsNext : Thread → Next → Type 0
IsNext t (steps t' p') = IsNear t t'
IsNext t waits = Unit {0}
IsNext t fails = Unit {0}
IsNext t over = Unit {0}

IsNext-if :
    (t : Thread) (b : Bool) (n m : Next)
    → (b ≡ true → IsNext t n)
    → (b ≡ false → IsNext t m)
    → IsNext t (if b then n else m)
IsNext-if t true n m f g = f refl
IsNext-if t false n m f g = g refl

producer-IsNext :
    (point : Point) (i : ℕ) (p : Pool)
    → IsNext (record { produces = true; point = point; i = i }) (producer point i p)
unfolding producer changed wait_at
producer-IsNext at_loop i p =
    IsNext-if _ (ltb i num_iterations) _ _
      (λ e. record { same_kind = refl; within = λ w. ground (arith, e) })
      (λ e. record { same_kind = refl; within = λ w. ground (arith, e) })
producer-IsNext at_slot i p =
    IsNext-if _ (p.free_slots == 0) _ _ (λ e. tt)
      (λ e. record { same_kind = refl; within = λ w. w })
producer-IsNext at_mutex i p =
    IsNext-if _ (p.mutex == 0) _ _ (λ e. tt) (λ e. record { same_kind = refl; within = λ w. w })
producer-IsNext inside i p =
    IsNext-if _ (leb 0 (p.items + 1) && leb (p.items + 1 - 0) max_items) _ _
      (λ e. record { same_kind = refl; within = λ w. w }) (λ e. tt)
producer-IsNext leaving i p = record { same_kind = refl; within = λ w. w }
producer-IsNext handing_on i p = record { same_kind = refl; within = λ w. omega (arith, w) }
producer-IsNext ended i p = tt

consumer-IsNext :
    (point : Point) (i : ℕ) (p : Pool)
    → IsNext (record { produces = false; point = point; i = i }) (consumer point i p)
unfolding consumer changed wait_at
consumer-IsNext at_loop i p =
    IsNext-if _ (ltb i num_iterations) _ _
      (λ e. record { same_kind = refl; within = λ w. ground (arith, e) })
      (λ e. record { same_kind = refl; within = λ w. ground (arith, e) })
consumer-IsNext at_slot i p =
    IsNext-if _ (p.full_slots == 0) _ _ (λ e. tt)
      (λ e. record { same_kind = refl; within = λ w. w })
consumer-IsNext at_mutex i p =
    IsNext-if _ (p.mutex == 0) _ _ (λ e. tt) (λ e. record { same_kind = refl; within = λ w. w })
consumer-IsNext inside i p =
    IsNext-if _ (leb 1 p.items && leb (p.items - 1) max_items) _ _
      (λ e. record { same_kind = refl; within = λ w. w }) (λ e. tt)
consumer-IsNext leaving i p = record { same_kind = refl; within = λ w. w }
consumer-IsNext handing_on i p = record { same_kind = refl; within = λ w. omega (arith, w) }
consumer-IsNext ended i p = tt

next-IsNext : (t : Thread) (p : Pool) → IsNext t (next t p)
unfolding next
next-IsNext t p = by_kind t.produces
  where
    by_kind :
        (b : Bool)
        → IsNext
            (record { produces = b; point = t.point; i = t.i })
            (if b then producer t.point t.i p else consumer t.point t.i p)
    by_kind true = producer-IsNext t.point t.i p
    by_kind false = consumer-IsNext t.point t.i p

-- The threads are two producers and two consumers in all, in their rounds.
pub record IsCrew (ts : List Thread) : Type 0 where
  pub within : All IsWithin ts
  pub producers : total is_producer ts ≡ 2
  pub consumers : total is_consumer ts ≡ 2

pub reaches-IsCrew : {p : Pool} {ts : List Thread} → Reaches p ts → IsCrew ts
unfolding create_threads
reaches-IsCrew start = record {
  within = (omega arith, (omega arith, (omega arith, (omega arith, tt))));
  producers = refl;
  consumers = refl;
}
reaches-IsCrew (then_step {p} reached (step before t t' after e)) =
    let c = reaches-IsCrew reached in
    let near = subst (IsNext t) e (next-IsNext t p) in
    record {
      within = All-replace IsWithin before t t' after near.within c.within;
      producers = ground (
        arith,
        c.producers,
        near.same_kind,
        total-append is_producer before (t ∷ after),
        total-append is_producer before (t' ∷ after),
      );
      consumers = ground (
        arith,
        c.consumers,
        near.same_kind,
        total-append is_consumer before (t ∷ after),
        total-append is_consumer before (t' ∷ after),
      );
    }
