-- ===== src/ItemPool/Stuck.antt =====
-- Where the threads of a11/soln/pc_sem.c stand when none can take a step.
use cs213_assignments.Common.{
  ℕ, ◌+◌, ◌*◌, ◌<◌, ◌≤◌, ◌≡◌, ◌⊎◌, refl, Bool, true, false, List, [], ◌∷◌, arith, if◌then◌else◌,
  length,
}
use cs213_assignments.ItemPool.{
  Pool, Point, at_loop, at_slot, at_mutex, inside, leaving, handing_on, ended, Thread, waits, over,
  changed, wait_at, producer, consumer, next, num_iterations,
}
use cs213_assignments.ItemPool.Invariant.{
  total, has_mutex, has_free, has_full, changes, produced, consumed, has_ended,
}
use cs213_assignments.ItemPool.Crew.{All, IsWithin, is_producer, is_consumer}

-- A thread that cannot take a step.
abbrev pub IsStuck : Pool → Thread → Type 0
IsStuck p t = (next t p ≡ waits) ⊎ (next t p ≡ over)

abbrev pub waits_to_produce : Thread → ℕ
waits_to_produce t = if t.produces then elim t.point [ at_slot ↦ 1 | _ ↦ 0 ] else 0

abbrev pub waits_to_consume : Thread → ℕ
waits_to_consume t = if t.produces then 0 else elim t.point [ at_slot ↦ 1 | _ ↦ 0 ]

IsStuck-outside :
    (p : Pool) (produces : Bool) (point : Point) (i : ℕ)
    → IsStuck p (record { produces = produces; point = point; i = i })
    → has_mutex (record { produces = produces; point = point; i = i }) ≡ 0
unfolding next producer consumer changed wait_at
IsStuck-outside p true at_loop i s = ground (arith, s)
IsStuck-outside p true at_slot i s = ground (arith, s)
IsStuck-outside p true at_mutex i s = ground (arith, s)
IsStuck-outside p true inside i s = ground (arith, s)
IsStuck-outside p true leaving i s = ground (arith, s)
IsStuck-outside p true handing_on i s = ground (arith, s)
IsStuck-outside p true ended i s = ground (arith, s)
IsStuck-outside p false at_loop i s = ground (arith, s)
IsStuck-outside p false at_slot i s = ground (arith, s)
IsStuck-outside p false at_mutex i s = ground (arith, s)
IsStuck-outside p false inside i s = ground (arith, s)
IsStuck-outside p false leaving i s = ground (arith, s)
IsStuck-outside p false handing_on i s = ground (arith, s)
IsStuck-outside p false ended i s = ground (arith, s)

-- Where a thread stands that cannot take a step while the mutex is free: it waits for a slot, or has
-- ended.
record IsHeld (p : Pool) (t : Thread) : Type 0 where
  no_free : has_free t ≡ 0
  no_full : has_full t ≡ 0
  one_place : waits_to_produce t + waits_to_consume t + has_ended t ≡ 1
  free_gone : 0 < waits_to_produce t → p.free_slots ≡ 0
  full_gone : 0 < waits_to_consume t → p.full_slots ≡ 0
  produced_le : produced t + waits_to_produce t ≤ num_iterations * is_producer t
  le_produced : num_iterations * is_producer t ≤ produced t + num_iterations * waits_to_produce t
  consumed_le : consumed t + waits_to_consume t ≤ num_iterations * is_consumer t
  le_consumed : num_iterations * is_consumer t ≤ consumed t + num_iterations * waits_to_consume t

IsStuck-IsHeld :
    (p : Pool) (produces : Bool) (point : Point) (i : ℕ)
    → p.mutex ≡ 1
    → IsWithin (record { produces = produces; point = point; i = i })
    → IsStuck p (record { produces = produces; point = point; i = i })
    → IsHeld p (record { produces = produces; point = point; i = i })
unfolding next producer consumer changed wait_at
IsStuck-IsHeld p true at_loop i free w s = absurd (ground (arith, s, free))
IsStuck-IsHeld p true at_slot i free w s = record {
  no_free = refl;
  no_full = refl;
  one_place = refl;
  free_gone = λ q. ground (arith, s, q);
  full_gone = λ q. ground (arith, s, q);
  produced_le = omega (arith, w);
  le_produced = omega (arith, w);
  consumed_le = omega (arith, w);
  le_consumed = omega (arith, w);
}
IsStuck-IsHeld p true at_mutex i free w s = absurd (ground (arith, s, free))
IsStuck-IsHeld p true inside i free w s = absurd (ground (arith, s, free))
IsStuck-IsHeld p true leaving i free w s = absurd (ground (arith, s, free))
IsStuck-IsHeld p true handing_on i free w s = absurd (ground (arith, s, free))
IsStuck-IsHeld p true ended i free w s = record {
  no_free = refl;
  no_full = refl;
  one_place = refl;
  free_gone = λ q. ground (arith, s, q);
  full_gone = λ q. ground (arith, s, q);
  produced_le = omega (arith, w);
  le_produced = omega (arith, w);
  consumed_le = omega (arith, w);
  le_consumed = omega (arith, w);
}
IsStuck-IsHeld p false at_loop i free w s = absurd (ground (arith, s, free))
IsStuck-IsHeld p false at_slot i free w s = record {
  no_free = refl;
  no_full = refl;
  one_place = refl;
  free_gone = λ q. ground (arith, s, q);
  full_gone = λ q. ground (arith, s, q);
  produced_le = omega (arith, w);
  le_produced = omega (arith, w);
  consumed_le = omega (arith, w);
  le_consumed = omega (arith, w);
}
IsStuck-IsHeld p false at_mutex i free w s = absurd (ground (arith, s, free))
IsStuck-IsHeld p false inside i free w s = absurd (ground (arith, s, free))
IsStuck-IsHeld p false leaving i free w s = absurd (ground (arith, s, free))
IsStuck-IsHeld p false handing_on i free w s = absurd (ground (arith, s, free))
IsStuck-IsHeld p false ended i free w s = record {
  no_free = refl;
  no_full = refl;
  one_place = refl;
  free_gone = λ q. ground (arith, s, q);
  full_gone = λ q. ground (arith, s, q);
  produced_le = omega (arith, w);
  le_produced = omega (arith, w);
  consumed_le = omega (arith, w);
  le_consumed = omega (arith, w);
}

pub stuck_outside : (p : Pool) (ts : List Thread) → All (IsStuck p) ts → total has_mutex ts ≡ 0
stuck_outside p [] s = refl
stuck_outside p (t ∷ ts) s =
    omega (arith, IsStuck-outside p t.produces t.point t.i s.0, stuck_outside p ts s.1)

-- The same of all threads together.
pub record AllHeld (p : Pool) (ts : List Thread) : Type 0 where
  pub no_free : total has_free ts ≡ 0
  pub no_full : total has_full ts ≡ 0
  pub one_place :
      total waits_to_produce ts + total waits_to_consume ts + total has_ended ts ≡ length ts
  pub free_gone : 0 < total waits_to_produce ts → p.free_slots ≡ 0
  pub full_gone : 0 < total waits_to_consume ts → p.full_slots ≡ 0
  pub produced_le :
      total produced ts + total waits_to_produce ts ≤ num_iterations * total is_producer ts
  pub le_produced :
      num_iterations * total is_producer ts
      ≤ total produced ts + num_iterations * total waits_to_produce ts
  pub consumed_le :
      total consumed ts + total waits_to_consume ts ≤ num_iterations * total is_consumer ts
  pub le_consumed :
      num_iterations * total is_consumer ts
      ≤ total consumed ts + num_iterations * total waits_to_consume ts

pub IsStuck-AllHeld :
    (p : Pool) (ts : List Thread)
    → p.mutex ≡ 1
    → All IsWithin ts
    → All (IsStuck p) ts
    → AllHeld p ts
IsStuck-AllHeld p [] free w s = record {
  no_free = refl;
  no_full = refl;
  one_place = refl;
  free_gone = λ q. absurd (omega arith);
  full_gone = λ q. absurd (omega arith);
  produced_le = omega arith;
  le_produced = omega arith;
  consumed_le = omega arith;
  le_consumed = omega arith;
}
IsStuck-AllHeld p (t ∷ ts) free w s =
    let h = IsStuck-IsHeld p t.produces t.point t.i free w.0 s.0 in
    let a = IsStuck-AllHeld p ts free w.1 s.1 in
    record {
      no_free = omega (arith, h.no_free, a.no_free);
      no_full = omega (arith, h.no_full, a.no_full);
      one_place = omega (arith, h.one_place, a.one_place);
      free_gone = λ q. ground (arith, h.free_gone, a.free_gone);
      full_gone = λ q. ground (arith, h.full_gone, a.full_gone);
      produced_le = omega (arith, h.produced_le, a.produced_le);
      le_produced = omega (arith, h.le_produced, a.le_produced);
      consumed_le = omega (arith, h.consumed_le, a.consumed_le);
      le_consumed = omega (arith, h.le_consumed, a.le_consumed);
    }

pub total-changes : (ts : List Thread) → total changes ts ≡ total produced ts + total consumed ts
total-changes [] = refl
total-changes (t ∷ ts) = ground (arith, total-changes ts)

pub total-kinds : (ts : List Thread) → length ts ≡ total is_producer ts + total is_consumer ts
total-kinds [] = refl
total-kinds (t ∷ ts) = ground (arith, total-kinds ts)
