-- ===== src/ItemPool/Progress.antt =====
-- The producers and consumers of a11/soln/pc_sem.c do not deadlock.
use cs213_assignments.Common.{
  ◌+◌, ◌*◌, ◌≡◌, ◌⊎◌, refl, sym, subst, inl, inr, List, [], ◌∷◌, ◌++◌, arith, length, dec_lt,
}
use mathlib.Core.List.{append_assoc}
use cs213_assignments.ItemPool.{
  Pool, Thread, Next, steps, waits, fails, over, next, max_items, num_iterations, num_threads,
  sum_to,
}
use cs213_assignments.ItemPool.Runs.{Step, step, Reaches}
use cs213_assignments.ItemPool.Invariant.{total, has_ended, reaches-IsRight, next-asserts}
use cs213_assignments.ItemPool.Crew.{All, reaches-IsCrew}
use cs213_assignments.ItemPool.Stuck.{
  IsStuck, waits_to_produce, waits_to_consume, stuck_outside, IsStuck-AllHeld, total-changes,
  total-kinds,
}

stuck-ended :
    {p : Pool} {ts : List Thread}
    → Reaches p ts
    → All (IsStuck p) ts
    → (total has_ended ts ≡ length ts)
      × (p.items ≡ 0)
      × (p.done ≡ num_threads)
      × (sum_to (max_items + 1) p.histogram ≡ num_threads * num_iterations)
stuck-ended {p} {ts} reached stuck =
    let r = reaches-IsRight reached in
    let c = reaches-IsCrew reached in
    let a =
      IsStuck-AllHeld p ts (omega (arith, r.one_mutex, stuck_outside p ts stuck)) c.within stuck in
    let slots : p.free_slots + p.items ≡ max_items = omega (arith, r.slots_free, a.no_free) in
    let full : p.full_slots ≡ p.items = omega (arith, r.slots_full, a.no_full) in
    let nobody_produces : total waits_to_produce ts ≡ 0 =
      elim (dec_lt 0 (total waits_to_produce ts)) [
        | yes q ↦
            let all_full : p.items ≡ max_items = omega (arith, slots, a.free_gone q) in
            let none_consumes : total waits_to_consume ts ≡ 0 =
              ground (arith, a.full_gone, full, all_full) in
            absurd (
              omega (
                arith, r.balance, a.produced_le, a.le_consumed, c.producers, c.consumers,
                none_consumes, all_full,
              ))
        | no q ↦ omega arith
      ] in
    let nobody_consumes : total waits_to_consume ts ≡ 0 =
      elim (dec_lt 0 (total waits_to_consume ts)) [
        | yes q ↦ absurd (
            omega (
              arith,
              r.balance,
              a.consumed_le,
              a.le_produced,
              c.producers,
              c.consumers,
              nobody_produces,
              full,
              a.full_gone q,
            ))
        | no q ↦ omega arith
      ] in
    let ended_all : total has_ended ts ≡ length ts =
      omega (arith, a.one_place, nobody_produces, nobody_consumes) in
    (
      ended_all,
      omega (
        arith, r.balance, a.produced_le, a.le_consumed, c.producers, c.consumers, nobody_consumes,
        nobody_produces,
      ),
      omega (arith, r.all_done, ended_all, total-kinds ts, c.producers, c.consumers),
      omega (
        arith,
        r.recorded,
        total-changes ts,
        a.produced_le,
        a.le_produced,
        a.consumed_le,
        a.le_consumed,
        c.producers,
        c.consumers,
        nobody_produces,
        nobody_consumes,
      ),
    )

Next-cases :
    (n : Next)
    → ((t : Thread) × (p : Pool) × (n ≡ steps t p)) ⊎ (n ≡ waits) ⊎ (n ≡ fails) ⊎ (n ≡ over)
Next-cases (steps t p) = inl (t, p, refl)
Next-cases waits = inr (inl refl)
Next-cases fails = inr (inr (inl refl))
Next-cases over = inr (inr (inr refl))

abbrev pub CanStep : Pool → List Thread → Type 0
CanStep p ts = (p' : Pool) × (ts' : List Thread) × Step p ts p' ts'

-- Among the threads behind the first ones, one can take a step, or none can.
look_for_step :
    {p : Pool} (before after : List Thread)
    → Reaches p (before ++ after)
    → CanStep p (before ++ after) ⊎ All (IsStuck p) after
look_for_step before [] reached = inr tt
look_for_step {p} before (t ∷ after) reached =
    let assoc = append_assoc before (t ∷ []) after in
    let rest =
      subst (λ ts. CanStep p ts ⊎ All (IsStuck p) after) assoc
        (look_for_step (before ++ t ∷ []) after (subst (Reaches p) (sym assoc) reached)) in
    elim (Next-cases (next t p)) [
      | inl (t', p', e) ↦ inl (p', before ++ t' ∷ after, step before t t' after e)
      | inr (inl e) ↦ elim rest [ inl found ↦ inl found | inr stuck ↦ inr (inl e, stuck) ]
      | inr (inr (inl e)) ↦ absurd (next-asserts before t after reached e)
      | inr (inr (inr e)) ↦ elim rest [ inl found ↦ inl found | inr stuck ↦ inr (inr e, stuck) ]
    ]

-- In every state of every run from the start of `main`, a thread can take a step, or all threads have
-- ended, each has signalled `done`, all items are consumed and the histogram has recorded every round:
-- the producers and consumers do not deadlock.
pub reaches-CanStep :
    {p : Pool} {ts : List Thread}
    → Reaches p ts
    → CanStep p ts
      ⊎ ((total has_ended ts ≡ length ts)
          × (p.items ≡ 0)
          × (p.done ≡ num_threads)
          × (sum_to (max_items + 1) p.histogram ≡ num_threads * num_iterations))
reaches-CanStep {p} {ts} reached = elim (look_for_step [] ts reached) [
  | inl found ↦ inl found
  | inr stuck ↦ inr (stuck-ended reached stuck)
]
