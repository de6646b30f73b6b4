-- ===== src/DiskReads/AsyncResults.antt =====
-- What every run of a9/aRead.c comes to.
use cs213_assignments.Common.{
  ℕ, ◌+◌, ◌%◌, ◌^◌, ◌≡◌, ◌≢◌, ◌∙◌, ◌⊎◌, sym, ap, subst, true, false, none, some, ◌>>=◌, List, [],
  ◌∷◌, inl, inr, Option-cases,
}
use mathlib.Core.Option.{some-injective}
use cs213_assignments.Common.Int.{ℤ}
use cs213_assignments.RequestNodes.{Node}
use cs213_assignments.RequestNodes.Line.{contents}
use cs213_assignments.Disk.{
  Disk, PendingRead, TimeVal, handled, bad_access, is_due, deliver_interrupt,
}
use cs213_assignments.Disk.Blocks.{sum_of_blocks}
use cs213_assignments.Disk.Delivery.{
  complete_due, complete_due-due, handle_timer_interrupt-completes,
}
use cs213_assignments.DiskReads.Async.{
  Reader, interrupt_service_routine, Running, printed, steps, fails, main, int_of,
}
use cs213_assignments.DiskReads.AsyncInvariant.{perform_dma-dead}
use cs213_assignments.DiskReads.AsyncRuns.{
  interrupted, Reaches, start, then_main, then_timer, HasScheduled, InOrder, in_round, enough_fuel,
  start-InOrder, timer-InOrder, main-InOrder, interrupted-fails,
}

steps-injective : {p p' : Running} → steps p ≡ steps p' → p ≡ p'
steps-injective e = cc

-- A read whose variable has ended its life fails.
complete_due-dead :
    (now : TimeVal) (r : PendingRead) (rs : List PendingRead) (w : Reader)
    → is_due r now ≡ true
    → w.memory r.buf ≡ none
    → complete_due (some interrupt_service_routine) now (r ∷ rs) w ≡ none
complete_due-dead now r rs w due dead =
    let isr = some interrupt_service_routine in
    complete_due-due isr now r rs w due
    ∙ ap (λ o. do w ← o; w ← deliver_interrupt isr w; complete_due isr now rs w)
        (perform_dma-dead r.buf r.block_no w dead)

-- If the first read is due and its variable is gone, the interrupt writes into it.
first_dead :
    {num_blocks : ℕ} {p : Running} (now : TimeVal) (a : ℕ) (n : Node PendingRead)
    → InOrder num_blocks p
    → p.disk.front ≡ some a
    → p.disk.node a ≡ some n
    → is_due n.content now ≡ true
    → in_round n.content.block_no p.point ≡ false
    → interrupted now p ≡ bad_access
first_dead {num_blocks} {p} now a n ([], spare, k, i) front at due out = cc i.pending.in_line
first_dead {num_blocks} {p} now a n ((b, r) ∷ line, spare, k, i) front at due out =
    let (m, front', at', is, _) = i.pending.in_line in
    let (buf, block_no, _) = i.in_turn in
    let same : b ≡ a = some-injective _ _ (sym front' ∙ front) in
    let same_node : m ≡ n = some-injective _ _ (sym at' ∙ ap p.disk.node same ∙ at) in
    let first : r ≡ n.content = sym is ∙ ap (λ m. m.content) same_node in
    interrupted-fails num_blocks now p ((b, r) ∷ line) spare k i (
      complete_due-dead now r (contents line) p.reader (rw first due) (
        ap p.reader.memory buf
        ∙ i.dead k
            (ap (λ j. in_round j p.point) (sym block_no ∙ ap (λ r. r.block_no) first) ∙ out)))

module _ {num_blocks : ℕ} {garbage : ℕ → ℕ} where
  pub reaches-InOrder : {p : Running} → Reaches num_blocks garbage p → InOrder num_blocks p
  unfolding main
  reaches-InOrder start = start-InOrder num_blocks
  reaches-InOrder (then_main {p} {p'} now r e) =
      elim (main-InOrder num_blocks garbage now p.disk p.reader p.point (reaches-InOrder r)) [
        | inl (q, e', i) ↦ subst (InOrder num_blocks) (steps-injective (sym e' ∙ e)) i
        | inr (n, at, ended) ↦ cc
      ]
  reaches-InOrder (then_timer {p} now r e) = timer-InOrder num_blocks now p (reaches-InOrder r) e

  -- In every run with timer interrupts at any times, none of which ends in a bad access, a number that
  -- `main` prints is the sum of the blocks, wrapped around to 32 bits and read as an int.
  pub main-prints :
      {p : Running} (n : ℤ)
      → Reaches num_blocks garbage p
      → p.point ≡ printed n
      → n ≡ int_of (sum_of_blocks num_blocks % 2 ^ 32)
  main-prints {p} n r at =
      let (line, spare, k, i) = reaches-InOrder r in
      (subst (HasScheduled num_blocks _) at i.scheduled).1

  main-no_failure :
      {p : Running} (now : TimeVal)
      → Reaches num_blocks garbage p
      → main num_blocks garbage now p.point p ≢ fails
  unfolding main
  main-no_failure {p} now r f =
      elim (main-InOrder num_blocks garbage now p.disk p.reader p.point (reaches-InOrder r)) [
        | inl (q, e', i) ↦ cc
        | inr (n, at, ended) ↦ cc
      ]

  interrupted-ends :
      {p : Running} (now : TimeVal)
      → Reaches num_blocks garbage p
      → (interrupted now p ≡ bad_access)
        ⊎ ((d : Disk) × (w : Reader) × (interrupted now p ≡ handled d w))
  interrupted-ends {p} now r =
      let isr = some interrupt_service_routine in
      let (line, spare, k, i) = reaches-InOrder r in
      elim (Option-cases (complete_due isr now (contents line) p.reader)) [
        | inl failed ↦ inl (interrupted-fails num_blocks now p line spare k i failed)
        | inr ((rest, w), done) ↦
            let (d, _, _, e, _, _) =
              handle_timer_interrupt-completes isr now (p.disk.unused + 1) p.disk p.reader w line
                spare rest i.pending (enough_fuel i) done in
            inr (d, w, e)
      ]

  -- In every state of every run, the next step of `main` does not fail, and a timer interrupt ends
  -- within a round for each node of the disk and one more. If its first read is due and `main` has
  -- left the round of the loop that has scheduled it, it writes into a variable that is gone.
  pub aread-dangling :
      {p : Running} (now : TimeVal)
      → Reaches num_blocks garbage p
      → (main num_blocks garbage now p.point p ≢ fails)
        × ((interrupted now p ≡ bad_access)
            ⊎ ((d : Disk) × (w : Reader) × (interrupted now p ≡ handled d w)))
        × ((a : ℕ) (n : Node PendingRead)
            → p.disk.front ≡ some a
            → p.disk.node a ≡ some n
            → is_due n.content now ≡ true
            → in_round n.content.block_no p.point ≡ false
            → interrupted now p ≡ bad_access)
  aread-dangling now r = (
    main-no_failure now r,
    interrupted-ends now r,
    λ a n front at due out. first_dead now a n (reaches-InOrder r) front at due out,
  )
