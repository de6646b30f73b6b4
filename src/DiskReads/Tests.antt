-- ===== src/DiskReads/Tests.antt =====
-- The runs of a9/aRead.c for one block.
use cs213_assignments.Common.{◌⊎◌, false, ℕ, ◌%◌, ◌^◌, ◌≡◌, ◌≢◌, refl, true, some}
use cs213_assignments.Common.Int.{pos, ◌+ℤ◌, ◌-ℤ◌}
use cs213_assignments.RequestNodes.{Node}
use cs213_assignments.RequestQueue.{queue_create, queue_enqueue, queue_dequeue, unlink_front}
use cs213_assignments.Disk.{
  TimeVal, PendingRead, Disk, handled, bad_access, tm_add, is_due, disk_schedule_read,
  handle_timer_interrupt,
}
use cs213_assignments.Disk.Blocks.{sum_of_blocks}
use cs213_assignments.DiskReads.Async.{
  Reader, Running, waiting, printed, started, fails, main, interrupt_service_routine, int_of,
}
use cs213_assignments.DiskReads.AsyncRuns.{
  Reaches, start, then_main, then_timer, interrupted, in_round,
}
use cs213_assignments.DiskReads.AsyncResults.{main-prints, aread-dangling}

abbrev garbage : ℕ → ℕ
garbage a = 99

abbrev now : TimeVal
now = record { sec = pos 7; usec = pos 0 }

abbrev later : TimeVal
later = record { sec = pos 8; usec = pos 0 }

-- `main` has scheduled the read of the first block, and waits.
reaches_waiting : (p : Running) × Reaches 1 garbage p × (p.point ≡ waiting)
unfolding started main queue_create queue_enqueue disk_schedule_read ◌+ℤ◌ ◌-ℤ◌
reaches_waiting = (
  _,
  then_main now (then_main now (then_main now (then_main now start refl) refl) refl) refl,
  refl,
)

-- The round of the loop has ended when the read is due.
read_too_late : interrupted later (reaches_waiting.0) ≡ bad_access
unfolding reaches_waiting is_due ◌+ℤ◌ ◌-ℤ◌ tm_add
read_too_late = (aread-dangling later (reaches_waiting.1)).2 0 _ refl refl refl refl

aread-dangling_example :
    let p = reaches_waiting.0 in
    (main 1 garbage later p.point p ≢ fails)
    × ((interrupted later p ≡ bad_access)
        ⊎ ((d : Disk) × (w : Reader) × (interrupted later p ≡ handled d w)))
    × ((a : ℕ) (n : Node PendingRead)
        → p.disk.front ≡ some a
        → p.disk.node a ≡ some n
        → is_due n.content later ≡ true
        → in_round n.content.block_no p.point ≡ false
        → interrupted later p ≡ bad_access)
aread-dangling_example = aread-dangling later (reaches_waiting.1)

-- The first block holds 20, and is read while `main` is still in the round of the loop.
reaches_printed : (p : Running) × Reaches 1 garbage p × (p.point ≡ printed (pos 20))
unfolding started main queue_create queue_enqueue disk_schedule_read ◌+ℤ◌ ◌-ℤ◌
    handle_timer_interrupt interrupt_service_routine queue_dequeue unlink_front
reaches_printed = (
  _,
  then_main later
      (then_main later
        (then_main later (then_timer later (then_main now (then_main now start refl) refl) refl)
          refl)
        refl)
      refl,
  refl,
)

main-prints_example : pos 20 ≡ int_of (sum_of_blocks 1 % 2 ^ 32)
main-prints_example = main-prints (pos 20) (reaches_printed.1) (reaches_printed.2)
