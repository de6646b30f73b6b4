-- ===== src/Uthread/Lifetime/Tests.antt =====
-- The life of a thread that is joined while it runs.
use cs213_assignments.Common.{◌≡◌, ◌↔◌, refl, none}
use cs213_assignments.Uthread.Lifetime.{nascent, joined_by, uthread_join, end_join, finish, Tcb}
use cs213_assignments.Uthread.Lifetime.Runs.{
  World, Reaches, here, and_then, finishes, join_blocks, join_resumes, start, reaped, done,
  freed-at_end, finished,
}

abbrev joined : Tcb
joined = record { state = nascent; joiner = joined_by 3; return_val = 0 }

abbrev over : Tcb
over = (finish 42 joined).0

abbrev last : World
last = record { block = (end_join over).1; phase = finished; client = done }

run : Reaches start last
unfolding start uthread_join
run =
    and_then (and_then (and_then here (join_blocks 3 refl)) (finishes 42)) (join_resumes (λ e. cc))

freed-at_end_example : (last.block ≡ none) ↔ ((last.phase ≡ reaped) × (last.client ≡ done))
freed-at_end_example = freed-at_end run
