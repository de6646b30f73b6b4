-- ===== src/Disk/Tests.antt =====
-- Times of a9/disk.c at concrete values.
use cs213_assignments.Common.{◌≡◌, ◌↔◌, refl, true, arith}
use cs213_assignments.Common.Int.{pos, ◌+ℤ◌, ◌-ℤ◌, ◌≤ℤ◌}
use cs213_assignments.Disk.{TimeVal, is_due, tm_add, read_latency_usec}
use cs213_assignments.Disk.Clock.{micros, is_due-micros}

abbrev time : TimeVal
time = record { sec = pos 7; usec = pos 990000 }

abbrev later : TimeVal
later = record { sec = pos 8; usec = pos 0 }

-- The microseconds of the sum are not carried.
not_carried : tm_add time read_latency_usec ≡ record { sec = pos 7; usec = pos 1000000 }
unfolding tm_add ◌+ℤ◌ ◌-ℤ◌
not_carried = refl

is_due-micros_example :
    (is_due (record { buf = 1; block_no = 0; complete_time = tm_add time read_latency_usec }) later
      ≡ true)
    ↔ (micros time +ℤ read_latency_usec ≤ℤ micros later)
is_due-micros_example =
    is_due-micros 1 0 time later (omega arith, omega arith) (omega arith, omega arith)
