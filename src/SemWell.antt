-- ===== src/SemWell.antt =====
-- The well of a11/soln/well_sem.c, with semaphores: a thread that cannot enter is let in by one that
-- leaves, which also counts it as an occupant. What a thread does while it holds the semaphore `mutex` is
-- one step; `can_enter` has the values of the two semaphores at which threads wait. The times and the
-- histograms are left out.
pub mod Runs
pub mod Entries
pub mod Invariant
pub mod Tests
use cs213_assignments.Common.{
  ℕ, zero, suc, ◌+◌, ◌-◌, Bool, true, false, not, ◌&&◌, ◌||◌, Option, none, some, ltb, ◌==◌, ◌>>=◌,
  if◌then◌else◌,
}
use cs213_assignments.Well.{Endianness, little, big, opposite_end, same_end, max_occupancy}

-- A value for each kind.
pub record Both : Type 0 where
  pub of_little : ℕ
  pub of_big : ℕ

abbrev pub value_of : Endianness → Both → ℕ
value_of little b = b.of_little
value_of big b = b.of_big

abbrev pub set_value : Endianness → ℕ → Both → Both
set_value little n b = record b { of_little = n }
set_value big n b = record b { of_big = n }

-- `struct Well` without `mutex` and `done`.
pub record SemWell : Type 0 where
  pub can_enter : Both
  pub occupant_count : ℕ
  pub occupant_endianness : Endianness
  pub waiters_count : Both

unfoldable pub create_well : SemWell
create_well = record {
  can_enter = record { of_little = 0; of_big = 0 };
  occupant_count = 0;
  occupant_endianness = little;
  waiters_count = record { of_little = 0; of_big = 0 };
}

-- A failed assertion is none.
pub record_entry : Endianness → SemWell → Option SemWell
record_entry e well =
    if (well.occupant_count == 0 || same_end well.occupant_endianness e)
      && ltb well.occupant_count max_occupancy
    then some (record well { occupant_count = well.occupant_count + 1; occupant_endianness = e })
    else none

pub can_enter_now : Endianness → SemWell → Bool
can_enter_now e well =
    well.occupant_count == 0
    || (ltb well.occupant_count max_occupancy
        && same_end well.occupant_endianness e
        && not (ltb 0 (value_of (opposite_end e) well.waiters_count)))

-- Up to `uthread_sem_signal (well->mutex)`: whether the thread enters at once, and the well.
pub enter_well : Endianness → SemWell → Option (Bool × SemWell)
unfolding record_entry can_enter_now
enter_well e well =
    if can_enter_now e well
    then (do well ← record_entry e well; some (true, well))
    else some (
      false,
      record well {
        waiters_count = set_value e (value_of e well.waiters_count + 1) well.waiters_count;
      },
    )

-- `waitersCount --`, `recordEntry` and `uthread_sem_signal (canEnter)`.
pub let_in : Endianness → SemWell → Option SemWell
unfolding record_entry
let_in e well = do
  well ← record_entry e (record well {
    waiters_count = set_value e (value_of e well.waiters_count - 1) well.waiters_count;
  })
  some (record well { can_enter = set_value e (value_of e well.can_enter + 1) well.can_enter })

-- The loop from `i` on, where `room` is MAX_OCCUPANCY - i: its test reads the count of the waiters that
-- the body decrements.
pub let_others_in : ℕ → ℕ → Endianness → SemWell → Option SemWell
let_others_in i zero e well = some well
let_others_in i (suc room) e well =
    let go_on = ltb i (value_of e well.waiters_count) in
    elim go_on [
      | true ↦ do well ← let_in e well; let_others_in (i + 1) room e well
      | false ↦ some well
    ]

pub leave_well : SemWell → Option SemWell
unfolding let_in let_others_in
leave_well well =
    let well' = record well { occupant_count = well.occupant_count - 1 } in
    let in_end = well.occupant_endianness in
    let out_end = opposite_end in_end in
    if ltb 0 (value_of out_end well.waiters_count)
    then (if well.occupant_count - 1 == 0
        then let_others_in 0 max_occupancy out_end well'
        else some well')
    else if ltb 0 (value_of in_end well.waiters_count)
    then let_in in_end well'
    else some well'
