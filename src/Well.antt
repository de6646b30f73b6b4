-- ===== src/Well.antt =====
-- The well of a11/soln/well.c, at which threads of two kinds of endianness drink, at most three at a
-- time and never both kinds together. What a thread does while it holds the mutex is one step; the
-- mutex and the condition variables themselves are those of Uthread.
pub mod Occupancy
pub mod Signals
pub mod Tests
use cs213_assignments.Common.{
  ℕ, ◌+◌, ◌-◌, Bool, true, false, not, ◌&&◌, ◌||◌, List, [], ◌∷◌, ltb, leb, ◌==◌, if◌then◌else◌,
}

abbrev pub max_occupancy : ℕ
max_occupancy = 3

abbrev pub fair_waiting_count : ℕ
fair_waiting_count = 4

pub data Endianness : Type 0 where
  little : Endianness
  big : Endianness

abbrev pub opposite_end : Endianness → Endianness
opposite_end little = big
opposite_end big = little

abbrev pub same_end : Endianness → Endianness → Bool
same_end little little = true
same_end little big = false
same_end big little = false
same_end big big = true

-- `struct Well` without the mutex and the condition variables.
pub record Well : Type 0 where
  pub occupant_count : ℕ
  pub occupant_endianness : Endianness
  pub waiters_count : Endianness → ℕ
  pub out_endianness_waiting_count : ℕ

pub create_well : Well
create_well = record {
  occupant_count = 0;
  occupant_endianness = little;
  waiters_count = λ e. 0;
  out_endianness_waiting_count = 0;
}

pub can_enter : Endianness → Well → Bool
can_enter e well =
    well.occupant_count == 0
    || (ltb well.occupant_count max_occupancy
        && same_end well.occupant_endianness e
        && not (
            ltb 0 (well.waiters_count (opposite_end e))
            && leb fair_waiting_count well.out_endianness_waiting_count))

pub count_entry : Endianness → Well → Well
count_entry e well = record well {
  out_endianness_waiting_count =
      if same_end well.occupant_endianness e then well.out_endianness_waiting_count + 1 else 0;
}

abbrev pub at_end : Endianness → ℕ → (Endianness → ℕ) → Endianness → ℕ
at_end e n counts e' = if same_end e e' then n else counts e'

pub count_waiter : Endianness → Well → Well
count_waiter e well = record well {
  out_endianness_waiting_count =
      if not (same_end well.occupant_endianness e) && well.waiters_count e == 0
      then 0
      else well.out_endianness_waiting_count;
  waiters_count = at_end e (well.waiters_count e + 1) well.waiters_count;
}

-- One turn of the loop in `enterWell`, which ends with a wait, or with the entry or a failed
-- `assert` behind the loop.
pub data Turn : Type 0 where
  waits : Well → Turn
  enters : Well → Turn
  assertion_failed : Turn

pub occupy : Endianness → Well → Turn
occupy e well =
    if well.occupant_count == 0 || same_end well.occupant_endianness e
    then (if ltb well.occupant_count max_occupancy
        then enters
            (record well { occupant_endianness = e; occupant_count = well.occupant_count + 1 })
        else assertion_failed)
    else assertion_failed

pub enter_well : Endianness → Well → Turn
unfolding can_enter occupy count_entry count_waiter
enter_well e well =
    if can_enter e well then occupy e (count_entry e well) else waits (count_waiter e well)

-- Behind the wait, before the next turn of the loop.
pub stop_waiting : Endianness → Well → Well
stop_waiting e well = record well {
  waiters_count = at_end e (well.waiters_count e - 1) well.waiters_count;
}

-- The well, and the condition variables that are signalled.
pub leave_well : Well → Well × List Endianness
leave_well well =
    let well = record well { occupant_count = well.occupant_count - 1 } in
    let in_endianness = well.occupant_endianness in
    let out_endianness = opposite_end in_endianness in
    let out_endianness_waiting = ltb 0 (well.waiters_count out_endianness) in
    let waiting_not_fair = leb fair_waiting_count well.out_endianness_waiting_count in
    let in_endianness_waiting = ltb 0 (well.waiters_count in_endianness) in
    (
      well,
      if out_endianness_waiting && (waiting_not_fair || not in_endianness_waiting)
          then (if well.occupant_count == 0
              then out_endianness ∷ out_endianness ∷ out_endianness ∷ []
              else [])
          else (if in_endianness_waiting then in_endianness ∷ [] else []),
    )
