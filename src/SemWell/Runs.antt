-- ===== src/SemWell/Runs.antt =====
-- The runs of any number of threads at the well of a11/soln/well_sem.c.
use cs213_assignments.Common.{◌-◌, ◌<◌, ◌≡◌, true, false, some, List, [], ◌∷◌}
use cs213_assignments.Well.{Endianness}
use cs213_assignments.SemWell.{SemWell, value_of, set_value, create_well, enter_well, leave_well}

-- A thread comes and enters, or waits; a thread that has been let in passes its semaphore; a thread
-- leaves. The threads that are listed stand at the well.
pub data Step : SemWell → List Endianness → SemWell → List Endianness → Type 0 where
  enters :
      {well well' : SemWell} {ts : List Endianness} (e : Endianness)
      → enter_well e well ≡ some (true, well')
      → Step well ts well' (e ∷ ts)
  comes_to_wait :
      {well well' : SemWell} {ts : List Endianness} (e : Endianness)
      → enter_well e well ≡ some (false, well')
      → Step well ts well' ts
  passes :
      {well : SemWell} {ts : List Endianness} (e : Endianness)
      → 0 < value_of e well.can_enter
      → Step well ts
          (record well { can_enter = set_value e (value_of e well.can_enter - 1) well.can_enter })
          (e ∷ ts)
  leaves :
      {well well' : SemWell} {ts : List Endianness} (e : Endianness)
      → leave_well well ≡ some well'
      → Step well (e ∷ ts) well' ts

pub data Reaches : SemWell → List Endianness → Type 0 where
  start : Reaches create_well []
  and_then :
      {well well' : SemWell} {ts ts' : List Endianness}
      → Reaches well ts
      → Step well ts well' ts'
      → Reaches well' ts'
