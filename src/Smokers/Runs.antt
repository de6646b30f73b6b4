-- ===== src/Smokers/Runs.antt =====
-- The runs of a11/soln/smoke_sem.c: in each step, one thread does what it does next.
use cs213_assignments.Common.{ℕ, ◌≡◌}
use cs213_assignments.Smokers.{State, Actor, steps, next, started}

pub data Reaches : State → Type 0 where
  start : Reaches started
  then_step :
      {s s' : State} (random : ℕ) (who : Actor)
      → Reaches s
      → next random who s ≡ steps s'
      → Reaches s'
