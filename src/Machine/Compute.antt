-- ===== src/Machine/Compute.antt =====
-- `compute` of a8/q3/sm.c and a8/q3/sm-jt.c, the fetch and execute loop, on fuel.
use cs213_assignments.Common.{ℕ, zero, suc, Bool, true, false, Option, none, some, ◌>>=◌}
use cs213_assignments.Machine.State.{Machine}
use cs213_assignments.Machine.Fetch.{fetch}

-- How the loop ends; a program may also run for ever.
pub data Run : Type 0 where
  halted : Machine → Run
  undefined : Run
  out_of_fuel : Run

module _ (exec : Machine → Option (Machine × Bool)) where
  unfoldable pub cycle : Machine → Option (Machine × Bool)
  cycle m = do m ← fetch m; exec m

  unfoldable pub compute : ℕ → Machine → Run
  compute zero m = out_of_fuel
  compute (suc fuel) m = elim (cycle m) [
    | none ↦ undefined
    | some (m', go) ↦ elim go [ true ↦ compute fuel m' | false ↦ halted m' ]
  ]
