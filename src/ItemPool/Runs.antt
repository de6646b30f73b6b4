-- ===== src/ItemPool/Runs.antt =====
-- The runs of the producers and consumers: in each step, one thread does what it does next.
use cs213_assignments.Common.{◌≡◌, List, ◌∷◌, ◌++◌}
use cs213_assignments.ItemPool.{Pool, Thread, steps, next, create_pool, create_threads}

pub data Step : Pool → List Thread → Pool → List Thread → Type 0 where
  step :
      {p p' : Pool} (before : List Thread) (t t' : Thread) (after : List Thread)
      → next t p ≡ steps t' p'
      → Step p (before ++ t ∷ after) p' (before ++ t' ∷ after)

-- What can be reached from the start of `main`.
pub data Reaches : Pool → List Thread → Type 0 where
  start : Reaches create_pool create_threads
  then_step :
      {p p' : Pool} {ts ts' : List Thread} → Reaches p ts → Step p ts p' ts' → Reaches p' ts'
