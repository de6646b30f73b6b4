-- ===== src/ItemPool/Tests.antt =====
-- The producers and consumers of a11/soln/pc_sem.c in the first steps of a run.
use cs213_assignments.Common.{◌+◌, ◌*◌, ◌≡◌, ◌≢◌, ◌⊎◌, refl, true, false, List, [], ◌∷◌, length}
use cs213_assignments.ItemPool.{
  Pool, create_pool, Thread, Point, at_loop, at_slot, at_mutex, inside, fails, next, create_threads,
  producer, consumer, wait_at, num_threads, num_iterations, max_items, sum_to,
}
use cs213_assignments.ItemPool.Runs.{Reaches, start, step, then_step}
use cs213_assignments.ItemPool.Invariant.{IsRight, reaches-IsRight, next-asserts, total, has_ended}
use cs213_assignments.ItemPool.Progress.{CanStep, reaches-CanStep}

abbrev at : Point → Thread
at point = record { produces = true; point = point; i = 0 }

abbrev fresh_consumer : Thread
fresh_consumer = record { produces = false; point = at_loop; i = 0 }

abbrev rest : List Thread
rest = fresh_consumer ∷ at at_loop ∷ []

-- The first producer has taken a slot and the mutex.
abbrev producing : Pool
producing = record create_pool { mutex = 0; free_slots = 9 }

reaches_inside : Reaches producing (fresh_consumer ∷ at inside ∷ rest)
unfolding create_pool create_threads next producer consumer wait_at
reaches_inside =
    then_step
      (then_step (then_step start (step (fresh_consumer ∷ []) (at at_loop) (at at_slot) rest refl))
        (step (fresh_consumer ∷ []) (at at_slot) (at at_mutex) rest refl))
      (step (fresh_consumer ∷ []) (at at_mutex) (at inside) rest refl)

reaches-IsRight_example : IsRight producing (fresh_consumer ∷ at inside ∷ rest)
reaches-IsRight_example = reaches-IsRight reaches_inside

next-asserts_example : next (at inside) producing ≢ fails
next-asserts_example = next-asserts (fresh_consumer ∷ []) (at inside) rest reaches_inside

reaches-CanStep_example :
    CanStep producing (fresh_consumer ∷ at inside ∷ rest)
    ⊎ ((total has_ended (fresh_consumer ∷ at inside ∷ rest)
          ≡ length (fresh_consumer ∷ at inside ∷ rest))
        × (producing.items ≡ 0)
        × (producing.done ≡ num_threads)
        × (sum_to (max_items + 1) producing.histogram ≡ num_threads * num_iterations))
reaches-CanStep_example = reaches-CanStep reaches_inside
