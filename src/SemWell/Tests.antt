-- ===== src/SemWell/Tests.antt =====
-- Two threads of one kind wait while the last one of the other kind leaves the well of
-- a11/soln/well_sem.c.
use cs213_assignments.Common.{◌≡◌, ◌≢◌, refl, none, some, List, [], ◌∷◌}
use cs213_assignments.Well.{Endianness, little, big}
use cs213_assignments.SemWell.{
  SemWell, create_well, enter_well, leave_well, can_enter_now, record_entry, let_in, let_others_in,
}
use cs213_assignments.SemWell.Runs.{Reaches, start, and_then, enters, comes_to_wait}
use cs213_assignments.SemWell.Invariant.{IsServed, reaches-IsServed, well-asserts}

abbrev crowded : SemWell
crowded = record {
  can_enter = record { of_little = 0; of_big = 0 };
  occupant_count = 1;
  occupant_endianness = little;
  waiters_count = record { of_little = 0; of_big = 2 };
}

reaches_crowded : Reaches crowded (little ∷ [])
unfolding create_well enter_well can_enter_now record_entry
reaches_crowded =
    and_then (and_then (and_then start (enters little refl)) (comes_to_wait big refl))
      (comes_to_wait big refl)

reaches-IsServed_example : IsServed crowded (little ∷ [])
reaches-IsServed_example = reaches-IsServed reaches_crowded

-- Of the two that wait only one is let in, though there is room for both.
leave_well-crowded :
    leave_well crowded
    ≡ some (record {
      can_enter = record { of_little = 0; of_big = 1 };
      occupant_count = 1;
      occupant_endianness = big;
      waiters_count = record { of_little = 0; of_big = 1 };
    })
unfolding leave_well let_in let_others_in record_entry
leave_well-crowded = refl

well-asserts_example :
    ((e : Endianness) → enter_well e crowded ≢ none)
    × ((e : Endianness) (others : List Endianness)
        → little ∷ [] ≡ e ∷ others
        → leave_well crowded ≢ none)
well-asserts_example = well-asserts reaches_crowded
