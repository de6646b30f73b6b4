-- ===== src/Well/Tests.antt =====
-- Threads at the well.
use cs213_assignments.Common.{◌≢◌, refl, [], ◌∷◌, ◌≡◌, ◌≤◌, length}
use cs213_assignments.Well.{
  Well, Endianness, little, big, enter_well, max_occupancy, stop_waiting, assertion_failed,
  create_well, can_enter, occupy, count_entry, count_waiter,
}
use cs213_assignments.Well.Occupancy.{
  World, AllAre, Reaches, here, and_then, arrives, turned, empty_well, well-peaceful,
}

-- A big one enters, and a little one waits.
some_run : (w : World) × Reaches empty_well w × (w.occupants ≡ big ∷ [])
unfolding empty_well create_well turned enter_well can_enter occupy count_entry count_waiter
some_run = (_, and_then (and_then here (arrives big refl)) (arrives little refl), refl)

well-peaceful_example :
    let w = some_run.0 in
    (w.well.occupant_count ≡ length w.occupants)
    × (length w.occupants ≤ max_occupancy)
    × AllAre w.well.occupant_endianness w.occupants
    × ((e : Endianness) → enter_well e w.well ≢ assertion_failed)
    × ((e : Endianness) → enter_well e (stop_waiting e w.well) ≢ assertion_failed)
well-peaceful_example = well-peaceful (some_run.1)

-- The last of the little ones leaves, and a big one waits.
abbrev last_leaves : Well
last_leaves = record {
  occupant_count = 1;
  occupant_endianness = little;
  waiters_count = λ e. elim e [ little ↦ 0 | big ↦ 1 ];
  out_endianness_waiting_count = 0;
}
