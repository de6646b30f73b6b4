-- ===== src/Well/Occupancy.antt =====
-- Who is at the well of a11/soln/well.c, for every order of the steps of any number of threads.
use mathlib.Core.Option.{some-injective}
use cs213_assignments.Common.{
  ◌≢◌, ◌∙◌, ap, Option, none, some, ◌+◌, ◌<◌, ◌≤◌, ◌≡◌, refl, sym, List, [], ◌∷◌, arith, ◌==◌, true,
  false, ◌||◌, length, subst, lt→ltb, Bool-cases, inl, inr,
}
use cs213_assignments.Well.{
  Well, Endianness, little, big, same_end, max_occupancy, create_well, can_enter, occupy,
  count_entry, count_waiter, enter_well, leave_well, stop_waiting, Turn, enters, waits,
  assertion_failed,
}

-- The well and the endianness of each thread at it.
pub record World : Type 0 where
  pub well : Well
  pub occupants : List Endianness

abbrev pub AllAre : Endianness → List Endianness → Type 0
AllAre e [] = Unit
AllAre e (x ∷ xs) = (x ≡ e) × AllAre e xs

-- What becomes of the world in a turn. A failed `assert` aborts the program: there is no next one.
unfoldable pub turned : Endianness → World → Turn → Option World
turned e w (waits well) = some (record w { well = well })
turned e w (enters well) = some (record w { well = well; occupants = e ∷ w.occupants })
turned e w assertion_failed = none

pub data Step : World → World → Type 0 where
  arrives : {w w' : World} (e : Endianness) → turned e w (enter_well e w.well) ≡ some w' → Step w w'
  retries :
      {w w' : World} (e : Endianness)
      → 0 < w.well.waiters_count e
      → turned e (record w { well = stop_waiting e w.well }) (enter_well e (stop_waiting e w.well))
        ≡ some w'
      → Step w w'
  leaves :
      {well : Well} {e : Endianness} {others : List Endianness}
      → Step
          (record { well = well; occupants = e ∷ others })
          (record { well = (leave_well well).0; occupants = others })

pub data Reaches (start : World) : World → Type 0 where
  here : Reaches start start
  and_then : {w w' : World} → Reaches start w → Step w w' → Reaches start w'

pub record Peaceful (w : World) : Type 0 where
  pub counted : w.well.occupant_count ≡ length w.occupants
  pub few : length w.occupants ≤ max_occupancy
  pub alike : AllAre w.well.occupant_endianness w.occupants

can_enter-room :
    (e : Endianness) (well : Well)
    → can_enter e well ≡ true
    → (well.occupant_count < max_occupancy)
      × ((well.occupant_count == 0 || same_end well.occupant_endianness e) ≡ true)
unfolding can_enter
can_enter-room e well can = (ground arith, ground arith)

same_end-eq : (e e' : Endianness) → same_end e e' ≡ true → e ≡ e'
same_end-eq little little h = refl
same_end-eq little big h = ground arith
same_end-eq big little h = ground arith
same_end-eq big big h = refl

enter_well-enters :
    (e : Endianness) (well : Well)
    → can_enter e well ≡ true
    → enter_well e well
      ≡ enters (record (count_entry e well) {
        occupant_endianness = e;
        occupant_count = well.occupant_count + 1;
      })
unfolding enter_well occupy count_entry
enter_well-enters e well can =
    let (room, fits) = can_enter-room e well can in
    rw (can, fits, lt→ltb well.occupant_count max_occupancy room)

enter_well-waits :
    (e : Endianness) (well : Well)
    → can_enter e well ≡ false
    → enter_well e well ≡ waits (count_waiter e well)
unfolding enter_well
enter_well-waits e well cannot = rw cannot

-- The occupants that are there when a thread of the endianness is let in have it too.
others-alike :
    (e : Endianness) (w : World)
    → Peaceful w
    → (w.well.occupant_count == 0 || same_end w.well.occupant_endianness e) ≡ true
    → AllAre e w.occupants
others-alike e w p fits = elim (Bool-cases (w.well.occupant_count == 0)) [
  | inl empty ↦ subst (AllAre e) (sym (length-zero w.occupants (ground (arith, p.counted)))) tt
  | inr some_there ↦
      subst (λ e'. AllAre e' w.occupants) (same_end-eq w.well.occupant_endianness e (ground arith))
        p.alike
]
  where
    length-zero : (es : List Endianness) → length es ≡ 0 → es ≡ []
    length-zero [] h = refl
    length-zero (x ∷ es) h = absurd (omega (arith, h))

enter-Peaceful :
    (e : Endianness) (w : World)
    → Peaceful w
    → (w' : World) × (turned e w (enter_well e w.well) ≡ some w') × Peaceful w'
unfolding turned count_waiter
enter-Peaceful e w p = elim (Bool-cases (can_enter e w.well)) [
  | inl can ↦
      let (room, fits) = can_enter-room e w.well can in
      (
        _,
        ap (turned e w) (enter_well-enters e w.well can),
        record {
          counted = omega (arith, p.counted);
          few = omega (arith, p.counted, room);
          alike = (refl, others-alike e w p fits);
        },
      )
  | inr cannot ↦ (
    _,
    ap (turned e w) (enter_well-waits e w.well cannot),
    record { counted = p.counted; few = p.few; alike = p.alike },
  )
]

turned-Peaceful :
    (e : Endianness) (w : World) {w' : World}
    → Peaceful w
    → turned e w (enter_well e w.well) ≡ some w'
    → Peaceful w'
turned-Peaceful e w p ran =
    let (w1, same, p1) = enter-Peaceful e w p in
    subst Peaceful (some-injective _ _ (sym same ∙ ran)) p1

stop_waiting-Peaceful :
    (e : Endianness) (w : World) → Peaceful w → Peaceful (record w { well = stop_waiting e w.well })
unfolding stop_waiting
stop_waiting-Peaceful e w p = record { counted = p.counted; few = p.few; alike = p.alike }

Step-Peaceful : {w w' : World} → Step w w' → Peaceful w → Peaceful w'
unfolding leave_well
Step-Peaceful (arrives {w} e ran) p = turned-Peaceful e w p ran
Step-Peaceful (retries {w} e counted ran) p =
    turned-Peaceful e (record w { well = stop_waiting e w.well }) (stop_waiting-Peaceful e w p) ran
Step-Peaceful (leaves {well} {e} {others}) p = record {
  counted = omega (arith, p.counted);
  few = omega (arith, p.few);
  alike = p.alike.1;
}

-- Nobody is at the new well.
unfoldable pub empty_well : World
empty_well = record { well = create_well; occupants = [] }

Reaches-Peaceful : {w : World} → Reaches empty_well w → Peaceful w
unfolding empty_well create_well
Reaches-Peaceful here = record { counted = refl; few = omega arith; alike = tt }
Reaches-Peaceful (and_then r s) = Step-Peaceful s (Reaches-Peaceful r)

turned-asserts :
    (e : Endianness) (w : World) {w' : World}
    → turned e w (enter_well e w.well) ≡ some w'
    → enter_well e w.well ≢ assertion_failed
unfolding turned
turned-asserts e w ran failed = cc (ap (turned e w) failed)

-- Whatever the order of the steps, `occupantCount` is the number of threads at the well, which is at
-- most 3, and all of them have the endianness `occupantEndianness`. No thread that arrives or that
-- wakes up then fails an assertion.
pub well-peaceful :
    {w : World}
    → Reaches empty_well w
    → (w.well.occupant_count ≡ length w.occupants)
      × (length w.occupants ≤ max_occupancy)
      × AllAre w.well.occupant_endianness w.occupants
      × ((e : Endianness) → enter_well e w.well ≢ assertion_failed)
      × ((e : Endianness) → enter_well e (stop_waiting e w.well) ≢ assertion_failed)
well-peaceful {w} r =
    let p = Reaches-Peaceful r in
    (
      p.counted,
      p.few,
      p.alike,
      λ e. turned-asserts e w ((enter-Peaceful e w p).1),
      λ e.
          let w' : World = record w { well = stop_waiting e w.well } in
          turned-asserts e w' ((enter-Peaceful e w' (stop_waiting-Peaceful e w p)).1),
    )
