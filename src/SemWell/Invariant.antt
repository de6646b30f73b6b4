-- ===== src/SemWell/Invariant.antt =====
-- What holds at the well of a11/soln/well_sem.c in every run.
use cs213_assignments.Common.{
  ℕ, ◌+◌, ◌-◌, ◌<◌, ◌≡◌, ◌≢◌, refl, sym, subst, Bool, true, false, ◌||◌, Bool-cases, inl, inr,
  Option, none, some, List, [], ◌∷◌, arith, ltb, ◌==◌, if◌then◌else◌, ◌∙◌,
}
use cs213_assignments.Well.{Endianness, little, big, opposite_end, same_end, max_occupancy}
use cs213_assignments.SemWell.{
  SemWell, Both, value_of, set_value, create_well, can_enter_now, enter_well, leave_well,
}
use cs213_assignments.SemWell.Runs.{
  Step, enters, comes_to_wait, passes, leaves, Reaches, start, and_then,
}
use cs213_assignments.SemWell.Entries.{
  IsShared, of_kind, record_entry-some, let_in-IsShared, same_end-same, let_others_in-IsShared,
}

-- Besides, when there is no occupant nobody waits.
pub record IsServed (well : SemWell) (ts : List Endianness) : Type 0 where
  pub shared : IsShared well ts
  pub none_forgotten :
      well.occupant_count ≡ 0 → (e : Endianness) → value_of e well.waiters_count ≡ 0

enters_or_waits : Bool → Endianness → List Endianness → List Endianness
enters_or_waits entered e ts = if entered then e ∷ ts else ts

enter_well-IsServed :
    (e : Endianness) (well : SemWell) (ts : List Endianness)
    → IsServed well ts
    → (entered : Bool) × (well' : SemWell) × (enter_well e well ≡ some (entered, well'))
      × IsServed well' (enters_or_waits entered e ts)
unfolding enter_well can_enter_now enters_or_waits
enter_well-IsServed e well ts s = elim (Bool-cases (can_enter_now e well)) [
  | inl can ↦
      let kind : (well.occupant_count == 0 || same_end well.occupant_endianness e) ≡ true =
        ground (arith, can) in
      let room : well.occupant_count < max_occupancy = ground (arith, can) in
      let (c, n, a) = of_kind e well ts s.shared kind in
      (
        true,
        record well { occupant_count = well.occupant_count + 1; occupant_endianness = e },
        rw (enter_well, can, record_entry-some e well kind room),
        record {
          shared = record {
            counted = omega (arith, c);
            few = omega (arith, room);
            alike = (refl, a);
            no_others = n;
          };
          none_forgotten = λ q. absurd (omega (arith, q));
        },
      )
  | inr cannot ↦ (
    false,
    record well {
      waiters_count = set_value e (value_of e well.waiters_count + 1) well.waiters_count;
    },
    rw (enter_well, cannot),
    record {
      shared = record {
        counted = s.shared.counted;
        few = s.shared.few;
        alike = s.shared.alike;
        no_others = s.shared.no_others;
      };
      none_forgotten = λ q. absurd (ground (arith, q, cannot));
    },
  )
]

both_zero :
    (o e : Endianness) (b : Both)
    → value_of o b ≡ 0
    → value_of (opposite_end o) b ≡ 0
    → value_of e b ≡ 0
both_zero little little b p q = p
both_zero little big b p q = q
both_zero big little b p q = q
both_zero big big b p q = p

-- A thread that leaves never fails an assertion, and lets in whom it has to.
leave_well-IsServed :
    (e : Endianness) (well : SemWell) (ts : List Endianness)
    → IsServed well (e ∷ ts)
    → (well' : SemWell) × (leave_well well ≡ some well') × IsServed well' ts
unfolding leave_well
leave_well-IsServed e well ts s =
    let o = well.occupant_endianness in
    let less = record well { occupant_count = well.occupant_count - 1 } in
    let shared : IsShared less ts = record {
      counted = omega (arith, s.shared.counted);
      few = omega (arith, s.shared.few);
      alike = s.shared.alike.1;
      no_others = s.shared.no_others;
    } in
    let last = Bool-cases (well.occupant_count - 1 == 0) in
    elim (Bool-cases (ltb 0 (value_of (opposite_end o) well.waiters_count))) [
      | inl others ↦ elim last [
        | inl empty ↦
            let (well', let_them, shared', le, more) =
              let_others_in-IsShared max_occupancy 0 (opposite_end o) less ts shared
                (ground (arith, empty)) (ground (arith, empty)) in
            (
              well',
              rw (leave_well, others, empty, let_them),
              record {
                shared = shared';
                none_forgotten =
                    λ q. absurd (omega (arith, q, more (omega arith) (ground (arith, others))));
              },
            )
        | inr occupied ↦ (
          less,
          rw (leave_well, others, occupied),
          record { shared = shared; none_forgotten = λ q. absurd (ground (arith, q, occupied)) },
        )
      ]
      | inr no_others ↦ elim (Bool-cases (ltb 0 (value_of o well.waiters_count))) [
        | inl own ↦
            let (well', let_one, shared', more, kind) =
              let_in-IsShared o less ts shared (ground (arith, same_end-same o o refl))
                (omega (arith, s.shared.few, s.shared.counted)) in
            (
              well',
              rw (leave_well, no_others, own, let_one),
              record { shared = shared'; none_forgotten = λ q. absurd (omega (arith, q, more)) },
            )
        | inr nobody ↦ (
          less,
          rw (leave_well, no_others, nobody),
          record {
            shared = shared;
            none_forgotten = λ q e'.
                both_zero o e' well.waiters_count (ground (arith, nobody))
                  (ground (arith, no_others));
          },
        )
      ]
    ]

abbrev AfterEntry : Endianness → List Endianness → Option (Bool × SemWell) → Type 0
AfterEntry e ts none = ⊥
AfterEntry e ts (some (entered, well)) = IsServed well (enters_or_waits entered e ts)

abbrev AfterLeaving : List Endianness → Option SemWell → Type 0
AfterLeaving ts none = ⊥
AfterLeaving ts (some well) = IsServed well ts

after_entry :
    (e : Endianness) (well : SemWell) (ts : List Endianness) {r : Option (Bool × SemWell)}
    → IsServed well ts
    → enter_well e well ≡ r
    → AfterEntry e ts r
after_entry e well ts s got =
    let (entered, well', is, s') = enter_well-IsServed e well ts s in
    subst (AfterEntry e ts) (sym is ∙ got) s'

passes-IsShared :
    (e o : Endianness) (c : Both) (n : ℕ) (w : Both) (ts : List Endianness)
    → IsShared
        (record { can_enter = c; occupant_count = n; occupant_endianness = o; waiters_count = w })
        ts
    → 0 < value_of e c
    → IsShared
        (record {
          can_enter = set_value e (value_of e c - 1) c;
          occupant_count = n;
          occupant_endianness = o;
          waiters_count = w;
        })
        (e ∷ ts)
passes-IsShared little little c n w ts s p = record {
  counted = omega (arith, s.counted, p);
  few = s.few;
  alike = (refl, s.alike);
  no_others = s.no_others;
}
passes-IsShared big big c n w ts s p = record {
  counted = omega (arith, s.counted, p);
  few = s.few;
  alike = (refl, s.alike);
  no_others = s.no_others;
}
passes-IsShared little big c n w ts s p = absurd (omega (arith, s.no_others, p))
passes-IsShared big little c n w ts s p = absurd (omega (arith, s.no_others, p))

Step-IsServed :
    {well well' : SemWell} {ts ts' : List Endianness}
    → Step well ts well' ts'
    → IsServed well ts
    → IsServed well' ts'
unfolding enters_or_waits
Step-IsServed {well} {ts} (enters e got) s = after_entry e well ts s got
Step-IsServed {well} {ts} (comes_to_wait e got) s = after_entry e well ts s got
Step-IsServed {well} {ts} (passes e p) s = record {
  shared =
      passes-IsShared e well.occupant_endianness well.can_enter well.occupant_count
        well.waiters_count ts s.shared p;
  none_forgotten = s.none_forgotten;
}
Step-IsServed {well} {ts' = ts'} (leaves e got) s =
    let (well1, is, s') = leave_well-IsServed e well ts' s in
    subst (AfterLeaving ts') (sym is ∙ got) s'

start-IsServed : IsServed create_well []
unfolding create_well
start-IsServed = record {
  shared = record { counted = refl; few = omega arith; alike = tt; no_others = refl };
  none_forgotten = λ q e. none_at e;
}
  where
    none_at : (e : Endianness) → value_of e (record { of_little = 0; of_big = 0 }) ≡ 0
    none_at little = refl
    none_at big = refl

-- Whatever the order in which threads come, pass and leave: the occupants are the threads at the well and
-- those that have been let in and not yet passed, they are of one kind and at most three, and when there
-- is none nobody waits.
pub reaches-IsServed : {well : SemWell} {ts : List Endianness} → Reaches well ts → IsServed well ts
reaches-IsServed start = start-IsServed
reaches-IsServed (and_then r s) = Step-IsServed s (reaches-IsServed r)

-- In every run, no assertion fails when a thread comes to the well or leaves it.
pub well-asserts :
    {well : SemWell} {ts : List Endianness}
    → Reaches well ts
    → ((e : Endianness) → enter_well e well ≢ none)
      × ((e : Endianness) (others : List Endianness) → ts ≡ e ∷ others → leave_well well ≢ none)
well-asserts {well} {ts} r =
    let s = reaches-IsServed r in
    (
      λ e fails.
          subst (AfterEntry e ts) (sym (enter_well-IsServed e well ts s).2 ∙ fails)
            (enter_well-IsServed e well ts s).3,
      λ e others at fails.
          let (well', is, s') = leave_well-IsServed e well others (subst (IsServed well) at s) in
          subst (AfterLeaving others) (sym is ∙ fails) s',
    )
