-- ===== src/SemWell/Entries.antt =====
-- Letting threads in to the well of a11/soln/well_sem.c.
use cs213_assignments.Common.{
  ℕ, zero, suc, ◌+◌, ◌-◌, ◌<◌, ◌≤◌, ◌≡◌, refl, subst, true, ◌||◌, Bool-cases, inl, inr, some, List,
  [], ◌∷◌, arith, ltb, ◌==◌, length, lt→ltb, ◌∙◌,
}
use cs213_assignments.Well.{Endianness, little, big, opposite_end, same_end, max_occupancy}
use cs213_assignments.SemWell.{
  SemWell, Both, value_of, set_value, record_entry, let_in, let_others_in,
}

abbrev pub AllAre : Endianness → List Endianness → Type 0
AllAre e [] = Unit
AllAre e (t ∷ ts) = (t ≡ e) × AllAre e ts

-- The occupants are the threads at the well and those that have been let in, all of one kind and not too
-- many.
pub record IsShared (well : SemWell) (ts : List Endianness) : Type 0 where
  pub counted : well.occupant_count ≡ length ts + value_of well.occupant_endianness well.can_enter
  pub few : well.occupant_count ≤ max_occupancy
  pub alike : AllAre well.occupant_endianness ts
  pub no_others : value_of (opposite_end well.occupant_endianness) well.can_enter ≡ 0

AllAre-empty : (e : Endianness) (ts : List Endianness) → length ts ≡ 0 → AllAre e ts
AllAre-empty e [] none_there = tt
AllAre-empty e (t ∷ ts) none_there = absurd (ground (arith, none_there))

-- Who may enter is of the kind of the occupants, or there is none.
pub of_kind :
    (e : Endianness) (well : SemWell) (ts : List Endianness)
    → IsShared well ts
    → (well.occupant_count == 0 || same_end well.occupant_endianness e) ≡ true
    → (well.occupant_count ≡ length ts + value_of e well.can_enter)
      × (value_of (opposite_end e) well.can_enter ≡ 0)
      × AllAre e ts
of_kind e well ts s h = by_kind e well.occupant_endianness s.counted s.no_others s.alike h
  where
    by_kind :
        (e o : Endianness)
        → well.occupant_count ≡ length ts + value_of o well.can_enter
        → value_of (opposite_end o) well.can_enter ≡ 0
        → AllAre o ts
        → (well.occupant_count == 0 || same_end o e) ≡ true
        → (well.occupant_count ≡ length ts + value_of e well.can_enter)
          × (value_of (opposite_end e) well.can_enter ≡ 0)
          × AllAre e ts
    by_kind little little c n a h = (c, n, a)
    by_kind big big c n a h = (c, n, a)
    by_kind little big c n a h = (
      ground (arith, c, n, h),
      ground (arith, c, h),
      AllAre-empty little ts (ground (arith, c, h)),
    )
    by_kind big little c n a h =
        (ground (arith, c, n, h), ground (arith, c, h), AllAre-empty big ts (ground (arith, c, h)))

pub record_entry-some :
    (e : Endianness) (well : SemWell)
    → (well.occupant_count == 0 || same_end well.occupant_endianness e) ≡ true
    → well.occupant_count < max_occupancy
    → record_entry e well
      ≡ some (record well { occupant_count = well.occupant_count + 1; occupant_endianness = e })
unfolding record_entry
record_entry-some e well h room =
    rw (record_entry, h, lt→ltb well.occupant_count max_occupancy room)

value-set : (e : Endianness) (n : ℕ) (b : Both) → value_of e (set_value e n b) ≡ n
value-set little n b = refl
value-set big n b = refl

value-set_other :
    (e : Endianness) (n : ℕ) (b : Both)
    → value_of (opposite_end e) (set_value e n b) ≡ value_of (opposite_end e) b
value-set_other little n b = refl
value-set_other big n b = refl

-- A waiter that may enter is let in, and is an occupant then.
pub let_in-IsShared :
    (e : Endianness) (well : SemWell) (ts : List Endianness)
    → IsShared well ts
    → (well.occupant_count == 0 || same_end well.occupant_endianness e) ≡ true
    → well.occupant_count < max_occupancy
    → (well' : SemWell) × (let_in e well ≡ some well')
      × IsShared well' ts
      × (well'.occupant_count ≡ well.occupant_count + 1)
      × (well'.occupant_endianness ≡ e)
unfolding let_in
let_in-IsShared e well ts s h room =
    let waiting = record well {
      waiters_count = set_value e (value_of e well.waiters_count - 1) well.waiters_count;
    } in
    let (c, n, a) = of_kind e well ts s h in
    (
      record waiting {
        occupant_count = well.occupant_count + 1;
        occupant_endianness = e;
        can_enter = set_value e (value_of e well.can_enter + 1) well.can_enter;
      },
      rw (let_in, record_entry-some e waiting h room),
      record {
        counted = omega (arith, c, value-set e (value_of e well.can_enter + 1) well.can_enter);
        few = omega (arith, room);
        alike = a;
        no_others = value-set_other e (value_of e well.can_enter + 1) well.can_enter ∙ n;
      },
      refl,
      refl,
    )

pub same_end-same : (o e : Endianness) → o ≡ e → same_end o e ≡ true
same_end-same o e same = subst (λ x. same_end o x ≡ true) same (by_kind o)
  where
    by_kind : (o : Endianness) → same_end o o ≡ true
    by_kind little = refl
    by_kind big = refl

-- The loop lets nobody in beyond the room that there is, and somebody if there is a waiter.
pub let_others_in-IsShared :
    (room i : ℕ) (e : Endianness) (well : SemWell) (ts : List Endianness)
    → IsShared well ts
    → (well.occupant_count == 0 || same_end well.occupant_endianness e) ≡ true
    → well.occupant_count + room ≤ max_occupancy
    → (well' : SemWell) × (let_others_in i room e well ≡ some well')
      × IsShared well' ts
      × (well.occupant_count ≤ well'.occupant_count)
      × (0 < room → i < value_of e well.waiters_count → well.occupant_count < well'.occupant_count)
unfolding let_others_in
let_others_in-IsShared zero i e well ts s h fits =
    (well, refl, s, omega arith, λ p q. absurd (omega (arith, p)))
let_others_in-IsShared (suc room) i e well ts s h fits =
    elim (Bool-cases (ltb i (value_of e well.waiters_count))) [
      | inl go_on ↦
          let (well1, let_one, s1, more, kind) = let_in-IsShared e well ts s h (omega arith) in
          let (well2, rest, s2, le, _) =
            let_others_in-IsShared room (i + 1) e well1 ts s1
              (ground (arith, same_end-same well1.occupant_endianness e kind))
              (omega (arith, more)) in
          (
            well2,
            rw (let_others_in, go_on, let_one, rest),
            s2,
            omega (arith, le, more),
            λ p q. omega (arith, le, more),
          )
      | inr stop ↦ (well, rw (let_others_in, stop), s, omega arith, λ p q. ground (arith, stop, q))
    ]
