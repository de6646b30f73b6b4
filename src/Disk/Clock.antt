-- ===== src/Disk/Clock.antt =====
-- Times of a9/disk.c in microseconds.
use cs213_assignments.Common.{ℕ, ◌≡◌, subst, sym, not, ◌↔◌, true, arith, Bool-cases, inl, inr}
use cs213_assignments.Common.Int.{
  ℤ, pos, ◌+ℤ◌, ◌≤ℤ◌, ltb_ℤ, times, int_laws, +ℤ_parts, -ℤ_parts, times_parts,
}
use cs213_assignments.Disk.{TimeVal, is_due, tm_add, tm_compare, read_latency_usec}

pub micros : TimeVal → ℤ
micros tm = times 1000000 tm.sec +ℤ tm.usec

-- What gettimeofday gives.
abbrev pub IsNormal : TimeVal → Type 0
IsNormal tm = (pos 0 ≤ℤ tm.usec) × (tm.usec ≤ℤ pos 999999)

-- Whatever is added, `tm_add` adds it.
pub micros-tm_add : (tm : TimeVal) (usec : ℤ) → micros (tm_add tm usec) ≡ micros tm +ℤ usec
unfolding micros tm_add
micros-tm_add tm usec = elim (Bool-cases (ltb_ℤ (pos 1000000) (tm.usec +ℤ usec))) [
  | inl p ↦ rw p (omega int_laws)
  | inr p ↦ elim (Bool-cases (ltb_ℤ (tm.usec +ℤ usec) (pos 0))) [
    | inl q ↦ rw (p, q) (omega int_laws)
    | inr q ↦ rw (p, q) (omega int_laws)
  ]
]

-- A time of at most 1000000 microseconds is not later than a normal one exactly if it is not larger.
pub tm_compare-micros :
    (a b : TimeVal)
    → pos 0 ≤ℤ a.usec
    → a.usec ≤ℤ pos 1000000
    → IsNormal b
    → (tm_compare a b ≤ℤ pos 0) ↔ (micros a ≤ℤ micros b)
unfolding micros tm_compare
tm_compare-micros a b low high normal = ground (
  arith,
  times_parts 1000000 a.sec,
  times_parts 1000000 b.sec,
  +ℤ_parts (times 1000000 a.sec) a.usec,
  +ℤ_parts (times 1000000 b.sec) b.usec,
)

-- The microseconds of the sum can be 1000000.
pub tm_add_bounds :
    (tm : TimeVal)
    → IsNormal tm
    → (pos 0 ≤ℤ (tm_add tm read_latency_usec).usec)
      × ((tm_add tm read_latency_usec).usec ≤ℤ pos 1000000)
unfolding tm_add
tm_add_bounds tm normal = ground (
  arith,
  +ℤ_parts tm.usec read_latency_usec,
  -ℤ_parts (tm.usec +ℤ read_latency_usec) (pos 1000000),
)

not_after : (t : ℤ) → (not (ltb_ℤ (pos 0) t) ≡ true) ↔ (t ≤ℤ pos 0)
not_after t = ground arith

-- A read that is scheduled at `start` is due exactly from READ_LATENCY_USEC microseconds later on.
pub is_due-micros :
    (buf block_no : ℕ) (start now : TimeVal)
    → IsNormal start
    → IsNormal now
    → (is_due
          (record {
            buf = buf;
            block_no = block_no;
            complete_time = tm_add start read_latency_usec;
          })
          now
        ≡ true)
      ↔ (micros start +ℤ read_latency_usec ≤ℤ micros now)
unfolding is_due
is_due-micros buf block_no start now normal_start normal_now =
    let complete = tm_add start read_latency_usec in
    let (low, high) = tm_add_bounds start normal_start in
    let in_order = tm_compare-micros complete now low high normal_now in
    let test = not_after (tm_compare complete now) in
    let added = micros-tm_add start read_latency_usec in
    (
      λ h. subst (λ m. m ≤ℤ micros now) added (in_order.0 (test.0 h)),
      λ h. test.1 (in_order.1 (subst (λ m. m ≤ℤ micros now) (sym added) h)),
    )
