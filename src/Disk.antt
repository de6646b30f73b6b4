-- ===== src/Disk.antt =====
-- The simulated disk of a9/disk.c: reads that are scheduled complete one after the other, READ_LATENCY_USEC
-- later, at a timer interrupt. The time of day is an argument where gettimeofday is called, and the interrupt service
-- routine a parameter; it does not schedule reads.
pub mod Blocks
pub mod Clock
pub mod Delivery
pub mod Tests
use cs213_assignments.Common.{
  ℕ, zero, suc, ◌+◌, ◌*◌, ◌%◌, Bool, not, true, false, Option, none, some, List, [], ◌∷◌, ◌>>=◌,
  if◌then◌else◌, update, get_elem?,
}
use cs213_assignments.Common.Int.{ℤ, pos, negsuc, ltb_ℤ, ◌+ℤ◌, ◌-ℤ◌}
use cs213_assignments.RequestNodes.{Node, Links, no_nodes, enqueue, set_next}

abbrev pub read_latency_usec : ℤ
read_latency_usec = pos 10000

-- `struct timeval`.
pub record TimeVal : Type 0 where
  pub sec : ℤ
  pub usec : ℤ

unfoldable pub tm_add : TimeVal → ℤ → TimeVal
tm_add tm usec =
    let tm = record tm { usec = tm.usec +ℤ usec } in
    if ltb_ℤ (pos 1000000) tm.usec
    then record { sec = tm.sec +ℤ pos 1; usec = tm.usec -ℤ pos 1000000 }
    else if ltb_ℤ tm.usec (pos 0)
    then record { sec = tm.sec -ℤ pos 1; usec = tm.usec +ℤ pos 1000000 }
    else tm

unfoldable pub tm_compare : TimeVal → TimeVal → ℤ
tm_compare a b =
    if ltb_ℤ a.sec b.sec
    then negsuc 0
    else if ltb_ℤ b.sec a.sec
    then pos 1
    else if ltb_ℤ a.usec b.usec
    then negsuc 0
    else if ltb_ℤ b.usec a.usec
    then pos 1
    else pos 0

-- What `struct PendingRead` has besides its links.
pub record PendingRead : Type 0 where
  pub buf : ℕ
  pub block_no : ℕ
  pub complete_time : TimeVal

-- `prq_front`, `prq_back` and `prq_free`, with the nodes.
abbrev pub Disk : Type 0
Disk = Links PendingRead

unfoldable pub prq_enqueue : TimeVal → (buf block_no : ℕ) → Disk → Option Disk
unfolding enqueue tm_add
prq_enqueue now buf block_no d =
    enqueue
      (record { buf = buf; block_no = block_no; complete_time = tm_add now read_latency_usec }) d

-- `if (prq_front == NULL) prq_back = NULL`
abbrev pub back_behind : Option ℕ → Option ℕ → Option ℕ
back_behind none back = none
back_behind (some p) back = back

unfoldable pub prq_dequeue_lock_held : Disk → Option Disk
unfolding set_next
prq_dequeue_lock_held d = elim d.front [
  | some pr ↦ do
    n ← d.node pr
    d ← set_next pr d.free (record d { front = n.prev; back = back_behind n.prev d.back })
    some (record d { free = some pr })
  | none ↦ some d
]

unfoldable pub disk_schedule_read : TimeVal → (result_buf block_no : ℕ) → Disk → Option Disk
unfolding prq_enqueue
disk_schedule_read now result_buf block_no d = prq_enqueue now result_buf block_no d

unfoldable pub story : List ℕ
story =
    20 ∷ 21 ∷ 11 ∷ 9 ∷ 5 ∷ 29 ∷ 13 ∷ 18 ∷ 27 ∷ 10 ∷ 26 ∷ 23 ∷ 25 ∷ 4 ∷ 2 ∷ 8 ∷ 19 ∷ 0 ∷ 16 ∷ 3 ∷ 1
    ∷ 22 ∷ 14 ∷ 28 ∷ 12 ∷ 24 ∷ 15 ∷ 7 ∷ 17 ∷ 6 ∷ []

-- What a block holds.
unfoldable pub block : ℕ → Option ℕ
unfolding story
block block_no = get_elem? story (block_no % 30)

-- The memory into which the disk reads, which is none where no variable is alive, the flag of the uthreads that says that an interrupt is
-- handled, and `S`, the variables of the program that uses the disk.
pub record Client (S : Type 0) : Type 0 where
  pub memory : ℕ → Option ℕ
  pub interrupt : Bool
  pub state : S

-- The loop ends, or a read or a write fails, or the fuel is used up.
pub data Handled (S : Type 0) : Type 0 where
  handled : Disk → Client S → Handled S
  bad_access : Handled S
  out_of_fuel : Handled S

-- `tm_compare (&complete_time, &now) <= 0`
unfoldable pub is_due : PendingRead → TimeVal → Bool
unfolding tm_compare
is_due r now = not (ltb_ℤ (pos 0) (tm_compare r.complete_time now))

module _ {S : Type 0} where
  unfoldable pub perform_dma : (buf block_no : ℕ) → Client S → Option (Client S)
  unfolding block
  perform_dma buf block_no w = do
    n ← block block_no
    old ← w.memory buf
    some (record w { memory = update w.memory buf (some n) })

  -- `if (isr) isr ()`
  unfoldable pub call_isr : Option (Client S → Option (Client S)) → Client S → Option (Client S)
  call_isr none w = some w
  call_isr (some isr) w = isr w

  unfoldable pub deliver_interrupt :
      Option (Client S → Option (Client S)) → Client S → Option (Client S)
  unfolding call_isr
  deliver_interrupt isr w = do
    w ← call_isr isr (record w { interrupt = true })
    some (record w { interrupt = false })

  -- The body of the loop.
  unfoldable pub complete_read :
      Option (Client S → Option (Client S))
      → PendingRead
      → Disk
      → Client S
      → Option (Disk × Client S)
  complete_read isr r d w = do
    w ← perform_dma r.buf r.block_no w
    d ← prq_dequeue_lock_held d
    w ← deliver_interrupt isr w
    some (d, w)

  -- The loop takes fuel: enough is one round for each pending read and one more.
  unfoldable pub handle_timer_interrupt :
      (fuel : ℕ) → Option (Client S → Option (Client S)) → TimeVal → Disk → Client S → Handled S
  unfolding complete_read perform_dma prq_dequeue_lock_held deliver_interrupt is_due
  handle_timer_interrupt zero isr now d w = out_of_fuel
  handle_timer_interrupt (suc fuel) isr now d w = elim d.front [
    | none ↦ handled d w
    | some p ↦ elim (d.node p) [
      | none ↦ bad_access
      | some n ↦
          if is_due n.content now
          then elim (complete_read isr n.content d w) [
            | none ↦ bad_access
            | some (d, w) ↦ handle_timer_interrupt fuel isr now d w
          ]
          else handled d w
    ]
  ]
