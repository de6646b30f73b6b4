-- ===== src/DiskReads/Async.antt =====
-- a9/aRead.c: one request for each block, without waiting, and the sum of the blocks. `num_blocks` is not
-- negative.
use cs213_assignments.Common.{
  ℕ, ◌+◌, ◌-◌, ◌>>=◌, update, ◌%◌, ◌^◌, false, Option, none, some, ltb, ◌==◌, if◌then◌else◌,
}
use cs213_assignments.Common.Int.{ℤ, pos, negsuc}
use cs213_assignments.RequestNodes.{Links, no_nodes}
use cs213_assignments.RequestQueue.{Request, queue_create, queue_enqueue}
use cs213_assignments.Disk.{Client, Disk, TimeVal, disk_schedule_read}
use cs213_assignments.DiskReads.{Program, service}

pub data Callback : Type 0 where
  handle_read : Callback

pub record Vars : Type 0 where
  pub sum : ℕ
  pub counter : ℕ

abbrev pub Reader : Type 0
Reader = Client (Program Callback Vars)

unfoldable pub call : Callback → (resultv not_used : ℕ) → Reader → Option Reader
call handle_read resultv not_used w = do
  result ← w.memory resultv
  some (record w {
    state = record w.state {
      vars = record {
        sum = (w.state.vars.sum + result) % 2 ^ 32;
        counter = w.state.vars.counter + 1;
      };
    };
  })

unfoldable pub interrupt_service_routine : Reader → Option Reader
unfolding service call
interrupt_service_routine w = service call (record { val = 0; arg = none; callback = some none }) w

-- The address of `result`, a variable of its own in each round of the loop, which is alive until the
-- round ends. NULL is 0.
abbrev pub result_at : ℕ → ℕ
result_at blockno = blockno + 1

-- `printf("%d\n", sum)`: an unsigned number is printed as a signed one.
abbrev pub int_of : ℕ → ℤ
int_of n = if ltb n (2 ^ 31) then pos n else negsuc (2 ^ 32 - 1 - n)

-- Where `main` stands: at the test of the loop, behind `queue_enqueue`, behind `disk_schedule_read`,
-- at the loop that waits, or at its end, with what it has printed.
pub data Point : Type 0 where
  at_loop : (blockno : ℕ) → Point
  scheduling : (blockno : ℕ) → Point
  ending : (blockno : ℕ) → Point
  waiting : Point
  printed : ℤ → Point

pub record Running : Type 0 where
  pub disk : Disk
  pub reader : Reader
  pub point : Point

unfoldable pub started : Running
unfolding no_nodes queue_create
started = record {
  disk = no_nodes;
  reader = record {
    memory = λ a. none;
    interrupt = false;
    state = record { pending_reads = queue_create; vars = record { sum = 0; counter = 0 } };
  };
  point = at_loop 0;
}

-- What `main` does next.
pub data Next : Type 0 where
  steps : Running → Next
  fails : Next
  over : Next

unfoldable pub step_or_fail : Option Running → Next
step_or_fail none = fails
step_or_fail (some p) = steps p

unfoldable pub with_disk : Point → Running → Option Disk → Option Running
with_disk point p none = none
with_disk point p (some d) = some (record p { disk = d; point = point })

unfoldable pub with_requests : Point → Running → Option (Links (Request Callback)) → Option Running
with_requests point p none = none
with_requests point p (some q) = some (record p {
  reader = record p.reader { state = record p.reader.state { pending_reads = q } };
  point = point;
})

-- The start of a round: the variable `result` begins its life with any value.
abbrev pub declare : (blockno value : ℕ) → Running → Running
declare blockno value p = record p {
  reader = record p.reader { memory = update p.reader.memory (result_at blockno) (some value) };
}

-- The end of a round.
abbrev pub end_life : (blockno : ℕ) → Running → Running
end_life blockno p = record p {
  reader = record p.reader { memory = update p.reader.memory (result_at blockno) none };
}

-- `garbage` gives the values of the variables without initial value.
unfoldable pub main : (num_blocks : ℕ) (garbage : ℕ → ℕ) (now : TimeVal) → Point → Running → Next
unfolding step_or_fail with_disk with_requests
main num_blocks garbage now (at_loop blockno) p =
    if ltb blockno num_blocks
    then step_or_fail (
        with_requests (scheduling blockno) (declare blockno (garbage blockno) p)
          (queue_enqueue (result_at blockno) 0 (some handle_read) p.reader.state.pending_reads))
    else steps (record p { point = waiting })
main num_blocks garbage now (scheduling blockno) p =
    step_or_fail
      (with_disk (ending blockno) p (disk_schedule_read now (result_at blockno) blockno p.disk))
main num_blocks garbage now (ending blockno) p =
    steps (record (end_life blockno p) { point = at_loop (blockno + 1) })
main num_blocks garbage now waiting p =
    if p.reader.state.vars.counter == num_blocks
    then steps (record p { point = printed (int_of p.reader.state.vars.sum) })
    else steps p
main num_blocks garbage now (printed n) p = over
