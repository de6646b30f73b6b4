-- ===== src/DiskReads/AsyncRuns.antt =====
-- The runs of a9/aRead.c, in which the timer interrupts `main` between any two of its steps.
use cs213_assignments.Common.{
  Bool, false, none, update, update-ne, Option-cases, ℕ, suc, ◌+◌, ◌%◌, ◌^◌, ◌≤◌, ◌<◌, ◌≡◌, ◌∙◌,
  refl, sym, ap, subst, some, List, [], ◌∷◌, ◌++◌, arith, length, length-append, Bool-cases, ◌⊎◌,
  inl, inr, ltb, ltb→lt, ◌==◌, ==_iff,
}
use cs213_assignments.Common.Int.{ℤ}
use cs213_assignments.RequestNodes.Line.{addresses, contents, contents-append, length-addresses}
use cs213_assignments.RequestNodes.Kept.{IsQueue, no_nodes-IsQueue, enqueue-IsQueue}
use cs213_assignments.RequestQueue.Runs.{Holds, queue_create-Holds, queue_enqueue-Holds}
use cs213_assignments.Disk.{
  Disk, PendingRead, TimeVal, Handled, handled, bad_access, handle_timer_interrupt,
  disk_schedule_read, tm_add, read_latency_usec,
}
use cs213_assignments.Disk.Blocks.{sum_of_blocks}
use cs213_assignments.Disk.Delivery.{
  complete_due, handle_timer_interrupt-completes, handle_timer_interrupt-fails,
}
use cs213_assignments.DiskReads.{Program}
use cs213_assignments.DiskReads.Async.{
  Callback, Vars, Reader, interrupt_service_routine, Running, Point, at_loop, scheduling, ending,
  waiting, printed, started, steps, over, main, result_at, int_of,
}
use cs213_assignments.DiskReads.AsyncInvariant.{
  request, requests, requests-snoc, ReadsFrom, ReadsFrom-snoc, HasRead, complete_due-HasRead,
}

-- The interrupt at the time `now`, with a round of fuel for each node of the disk and one more.
abbrev pub interrupted : TimeVal → Running → Handled (Program Callback Vars)
interrupted now p =
    handle_timer_interrupt (p.disk.unused + 1) (some interrupt_service_routine) now p.disk p.reader

module _ (num_blocks : ℕ) (garbage : ℕ → ℕ) where
  pub data Reaches : Running → Type 0 where
    start : Reaches started
    then_main :
        {p p' : Running} (now : TimeVal)
        → Reaches p
        → main num_blocks garbage now p.point p ≡ steps p'
        → Reaches p'
    then_timer :
        {p : Running} (now : TimeVal) {d : Disk} {w : Reader}
        → Reaches p
        → interrupted now p ≡ handled d w
        → Reaches (record p { disk = d; reader = w })

-- The requests that are in the queue without a read.
abbrev pub extra : Point → ℕ
extra (at_loop i) = 0
extra (scheduling i) = 1
extra (ending i) = 0
extra waiting = 0
extra (printed n) = 0

-- Whether `main` stands in the round of the loop for the block.
abbrev pub in_round : ℕ → Point → Bool
in_round k (at_loop i) = false
in_round k (scheduling i) = k == i
in_round k (ending i) = k == i
in_round k waiting = false
in_round k (printed n) = false

-- Where `main` stands when `s` reads have been scheduled.
abbrev pub HasScheduled : (num_blocks s : ℕ) → Point → Type 0
HasScheduled num_blocks s (at_loop i) = (s ≡ i) × (i ≤ num_blocks)
HasScheduled num_blocks s (scheduling i) = (s ≡ i) × (i < num_blocks)
HasScheduled num_blocks s (ending i) = (s ≡ i + 1) × (i < num_blocks)
HasScheduled num_blocks s waiting = s ≡ num_blocks
HasScheduled num_blocks s (printed n) =
    (s ≡ num_blocks) × (n ≡ int_of (sum_of_blocks num_blocks % 2 ^ 32))

-- The reads that are pending are those of the blocks from `k` on, and the others have completed.
pub record IsInOrder (num_blocks : ℕ) (p : Running) (line : List (ℕ × PendingRead)) (spare : List ℕ)
    (k : ℕ) : Type 0 where
  pub pending : IsQueue p.disk line spare
  pub in_turn : ReadsFrom k (contents line)
  pub has_read : HasRead k (length (contents line) + extra p.point) p.reader
  pub scheduled : HasScheduled num_blocks (k + length (contents line)) p.point
  pub dead : (j : ℕ) → in_round j p.point ≡ false → p.reader.memory (result_at j) ≡ none

abbrev pub InOrder : ℕ → Running → Type 0
InOrder num_blocks p =
    (line : List (ℕ × PendingRead)) × (spare : List ℕ) × (k : ℕ) × IsInOrder num_blocks p line spare
      k

pub start-InOrder : (num_blocks : ℕ) → InOrder num_blocks started
unfolding started sum_of_blocks
start-InOrder num_blocks = (
  [],
  [],
  0,
  record {
    pending = no_nodes-IsQueue;
    in_turn = tt;
    has_read = record { queued = queue_create-Holds Callback; summed = refl; counted = refl };
    scheduled = (omega arith, omega arith);
    dead = λ j out. refl;
  },
)

pub enough_fuel :
    {num_blocks : ℕ} {p : Running} {line : List (ℕ × PendingRead)} {spare : List ℕ} {k : ℕ}
    → IsInOrder num_blocks p line spare k
    → length line < p.disk.unused + 1
enough_fuel {p = p} {line} {spare} i =
    omega (arith, i.pending.all_kept, length-append (addresses line) spare, length-addresses line)

-- A read that fails ends the interrupt in a bad access.
pub interrupted-fails :
    (num_blocks : ℕ) (now : TimeVal) (p : Running) (line : List (ℕ × PendingRead)) (spare : List ℕ)
    (k : ℕ)
    → IsInOrder num_blocks p line spare k
    → complete_due (some interrupt_service_routine) now (contents line) p.reader ≡ none
    → interrupted now p ≡ bad_access
interrupted-fails num_blocks now p line spare k i failed =
    handle_timer_interrupt-fails (some interrupt_service_routine) now (p.disk.unused + 1) p.disk
      p.reader line spare i.pending (enough_fuel i) failed

handled-injective :
    {d d' : Disk} {w w' : Reader} → handled d w ≡ handled d' w' → (d ≡ d') × (w ≡ w')
handled-injective e = (cc, cc)

pub timer-InOrder :
    (num_blocks : ℕ) (now : TimeVal) (p : Running) {d : Disk} {w : Reader}
    → InOrder num_blocks p
    → interrupted now p ≡ handled d w
    → InOrder num_blocks (record p { disk = d; reader = w })
timer-InOrder num_blocks now p {d} {w} (line, spare, k, i) ran =
    elim (Option-cases
      (complete_due (some interrupt_service_routine) now (contents line) p.reader)) [
        | inl failed ↦ cc (sym (interrupted-fails num_blocks now p line spare k i failed) ∙ ran)
        | inr ((rest, w'), done) ↦
            let (k', from', read', same, kept) =
              complete_due-HasRead now (contents line) k (extra p.point) p.reader i.in_turn
                i.has_read done in
            let (d', line', spare', handled', pending', is) =
              handle_timer_interrupt-completes (some interrupt_service_routine) now
                (p.disk.unused + 1) p.disk p.reader w' line spare rest i.pending (enough_fuel i)
                done in
            let (same_disk, same_reader) = handled-injective (sym handled' ∙ ran) in
            subst (λ d. InOrder num_blocks (record p { disk = d; reader = w })) same_disk
              (subst (λ w. InOrder num_blocks (record p { disk = d'; reader = w })) same_reader
                (
                  line',
                  spare',
                  k',
                  record {
                    pending = pending';
                    in_turn = rw is from';
                    has_read = rw is read';
                    scheduled = rw is (rw same i.scheduled);
                    dead = λ j out. kept (result_at j) (i.dead j out);
                  },
                ))
      ]

pub main-InOrder :
    (num_blocks : ℕ) (garbage : ℕ → ℕ) (now : TimeVal) (disk : Disk) (reader : Reader)
    (point : Point)
    → let p : Running = record { disk = disk; reader = reader; point = point } in
      InOrder num_blocks p
      → ((p' : Running) × (main num_blocks garbage now point p ≡ steps p') × InOrder num_blocks p')
        ⊎ ((n : ℤ) × (point ≡ printed n) × (main num_blocks garbage now point p ≡ over))
unfolding main disk_schedule_read
main-InOrder num_blocks garbage now disk reader (at_loop i) (line, spare, k, o) =
    elim (Bool-cases (ltb i num_blocks)) [
      | inl more ↦
          let more_requests : suc (length (contents line) + 0) ≡ length (contents line) + 1 =
            omega arith in
          let (q, done, holds, _) =
            queue_enqueue-Holds (request i) reader.state.pending_reads
              (requests k (length (contents line) + 0)) o.has_read.queued in
          inl (
            record {
              disk = disk;
              reader = record reader {
                memory = update reader.memory (result_at i) (some (garbage i));
                state = record reader.state { pending_reads = q };
              };
              point = scheduling i;
            },
            rw (more, done) refl,
            (
              line,
              spare,
              k,
              record {
                pending = o.pending;
                in_turn = o.in_turn;
                has_read = record {
                  queued =
                      subst (Holds q)
                        (requests-snoc k (length (contents line) + 0) i
                            (omega (arith, o.scheduled.0))
                          ∙ ap (requests k) more_requests)
                        holds;
                  summed = o.has_read.summed;
                  counted = o.has_read.counted;
                };
                scheduled = (o.scheduled.0, ltb→lt i num_blocks more);
                dead = λ j out.
                    update-ne reader.memory (result_at i) (result_at j) (some (garbage i))
                      (λ e. ground (arith, out, e))
                    ∙ o.dead j refl;
              },
            ),
          )
      | inr all ↦ inl (
        record { disk = disk; reader = reader; point = waiting },
        rw all refl,
        (
          line,
          spare,
          k,
          record {
            pending = o.pending;
            in_turn = o.in_turn;
            has_read = o.has_read;
            scheduled = ground (arith, o.scheduled);
            dead = o.dead;
          },
        ),
      )
    ]
main-InOrder num_blocks garbage now disk reader (scheduling i) (line, spare, k, o) =
    let r : PendingRead = record {
      buf = result_at i;
      block_no = i;
      complete_time = tm_add now read_latency_usec;
    } in
    let (d, a, spare', done, pending, _) = enqueue-IsQueue r disk line spare o.pending in
    let longer : length (contents (line ++ (a, r) ∷ [])) ≡ length (contents line) + 1 =
      ap length (contents-append line ((a, r) ∷ [])) ∙ length-append (contents line) (r ∷ []) in
    inl (
      record { disk = d; reader = reader; point = ending i },
      rw done refl,
      (
        line ++ (a, r) ∷ [],
        spare',
        k,
        record {
          pending = pending;
          in_turn =
              subst (ReadsFrom k) (sym (contents-append line ((a, r) ∷ [])))
                (ReadsFrom-snoc k (contents line) r i o.in_turn refl refl (sym (o.scheduled.0)));
          has_read = subst (λ n. HasRead k n reader) (omega (arith, longer)) o.has_read;
          scheduled = (omega (arith, longer, o.scheduled.0), omega (arith, o.scheduled.1));
          dead = o.dead;
        },
      ),
    )
main-InOrder num_blocks garbage now disk reader (ending i) (line, spare, k, o) = inl (
  record {
    disk = disk;
    reader = record reader { memory = update reader.memory (result_at i) none };
    point = at_loop (i + 1);
  },
  refl,
  (
    line,
    spare,
    k,
    record {
      pending = o.pending;
      in_turn = o.in_turn;
      has_read = record {
        queued = o.has_read.queued;
        summed = o.has_read.summed;
        counted = o.has_read.counted;
      };
      scheduled = (o.scheduled.0, omega (arith, o.scheduled.1));
      dead = λ j out. ground (arith, o.dead j);
    },
  ),
)
main-InOrder num_blocks garbage now disk reader waiting (line, spare, k, o) =
    elim (Bool-cases (reader.state.vars.counter == num_blocks)) [
      | inl all ↦ inl (
        record { disk = disk; reader = reader; point = printed (int_of reader.state.vars.sum) },
        rw all refl,
        (
          line,
          spare,
          k,
          record {
            pending = o.pending;
            in_turn = o.in_turn;
            has_read = o.has_read;
            scheduled = (
              o.scheduled,
              ap int_of (
                  o.has_read.summed
                  ∙ ap (λ k. sum_of_blocks k % 2 ^ 32)
                      (sym o.has_read.counted
                        ∙ (==_iff reader.state.vars.counter num_blocks).0 all)),
            );
            dead = o.dead;
          },
        ),
      )
      | inr wait ↦ inl (
        record { disk = disk; reader = reader; point = waiting },
        rw wait refl,
        (line, spare, k, o),
      )
    ]
main-InOrder num_blocks garbage now disk reader (printed n) i = inr (n, refl, refl)
