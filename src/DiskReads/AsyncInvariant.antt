-- ===== src/DiskReads/AsyncInvariant.antt =====
-- Each read of a9/aRead.c that completes finds its request first in the queue.
use mathlib.Core.Option.{some-injective}
use cs213_assignments.Common.{
  ℕ, zero, suc, ◌+◌, ◌%◌, ◌^◌, ◌≡◌, ◌≢◌, ◌∙◌, refl, sym, ap, subst, true, false, none, some, List,
  [], ◌∷◌, ◌++◌, arith, length, Bool-cases, >>=-eq-some, inl, inr, update, update_self, update-ne,
}
use cs213_assignments.RequestQueue.{Request}
use cs213_assignments.RequestQueue.Fifo.{written}
use cs213_assignments.RequestQueue.Runs.{Holds, queue_dequeue-Holds}
use cs213_assignments.Disk.{PendingRead, TimeVal, perform_dma, deliver_interrupt, is_due}
use cs213_assignments.Disk.Blocks.{number_in, block-number_in, sum_of_blocks, sum_of_blocks-next}
use cs213_assignments.Disk.Delivery.{complete_due, complete_due-due, complete_due-later}
use cs213_assignments.DiskReads.Async.{
  Callback, handle_read, Reader, interrupt_service_routine, result_at,
}

abbrev pub request : ℕ → Request Callback
request k = record { val = result_at k; arg = 0; callback = some handle_read }

-- The requests for `n` blocks from `k` on.
abbrev pub requests : ℕ → ℕ → List (Request Callback)
requests k zero = []
requests k (suc n) = request k ∷ requests (k + 1) n

pub requests-snoc : (k n i : ℕ) → i ≡ k + n → requests k n ++ request i ∷ [] ≡ requests k (suc n)
requests-snoc k zero i e = let same : i ≡ k = omega (arith, e) in rw same refl
requests-snoc k (suc n) i e = ap (◌∷◌ (request k)) (requests-snoc (k + 1) n i (omega (arith, e)))

-- Reads of the blocks from `k` on, in order, each into its `result`.
abbrev pub ReadsFrom : ℕ → List PendingRead → Type 0
ReadsFrom k [] = Unit {0}
ReadsFrom k (r ∷ rs) = (r.buf ≡ result_at k) × (r.block_no ≡ k) × ReadsFrom (k + 1) rs

pub ReadsFrom-snoc :
    (k : ℕ) (rs : List PendingRead) (r : PendingRead) (i : ℕ)
    → ReadsFrom k rs
    → r.buf ≡ result_at i
    → r.block_no ≡ i
    → i ≡ k + length rs
    → ReadsFrom k (rs ++ r ∷ [])
ReadsFrom-snoc k [] r i from buf block_no e =
    (omega (arith, buf, e), omega (arith, block_no, e), tt)
ReadsFrom-snoc k (r' ∷ rs) r i (buf', block_no', from) buf block_no e =
    (buf', block_no', ReadsFrom-snoc (k + 1) rs r i from buf block_no (omega (arith, e)))

-- The reads of the first `k` blocks have completed, and `n` requests are in the queue.
pub record HasRead (k n : ℕ) (w : Reader) : Type 0 where
  pub queued : Holds w.state.pending_reads (requests k n)
  pub summed : w.state.vars.sum ≡ sum_of_blocks k % 2 ^ 32
  pub counted : w.state.vars.counter ≡ k

-- No variable comes to life.
abbrev pub NoneAwakes : Reader → Reader → Type 0
NoneAwakes w w' = (a : ℕ) → w.memory a ≡ none → w'.memory a ≡ none

isr-HasRead :
    (k n : ℕ) (w : Reader)
    → HasRead k (suc n) w
    → w.memory (result_at k) ≡ some (number_in k)
    → (w' : Reader) × (interrupt_service_routine w ≡ some w')
      × HasRead (k + 1) n w'
      × (w'.memory ≡ w.memory)
unfolding interrupt_service_routine written
isr-HasRead k n w h at =
    let (q, done, rest, _) =
      queue_dequeue-Holds (record { val = 0; arg = none; callback = some none })
        w.state.pending_reads (requests k (suc n)) h.queued in
    (
      record w {
        state = record {
          pending_reads = q;
          vars = record {
            sum = (w.state.vars.sum + number_in k) % 2 ^ 32;
            counter = w.state.vars.counter + 1;
          };
        };
      },
      ground (arith, done, at),
      record {
        queued = rest;
        summed = omega (arith, h.summed, sum_of_blocks-next k);
        counted = ap (λ n. n + 1) h.counted;
      },
      refl,
    )

-- A read that completes has found its variable alive.
perform_dma-alive :
    (buf block_no : ℕ) (w w1 : Reader)
    → perform_dma buf block_no w ≡ some w1
    → (w.memory buf ≢ none)
      × (w1 ≡ record w { memory = update w.memory buf (some (number_in block_no)) })
unfolding perform_dma
perform_dma-alive buf block_no w w1 h = ground (arith, block-number_in block_no)

pub perform_dma-dead :
    (buf block_no : ℕ) (w : Reader) → w.memory buf ≡ none → perform_dma buf block_no w ≡ none
unfolding perform_dma
perform_dma-dead buf block_no w dead = ground (arith, block-number_in block_no)

-- The read of block `k` into its `result`.
read-HasRead :
    (k n : ℕ) (r : PendingRead) (w w1 w2 : Reader)
    → r.buf ≡ result_at k
    → r.block_no ≡ k
    → HasRead k (suc n) w
    → perform_dma r.buf r.block_no w ≡ some w1
    → deliver_interrupt (some interrupt_service_routine) w1 ≡ some w2
    → HasRead (k + 1) n w2 × NoneAwakes w w2
unfolding deliver_interrupt
read-HasRead k n r w w1 w2 buf block_no h dma isr =
    let (alive, same) = perform_dma-alive r.buf r.block_no w w1 dma in
    let w1' : Reader = record w { memory = update w.memory (result_at k) (some (number_in k)) } in
    let same' : w1 ≡ w1' =
      subst (λ b. w1 ≡ record w { memory = update w.memory b (some (number_in k)) }) buf
        (subst (λ b. w1 ≡ record w { memory = update w.memory r.buf (some (number_in b)) }) block_no
          same) in
    let h1 : HasRead k (suc n) (record w1' { interrupt = true }) = record {
      queued = h.queued;
      summed = h.summed;
      counted = h.counted;
    } in
    let (w3, done, h3, kept) =
      isr-HasRead k n (record w1' { interrupt = true }) h1
        (update_self w.memory (result_at k) (some (number_in k))) in
    let delivered : deliver_interrupt (some interrupt_service_routine) w1'
        ≡ some (record w3 { interrupt = false }) =
      rw done refl in
    let last : w2 ≡ record w3 { interrupt = false } =
      some-injective _ _
        (sym isr ∙ ap (deliver_interrupt (some interrupt_service_routine)) same' ∙ delivered) in
    (
      subst (HasRead (k + 1) n) (sym last)
          (record { queued = h3.queued; summed = h3.summed; counted = h3.counted }),
      λ a dead.
          ap (λ w. w.memory a) last
          ∙ ap (λ f. f a) kept
          ∙ update-ne w.memory (result_at k) a (some (number_in k))
              (λ e. alive (ap w.memory (buf ∙ e) ∙ dead))
          ∙ dead,
    )

-- What has become of the reads `rs` from block `k` on when those of `rest` are left.
abbrev pub HasLeft : ℕ → ℕ → List PendingRead → Reader → List PendingRead × Reader → Type 0
HasLeft k n rs w (rest, w') =
    (k' : ℕ) × ReadsFrom k' rest
    × HasRead k' (length rest + n) w'
    × (k' + length rest ≡ k + length rs)
    × NoneAwakes w w'

-- The reads that are due complete, and the others are left with their requests.
pub complete_due-HasRead :
    (now : TimeVal) (rs : List PendingRead) (k n : ℕ) (w : Reader) {rest : List PendingRead}
    {w' : Reader}
    → ReadsFrom k rs
    → HasRead k (length rs + n) w
    → complete_due (some interrupt_service_routine) now rs w ≡ some (rest, w')
    → HasLeft k n rs w (rest, w')
unfolding complete_due
complete_due-HasRead now [] k n w from h ran =
    subst (HasLeft k n [] w) (some-injective _ _ ran) (k, tt, h, refl, λ a dead. dead)
complete_due-HasRead now (r ∷ rs) k n w {rest} {w'} (buf, block_no, from) h ran =
    elim (Bool-cases (is_due r now)) [
      | inl due ↦
          let isr = some interrupt_service_routine in
          let (w1, dma, ran1) =
            >>=-eq-some (perform_dma r.buf r.block_no w) _
              (sym (complete_due-due isr now r rs w due) ∙ ran) in
          let (w2, delivered, ran2) = >>=-eq-some (deliver_interrupt isr w1) _ ran1 in
          let (h2, kept) =
            read-HasRead k (length rs + n) r w w1 w2 buf block_no
              (subst (λ m. HasRead k m w) (omega arith) h) dma delivered in
          let (k', from', h', same, kept') =
            complete_due-HasRead now rs (k + 1) n w2 from h2 ran2 in
          (k', from', h', omega (arith, same), λ a dead. kept' a (kept a dead))
      | inr later ↦
          subst (HasLeft k n (r ∷ rs) w)
            (some-injective _ _
              (sym (complete_due-later (some interrupt_service_routine) now r rs w later) ∙ ran))
            (k, (buf, block_no, from), h, refl, λ a dead. dead)
    ]
