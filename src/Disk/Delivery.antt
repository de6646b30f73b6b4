-- ===== src/Disk/Delivery.antt =====
-- The timer interrupt of a9/disk.c against a list of pending reads.
use cs213_assignments.Common.{
  ℕ, zero, suc, ◌<◌, ◌≡◌, ◌∙◌, refl, sym, ap, subst, true, false, Option, none, some, ◌>>=◌,
  >>=-eq-some, List, [], ◌∷◌, arith, if◌then◌else◌, update, update_self, update-ne, length,
  Bool-cases, Option-cases, ◌⊎◌, inl, inr,
}
use mathlib.Core.Option.{some-injective}
use cs213_assignments.RequestNodes.{Node}
use cs213_assignments.RequestNodes.Line.{contents, Line, last_of}
use cs213_assignments.RequestNodes.Kept.{IsQueue}
use cs213_assignments.RequestNodes.Freed.{freed-IsQueue}
use cs213_assignments.Disk.{
  PendingRead, TimeVal, Client, Disk, handled, bad_access, is_due, complete_read, perform_dma,
  deliver_interrupt, prq_dequeue_lock_held, back_behind, handle_timer_interrupt,
}

prq_dequeue_eq :
    (d : Disk) (p : ℕ) (n : Node PendingRead)
    → d.front ≡ some p
    → d.node p ≡ some n
    → prq_dequeue_lock_held d
      ≡ some (record d {
        node = update d.node p (some (record n { next = d.free }));
        front = n.prev;
        back = back_behind n.prev d.back;
        free = some p;
      })
unfolding prq_dequeue_lock_held
prq_dequeue_eq d p n front at = ground arith

back_behind-last_of :
    (node : ℕ → Option (Node PendingRead)) (back p : Option ℕ) (r : ℕ × PendingRead)
    (line : List (ℕ × PendingRead))
    → Line node p line
    → back ≡ last_of (r ∷ line)
    → back_behind p back ≡ last_of line
back_behind-last_of node back p r [] h e = rw h refl
back_behind-last_of node back p r (x ∷ line) (n, q, _, _, _) e = rw q e

prq_dequeue-IsQueue :
    (d : Disk) (a : ℕ) (r : PendingRead) (line : List (ℕ × PendingRead)) (spare : List ℕ)
    → IsQueue d ((a, r) ∷ line) spare
    → (d' : Disk) × (prq_dequeue_lock_held d ≡ some d') × IsQueue d' line (a ∷ spare)
prq_dequeue-IsQueue d a r line spare i =
    let (n, front, at, is, behind) = i.in_line in
    let d' : Disk = record d {
      node = update d.node a (some (record n { next = d.free }));
      front = n.prev;
      back = back_behind n.prev d.back;
      free = some a;
    } in
    (
      d',
      prq_dequeue_eq d a n front at,
      freed-IsQueue d d' a r n line spare i refl
          (back_behind-last_of d.node d.back n.prev (a, r) line behind i.at_back) refl refl at
          (update_self d.node a _)
          λ b ne m at_b. (m, update-ne d.node a b _ ne ∙ at_b, refl, refl, λ h. refl),
    )

module _ {S : Type 0} (isr : Option (Client S → Option (Client S))) (now : TimeVal) where
  -- The reads that are due complete one after the other, up to the first one that is not, and the
  -- interrupt service routine runs after each.
  unfoldable pub complete_due : List PendingRead → Client S → Option (List PendingRead × Client S)
  complete_due [] w = some ([], w)
  complete_due (r ∷ rs) w =
      let rest = (do
        w ← perform_dma r.buf r.block_no w
        w ← deliver_interrupt isr w
        complete_due rs w) in
      if is_due r now then rest else some (r ∷ rs, w)

  pub complete_due-due :
      (r : PendingRead) (rs : List PendingRead) (w : Client S)
      → is_due r now ≡ true
      → complete_due (r ∷ rs) w
        ≡ (do w ← perform_dma r.buf r.block_no w; w ← deliver_interrupt isr w; complete_due rs w)
  unfolding complete_due
  complete_due-due r rs w due = rw due refl

  pub complete_due-later :
      (r : PendingRead) (rs : List PendingRead) (w : Client S)
      → is_due r now ≡ false
      → complete_due (r ∷ rs) w ≡ some (r ∷ rs, w)
  unfolding complete_due
  complete_due-later r rs w later = rw later refl

  complete_read-dequeues :
      (r : PendingRead) (d d' : Disk) (w : Client S) (rs : List PendingRead)
      (result : List PendingRead × Client S)
      → prq_dequeue_lock_held d ≡ some d'
      → (do w ← perform_dma r.buf r.block_no w; w ← deliver_interrupt isr w; complete_due rs w)
        ≡ some result
      → (w' : Client S) × (complete_read isr r d w ≡ some (d', w'))
        × (complete_due rs w' ≡ some result)
  unfolding complete_read
  complete_read-dequeues r d d' w rs result deq h =
      let (w1, e1, h1) = >>=-eq-some (perform_dma r.buf r.block_no w) _ h in
      let (w2, e2, h2) = >>=-eq-some (deliver_interrupt isr w1) _ h1 in
      (w2, ground (arith, e1, e2, deq), h2)

  handle-nothing :
      (fuel : ℕ) (d : Disk) (w : Client S)
      → d.front ≡ none
      → handle_timer_interrupt (suc fuel) isr now d w ≡ handled d w
  unfolding handle_timer_interrupt
  handle-nothing fuel d w front = ground arith

  handle-later :
      (fuel p : ℕ) (n : Node PendingRead) (d : Disk) (w : Client S)
      → d.front ≡ some p
      → d.node p ≡ some n
      → is_due n.content now ≡ false
      → handle_timer_interrupt (suc fuel) isr now d w ≡ handled d w
  unfolding handle_timer_interrupt
  handle-later fuel p n d w front at later = ground arith

  handle-due :
      (fuel p : ℕ) (n : Node PendingRead) (d d' : Disk) (w w' : Client S)
      → d.front ≡ some p
      → d.node p ≡ some n
      → is_due n.content now ≡ true
      → complete_read isr n.content d w ≡ some (d', w')
      → handle_timer_interrupt (suc fuel) isr now d w ≡ handle_timer_interrupt fuel isr now d' w'
  unfolding handle_timer_interrupt
  handle-due fuel p n d d' w w' front at due done = ground arith

  handle-failed :
      (fuel p : ℕ) (n : Node PendingRead) (d : Disk) (w : Client S)
      → d.front ≡ some p
      → d.node p ≡ some n
      → is_due n.content now ≡ true
      → complete_read isr n.content d w ≡ none
      → handle_timer_interrupt (suc fuel) isr now d w ≡ bad_access
  unfolding handle_timer_interrupt
  handle-failed fuel p n d w front at due failed = ground arith

  -- If a read fails, the one that completes or one behind it.
  complete_read-fails :
      (r : PendingRead) (d d' : Disk) (w : Client S) (rs : List PendingRead)
      → prq_dequeue_lock_held d ≡ some d'
      → (do w ← perform_dma r.buf r.block_no w; w ← deliver_interrupt isr w; complete_due rs w)
        ≡ none
      → (complete_read isr r d w ≡ none)
        ⊎ ((w' : Client S) × (complete_read isr r d w ≡ some (d', w'))
            × (complete_due rs w' ≡ none))
  unfolding complete_read
  complete_read-fails r d d' w rs deq h = elim (Option-cases (perform_dma r.buf r.block_no w)) [
    | inl e ↦ inl (rw e refl)
    | inr (w1, e1) ↦ elim (Option-cases (deliver_interrupt isr w1)) [
      | inl e ↦ inl (ground (arith, e1, e, deq))
      | inr (w2, e2) ↦ inr (w2, ground (arith, e1, e2, deq), ground (arith, e1, e2, h))
    ]
  ]

  -- If a read that is due fails, the interrupt ends in a bad access.
  pub handle_timer_interrupt-fails :
      (fuel : ℕ) (d : Disk) (w : Client S) (line : List (ℕ × PendingRead)) (spare : List ℕ)
      → IsQueue d line spare
      → length line < fuel
      → complete_due (contents line) w ≡ none
      → handle_timer_interrupt fuel isr now d w ≡ bad_access
  unfolding complete_due
  handle_timer_interrupt-fails zero d w line spare i enough h = absurd (omega arith)
  handle_timer_interrupt-fails (suc fuel) d w [] spare i enough h = cc
  handle_timer_interrupt-fails (suc fuel) d w ((a, r) ∷ line) spare i enough h =
      let (n, front, at, is, _) = i.in_line in
      elim (Bool-cases (is_due r now)) [
        | inl due ↦
            let (d1, deq, i1) = prq_dequeue-IsQueue d a r line spare i in
            elim (complete_read-fails r d d1 w (contents line) deq
              (sym (complete_due-due r (contents line) w due) ∙ h)) [
                | inl failed ↦
                    handle-failed fuel a n d w front at (rw is due)
                      (subst (λ c. complete_read isr c d w ≡ none) (sym is) failed)
                | inr (w1, done, h1) ↦
                    handle-due fuel a n d d1 w w1 front at (rw is due)
                      (subst (λ c. complete_read isr c d w ≡ some (d1, w1)) (sym is) done)
                    ∙ handle_timer_interrupt-fails fuel d1 w1 line (a ∷ spare) i1 (omega arith) h1
              ]
        | inr later ↦ cc (sym (complete_due-later r (contents line) w later) ∙ h)
      ]

  pub handle_timer_interrupt-completes :
      (fuel : ℕ) (d : Disk) (w w' : Client S) (line : List (ℕ × PendingRead)) (spare : List ℕ)
      (rest : List PendingRead)
      → IsQueue d line spare
      → length line < fuel
      → complete_due (contents line) w ≡ some (rest, w')
      → (d' : Disk) × (line' : List (ℕ × PendingRead)) × (spare' : List ℕ) × (handle_timer_interrupt
            fuel isr now d w
          ≡ handled d' w')
        × IsQueue d' line' spare'
        × (contents line' ≡ rest)
  unfolding complete_due
  handle_timer_interrupt-completes zero d w w' line spare rest i enough h = absurd (omega arith)
  handle_timer_interrupt-completes (suc fuel) d w w' [] spare rest i enough h =
      let same = some-injective _ _ h in
      (
        d,
        [],
        spare,
        handle-nothing fuel d w i.in_line ∙ ap (λ x. handled d x.1) same,
        i,
        ap (λ x. x.0) same,
      )
  handle_timer_interrupt-completes (suc fuel) d w w' ((a, r) ∷ line) spare rest i enough h =
      let (n, front, at, is, _) = i.in_line in
      elim (Bool-cases (is_due r now)) [
        | inl due ↦
            let (d1, deq, i1) = prq_dequeue-IsQueue d a r line spare i in
            let (w1, done, h1) =
              complete_read-dequeues r d d1 w (contents line) (rest, w') deq
                (sym (complete_due-due r (contents line) w due) ∙ h) in
            let (d2, line', spare', all, i2, left) =
              handle_timer_interrupt-completes fuel d1 w1 w' line (a ∷ spare) rest i1 (omega arith)
                h1 in
            (
              d2,
              line',
              spare',
              handle-due fuel a n d d1 w w1 front at (rw is due)
                    (subst (λ c. complete_read isr c d w ≡ some (d1, w1)) (sym is) done)
                  ∙ all,
              i2,
              left,
            )
        | inr later ↦
            let same : some (r ∷ contents line, w) ≡ some (rest, w') =
              sym (complete_due-later r (contents line) w later) ∙ h in
            (
              d,
              (a, r) ∷ line,
              spare,
              handle-later fuel a n d w front at (rw is later)
                  ∙ ap (λ x. handled d x.1) (some-injective _ _ same),
              i,
              ap (λ x. x.0) (some-injective _ _ same),
            )
      ]
