-- ===== src/Uthread/Waiting.antt =====
-- The queues of a11/uthreads/uthread.c, which share the threads' `next`, as lists of threads.
use cs213_assignments.Common.{
  ℕ, ◌≡◌, ◌≢◌, refl, sym, ◌∙◌, ap, subst, true, false, Option, none, some, List, [], ◌∷◌, ◌++◌,
  arith, update, update_self, update-ne, ℕ_discrete, inl, inr, Option-cases, ==_refl,
}
use cs213_assignments.Uthread.{
  Store, set_queue, uthread_enqueue, uthread_dequeue, uthread_queue_is_empty, link_last, first_or,
  tail_behind, is_at,
}
use cs213_assignments.Uthread.Linked.{
  Linked, nil, one, cons, has, has-append, Linked-frame, tail-last, last-tail, link_last-Linked,
  head-once,
}

-- Each queue is the list of the threads that wait in it, no thread waits in two queues, and a
-- thread that waits in none has no `next`.
pub record Represents (s : Store) (waiting : ℕ → List ℕ) : Type 0 where
  pub linked : (q : ℕ) → Linked s.next ((s.queue q).head) ((s.queue q).tail) (waiting q)
  pub apart : (a p q : ℕ) → has a (waiting p) ≡ true → has a (waiting q) ≡ true → p ≡ q
  pub unlinked : (a : ℕ) → ((q : ℕ) → has a (waiting q) ≡ false) → s.next a ≡ none

-- What an enqueued thread makes of the store.
appended : ℕ → ℕ → Store → Store
appended q a s =
    set_queue q (record { head = first_or a ((s.queue q).head); tail = some a })
      (record s { next = link_last a ((s.queue q).tail) s.next })

not_at-tail :
    {next : ℕ → Option ℕ} {head tail : Option ℕ} {xs : List ℕ} (a : ℕ)
    → Linked next head tail xs
    → has a xs ≡ false
    → is_at a tail ≡ false
not_at-tail {tail = none} a l new = refl
not_at-tail {tail = some p} a l new = ground (arith, (tail-last l).1)

link_last-other :
    (next : ℕ → Option ℕ) (a b : ℕ) (tail : Option ℕ)
    → a ≢ b
    → is_at b tail ≡ false
    → link_last a tail next b ≡ next b
unfolding link_last
link_last-other next a b none d e = ground arith
link_last-other next a b (some p) d e = ground arith

head-empty :
    {next : ℕ → Option ℕ} {head tail : Option ℕ} {xs : List ℕ}
    → Linked next head tail xs
    → xs ≡ []
    → head ≡ none
head-empty nil e = refl
head-empty (one d) e = ground arith
head-empty (cons d rest) e = ground arith

head-first :
    {next : ℕ → Option ℕ} {head tail : Option ℕ} {a : ℕ} {xs : List ℕ}
    → Linked next head tail (a ∷ xs)
    → head ≡ some a
head-first (one e) = refl
head-first (cons e rest) = refl

pub behind-new :
    {next : ℕ → Option ℕ} {head tail : Option ℕ} {a : ℕ} {xs : List ℕ}
    → Linked next head tail (a ∷ xs)
    → has a xs ≡ false
behind-new (one e) = refl
behind-new (cons {p} e rest) = head-once p e rest

behind :
    {next : ℕ → Option ℕ} {head tail : Option ℕ} {a : ℕ} {xs : List ℕ}
    → Linked next head tail (a ∷ xs)
    → Linked (update next a none) (next a) (tail_behind (next a) tail) xs
unfolding tail_behind
behind (one e) = rw e nil
behind {next} (cons {p} e rest) =
    rw e (Linked-frame rest λ b i. update-ne next p b none (ground (arith, head-once p e rest)))

-- What is left of the store when the first thread is taken from a queue.
removed : ℕ → ℕ → Store → Store
removed q a s =
    set_queue q (record { head = s.next a; tail = tail_behind (s.next a) ((s.queue q).tail) })
      (record s { next = update s.next a none })

dequeue-removed :
    (s : Store) (q : ℕ) {a : ℕ}
    → (s.queue q).head ≡ some a
    → uthread_dequeue q s ≡ (some a, removed q a s)
unfolding uthread_dequeue removed set_queue
dequeue-removed s q e = rw (uthread_dequeue, e)

-- The queues of a program none of whose threads waits.
abbrev pub no_waiters : Store
no_waiters = record { next = λ a. none; queue = λ p. record { head = none; tail = none } }

pub no_waiters-Represents : Represents no_waiters (λ p. [])
no_waiters-Represents = record {
  linked = λ p. nil;
  apart = λ a p q i j. ground arith;
  unlinked = λ a out. refl;
}

module _ {s s' : Store} {waiting : ℕ → List ℕ} where
  -- A step that changes the queue `q` alone, and the links of threads that wait in no other queue.
  changed :
      (q : ℕ) (xs : List ℕ)
      → Represents s waiting
      → Linked s'.next ((s'.queue q).head) ((s'.queue q).tail) xs
      → ((p : ℕ) → q ≢ p → s'.queue p ≡ s.queue p)
      → ((a p : ℕ) → q ≢ p → has a (waiting p) ≡ true → (s'.next a ≡ s.next a) × (has a xs ≡ false))
      → ((a : ℕ)
          → has a xs ≡ false
          → ((p : ℕ) → q ≢ p → has a (waiting p) ≡ false)
          → s'.next a ≡ none)
      → Represents s' (update waiting q xs)
  changed q xs rep here others same alone = record {
    linked = λ p. elim (ℕ_discrete q p) [
      | yes e ↦
          subst
            (λ p. Linked s'.next ((s'.queue p).head) ((s'.queue p).tail) (update waiting q xs p)) e
            (subst (Linked s'.next ((s'.queue q).head) ((s'.queue q).tail))
              (sym (update_self waiting q xs)) here)
      | no d ↦
          subst (Linked s'.next ((s'.queue p).head) ((s'.queue p).tail))
            (sym (update-ne waiting q p xs d))
            (subst (λ r. Linked s'.next r.head r.tail (waiting p)) (sym (others p d))
              (Linked-frame (rep.linked p) λ a i. (same a p d i).0))
    ];
    apart = λ a p r i j. elim (ℕ_discrete q p) [
      | yes e ↦ elim (ℕ_discrete q r) [ yes e' ↦ sym e ∙ e' | no d ↦ ground (arith, same a r d) ]
      | no d ↦ elim (ℕ_discrete q r) [
        | yes e ↦ ground (arith, same a p d)
        | no d' ↦ rep.apart a p r (ground arith) (ground arith)
      ]
    ];
    unlinked = λ a out. alone a (ground (arith, out q)) λ p d. ground (arith, out p);
  }

module _ {s : Store} {waiting : ℕ → List ℕ} where
  enqueue-new :
      (q a : ℕ)
      → Represents s waiting
      → ((p : ℕ) → has a (waiting p) ≡ false)
      → uthread_enqueue q a s ≡ appended q a s
  unfolding uthread_enqueue appended
  enqueue-new q a rep new = rw (rep.unlinked a new, not_at-tail a (rep.linked q) (new q))

  -- A queue that holds the thread already is left as it is.
  pub enqueue-queued :
      (q a : ℕ) → Represents s waiting → has a (waiting q) ≡ true → uthread_enqueue q a s ≡ s
  unfolding uthread_enqueue
  enqueue-queued q a rep i = elim (Option-cases (s.next a)) [
    | inl e ↦ rw (e, last-tail a (rep.linked q) i e, ==_refl)
    | inr (b, e) ↦ rw e
  ]

  -- A thread that waits nowhere goes to the end of the queue.
  pub enqueue-Represents :
      (q a : ℕ)
      → Represents s waiting
      → ((p : ℕ) → has a (waiting p) ≡ false)
      → Represents (uthread_enqueue q a s) (update waiting q (waiting q ++ a ∷ []))
  unfolding appended set_queue
  enqueue-Represents q a rep new =
      subst (λ s'. Represents s' (update waiting q (waiting q ++ a ∷ [])))
        (sym (enqueue-new q a rep new))
        (changed {s = s} {s' = appended q a s} q (waiting q ++ a ∷ []) rep
          (subst
            (λ r.
              Linked (link_last a ((s.queue q).tail) s.next) r.head r.tail (waiting q ++ a ∷ []))
            (sym (
              update_self s.queue q
                (record { head = first_or a ((s.queue q).head); tail = some a })))
            (link_last-Linked a (rep.linked q) (new q)))
          (λ p d. update-ne s.queue q p _ d)
          (λ b p d i. (
            link_last-other s.next a b _ (ground (arith, new p))
                (not_at-tail b (rep.linked q) (ground (arith, rep.apart b p q i))),
            ground (arith, has-append b (waiting q) (a ∷ []), new p, rep.apart b p q i),
          ))
          λ b out away.
            let outside = has-append b (waiting q) (a ∷ []) in
            link_last-other s.next a b _ (ground (arith, outside))
              (not_at-tail b (rep.linked q) (ground (arith, outside)))
            ∙ rep.unlinked b λ p. elim (ℕ_discrete q p) [
              | yes e ↦ ground (arith, outside, ap waiting e)
              | no d ↦ away p d
            ])

  removed-Represents :
      (q a : ℕ) (xs : List ℕ)
      → Represents s waiting
      → waiting q ≡ a ∷ xs
      → Represents (removed q a s) (update waiting q xs)
  unfolding removed set_queue
  removed-Represents q a xs rep e =
      let line = subst (Linked s.next ((s.queue q).head) ((s.queue q).tail)) e (rep.linked q) in
      changed {s = s} {s' = removed q a s} q xs rep
        (subst (λ r. Linked (update s.next a none) r.head r.tail xs)
          (sym (
            update_self s.queue q
              (record { head = s.next a; tail = tail_behind (s.next a) ((s.queue q).tail) })))
          (behind line))
        (λ p d. update-ne s.queue q p _ d)
        (λ b p d i.
          let away = rep.apart b p q i in
          (ground (arith, ap (has b) e, away), ground (arith, ap (has b) e, away)))
        λ b out away. elim (ℕ_discrete a b) [
          | yes e' ↦ ground (arith, e')
          | no d ↦
              update-ne s.next a b none d
              ∙ rep.unlinked b λ p. elim (ℕ_discrete q p) [
                | yes e' ↦ ground (arith, ap (has b) e, ap waiting e')
                | no d' ↦ away p d'
              ]
        ]

  -- The first thread of a queue is taken from it.
  pub dequeue-first :
      (q : ℕ) {a : ℕ} {xs : List ℕ}
      → Represents s waiting
      → waiting q ≡ a ∷ xs
      → (s' : Store) × (uthread_dequeue q s ≡ (some a, s')) × Represents s' (update waiting q xs)
  dequeue-first q {a} {xs} rep e = (
    removed q a s,
    dequeue-removed s q
        (head-first (subst (Linked s.next ((s.queue q).head) ((s.queue q).tail)) e (rep.linked q))),
    removed-Represents q a xs rep e,
  )

  -- An empty queue is left as it is.
  pub dequeue-empty :
      (q : ℕ) → Represents s waiting → waiting q ≡ [] → uthread_dequeue q s ≡ (none, s)
  unfolding uthread_dequeue
  dequeue-empty q rep e = rw (uthread_dequeue, head-empty (rep.linked q) e)

  pub is_empty-waiting :
      (q : ℕ) → Represents s waiting → waiting q ≡ [] → uthread_queue_is_empty q s ≡ true
  unfolding uthread_queue_is_empty
  is_empty-waiting q rep e = rw (uthread_queue_is_empty, head-empty (rep.linked q) e)
