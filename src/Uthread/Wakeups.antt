-- ===== src/Uthread/Wakeups.antt =====
-- Waking the threads of a queue, as a11/uthreads/uthread_mutex_cond.c and uthread_sem.c do it.
use cs213_assignments.Common.{
  ℕ, zero, suc, ◌≡◌, ◌≢◌, ◌<◌, refl, fun_ext, ◌∙◌, ap, subst, true, false, none, some, List, [],
  ◌∷◌, ◌++◌, arith, update, ℕ_discrete, length,
}
use cs213_assignments.Uthread.{
  Store, uthread_unblock, ready_queue, wake_first, wake_all, wake, while_woken, is_at,
}
use cs213_assignments.Uthread.Linked.{has, Linked, last-tail}
use cs213_assignments.Uthread.Waiting.{
  Represents, behind-new, enqueue-Represents, dequeue-first, dequeue-empty,
}

-- The lists of threads when the first thread of a queue has been woken: `xs` stay behind it.
abbrev pub moved : ℕ → ℕ → List ℕ → (ℕ → List ℕ) → ℕ → List ℕ
moved q a xs waiting =
    update (update waiting q xs) ready_queue (update waiting q xs ready_queue ++ a ∷ [])

-- A thread without a `next` that is the tail of no queue waits in none.
abbrev pub Running : Store → ℕ → Type 0
Running s a = (s.next a ≡ none) × ((q : ℕ) → is_at a ((s.queue q).tail) ≡ false)

module _ {s : Store} {waiting : ℕ → List ℕ} where
  pub Running-new :
      (a : ℕ) → Represents s waiting → Running s a → (q : ℕ) → has a (waiting q) ≡ false
  Running-new a rep (free, apart) q =
      elim (has a (waiting q)) as (λ b. has a (waiting q) ≡ b → has a (waiting q) ≡ false) [
        | true ↦ λ i. ground (arith, last-tail a (rep.linked q) i free, apart q)
        | false ↦ λ e. e
      ]
        refl

  first-new :
      (q a : ℕ) (xs : List ℕ)
      → Represents s waiting
      → waiting q ≡ a ∷ xs
      → (p : ℕ) → has a (update waiting q xs p) ≡ false
  first-new q a xs rep e p = elim (ℕ_discrete q p) [
    | yes same ↦ ground (
      arith,
      same,
      behind-new (subst (Linked s.next ((s.queue q).head) ((s.queue q).tail)) e (rep.linked q)),
    )
    | no d ↦ ground (arith, ap (has a) e, rep.apart a p q)
  ]

  pub wake_first-moved :
      (q a : ℕ) (xs : List ℕ)
      → Represents s waiting
      → waiting q ≡ a ∷ xs
      → (s' : Store) × (wake_first q s ≡ (some a, s')) × Represents s' (moved q a xs waiting)
  unfolding wake_first wake uthread_unblock
  wake_first-moved q a xs rep e =
      let (s', got, rep') = dequeue-first q rep e in
      (
        uthread_unblock a s',
        ap wake got,
        enqueue-Represents ready_queue a rep' (first-new q a xs rep e),
      )

  pub wake_first-empty :
      (q : ℕ) → Represents s waiting → waiting q ≡ [] → wake_first q s ≡ (none, s)
  unfolding wake_first wake
  wake_first-empty q rep e = ap wake (dequeue-empty q rep e)

Represents-ext :
    {s : Store} {waiting waiting' : ℕ → List ℕ}
    → Represents s waiting
    → ((p : ℕ) → waiting p ≡ waiting' p)
    → Represents s waiting'
Represents-ext {s} rep same = subst (Represents s) (fun_ext same) rep

append_nil : (xs : List ℕ) → xs ++ [] ≡ xs
append_nil [] = refl
append_nil (x ∷ xs) = ap (λ ys. x ∷ ys) (append_nil xs)

append_assoc : (xs ys zs : List ℕ) → (xs ++ ys) ++ zs ≡ xs ++ (ys ++ zs)
append_assoc [] ys zs = refl
append_assoc (x ∷ xs) ys zs = ap (λ ys. x ∷ ys) (append_assoc xs ys zs)

-- The lists of threads when all threads of a queue have been woken.
abbrev pub emptied : ℕ → (ℕ → List ℕ) → ℕ → List ℕ
emptied q waiting = update (update waiting q []) ready_queue (waiting ready_queue ++ waiting q)

emptied-moved :
    (q a : ℕ) (xs : List ℕ) (waiting : ℕ → List ℕ)
    → q ≢ ready_queue
    → waiting q ≡ a ∷ xs
    → (p : ℕ) → emptied q (moved q a xs waiting) p ≡ emptied q waiting p
emptied-moved q a xs waiting apart e p = ground (
  arith,
  e,
  apart,
  append_assoc (waiting ready_queue) (a ∷ []) xs,
  ap (λ ys. waiting ready_queue ++ ys) e,
)

-- One round for each thread and one more wake all threads of the queue, in their order.
pub wake_all-emptied :
    (fuel q : ℕ) (xs : List ℕ) {s : Store} {waiting : ℕ → List ℕ}
    → Represents s waiting
    → q ≢ ready_queue
    → waiting q ≡ xs
    → length xs < fuel
    → (s' : Store) × (wake_all fuel q s ≡ some s') × Represents s' (emptied q waiting)
unfolding wake_all while_woken
wake_all-emptied zero q xs rep apart e enough = absurd (omega arith)
wake_all-emptied (suc fuel) q [] {s} {waiting} rep apart e enough = (
  s,
  ap (while_woken _) (wake_first-empty q rep e),
  Represents-ext rep
      λ p. ground (arith, e, apart, append_nil (waiting p), ap (λ ys. waiting ready_queue ++ ys) e),
)
wake_all-emptied (suc fuel) q (a ∷ xs) {s} {waiting} rep apart e enough =
    let (s', got, rep') = wake_first-moved q a xs rep e in
    let (s'', done, rep'') =
      wake_all-emptied fuel q xs rep' apart (ground (arith, apart)) (omega arith) in
    (
      s'',
      ap (while_woken _) got ∙ done,
      Represents-ext rep'' (emptied-moved q a xs waiting apart e),
    )
