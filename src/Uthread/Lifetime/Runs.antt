-- ===== src/Uthread/Lifetime/Runs.antt =====
-- The life of one thread's control block, as a step relation of the thread, of the thread that
-- switches it off, and of the one client that joins or detaches it.
use cs213_assignments.Common.{
  ℕ, ◌≡◌, ◌≢◌, ◌↔◌, sym, subst, Bool-cases, inl, inr, refl, true, false, ◌||◌, Option, none, some,
  arith,
}
use cs213_assignments.Uthread.Lifetime.{
  State, nascent, dying, dead, is_dying, is_dead, Joiner, nobody, detached, joined_by, is_nobody,
  is_detached, Tcb, finish, reap, blocks, goes_on, uthread_join, end_join, uthread_detach,
}

pub data Phase : Type 0 where
  alive : Phase
  finished : Phase
  reaped : Phase

pub data Client : Type 0 where
  undecided : Client
  joining : Client
  done : Client

-- The control block, none when it has been freed, and how far the thread and its client are.
pub record World : Type 0 where
  pub block : Option Tcb
  pub phase : Phase
  pub client : Client

pub data Step : World → World → Type 0 where
  reschedules :
      {t : Tcb} {c : Client} (s : State)
      → (is_dying s || is_dead s) ≡ false
      → Step
          (record { block = some t; phase = alive; client = c })
          (record { block = some (record t { state = s }); phase = alive; client = c })
  finishes :
      {t : Tcb} {c : Client} (v : ℕ)
      → Step
          (record { block = some t; phase = alive; client = c })
          (record { block = some (finish v t).0; phase = finished; client = c })
  reaps :
      {t : Tcb} {c : Client}
      → Step
          (record { block = some t; phase = finished; client = c })
          (record { block = reap t; phase = reaped; client = c })
  join_blocks :
      {t t' : Tcb} {p : Phase} (self : ℕ)
      → uthread_join self t ≡ blocks t'
      → Step
          (record { block = some t; phase = p; client = undecided })
          (record { block = some t'; phase = p; client = joining })
  join_goes_on :
      {t t' : Tcb} {p : Phase} (self : ℕ)
      → uthread_join self t ≡ goes_on t'
      → Step
          (record { block = some t; phase = p; client = undecided })
          (record { block = (end_join t').1; phase = p; client = done })
  join_resumes :
      {t : Tcb} {p : Phase}
      → p ≢ alive
      → Step
          (record { block = some t; phase = p; client = joining })
          (record { block = (end_join t).1; phase = p; client = done })
  detaches :
      {t : Tcb} {p : Phase}
      → Step
          (record { block = some t; phase = p; client = undecided })
          (record { block = uthread_detach t; phase = p; client = done })

pub data Reaches (start : World) : World → Type 0 where
  here : Reaches start start
  and_then : {w w' : World} → Reaches start w → Step w w' → Reaches start w'

abbrev StateFits : Phase → State → Type 0
StateFits alive s = (is_dying s || is_dead s) ≡ false
StateFits finished s = s ≡ dying
StateFits reaped s = s ≡ dead

abbrev JoinerFits : Client → Joiner → Type 0
JoinerFits undecided j = j ≡ nobody
JoinerFits joining j = (is_nobody j || is_detached j) ≡ false
JoinerFits done j = j ≡ detached

-- The block has been freed when both are through, and not before.
data Fits : World → Type 0 where
  in_use :
      {t : Tcb} {p : Phase} {c : Client}
      → StateFits p t.state
      → JoinerFits c t.joiner
      → (p ≡ reaped → c ≢ done)
      → Fits (record { block = some t; phase = p; client = c })
  freed : Fits (record { block = none; phase = reaped; client = done })

reap-Fits :
    (t : Tcb) (c : Client)
    → JoinerFits c t.joiner
    → Fits (record { block = reap t; phase = reaped; client = c })
unfolding reap
reap-Fits t undecided j = rw (reap, j) (in_use refl refl λ _ e. cc)
reap-Fits t joining j =
    let kept : is_detached t.joiner ≡ false = ground (arith, j) in
    rw (reap, kept) (in_use refl j λ _ e. cc)
reap-Fits t done j = rw (reap, j) freed

end_join-Fits :
    (t : Tcb) (p : Phase)
    → p ≢ alive
    → StateFits p t.state
    → Fits (record { block = (end_join t).1; phase = p; client = done })
unfolding end_join
end_join-Fits t alive away s = absurd (away refl)
end_join-Fits t finished away s = rw (end_join, s) (in_use refl refl λ e _. cc)
end_join-Fits t reaped away s = rw (end_join, s) freed

detach-Fits :
    (t : Tcb) (p : Phase)
    → t.joiner ≡ nobody
    → StateFits p t.state
    → Fits (record { block = uthread_detach t; phase = p; client = done })
unfolding uthread_detach
detach-Fits t alive j s =
    let going_on : is_dead t.state ≡ false = ground (arith, s) in
    rw (uthread_detach, j, going_on) (in_use s refl λ e _. cc)
detach-Fits t finished j s = rw (uthread_detach, j, s) (in_use refl refl λ e _. cc)
detach-Fits t reaped j s = rw (uthread_detach, j, s) freed

-- A join goes on at once only if the thread has ended, and blocks otherwise.
join_goes_on-over :
    (self : ℕ) (t : Tcb) {t' : Tcb}
    → uthread_join self t ≡ goes_on t'
    → (t ≡ t') × ((is_dying t.state || is_dead t.state) ≡ true)
unfolding uthread_join
join_goes_on-over self t e = elim (Bool-cases (is_nobody t.joiner)) [
  | inl n ↦ elim (Bool-cases (is_dying t.state || is_dead t.state)) [
    | inl over ↦ (cc (rw (uthread_join, n, over) at e), over)
    | inr going_on ↦ absurd (cc (rw (uthread_join, n, going_on) at e))
  ]
  | inr someone ↦ absurd (cc (rw (uthread_join, someone) at e))
]

join_blocks-joined :
    (self : ℕ) (t : Tcb) {t' : Tcb}
    → uthread_join self t ≡ blocks t'
    → (t'.state ≡ t.state) × (t'.joiner ≡ joined_by self)
unfolding uthread_join
join_blocks-joined self t e = elim (Bool-cases (is_nobody t.joiner)) [
  | inl n ↦ elim (Bool-cases (is_dying t.state || is_dead t.state)) [
    | inl over ↦ absurd (cc (rw (uthread_join, n, over) at e))
    | inr going_on ↦
        (cc (rw (uthread_join, n, going_on) at e), cc (rw (uthread_join, n, going_on) at e))
  ]
  | inr someone ↦ absurd (cc (rw (uthread_join, someone) at e))
]

over-ended : (s : State) (p : Phase) → (is_dying s || is_dead s) ≡ true → StateFits p s → p ≢ alive
over-ended s alive over fits e = ground arith
over-ended s finished over fits e = cc
over-ended s reaped over fits e = cc

Step-Fits : {w w' : World} → Step w w' → Fits w → Fits w'
unfolding finish
Step-Fits (reschedules s e) (in_use sf jf n) = in_use e jf n
Step-Fits (finishes v) (in_use sf jf n) = in_use refl jf λ e _. cc
Step-Fits (reaps {t} {c}) (in_use sf jf n) = reap-Fits t c jf
Step-Fits (join_blocks {t} {t'} {p} self e) (in_use sf jf n) =
    let (state, joiner) = join_blocks-joined self t e in
    in_use (subst (StateFits p) (sym state) sf) (rw joiner) λ _ e. cc
Step-Fits (join_goes_on {t} {p} self e) (in_use sf jf n) =
    let (same, over) = join_goes_on-over self t e in
    subst (λ t. Fits (record { block = (end_join t).1; phase = p; client = done })) same
      (end_join-Fits t p (over-ended t.state p over sf) sf)
Step-Fits (join_resumes {t} {p} away) (in_use sf jf n) = end_join-Fits t p away sf
Step-Fits (detaches {t} {p}) (in_use sf jf n) = detach-Fits t p jf sf

-- A new thread that nobody has joined or detached.
unfoldable pub start : World
start = record {
  block = some (record { state = nascent; joiner = nobody; return_val = 0 });
  phase = alive;
  client = undecided;
}

Reaches-Fits : {w : World} → Reaches start w → Fits w
unfolding start
Reaches-Fits here = in_use refl refl λ e _. cc
Reaches-Fits (and_then r s) = Step-Fits s (Reaches-Fits r)

Fits-freed : {w : World} → Fits w → (w.block ≡ none) ↔ ((w.phase ≡ reaped) × (w.client ≡ done))
Fits-freed (in_use {t} {p} {c} sf jf n) = ((λ e. cc), λ both. absurd (n (both.0) (both.1)))
Fits-freed freed = ((λ _. (refl, refl)), λ _. refl)

-- With one join or one detach, in whatever order it comes with the end of the thread, the control
-- block has been freed exactly when the thread has been switched off for the last time and the join
-- or detach is over: never while either still uses it, and always in the end.
pub freed-at_end :
    {w : World} → Reaches start w → (w.block ≡ none) ↔ ((w.phase ≡ reaped) × (w.client ≡ done))
freed-at_end r = Fits-freed (Reaches-Fits r)
