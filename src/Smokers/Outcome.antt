-- ===== src/Smokers/Outcome.antt =====
-- What every run of a11/soln/smoke_sem.c comes to: it does not deadlock, and at its end the smokers
-- have smoked as often as they were signalled.
use cs213_assignments.Common.{
  ℕ, ◌+◌, ◌<◌, ◌≤◌, ◌≡◌, ◌⊎◌, ◌∙◌, refl, inl, inr, Bool, true, false, ◌==◌, Bool-cases, ==_iff, ltb,
  subst, arith, if◌then◌else◌,
}
use cs213_assignments.Smokers.{
  Resource, match_box, paper, tobacco, Trio, get, Table, State, AgentPoint, at_loop, first_signal,
  second_signal, at_smoke, ended, PusherPoint, at_supply, at_mutex, inside, leaving, SmokerPoint,
  at_match, at_lock, counting, unlocking, handing_on, Actor, the_agent, the_pusher, the_smoker,
  Next, steps, waits, next, agent, pusher, smoker, num_iterations,
}
use cs213_assignments.Smokers.Runs.{Reaches, start, then_step}
use cs213_assignments.Smokers.Balance.{
  IsBalanced, started-IsBalanced, has_counted, carries, is_busy, pusher_holds, smoker_holds,
  in_progress,
}
use cs213_assignments.Smokers.Smoking.{
  state_of, match_smoker-IsBalanced, paper_smoker-IsBalanced, tobacco_smoker-IsBalanced,
}
use cs213_assignments.Smokers.Pushing.{
  match_pusher-IsBalanced, paper_pusher-IsBalanced, tobacco_pusher-IsBalanced,
}
use cs213_assignments.Smokers.Supplying.{agent-IsBalanced}

next-IsBalanced :
    (random : ℕ) (who : Actor) (s s' : State)
    → IsBalanced s
    → next random who s ≡ steps s'
    → IsBalanced s'
unfolding next
next-IsBalanced random the_agent s s' b e =
    agent-IsBalanced random s.table s.agent_point s.pushers s.smokers s' b e
next-IsBalanced random (the_pusher match_box) s s' b e =
    let p = s.pushers in
    match_pusher-IsBalanced s.table s.agent_point p.of_match p.of_paper p.of_tobacco s.smokers s' b
      e
next-IsBalanced random (the_pusher paper) s s' b e =
    let p = s.pushers in
    paper_pusher-IsBalanced s.table s.agent_point p.of_match p.of_paper p.of_tobacco s.smokers s' b
      e
next-IsBalanced random (the_pusher tobacco) s s' b e =
    let p = s.pushers in
    tobacco_pusher-IsBalanced s.table s.agent_point p.of_match p.of_paper p.of_tobacco s.smokers s'
      b e
next-IsBalanced random (the_smoker match_box) s s' b e =
    let k = s.smokers in
    match_smoker-IsBalanced s.table s.agent_point s.pushers k.of_match k.of_paper k.of_tobacco s' b
      e
next-IsBalanced random (the_smoker paper) s s' b e =
    let k = s.smokers in
    paper_smoker-IsBalanced s.table s.agent_point s.pushers k.of_match k.of_paper k.of_tobacco s' b
      e
next-IsBalanced random (the_smoker tobacco) s s' b e =
    let k = s.smokers in
    tobacco_smoker-IsBalanced s.table s.agent_point s.pushers k.of_match k.of_paper k.of_tobacco s'
      b e

pub reaches-IsBalanced : {s : State} → Reaches s → IsBalanced s
reaches-IsBalanced start = started-IsBalanced
reaches-IsBalanced (then_step {s} {s'} random who r e) =
    next-IsBalanced random who s s' (reaches-IsBalanced r) e

has_counted-le-is_busy : (k : SmokerPoint) → has_counted k ≤ is_busy k
has_counted-le-is_busy at_match = omega arith
has_counted-le-is_busy at_lock = omega arith
has_counted-le-is_busy counting = omega arith
has_counted-le-is_busy unlocking = omega arith
has_counted-le-is_busy handing_on = omega arith

all_at_end :
    (t : Table) (a : AgentPoint) (p : Trio PusherPoint) (k : Trio SmokerPoint)
    → IsBalanced (state_of t a p k)
    → 0 < t.done
    → (t.smoke_count ≡ t.signal_count)
      × (t.smoke_count.of_match + t.smoke_count.of_paper + t.smoke_count.of_tobacco
          ≡ num_iterations)
all_at_end t (at_loop i) p k b done = absurd (omega arith)
all_at_end t (first_signal i x) p k b done = absurd (omega arith)
all_at_end t (second_signal i x) p k b done = absurd (omega arith)
all_at_end t (at_smoke i x) p k b done = absurd (omega arith)
all_at_end t ended p k b done =
    let match_busy = has_counted-le-is_busy k.of_match in
    let paper_busy = has_counted-le-is_busy k.of_paper in
    let tobacco_busy = has_counted-le-is_busy k.of_tobacco in
    let of_match : t.smoke_count.of_match ≡ t.signal_count.of_match = omega arith in
    let of_paper : t.smoke_count.of_paper ≡ t.signal_count.of_paper = omega arith in
    let of_tobacco : t.smoke_count.of_tobacco ≡ t.signal_count.of_tobacco = omega arith in
    (cc, omega arith)

-- When the agent has signalled done, each smoker has smoked as often as it was to, and all together
-- in every round.
pub all_smoked :
    {s : State}
    → Reaches s
    → 0 < s.table.done
    → (s.table.smoke_count ≡ s.table.signal_count)
      × (s.table.smoke_count.of_match + s.table.smoke_count.of_paper
            + s.table.smoke_count.of_tobacco
          ≡ num_iterations)
all_smoked {s} r done =
    all_at_end s.table s.agent_point s.pushers s.smokers (reaches-IsBalanced r) done

abbrev pub CanStep : State → Type 0
CanStep s = (who : Actor) × ((random : ℕ) → (s' : State) × (next random who s ≡ steps s'))

IsAtRest : Resource → State → Type 0
IsAtRest r s =
    (pusher_holds (get r s.pushers) ≡ 0)
    × (smoker_holds (get r s.smokers) ≡ 0)
    × ((s.table.mutex ≡ 0) ⊎ (get r s.table.supply + carries (get r s.pushers) ≡ 0))
    × ((s.table.mutex ≡ 0) ⊎ (in_progress r s ≡ 0))

if_some :
    (n : ℕ) (o : Next) (s' : State)
    → o ≡ (if n == 0 then waits else steps s')
    → ((s' : State) × (o ≡ steps s')) ⊎ (n ≡ 0)
if_some n o s' e = elim (Bool-cases (n == 0)) [
  | inl none_left ↦ inr ((==_iff n 0).0 none_left)
  | inr some_left ↦ inl (s', e ∙ rw some_left refl)
]

pusher_rest :
    (r : Resource) (p : PusherPoint) (s : State)
    → ((s' : State) × (pusher r p s ≡ steps s'))
      ⊎ ((pusher_holds p ≡ 0) × ((s.table.mutex ≡ 0) ⊎ (get r s.table.supply + carries p ≡ 0)))
unfolding pusher
pusher_rest r at_supply s = elim (if_some (get r s.table.supply) (pusher r at_supply s) _ refl) [
  | inl moves ↦ inl moves
  | inr zero_left ↦ inr (refl, inr (omega (arith, zero_left)))
]
pusher_rest r at_mutex s = elim (if_some s.table.mutex (pusher r at_mutex s) _ refl) [
  | inl moves ↦ inl moves
  | inr zero_left ↦ inr (refl, inl zero_left)
]
pusher_rest r inside s = inl (_, refl)
pusher_rest r leaving s = inl (_, refl)

smoker_rest :
    (r : Resource) (k : SmokerPoint) (s : State)
    → ((s' : State) × (smoker r k s ≡ steps s'))
      ⊎ ((smoker_holds k ≡ 0) × ((s.table.mutex ≡ 0) ⊎ (get r s.table.matched + is_busy k ≡ 0)))
unfolding smoker
smoker_rest r at_match s = elim (if_some (get r s.table.matched) (smoker r at_match s) _ refl) [
  | inl moves ↦ inl moves
  | inr zero_left ↦ inr (refl, inr (omega (arith, zero_left)))
]
smoker_rest r at_lock s = elim (if_some s.table.mutex (smoker r at_lock s) _ refl) [
  | inl moves ↦ inl moves
  | inr zero_left ↦ inr (refl, inl zero_left)
]
smoker_rest r counting s = inl (_, refl)
smoker_rest r unlocking s = inl (_, refl)
smoker_rest r handing_on s = inl (_, refl)

step_or_rest : (r : Resource) (s : State) → CanStep s ⊎ IsAtRest r s
unfolding next IsAtRest
step_or_rest r s = elim (pusher_rest r (get r s.pushers) s) [
  | inl (s', e) ↦ inl (the_pusher r, λ random. (s', e))
  | inr (free, p) ↦ elim (smoker_rest r (get r s.smokers) s) [
    | inl (s', e) ↦ inl (the_smoker r, λ random. (s', e))
    | inr (unlocked, k) ↦ inr (free, unlocked, p, k)
  ]
]

nothing_held : (m n : ℕ) → m ≡ 1 → (m ≡ 0) ⊎ (n ≡ 0) → n ≡ 0
nothing_held m n one (inl z) = absurd (omega arith)
nothing_held m n one (inr z) = z

-- The agent has supplied two resources, and one at most can be left.
too_many :
    (t : Table) (i : ℕ) (r : Resource) (p : Trio PusherPoint) (k : Trio SmokerPoint)
    → let s = state_of t (at_smoke i r) p k in
      IsBalanced s
      → t.smoke ≡ 0
      → ((x : Resource) → (get x t.supply + carries (get x p) ≡ 0) × (in_progress x s ≡ 0))
      → ⊥
too_many t i match_box p k b none_told at_rest =
    absurd (omega (arith, at_rest match_box, at_rest paper, at_rest tobacco))
too_many t i paper p k b none_told at_rest =
    absurd (omega (arith, at_rest match_box, at_rest paper, at_rest tobacco))
too_many t i tobacco p k b none_told at_rest =
    absurd (omega (arith, at_rest match_box, at_rest paper, at_rest tobacco))

agent_stuck :
    (t : Table) (i : ℕ) (r : Resource) (p : Trio PusherPoint) (k : Trio SmokerPoint)
    → IsBalanced (state_of t (at_smoke i r) p k)
    → t.smoke ≡ 0
    → ((x : Resource) → IsAtRest x (state_of t (at_smoke i r) p k))
    → ⊥
unfolding IsAtRest
agent_stuck t i r p k b none_told all =
    let one : t.mutex ≡ 1 = omega (arith, b.one_mutex, all match_box, all paper, all tobacco) in
    too_many t i r p k b none_told λ x.
      let (_, _, supply, busy) = all x in
      (nothing_held t.mutex _ one supply, nothing_held t.mutex _ one busy)

if_any : (c : Bool) (s1 s2 : State) → (s' : State) × ((if c then steps s1 else steps s2) ≡ steps s')
if_any true s1 s2 = (s1, refl)
if_any false s1 s2 = (s2, refl)

each_rest :
    (s : State)
    → IsAtRest match_box s
    → IsAtRest paper s
    → IsAtRest tobacco s
    → (x : Resource) → IsAtRest x s
each_rest s m p t match_box = m
each_rest s m p t paper = p
each_rest s m p t tobacco = t

agent-moves :
    (a : AgentPoint) (s : State)
    → ((random : ℕ) → (s' : State) × (agent random a s ≡ steps s'))
      ⊎ ((i : ℕ) × (r : Resource) × (a ≡ at_smoke i r) × (s.table.smoke ≡ 0))
      ⊎ (a ≡ ended)
unfolding agent
agent-moves (at_loop i) s = inl λ random. if_any (ltb i num_iterations) _ _
agent-moves (first_signal i r) s = inl λ random. (_, refl)
agent-moves (second_signal i r) s = inl λ random. (_, refl)
agent-moves (at_smoke i r) s = elim (if_some s.table.smoke (agent 0 (at_smoke i r) s) _ refl) [
  | inl moves ↦ inl λ random. moves
  | inr none_told ↦ inr (inl (i, r, refl, none_told))
]
agent-moves ended s = inr (inr refl)

-- In every state of every run a thread can take a step, whatever `random` gives, or the agent has ended.
pub smokers-CanStep : {s : State} → Reaches s → CanStep s ⊎ (s.agent_point ≡ ended)
unfolding next IsAtRest
smokers-CanStep {s} r = elim (agent-moves s.agent_point s) [
  | inl moves ↦ inl (the_agent, moves)
  | inr (inr at_end) ↦ inr at_end
  | inr (inl (i, x, at, none_told)) ↦ inl (elim (step_or_rest match_box s) [
    | inl moves ↦ moves
    | inr m ↦ elim (step_or_rest paper s) [
      | inl moves ↦ moves
      | inr p ↦ elim (step_or_rest tobacco s) [
        | inl moves ↦ moves
        | inr t ↦ absurd (
            agent_stuck s.table i x s.pushers s.smokers
              (subst (λ a. IsBalanced (state_of s.table a s.pushers s.smokers)) at
                (reaches-IsBalanced r))
              none_told (each_rest s m p t))
      ]
    ]
  ])
]
