-- ===== src/Smokers/Smoking.antt =====
-- Every step of a smoker of a11/soln/smoke_sem.c keeps the balance.
use cs213_assignments.Common.{
  ℕ, ◌+◌, ◌≤◌, ◌<◌, sym, ◌≡◌, refl, subst, if◌then◌else◌, Bool, true, false, arith,
}
use cs213_assignments.Smokers.{
  Resource, match_box, paper, tobacco, Trio, Table, State, AgentPoint, at_loop, first_signal,
  second_signal, at_smoke, ended, PusherPoint, SmokerPoint, at_match, at_lock, counting, unlocking,
  handing_on, steps, waits, smoker,
}
use cs213_assignments.Smokers.Balance.{IsBalanced, given, is_other, in_progress}

pub steps-injective : {s s' : State} → steps s ≡ steps s' → s ≡ s'
steps-injective e = cc

pub if_steps :
    (c : Bool) (s s' : State) → (if c then waits else steps s) ≡ steps s' → (c ≡ false) × (s ≡ s')
if_steps true s s' e = cc
if_steps false s s' e = (refl, steps-injective e)

-- The agent has supplied all that the smoker of the round needs only when it waits.
needs :
    (x : Resource) (a : AgentPoint)
    → ((y : Resource) → is_other y x ≡ 1 → 1 ≤ given y a)
    → (i : ℕ) × (a ≡ at_smoke i x)
needs match_box (at_loop i) h = absurd (omega (arith, h paper refl))
needs match_box (first_signal i r) h = absurd (omega (arith, h paper refl))
needs match_box ended h = absurd (omega (arith, h paper refl))
needs match_box (second_signal i match_box) h = absurd (omega (arith, h tobacco refl))
needs match_box (second_signal i paper) h = absurd (omega (arith, h paper refl))
needs match_box (second_signal i tobacco) h = absurd (omega (arith, h paper refl))
needs match_box (at_smoke i match_box) h = (i, refl)
needs match_box (at_smoke i paper) h = absurd (omega (arith, h paper refl))
needs match_box (at_smoke i tobacco) h = absurd (omega (arith, h tobacco refl))
needs paper (at_loop i) h = absurd (omega (arith, h match_box refl))
needs paper (first_signal i r) h = absurd (omega (arith, h match_box refl))
needs paper ended h = absurd (omega (arith, h match_box refl))
needs paper (second_signal i match_box) h = absurd (omega (arith, h match_box refl))
needs paper (second_signal i paper) h = absurd (omega (arith, h tobacco refl))
needs paper (second_signal i tobacco) h = absurd (omega (arith, h tobacco refl))
needs paper (at_smoke i match_box) h = absurd (omega (arith, h match_box refl))
needs paper (at_smoke i paper) h = (i, refl)
needs paper (at_smoke i tobacco) h = absurd (omega (arith, h tobacco refl))
needs tobacco (at_loop i) h = absurd (omega (arith, h match_box refl))
needs tobacco (first_signal i r) h = absurd (omega (arith, h match_box refl))
needs tobacco ended h = absurd (omega (arith, h match_box refl))
needs tobacco (second_signal i match_box) h = absurd (omega (arith, h match_box refl))
needs tobacco (second_signal i paper) h = absurd (omega (arith, h paper refl))
needs tobacco (second_signal i tobacco) h = absurd (omega (arith, h paper refl))
needs tobacco (at_smoke i match_box) h = absurd (omega (arith, h match_box refl))
needs tobacco (at_smoke i paper) h = absurd (omega (arith, h paper refl))
needs tobacco (at_smoke i tobacco) h = (i, refl)

busy_supplied :
    (x y : Resource) (s : State)
    → IsBalanced s
    → 0 < in_progress x s
    → is_other y x ≡ 1
    → 1 ≤ given y s.agent_point
busy_supplied match_box match_box s b h other = absurd (omega arith)
busy_supplied match_box paper s b h other = omega (arith, b.paper_conserved)
busy_supplied match_box tobacco s b h other = omega (arith, b.tobacco_conserved)
busy_supplied paper match_box s b h other = omega (arith, b.match_conserved)
busy_supplied paper paper s b h other = absurd (omega arith)
busy_supplied paper tobacco s b h other = omega (arith, b.tobacco_conserved)
busy_supplied tobacco match_box s b h other = omega (arith, b.match_conserved)
busy_supplied tobacco paper s b h other = omega (arith, b.paper_conserved)
busy_supplied tobacco tobacco s b h other = absurd (omega arith)

-- A smoker that is busy is the one of the round, and the agent waits for it.
pub busy_round :
    (x : Resource) (s : State)
    → IsBalanced s
    → 0 < in_progress x s
    → (i : ℕ) × (s.agent_point ≡ at_smoke i x)
busy_round x s b h = needs x s.agent_point (λ y. busy_supplied x y s b h)

-- The state in its parts.
abbrev pub state_of : Table → AgentPoint → Trio PusherPoint → Trio SmokerPoint → State
state_of t a p k = record { table = t; agent_point = a; pushers = p; smokers = k }

match_tells :
    (t : Table) (i : ℕ) (p : Trio PusherPoint) (x y z : SmokerPoint)
    → IsBalanced (
        state_of t
          (at_smoke i match_box)
          p
          (record { of_match = handing_on; of_paper = y; of_tobacco = z }))
    → IsBalanced (
        state_of
          (record t { smoke = t.smoke + 1 })
          (at_smoke i match_box)
          p
          (record { of_match = at_match; of_paper = y; of_tobacco = z }))
match_tells t i p x y z b = ground arith

pub match_smoker-IsBalanced :
    (t : Table) (a : AgentPoint) (p : Trio PusherPoint) (x y z : SmokerPoint) (s' : State)
    → let s = state_of t a p (record { of_match = x; of_paper = y; of_tobacco = z }) in
      IsBalanced s → smoker match_box x s ≡ steps s' → IsBalanced s'
unfolding smoker
match_smoker-IsBalanced t a p at_match y z s' b e =
    let (some_there, same) = if_steps _ _ s' e in subst IsBalanced same (ground arith)
match_smoker-IsBalanced t a p at_lock y z s' b e =
    let (some_there, same) = if_steps _ _ s' e in subst IsBalanced same (ground arith)
match_smoker-IsBalanced t a p counting y z s' b e =
    subst IsBalanced (steps-injective e) (ground arith)
match_smoker-IsBalanced t a p unlocking y z s' b e =
    subst IsBalanced (steps-injective e) (ground arith)
match_smoker-IsBalanced t a p handing_on y z s' b e =
    let (i, at) = busy_round match_box _ b (omega arith) in
    subst IsBalanced (steps-injective e) (
      subst
        (λ a. IsBalanced (
          state_of (record t { smoke = t.smoke + 1 }) a p
            (record { of_match = at_match; of_paper = y; of_tobacco = z })))
        (sym at)
        (match_tells t i p handing_on y z (
          subst
            (λ a.
              IsBalanced
                (state_of t a p (record { of_match = handing_on; of_paper = y; of_tobacco = z })))
            at b)))

paper_tells :
    (t : Table) (i : ℕ) (p : Trio PusherPoint) (x y z : SmokerPoint)
    → IsBalanced (
        state_of t
          (at_smoke i paper)
          p
          (record { of_match = x; of_paper = handing_on; of_tobacco = z }))
    → IsBalanced (
        state_of
          (record t { smoke = t.smoke + 1 })
          (at_smoke i paper)
          p
          (record { of_match = x; of_paper = at_match; of_tobacco = z }))
paper_tells t i p x y z b = ground arith

pub paper_smoker-IsBalanced :
    (t : Table) (a : AgentPoint) (p : Trio PusherPoint) (x y z : SmokerPoint) (s' : State)
    → let s = state_of t a p (record { of_match = x; of_paper = y; of_tobacco = z }) in
      IsBalanced s → smoker paper y s ≡ steps s' → IsBalanced s'
unfolding smoker
paper_smoker-IsBalanced t a p x at_match z s' b e =
    let (some_there, same) = if_steps _ _ s' e in subst IsBalanced same (ground arith)
paper_smoker-IsBalanced t a p x at_lock z s' b e =
    let (some_there, same) = if_steps _ _ s' e in subst IsBalanced same (ground arith)
paper_smoker-IsBalanced t a p x counting z s' b e =
    subst IsBalanced (steps-injective e) (ground arith)
paper_smoker-IsBalanced t a p x unlocking z s' b e =
    subst IsBalanced (steps-injective e) (ground arith)
paper_smoker-IsBalanced t a p x handing_on z s' b e =
    let (i, at) = busy_round paper _ b (omega arith) in
    subst IsBalanced (steps-injective e) (
      subst
        (λ a. IsBalanced (
          state_of (record t { smoke = t.smoke + 1 }) a p
            (record { of_match = x; of_paper = at_match; of_tobacco = z })))
        (sym at)
        (paper_tells t i p x handing_on z (
          subst
            (λ a.
              IsBalanced
                (state_of t a p (record { of_match = x; of_paper = handing_on; of_tobacco = z })))
            at b)))

tobacco_tells :
    (t : Table) (i : ℕ) (p : Trio PusherPoint) (x y z : SmokerPoint)
    → IsBalanced (
        state_of t
          (at_smoke i tobacco)
          p
          (record { of_match = x; of_paper = y; of_tobacco = handing_on }))
    → IsBalanced (
        state_of
          (record t { smoke = t.smoke + 1 })
          (at_smoke i tobacco)
          p
          (record { of_match = x; of_paper = y; of_tobacco = at_match }))
tobacco_tells t i p x y z b = ground arith

pub tobacco_smoker-IsBalanced :
    (t : Table) (a : AgentPoint) (p : Trio PusherPoint) (x y z : SmokerPoint) (s' : State)
    → let s = state_of t a p (record { of_match = x; of_paper = y; of_tobacco = z }) in
      IsBalanced s → smoker tobacco z s ≡ steps s' → IsBalanced s'
unfolding smoker
tobacco_smoker-IsBalanced t a p x y at_match s' b e =
    let (some_there, same) = if_steps _ _ s' e in subst IsBalanced same (ground arith)
tobacco_smoker-IsBalanced t a p x y at_lock s' b e =
    let (some_there, same) = if_steps _ _ s' e in subst IsBalanced same (ground arith)
tobacco_smoker-IsBalanced t a p x y counting s' b e =
    subst IsBalanced (steps-injective e) (ground arith)
tobacco_smoker-IsBalanced t a p x y unlocking s' b e =
    subst IsBalanced (steps-injective e) (ground arith)
tobacco_smoker-IsBalanced t a p x y handing_on s' b e =
    let (i, at) = busy_round tobacco _ b (omega arith) in
    subst IsBalanced (steps-injective e) (
      subst
        (λ a. IsBalanced (
          state_of (record t { smoke = t.smoke + 1 }) a p
            (record { of_match = x; of_paper = y; of_tobacco = at_match })))
        (sym at)
        (tobacco_tells t i p x y handing_on (
          subst
            (λ a.
              IsBalanced
                (state_of t a p (record { of_match = x; of_paper = y; of_tobacco = handing_on })))
            at b)))
