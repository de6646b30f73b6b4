-- ===== src/Smokers/Supplying.antt =====
-- Every step of the agent of a11/soln/smoke_sem.c keeps the balance.
use cs213_assignments.Common.{
  ℕ, ◌+◌, ◌-◌, ltb, ltb→lt, ◌%◌, ◌⊎◌, inl, inr, ◌<◌, ◌≡◌, ◌==◌, refl, subst, if◌then◌else◌, Bool,
  true, false, arith,
}
use cs213_assignments.Smokers.{
  Resource, match_box, paper, tobacco, Trio, Table, State, AgentPoint, at_loop, first_signal,
  second_signal, at_smoke, ended, PusherPoint, SmokerPoint, first_of, second_of, signal_at,
  num_iterations, matching_smoker, steps, agent,
}
use cs213_assignments.Smokers.Balance.{IsBalanced}
use cs213_assignments.Smokers.Smoking.{steps-injective, if_steps, state_of}

begins :
    (t : Table) (i : ℕ) (r : Resource) (p : Trio PusherPoint) (k : Trio SmokerPoint)
    → IsBalanced (state_of t (at_loop i) p k)
    → i < num_iterations
    → IsBalanced
        (state_of (record t { signal_count = signal_at r t.signal_count }) (first_signal i r) p k)
begins t i match_box p k b more = ground arith
begins t i paper p k b more = ground arith
begins t i tobacco p k b more = ground arith

supplies_first :
    (t : Table) (i : ℕ) (r : Resource) (p : Trio PusherPoint) (k : Trio SmokerPoint)
    → IsBalanced (state_of t (first_signal i r) p k)
    → IsBalanced
        (state_of (record t { supply = signal_at (first_of r) t.supply }) (second_signal i r) p k)
supplies_first t i match_box p k b = ground arith
supplies_first t i paper p k b = ground arith
supplies_first t i tobacco p k b = ground arith

supplies_second :
    (t : Table) (i : ℕ) (r : Resource) (p : Trio PusherPoint) (k : Trio SmokerPoint)
    → IsBalanced (state_of t (second_signal i r) p k)
    → IsBalanced
        (state_of (record t { supply = signal_at (second_of r) t.supply }) (at_smoke i r) p k)
supplies_second t i match_box p k b = ground arith
supplies_second t i paper p k b = ground arith
supplies_second t i tobacco p k b = ground arith

told :
    (t : Table) (i : ℕ) (r : Resource) (p : Trio PusherPoint) (k : Trio SmokerPoint)
    → IsBalanced (state_of t (at_smoke i r) p k)
    → (t.smoke == 0) ≡ false
    → IsBalanced (state_of (record t { smoke = t.smoke - 1 }) (at_loop (i + 1)) p k)
told t i match_box p k b some_told = ground arith
told t i paper p k b some_told = ground arith
told t i tobacco p k b some_told = ground arith

ends :
    (t : Table) (i : ℕ) (p : Trio PusherPoint) (k : Trio SmokerPoint)
    → IsBalanced (state_of t (at_loop i) p k)
    → ltb i num_iterations ≡ false
    → IsBalanced (state_of (record t { done = t.done + 1 }) ended p k)
ends t i p k b all = ground arith

if_either :
    (c : Bool) (s1 s2 s' : State)
    → (if c then steps s1 else steps s2) ≡ steps s'
    → ((c ≡ true) × (s1 ≡ s')) ⊎ ((c ≡ false) × (s2 ≡ s'))
if_either true s1 s2 s' e = inl (refl, steps-injective e)
if_either false s1 s2 s' e = inr (refl, steps-injective e)

pub agent-IsBalanced :
    (random : ℕ) (t : Table) (a : AgentPoint) (p : Trio PusherPoint) (k : Trio SmokerPoint)
    (s' : State)
    → IsBalanced (state_of t a p k)
    → agent random a (state_of t a p k) ≡ steps s'
    → IsBalanced s'
unfolding agent
agent-IsBalanced random t (at_loop i) p k s' b e = elim (if_either _ _ _ s' e) [
  | inl (more, same) ↦
      subst IsBalanced same
        (begins t i (matching_smoker (random % 3)) p k b (ltb→lt i num_iterations more))
  | inr (all, same) ↦ subst IsBalanced same (ends t i p k b all)
]
agent-IsBalanced random t (first_signal i r) p k s' b e =
    subst IsBalanced (steps-injective e) (supplies_first t i r p k b)
agent-IsBalanced random t (second_signal i r) p k s' b e =
    subst IsBalanced (steps-injective e) (supplies_second t i r p k b)
agent-IsBalanced random t (at_smoke i r) p k s' b e =
    let (some_told, same) = if_steps _ _ s' e in subst IsBalanced same (told t i r p k b some_told)
agent-IsBalanced random t ended p k s' b e = cc
