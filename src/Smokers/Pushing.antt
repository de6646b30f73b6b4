-- ===== src/Smokers/Pushing.antt =====
-- Every step of a pusher of a11/soln/smoke_sem.c keeps the balance.
use cs213_assignments.Common.{◌≡◌, subst, Bool, true, false, arith}
use cs213_assignments.Smokers.{
  match_box, paper, tobacco, Trio, Table, State, AgentPoint, PusherPoint, at_supply, at_mutex,
  inside, leaving, SmokerPoint, steps, pusher, push,
}
use cs213_assignments.Smokers.Balance.{IsBalanced}
use cs213_assignments.Smokers.Smoking.{steps-injective, if_steps, state_of}

match_pushed :
    (t : Table) (a : AgentPoint) (f g h : Bool) (x y z : PusherPoint) (k : Trio SmokerPoint)
    → let t : Table = record t {
      available = record { of_match = f; of_paper = g; of_tobacco = h };
    } in
      IsBalanced (state_of t a (record { of_match = inside; of_paper = y; of_tobacco = z }) k)
      → IsBalanced (
          state_of
            (push match_box t)
            a
            (record { of_match = leaving; of_paper = y; of_tobacco = z })
            k)
unfolding push
match_pushed t a true true true x y z k b = ground arith
match_pushed t a true true false x y z k b = ground arith
match_pushed t a true false true x y z k b = ground arith
match_pushed t a true false false x y z k b = ground arith
match_pushed t a false true true x y z k b = ground arith
match_pushed t a false true false x y z k b = ground arith
match_pushed t a false false true x y z k b = ground arith
match_pushed t a false false false x y z k b = ground arith

pub match_pusher-IsBalanced :
    (t : Table) (a : AgentPoint) (x y z : PusherPoint) (k : Trio SmokerPoint) (s' : State)
    → let s = state_of t a (record { of_match = x; of_paper = y; of_tobacco = z }) k in
      IsBalanced s → pusher match_box x s ≡ steps s' → IsBalanced s'
unfolding pusher
match_pusher-IsBalanced t a at_supply y z k s' b e =
    let (some_there, same) = if_steps _ _ s' e in subst IsBalanced same (ground arith)
match_pusher-IsBalanced t a at_mutex y z k s' b e =
    let (some_there, same) = if_steps _ _ s' e in subst IsBalanced same (ground arith)
match_pusher-IsBalanced t a inside y z k s' b e =
    let f = t.available in
    subst IsBalanced (steps-injective e)
      (match_pushed t a f.of_match f.of_paper f.of_tobacco inside y z k b)
match_pusher-IsBalanced t a leaving y z k s' b e =
    subst IsBalanced (steps-injective e) (ground arith)

paper_pushed :
    (t : Table) (a : AgentPoint) (f g h : Bool) (x y z : PusherPoint) (k : Trio SmokerPoint)
    → let t : Table = record t {
      available = record { of_match = f; of_paper = g; of_tobacco = h };
    } in
      IsBalanced (state_of t a (record { of_match = x; of_paper = inside; of_tobacco = z }) k)
      → IsBalanced (
          state_of (push paper t) a (record { of_match = x; of_paper = leaving; of_tobacco = z }) k)
unfolding push
paper_pushed t a true true true x y z k b = ground arith
paper_pushed t a true true false x y z k b = ground arith
paper_pushed t a true false true x y z k b = ground arith
paper_pushed t a true false false x y z k b = ground arith
paper_pushed t a false true true x y z k b = ground arith
paper_pushed t a false true false x y z k b = ground arith
paper_pushed t a false false true x y z k b = ground arith
paper_pushed t a false false false x y z k b = ground arith

pub paper_pusher-IsBalanced :
    (t : Table) (a : AgentPoint) (x y z : PusherPoint) (k : Trio SmokerPoint) (s' : State)
    → let s = state_of t a (record { of_match = x; of_paper = y; of_tobacco = z }) k in
      IsBalanced s → pusher paper y s ≡ steps s' → IsBalanced s'
unfolding pusher
paper_pusher-IsBalanced t a x at_supply z k s' b e =
    let (some_there, same) = if_steps _ _ s' e in subst IsBalanced same (ground arith)
paper_pusher-IsBalanced t a x at_mutex z k s' b e =
    let (some_there, same) = if_steps _ _ s' e in subst IsBalanced same (ground arith)
paper_pusher-IsBalanced t a x inside z k s' b e =
    let f = t.available in
    subst IsBalanced (steps-injective e)
      (paper_pushed t a f.of_match f.of_paper f.of_tobacco x inside z k b)
paper_pusher-IsBalanced t a x leaving z k s' b e =
    subst IsBalanced (steps-injective e) (ground arith)

tobacco_pushed :
    (t : Table) (a : AgentPoint) (f g h : Bool) (x y z : PusherPoint) (k : Trio SmokerPoint)
    → let t : Table = record t {
      available = record { of_match = f; of_paper = g; of_tobacco = h };
    } in
      IsBalanced (state_of t a (record { of_match = x; of_paper = y; of_tobacco = inside }) k)
      → IsBalanced (
          state_of
            (push tobacco t)
            a
            (record { of_match = x; of_paper = y; of_tobacco = leaving })
            k)
unfolding push
tobacco_pushed t a true true true x y z k b = ground arith
tobacco_pushed t a true true false x y z k b = ground arith
tobacco_pushed t a true false true x y z k b = ground arith
tobacco_pushed t a true false false x y z k b = ground arith
tobacco_pushed t a false true true x y z k b = ground arith
tobacco_pushed t a false true false x y z k b = ground arith
tobacco_pushed t a false false true x y z k b = ground arith
tobacco_pushed t a false false false x y z k b = ground arith

pub tobacco_pusher-IsBalanced :
    (t : Table) (a : AgentPoint) (x y z : PusherPoint) (k : Trio SmokerPoint) (s' : State)
    → let s = state_of t a (record { of_match = x; of_paper = y; of_tobacco = z }) k in
      IsBalanced s → pusher tobacco z s ≡ steps s' → IsBalanced s'
unfolding pusher
tobacco_pusher-IsBalanced t a x y at_supply k s' b e =
    let (some_there, same) = if_steps _ _ s' e in subst IsBalanced same (ground arith)
tobacco_pusher-IsBalanced t a x y at_mutex k s' b e =
    let (some_there, same) = if_steps _ _ s' e in subst IsBalanced same (ground arith)
tobacco_pusher-IsBalanced t a x y inside k s' b e =
    let f = t.available in
    subst IsBalanced (steps-injective e)
      (tobacco_pushed t a f.of_match f.of_paper f.of_tobacco x y inside k b)
tobacco_pusher-IsBalanced t a x y leaving k s' b e =
    subst IsBalanced (steps-injective e) (ground arith)
