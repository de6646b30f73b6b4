-- ===== src/Smokers.antt =====
-- The smokers of a11/soln/smoke_sem.c: in each round the agent supplies two of three resources, the
-- pushers find out which, and the smoker who has the third one smokes. A thread is known by the call at which it
-- stands, and a semaphore by its value; the mutex protects what a thread does while it holds it, which is one step.
pub mod Runs
pub mod Balance
pub mod Smoking
pub mod Pushing
pub mod Supplying
pub mod Outcome
pub mod Tests
use cs213_assignments.Common.{
  ℕ, zero, suc, ◌+◌, ◌-◌, ◌%◌, Bool, true, false, ◌&&◌, ◌==◌, ltb, if◌then◌else◌,
}

abbrev pub num_iterations : ℕ
num_iterations = 1000

pub data Resource : Type 0 where
  match_box : Resource
  paper : Resource
  tobacco : Resource

-- One of a kind for each resource.
pub record Trio (A : Type 0) : Type 0 where
  pub of_match : A
  pub of_paper : A
  pub of_tobacco : A

module _ {A : Type 0} where
  abbrev pub get : Resource → Trio A → A
  get match_box t = t.of_match
  get paper t = t.of_paper
  get tobacco t = t.of_tobacco

  abbrev pub put : Resource → A → Trio A → Trio A
  put match_box a t = record t { of_match = a }
  put paper a t = record t { of_paper = a }
  put tobacco a t = record t { of_tobacco = a }

  abbrev pub all_three : A → Trio A
  all_three a = record { of_match = a; of_paper = a; of_tobacco = a }

-- `struct Agent`, `struct Pusher` and the counts. A smoker's semaphore stands at the resource that the
-- smoker has: that of `matchPaper` at tobacco, and so on.
pub record Table : Type 0 where
  pub supply : Trio ℕ
  pub smoke : ℕ
  pub done : ℕ
  pub mutex : ℕ
  pub matched : Trio ℕ
  pub available : Trio Bool
  pub signal_count : Trio ℕ
  pub smoke_count : Trio ℕ

-- `createAgent` and `createPusher`.
abbrev pub create_table : Table
create_table = record {
  supply = all_three 0;
  smoke = 0;
  done = 0;
  mutex = 1;
  matched = all_three 0;
  available = all_three false;
  signal_count = all_three 0;
  smoke_count = all_three 0;
}

-- Where the agent stands: at the test of the loop, before the first or the second signal, before the
-- wait, or at the end. The resource is that of the matching smoker.
pub data AgentPoint : Type 0 where
  at_loop : (i : ℕ) → AgentPoint
  first_signal : (i : ℕ) → Resource → AgentPoint
  second_signal : (i : ℕ) → Resource → AgentPoint
  at_smoke : (i : ℕ) → Resource → AgentPoint
  ended : AgentPoint

pub data PusherPoint : Type 0 where
  at_supply : PusherPoint
  at_mutex : PusherPoint
  inside : PusherPoint
  leaving : PusherPoint

pub data SmokerPoint : Type 0 where
  at_match : SmokerPoint
  at_lock : SmokerPoint
  counting : SmokerPoint
  unlocking : SmokerPoint
  handing_on : SmokerPoint

pub record State : Type 0 where
  pub table : Table
  pub agent_point : AgentPoint
  pub pushers : Trio PusherPoint
  pub smokers : Trio SmokerPoint

-- What a thread does next.
pub data Next : Type 0 where
  steps : State → Next
  waits : Next
  over : Next

abbrev pub matching_smoker : ℕ → Resource
matching_smoker zero = tobacco
matching_smoker (suc zero) = paper
matching_smoker (suc (suc n)) = match_box

-- The resources of `choices`, in the order in which they are signalled.
abbrev pub first_of : Resource → Resource
first_of match_box = paper
first_of paper = match_box
first_of tobacco = match_box

abbrev pub second_of : Resource → Resource
second_of match_box = tobacco
second_of paper = tobacco
second_of tobacco = paper

abbrev pub signal_at : Resource → Trio ℕ → Trio ℕ
signal_at r t = put r (get r t + 1) t

-- `random` is what random () gives.
unfoldable pub agent : (random : ℕ) → AgentPoint → State → Next
agent random (at_loop i) s =
    if ltb i num_iterations
    then steps (record s {
      table = record s.table {
        signal_count = signal_at (matching_smoker (random % 3)) s.table.signal_count;
      };
      agent_point = first_signal i (matching_smoker (random % 3));
    })
    else steps
        (record s { table = record s.table { done = s.table.done + 1 }; agent_point = ended })
agent random (first_signal i r) s = steps (record s {
  table = record s.table { supply = signal_at (first_of r) s.table.supply };
  agent_point = second_signal i r;
})
agent random (second_signal i r) s = steps (record s {
  table = record s.table { supply = signal_at (second_of r) s.table.supply };
  agent_point = at_smoke i r;
})
agent random (at_smoke i r) s =
    if s.table.smoke == 0
    then waits
    else steps (record s {
      table = record s.table { smoke = s.table.smoke - 1 };
      agent_point = at_loop (i + 1);
    })
agent random ended s = over

-- `*isAvailable = 1`, and the smoker with the third resource is signalled if two are there.
unfoldable pub push : Resource → Table → Table
push r t =
    let a = put r true t.available in
    if a.of_match && a.of_paper
    then record t {
      available = record a { of_match = false; of_paper = false };
      matched = signal_at tobacco t.matched;
    }
    else if a.of_match && a.of_tobacco
    then record t {
      available = record a { of_match = false; of_tobacco = false };
      matched = signal_at paper t.matched;
    }
    else if a.of_paper && a.of_tobacco
    then record t {
      available = record a { of_paper = false; of_tobacco = false };
      matched = signal_at match_box t.matched;
    }
    else record t { available = a }

unfoldable pub pusher : Resource → PusherPoint → State → Next
unfolding push
pusher r at_supply s =
    if get r s.table.supply == 0
    then waits
    else steps (record s {
      table = record s.table { supply = put r (get r s.table.supply - 1) s.table.supply };
      pushers = put r at_mutex s.pushers;
    })
pusher r at_mutex s =
    if s.table.mutex == 0
    then waits
    else steps (record s {
      table = record s.table { mutex = s.table.mutex - 1 };
      pushers = put r inside s.pushers;
    })
pusher r inside s = steps (record s { table = push r s.table; pushers = put r leaving s.pushers })
pusher r leaving s = steps (record s {
  table = record s.table { mutex = s.table.mutex + 1 };
  pushers = put r at_supply s.pushers;
})

unfoldable pub smoker : Resource → SmokerPoint → State → Next
smoker r at_match s =
    if get r s.table.matched == 0
    then waits
    else steps (record s {
      table = record s.table { matched = put r (get r s.table.matched - 1) s.table.matched };
      smokers = put r at_lock s.smokers;
    })
smoker r at_lock s =
    if s.table.mutex == 0
    then waits
    else steps (record s {
      table = record s.table { mutex = s.table.mutex - 1 };
      smokers = put r counting s.smokers;
    })
smoker r counting s = steps (record s {
  table = record s.table { smoke_count = signal_at r s.table.smoke_count };
  smokers = put r unlocking s.smokers;
})
smoker r unlocking s = steps (record s {
  table = record s.table { mutex = s.table.mutex + 1 };
  smokers = put r handing_on s.smokers;
})
smoker r handing_on s = steps (record s {
  table = record s.table { smoke = s.table.smoke + 1 };
  smokers = put r at_match s.smokers;
})

-- The threads that `main` creates.
pub data Actor : Type 0 where
  the_agent : Actor
  the_pusher : Resource → Actor
  the_smoker : Resource → Actor

unfoldable pub next : (random : ℕ) → Actor → State → Next
unfolding agent pusher smoker
next random the_agent s = agent random s.agent_point s
next random (the_pusher r) s = pusher r (get r s.pushers) s
next random (the_smoker r) s = smoker r (get r s.smokers) s

unfoldable pub started : State
started = record {
  table = create_table;
  agent_point = at_loop 0;
  pushers = all_three at_supply;
  smokers = all_three at_match;
}
