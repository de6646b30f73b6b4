-- ===== src/Smokers/Balance.antt =====
-- What the semaphores, the flags and the points of a11/soln/smoke_sem.c add up to.
use cs213_assignments.Common.{ℕ, ◌+◌, ◌*◌, ◌≤◌, ◌≡◌, refl, Bool, true, false, arith}
use cs213_assignments.Smokers.{
  Resource, match_box, paper, tobacco, get, State, AgentPoint, at_loop, first_signal, second_signal,
  at_smoke, ended, PusherPoint, at_supply, at_mutex, inside, leaving, SmokerPoint, at_match,
  at_lock, counting, unlocking, handing_on, started, first_of, num_iterations,
}

abbrev pub as_number : Bool → ℕ
as_number false = 0
as_number true = 1

-- 1 for the two resources that the round of the smoker `r` needs.
abbrev pub is_other : Resource → Resource → ℕ
is_other match_box match_box = 0
is_other match_box paper = 1
is_other match_box tobacco = 1
is_other paper match_box = 1
is_other paper paper = 0
is_other paper tobacco = 1
is_other tobacco match_box = 1
is_other tobacco paper = 1
is_other tobacco tobacco = 0

abbrev pub is_same : Resource → Resource → ℕ
is_same match_box match_box = 1
is_same match_box paper = 0
is_same match_box tobacco = 0
is_same paper match_box = 0
is_same paper paper = 1
is_same paper tobacco = 0
is_same tobacco match_box = 0
is_same tobacco paper = 0
is_same tobacco tobacco = 1

-- What the agent has supplied of a resource in this round.
abbrev pub given : Resource → AgentPoint → ℕ
given x (at_loop i) = 0
given x (first_signal i r) = 0
given x (second_signal i r) = is_same x (first_of r)
given x (at_smoke i r) = is_other x r
given x ended = 0

-- A pusher that has taken the resource and not yet put it among the available ones.
abbrev pub carries : PusherPoint → ℕ
carries at_supply = 0
carries at_mutex = 1
carries inside = 1
carries leaving = 0

abbrev pub pusher_holds : PusherPoint → ℕ
pusher_holds at_supply = 0
pusher_holds at_mutex = 0
pusher_holds inside = 1
pusher_holds leaving = 1

-- A smoker that has been woken and has not yet told the agent.
abbrev pub is_busy : SmokerPoint → ℕ
is_busy at_match = 0
is_busy at_lock = 1
is_busy counting = 1
is_busy unlocking = 1
is_busy handing_on = 1

abbrev pub smoker_holds : SmokerPoint → ℕ
smoker_holds at_match = 0
smoker_holds at_lock = 0
smoker_holds counting = 1
smoker_holds unlocking = 1
smoker_holds handing_on = 0

-- A smoker that has counted and not yet told the agent.
abbrev pub has_counted : SmokerPoint → ℕ
has_counted at_match = 0
has_counted at_lock = 0
has_counted counting = 0
has_counted unlocking = 1
has_counted handing_on = 1

-- Of `n`, what belongs to the resource in this round, and to the smoker of the round.
abbrev pub of_round : Resource → AgentPoint → ℕ → ℕ
of_round x (at_loop i) n = 0
of_round x (first_signal i r) n = is_other x r * n
of_round x (second_signal i r) n = is_other x r * n
of_round x (at_smoke i r) n = is_other x r * n
of_round x ended n = 0

abbrev pub of_smoker : Resource → AgentPoint → ℕ → ℕ
of_smoker x (at_loop i) n = 0
of_smoker x (first_signal i r) n = is_same x r * n
of_smoker x (second_signal i r) n = is_same x r * n
of_smoker x (at_smoke i r) n = is_same x r * n
of_smoker x ended n = 0

-- 1 outside of a round, and the number of the rounds that have begun.
abbrev pub between : AgentPoint → ℕ
between (at_loop i) = 1
between (first_signal i r) = 0
between (second_signal i r) = 0
between (at_smoke i r) = 0
between ended = 1

abbrev pub begun : AgentPoint → ℕ
begun (at_loop i) = i
begun (first_signal i r) = i + 1
begun (second_signal i r) = i + 1
begun (at_smoke i r) = i + 1
begun ended = num_iterations

abbrev pub finished : AgentPoint → ℕ
finished (at_loop i) = 0
finished (first_signal i r) = 0
finished (second_signal i r) = 0
finished (at_smoke i r) = 0
finished ended = 1

abbrev pub in_progress : Resource → State → ℕ
in_progress x s = get x s.table.matched + is_busy (get x s.smokers)

-- What the agent has supplied of a resource is at its semaphore, with its pusher, available, with a
-- smoker who needs it, or smoked.
abbrev pub Conserves : Resource → State → Type 0
Conserves x s =
    get x s.table.supply
      + carries (get x s.pushers)
      + as_number (get x s.table.available)
      + is_other x match_box * in_progress match_box s
      + is_other x paper * in_progress paper s
      + is_other x tobacco * in_progress tobacco s
      + of_round x s.agent_point s.table.smoke
    ≡ given x s.agent_point

-- A smoker's count is that of the signals, except in a round of that smoker.
abbrev pub Agrees : Resource → State → Type 0
Agrees x s =
    get x s.table.smoke_count + of_smoker x s.agent_point 1
    ≡ get x s.table.signal_count
      + has_counted (get x s.smokers)
      + of_smoker x s.agent_point s.table.smoke

pub record IsBalanced (s : State) : Type 0 where
  pub match_conserved : Conserves match_box s
  pub paper_conserved : Conserves paper s
  pub tobacco_conserved : Conserves tobacco s
  pub one_available :
      as_number s.table.available.of_match
        + as_number s.table.available.of_paper
        + as_number s.table.available.of_tobacco
      ≤ 1
  pub one_mutex :
      s.table.mutex
        + pusher_holds s.pushers.of_match
        + pusher_holds s.pushers.of_paper
        + pusher_holds s.pushers.of_tobacco
        + smoker_holds s.smokers.of_match
        + smoker_holds s.smokers.of_paper
        + smoker_holds s.smokers.of_tobacco
      ≡ 1
  pub told_in_round : between s.agent_point * s.table.smoke ≡ 0
  pub match_agrees : Agrees match_box s
  pub paper_agrees : Agrees paper s
  pub tobacco_agrees : Agrees tobacco s
  pub all_signals :
      s.table.signal_count.of_match + s.table.signal_count.of_paper
        + s.table.signal_count.of_tobacco
      ≡ begun s.agent_point
  pub within : begun s.agent_point ≤ num_iterations
  pub told : s.table.done ≡ finished s.agent_point

pub started-IsBalanced : IsBalanced started
unfolding started
started-IsBalanced = record {
  match_conserved = refl;
  paper_conserved = refl;
  tobacco_conserved = refl;
  one_available = omega arith;
  one_mutex = refl;
  told_in_round = refl;
  match_agrees = refl;
  paper_agrees = refl;
  tobacco_agrees = refl;
  all_signals = refl;
  within = omega arith;
  told = refl;
}
