-- ===== src/Smokers/Tests.antt =====
-- A run of a11/soln/smoke_sem.c, and its theorems at concrete states.
use cs213_assignments.Common.{ℕ, zero, suc, ◌+◌, ◌≤◌, ◌<◌, subst, lt→ltb, ◌≡◌, ◌⊎◌, refl, arith}
use cs213_assignments.Smokers.{
  State, ended, at_loop, first_signal, create_table, match_box, paper, tobacco, the_agent,
  the_pusher, the_smoker, agent, pusher, smoker, push, next, started, num_iterations,
}
use cs213_assignments.Smokers.Runs.{Reaches, start, then_step}
use cs213_assignments.Smokers.Balance.{IsBalanced}
use cs213_assignments.Smokers.Outcome.{CanStep, smokers-CanStep, reaches-IsBalanced, all_smoked}

-- The agent supplies matches and paper, and both pushers come before the agent waits.
some_way : (s : State) × Reaches s × (s.table.matched.of_tobacco ≡ 1)
unfolding started next agent pusher push
some_way = (
  _,
  then_step 0 (the_pusher paper)
      (then_step 0 (the_pusher paper)
        (then_step 0 (the_pusher paper)
          (then_step 0 (the_agent)
            (then_step 0 (the_pusher match_box)
              (then_step 0 (the_pusher match_box)
                (then_step 0 (the_pusher match_box)
                  (then_step 0 (the_pusher match_box)
                    (then_step 0 the_agent (then_step 0 the_agent start refl) refl) refl)
                  refl)
                refl)
              refl)
            refl)
          refl)
        refl)
      refl,
  refl,
)

smokers-CanStep_example : CanStep (some_way.0) ⊎ ((some_way.0).agent_point ≡ ended)
smokers-CanStep_example = smokers-CanStep (some_way.1)

reaches-IsBalanced_example : IsBalanced (some_way.0)
reaches-IsBalanced_example = reaches-IsBalanced (some_way.1)

-- Before the round `n` of a run in which the smoker with tobacco is always the matching one.
abbrev before_round : ℕ → State
before_round n = record started {
  table = record create_table {
    signal_count = record { of_match = 0; of_paper = 0; of_tobacco = n };
    smoke_count = record { of_match = 0; of_paper = 0; of_tobacco = n };
  };
  agent_point = at_loop n;
}

one_round : (n : ℕ) → n < num_iterations → Reaches (before_round n) → Reaches (before_round (n + 1))
unfolding started next agent pusher push smoker
one_round n more r =
    then_step 0 the_agent
      (then_step 0 (the_smoker tobacco)
        (then_step 0 (the_smoker tobacco)
          (then_step 0 (the_smoker tobacco)
            (then_step 0 (the_smoker tobacco)
              (then_step 0 (the_pusher paper)
                (then_step 0 (the_smoker tobacco)
                  (then_step 0 (the_pusher paper)
                    (then_step 0 (the_pusher paper)
                      (then_step 0 (the_pusher paper)
                        (then_step 0 the_agent
                          (then_step 0 (the_pusher match_box)
                            (then_step 0 (the_pusher match_box)
                              (then_step 0 (the_pusher match_box)
                                (then_step 0 (the_pusher match_box)
                                  (then_step 0 the_agent
                                    (then_step
                                      {s' = record (before_round n) {
                                        table = record (before_round n).table {
                                          signal_count = record {
                                            of_match = 0;
                                            of_paper = 0;
                                            of_tobacco = n + 1;
                                          };
                                        };
                                        agent_point = first_signal n tobacco;
                                      }}
                                      0 the_agent r (rw (lt→ltb n num_iterations more) refl))
                                    refl)
                                  refl)
                                refl)
                              refl)
                            refl)
                          refl)
                        refl)
                      refl)
                    refl)
                  refl)
                refl)
              refl)
            refl)
          refl)
        refl)
      refl

some_rounds : (n : ℕ) → n ≤ num_iterations → Reaches (before_round n)
unfolding started
some_rounds zero h = start
some_rounds (suc n) h =
    let next_round : n + 1 ≡ suc n = omega arith in
    subst (λ m. Reaches (before_round m)) next_round
      (one_round n (omega arith) (some_rounds n (omega arith)))

abbrev at_end : State
at_end = record (before_round num_iterations) {
  table = record (before_round num_iterations).table { done = 1 };
  agent_point = ended;
}

reaches_end : Reaches at_end
unfolding next agent
reaches_end = then_step 0 the_agent (some_rounds num_iterations (omega arith)) refl

all_smoked_example :
    (at_end.table.smoke_count ≡ at_end.table.signal_count)
    × (at_end.table.smoke_count.of_match + at_end.table.smoke_count.of_paper
          + at_end.table.smoke_count.of_tobacco
        ≡ num_iterations)
all_smoked_example = all_smoked reaches_end (omega arith)
