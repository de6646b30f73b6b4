-- ===== src/Dispatch/Tests.antt =====
-- What a7/SA-dynamic-call.c prints.
use cs213_assignments.Common.{◌≡◌, refl, some, [], ◌∷◌}
use cs213_assignments.Dispatch.{
  new_a, new_b, new_c, a_class, b_class, c_class, shown_a_ping, shown_b_ping, shown_c_ping_calls,
  call, foo, bar,
}

bar_prints :
    bar 2
    ≡ some (
        shown_a_ping 10
        ∷ shown_a_ping 10
        ∷ shown_b_ping 20
        ∷ shown_a_ping 20
        ∷ shown_c_ping_calls 30 100
        ∷ shown_b_ping 30
        ∷ shown_a_ping 30
        ∷ [])
unfolding bar foo call new_a new_b new_c a_class b_class c_class
bar_prints = refl
