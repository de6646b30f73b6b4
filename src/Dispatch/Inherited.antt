-- ===== src/Dispatch/Inherited.antt =====
-- Which functions the calls of a7/SA-dynamic-call.c reach.
use cs213_assignments.Common.{ℕ, suc, ◌≡◌, refl, some, [], ◌∷◌}
use cs213_assignments.Dispatch.{
  new_a, new_b, new_c, a_class, b_class, c_class, shown_a_ping, shown_b_ping, shown_c_ping_calls,
  call, foo,
}

-- With fuel for two calls, the `ping` of each object is that of its class: an object of class B uses
-- its own instead of that of A, and one of class C uses its own, which goes on to that of B. The `pong`
-- of all of them is that of A.
pub foo-prints :
    (fuel i id : ℕ)
    → (foo (suc (suc fuel)) (new_a i) ≡ some (shown_a_ping i ∷ shown_a_ping i ∷ []))
      × (foo (suc (suc fuel)) (new_b i) ≡ some (shown_b_ping i ∷ shown_a_ping i ∷ []))
      × (foo (suc (suc fuel)) (new_c i id)
          ≡ some (shown_c_ping_calls i id ∷ shown_b_ping i ∷ shown_a_ping i ∷ []))
unfolding foo call new_a new_b new_c a_class b_class c_class
foo-prints fuel i id = (refl, refl, refl)
