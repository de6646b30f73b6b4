-- ===== src/Switches/Agreement.antt =====
-- The three forms in a8/q2/SB-switch.c are one function.
use cs213_assignments.Common.{◌≡◌, refl, some, arith}
use cs213_assignments.Common.Cases.{split_below}
use cs213_assignments.Common.Int.{ℤ, pos, negsuc}
use cs213_assignments.Switches.{foo, foo_using_if, foo_using_jumptable}

-- Whatever the number, the switch, the ifs and the jump table agree, and the jump does not leave the
-- table.
pub foo-agrees : (i : ℤ) → (foo_using_if i ≡ foo i) × (foo_using_jumptable i ≡ some (foo i))
unfolding foo foo_using_if foo_using_jumptable
foo-agrees (negsuc n) = (refl, refl)
foo-agrees (pos n) =
    split_below 24
      (λ k.
        (foo_using_if (pos k) ≡ foo (pos k)) × (foo_using_jumptable (pos k) ≡ some (foo (pos k))))
      (ground arith) (λ m le. (ground (arith, le), ground (arith, le))) n
