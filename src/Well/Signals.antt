-- ===== src/Well/Signals.antt =====
-- Whom `leaveWell` of a11/soln/well.c signals, and the assertions of `enterWell`.
use cs213_assignments.Common.{◌≢◌, arith}
use cs213_assignments.Well.{
  Well, Endianness, can_enter, occupy, count_entry, enter_well, assertion_failed,
}

-- A thread that comes to the well never fails an assertion, in whatever state the well is.
pub enter_well-asserts : (e : Endianness) (well : Well) → enter_well e well ≢ assertion_failed
unfolding enter_well can_enter occupy count_entry
enter_well-asserts e well failed = ground arith
