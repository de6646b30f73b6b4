-- ===== src/Uthread/Lifetime.antt =====
-- The end of a thread in a11/uthreads/uthread.c: how its control block is marked, joined, detached
-- and freed. What stands between locking and unlocking `join_spinlock` is one step.
pub mod Runs
pub mod Tests
use cs213_assignments.Common.{ℕ, Bool, true, false, ◌||◌, not, Option, none, some, if◌then◌else◌}

-- `TS_NASCENT` to `TS_DEAD`.
pub data State : Type 0 where
  nascent : State
  running : State
  runable : State
  blocked : State
  dying : State
  dead : State

abbrev pub is_dying : State → Bool
is_dying dying = true
is_dying _ = false

abbrev pub is_dead : State → Bool
is_dead dead = true
is_dead _ = false

-- The field `joiner`: 0, -1 or a thread.
pub data Joiner : Type 0 where
  nobody : Joiner
  detached : Joiner
  joined_by : (thread : ℕ) → Joiner

abbrev pub is_nobody : Joiner → Bool
is_nobody nobody = true
is_nobody _ = false

abbrev pub is_detached : Joiner → Bool
is_detached detached = true
is_detached _ = false

-- The fields of `struct uthread_TCB` that the end of a thread is about.
pub record Tcb : Type 0 where
  pub state : State
  pub joiner : Joiner
  pub return_val : ℕ

-- Behind the return of `start_proc` in `uthread_switch`: the control block and the thread that is
-- started, if there is one.
pub finish : ℕ → Tcb → Tcb × Option ℕ
finish return_val tcb = (
  record tcb { state = dying; return_val = return_val },
  elim tcb.joiner [ nobody ↦ none | detached ↦ none | joined_by thread ↦ some thread ],
)

-- What the next thread does in `uthread_switch` with the control block of a dying one; none is a
-- block that has been freed.
pub reap : Tcb → Option Tcb
reap tcb = if is_detached tcb.joiner then none else some (record tcb { state = dead })

-- `uthread_join` up to where the thread blocks, if it does: it fails at once, it blocks, or it goes
-- on with the lock held.
pub data Joining : Type 0 where
  refused : Joining
  blocks : Tcb → Joining
  goes_on : Tcb → Joining

pub uthread_join : ℕ → Tcb → Joining
uthread_join self tcb =
    if is_nobody tcb.joiner
    then (if not (is_dying tcb.state || is_dead tcb.state)
        then blocks (record tcb { joiner = joined_by self })
        else goes_on tcb)
    else refused

-- The rest of `uthread_join`: the value, and the control block if it has not been freed.
pub end_join : Tcb → ℕ × Option Tcb
end_join tcb =
    (tcb.return_val, if is_dead tcb.state then none else some (record tcb { joiner = detached }))

pub uthread_detach : Tcb → Option Tcb
uthread_detach tcb =
    if is_nobody tcb.joiner
    then (if not (is_dead tcb.state) then some (record tcb { joiner = detached }) else none)
    else some tcb
