-- ===== src/Machine.antt =====
-- The Simple Machine simulator, a8/q3/sm.c, and its variant with jump tables, a8/q3/sm-jt.c.
pub mod Words
pub mod State
pub mod Memory
pub mod Fetch
pub mod Exec
pub mod JumpTable
pub mod Compute
pub mod Decode
pub mod Loader
pub mod Loading
pub mod Program
pub mod CommandLine
pub mod TextTests
pub mod Tests
