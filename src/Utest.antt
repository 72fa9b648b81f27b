-- ===== src/Utest.antt =====
-- common/utils/utest/utest.c: the runner of the unit tests.
pub mod Asserts
pub mod Waits
pub mod Runs
pub mod Counts
mod Tests
