-- ===== src/Tests.antt =====
-- Concrete inputs, and the theorems at them.
pub mod Fixtures
mod Runs
mod Ends
mod Failures
mod Events
mod Others
mod Spawns
mod Bindings
mod Loops
mod Courses
mod Schedules
mod CommandLine
mod Sequences
