-- ===== src/Sql.antt =====
-- The database that taskturbine-core/src/storage.rs talks to, and the effects of its methods.
-- A method runs statements in sequence: on the pool, where each takes effect at once, or between
-- `begin` and `commit`, on a working copy that a commit publishes. Any statement, `begin` and
-- `commit` included, may fail: the schedule of failures is an argument.
pub mod Session
pub mod Atomic
pub mod Keeps
pub mod Hoare
