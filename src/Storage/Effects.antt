-- ===== src/Storage/Effects.antt =====
-- What the rows of the tables are after the methods of taskturbine-core/src/storage.rs that end,
-- suspend and wake runs, column by column.
pub mod Ends
pub mod Failures
pub mod Wakes
pub mod Spawns
