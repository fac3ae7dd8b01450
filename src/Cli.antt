-- ===== src/Cli.antt =====
-- The command line: taskturbine-cli/src. The scheduler that it starts is in Scheduler.
pub mod Admin
pub mod Commands
pub mod Queries
pub mod Formatters
pub mod Printing
pub mod Configuring
pub mod Precedence
pub mod Main
pub mod Reading
pub mod Hiding
