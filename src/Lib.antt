-- ===== src/Lib.antt =====
-- Taskturbine: durable execution of tasks on a PostgreSQL database.
--
-- A client spawns a task, which inserts a row of `tasks` and its first row of `runs`. Workers claim
-- runs that are due, execute the task function that is registered for the task's name, and write the
-- outcome: the run is completed, failed (with a new run where attempts are left), or put to sleep.
-- A task function consists of steps. The bytes of a finished step are a checkpoint in the tables, and
-- a later run of the task takes them from there. A task can wait for an event, which another client
-- emits. Upkeep fails runs whose claim has expired and cancels tasks by age; garbage collection
-- deletes finished tasks and old events. A scheduler spawns tasks by timetable.
--
-- Parts and sources
--
--   Base, Base/*          numbers, lists of rows, integers and texts that the other files share.
--                         Text and Bytes are lists of code units, compared by `text_eq`.
--   Models, Models/*      the entities of taskturbine-core/src/models.rs with the columns of
--                         taskturbine-core/migrations, and the configuration of
--                         taskturbine-core/src/config.rs. TaskState is in Models/State.
--   Sql/Session           the tables (`Db`), the state of one method of the storage (`Session`) and
--                         the statements of which the methods are made (`M`, with do blocks).
--                         Sql/Atomic, Sql/Keeps and Sql/Hoare: rules to reason on sequences of
--                         statements.
--   Storage/*             the methods of Storage in taskturbine-core/src/storage.rs under their own
--                         names: Rows (locks, inserts, store_checkpoint), Claim (claim_task,
--                         extend_claim), Finish (complete_run, cancel_task, suspend_run,
--                         schedule_run), Fail (do_fail_run, fail_run, handle_expired_claims), Spawn
--                         (spawn_task), Event (checkpoints, await_event, emit_event), Upkeep (the
--                         rest). One SQL statement is one function from tables to tables, which ends
--                         in `_statement` where it has several parts; the SET list of an UPDATE is a
--                         function on one row (claimed_run, failed_run, woken_run and so on).
--                         The other files of Storage are about these: Invariant (with
--                         Invariant/Statements) and History on well-formed tables, Atomic on
--                         transactions, Exclusive on claims, Complete, Cancel and Retry on the end of
--                         runs, Idempotent on spawning, Waking and Stale on events, Cleanup on
--                         garbage collection; Effects and its modules on what the rows are after a
--                         method, column by column; Lifecycle has the state machine of one run, and
--                         below it how the statements (Statements), the methods (Methods,
--                         Expiry, Deletion) and histories of calls (Course) follow it. Live does
--                         the same for the runs that are still to be executed, and Expired is on
--                         expired claims. Calls has the histories; Kept has what a property of the
--                         tables must satisfy at each statement, and its modules conclude what the
--                         methods and the calls keep. Helpers: the feature "test".
--   Cache, Cache/*        Checkpoints of taskturbine-core/src/models.rs: Names on generated names, Loads
--                         on what the cache holds of the rows it was loaded with.
--   Context, Context/*    TaskContext of taskturbine-app/src/context.rs. A task function is a function
--                         of the context's cache and the session, with FlowControl as its errors.
--                         Context/Sequence is about task functions that are a list of steps.
--   Worker, Worker/*      TaskturbineApp and Worker of taskturbine-app/src/app.rs, and the
--                         configuration of taskturbine-app/src/config.rs. Worker/Loops are the loops
--                         claim_tasks, process_task, run_upkeep and check_idle_shutdown of app.rs;
--                         Worker/Sending, Worker/Idle and Worker/Outcome are about them and
--                         execute_task.
--   Scheduler, Scheduler/*  taskturbine-cli/src/scheduler.rs.
--   Python, Python/*      the bindings of taskturbine-python/src. Values and Dicts: models.rs; Options:
--                         config.rs and TaskOptions of lib.rs; Calls: exceptions and the parsing
--                         of identifiers; Sync: lib.rs; Async: asynclib.rs. RoundTrip and Agree are
--                         about these.
--   Cli, Cli/*            taskturbine-cli/src. Admin: AdminStorage of admin_storage.rs; Commands: the
--                         commands that change the tables and the arguments of the listings;
--                         Formatters and Printing: formatters.rs and the commands that print;
--                         Configuring and Main: main.rs, upkeep.rs, migrate.rs and the start of
--                         scheduler.rs. Queries is about Admin, Precedence about Configuring,
--                         Reading and Hiding about Main and Printing.
--   Tests/*               runs on small tables, and the theorems at them.
--
-- How the state is modelled
--
-- A `Session` has the committed tables, the working copy of the open transaction, a list that says
-- for each statement to come whether it fails, and the number of UUIDs drawn. Where a theorem speaks
-- of any failing statements, that list is arbitrary; where no statement fails, it is empty.
-- A statement on the pool commits at once. A panic of the program (`unwrap`) is a result of its own.
-- Several processes are a sequence of calls, each with its own clock, configuration and faults
-- (Storage/Calls); the rows that other transactions have locked at the time are a parameter of a
-- claim. Rows stand in the order of a scan, and a LIMIT without ORDER BY takes the first ones of it.
--
-- The loops of a worker run over lists in the order of time: which branch of a select! is ready, what
-- the channel answers to a task, and when a timer ticks. A branch whose value does not match its
-- pattern is disabled until the select! starts again.
--
-- Parameters, since their code is elsewhere: the clocks of database and process, the generator of
-- UUIDs, the JSON encoder, the float operations of the retry delay, cron expressions, the
-- match of a regular expression, the JSON of headers on the command line, files, figment (with
-- the documented laws of merge), how numbers, identifiers and instants
-- are written, the texts of UUIDs and the
-- values of Python (with the laws that a text is parsed to what it was made from), and the task
-- functions and step closures of the user. Constraints of the tables are checked where the program
-- inserts: primary keys of tasks and runs and the idempotency key of tasks refuse a row.
--
-- Bounds: counters of checkpoint names wrap at 2 ^ 32 as u32 does. Attempts are natural numbers, and
-- instants are natural numbers of microseconds with no upper end. Limits, quantities and ages are
-- integers, since a caller can pass negative ones. The counter of idle claims and the seconds of a
-- timedelta are i32 that wrap around. `digits` prints a number on fuel, one more than
-- the number, and the proof in Cache/Names that reading it back gives the number shows it enough.
-- All loops are structural.
--
-- Not modelled: connecting and migrating, waiting for signals, metrics and logs, what clap parses of
-- a command line and the banner it starts with, the printing of Python values, a negative attempt in a
-- dict from Python, and the library in Python on top of the bindings.
pub mod Base
pub mod Models
pub mod Sql
pub mod Storage
pub mod Cache
pub mod Context
pub mod Worker
pub mod Scheduler
pub mod Python
pub mod Cli
pub mod Tests
