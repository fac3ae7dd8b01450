-- ===== src/Cli/Main.antt =====
-- Commands and main of taskturbine-cli/src/main.rs, with the commands of upkeep.rs, migrate.rs and
-- the start of scheduler.rs. The terminal's banner and the log are left out. What clap parses is a
-- value of Cli; the outside is a record of parameters.
use taskturbine.Base.{◌++◌, Bool, true, false, List, [], Option, none, some, map}
use taskturbine.Base.Int.{ℤ}
use taskturbine.Base.Text.{Text, codes}
use taskturbine.Base.{ℕ}
use taskturbine.Models.{Uuid}
use taskturbine.Sql.Session.{Env, Session}
use taskturbine.Worker.{AppConfig, new_app, new_worker, core_config}
use taskturbine.Worker.Loops.{tick, upkeep_loop}
use taskturbine.Scheduler.Start.{ScheduleEntry, Started, started, start, scheduler_loop}
use taskturbine.Scheduler.Start
use taskturbine.Cli.Commands.{
  CliResult, done, panicked, refused, SpawnArgs, TaskListArgs, RunListArgs, cancel, cleanup_task,
  cleanup_event, emit_event, clear, spawn_task,
}
use taskturbine.Cli.Configuring.{Figment, CliConfig, create_config}
use taskturbine.Cli.Formatters.{Display}
use taskturbine.Cli.Printing.{Outcome, TaskGetArgs, list_task, list_run, get_task, get_run}

pub data Commands : Type 0 where
  clears : Bool → Commands
  upkeep_worker migrates : Commands
  schedules : Text → Commands
  cleans_events cleans_tasks : ℤ → ℤ → Commands
  emits : Text → Text → Commands
  lists_runs : RunListArgs → Commands
  lists_tasks : TaskListArgs → Commands
  gets_run : Uuid → Commands
  gets_task : TaskGetArgs → Commands
  spawns : SpawnArgs → Commands
  cancels : Uuid → Option Text → Commands

pub record Cli : Type 0 where
  pub database_url : Option Text
  pub usecase : Option Text
  pub verbose : Bool
  pub config : Option Text
  pub command : Commands

-- From<&Cli>.
abbrev pub cli_config : Cli → CliConfig
cli_config value = record {
  database_url = value.database_url;
  usecase = value.usecase;
  config = value.config;
}

-- What reading a file of schedules gives.
pub data ScheduleFile : Type 0 where
  unreadable not_text unparsable : ScheduleFile
  parsed : List (Text × ScheduleEntry) → ScheduleFile

-- The outside: files, the server's and the crates' functions, and when a long-running command acts
-- until it is shut down.
pub record Host (F : Type 0) : Type 0 where
  pub figment : Figment F
  pub display : Display
  pub matches : Text → Text → Bool
  pub parse_uuid : Text → Option Uuid
  pub parse_headers : Text → Option (List (Text × Text))
  pub parse_cron : Text → Option (ℕ → Option ℕ)
  pub schedule_file : Text → ScheduleFile
  pub update_schema : Env → Session → Bool × Session
  pub times : List Env

-- Storage::new: its statements are of the configuration.
abbrev pub with_config : AppConfig → Env → Env
with_config c e = record e { config = core_config c }

abbrev pub quiet : CliResult × Session → Outcome
quiet (r, s) = (r, [], s)

-- upkeep: the application has no task, and its worker runs upkeep until a shutdown.
unfoldable pub upkeep : AppConfig → List Env → Session → Outcome
upkeep c times s =
    let worker = new_worker (new_app c) (codes "cleanup-worker-1") [] in
    (done, [], upkeep_loop worker (map (λ e. tick (with_config c e)) times) s)

abbrev migrated : Bool × Session → Outcome
migrated (true, s) = (done, [], s)
migrated (false, s) = (refused (codes "Failed to run migrations"), [], s)

-- run_scheduler has its own task: where its state cannot be read, it ends alone.
abbrev ticking : List Env → Started × Session → Outcome
ticking times (started entries, s) = (done, [], (scheduler_loop times entries s).1)
ticking times (Start.failed, s) = (done, [], s)

abbrev with_schedules :
    (Text → Option (ℕ → Option ℕ)) → Text → ScheduleFile → List Env → Env → Session → Outcome
with_schedules parse_cron config unreadable times e s =
    (refused (codes "Could not read config file " ++ config), [], s)
with_schedules parse_cron config not_text times e s =
    (refused (codes "Could not read config file data into a string"), [], s)
with_schedules parse_cron config unparsable times e s = (panicked, [], s)
with_schedules parse_cron config (parsed entries) times e s =
    ticking times (start parse_cron entries e s)

module _ {F : Type 0} (host : Host F) where
  -- scheduler.
  unfoldable pub scheduler : AppConfig → Text → Env → Session → Outcome
  scheduler c config e s =
      with_schedules host.parse_cron config (host.schedule_file config)
        (map (with_config c) host.times) e s

  -- The match on the command.
  unfoldable pub run_command : AppConfig → Commands → Env → Session → Outcome
  run_command c (clears execute) e s = quiet (clear execute e s)
  run_command c upkeep_worker e s = upkeep c host.times s
  run_command c migrates e s = migrated (host.update_schema e s)
  run_command c (schedules config) e s = scheduler c config e s
  run_command c (cleans_events limit cutoff_secs) e s = quiet (cleanup_event limit cutoff_secs e s)
  run_command c (cleans_tasks limit cutoff_secs) e s = quiet (cleanup_task limit cutoff_secs e s)
  run_command c (emits event_name payload) e s = quiet (emit_event event_name payload e s)
  run_command c (lists_runs a) e s = list_run host.display host.parse_uuid a e s
  run_command c (lists_tasks a) e s = list_task host.display host.matches a e s
  run_command c (gets_run run_id) e s = get_run host.display run_id e s
  run_command c (gets_task a) e s = get_task host.display a e s
  run_command c (spawns a) e s = quiet (spawn_task host.parse_headers c.default_channel a e s)
  run_command c (cancels task_id reason) e s = quiet (cancel task_id reason e s)

  -- The error of a command is logged, and main has its own.
  abbrev pub reported_end : CliResult → CliResult
  reported_end done = done
  reported_end panicked = panicked
  reported_end _ = refused (codes "Command Failed!")

  abbrev pub run_with : Option AppConfig → Commands → Env → Session → Outcome
  run_with none command e s = (refused (codes "Failed to build config"), [], s)
  run_with (some c) command e s =
      let (result, lines, s') = run_command c command (with_config c e) s in
      (reported_end result, lines, s')

  unfoldable pub main : Cli → Env → Session → Outcome
  main args e s = run_with (create_config host.figment (cli_config args)) args.command e s
