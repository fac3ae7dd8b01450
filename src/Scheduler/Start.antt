-- ===== src/Scheduler/Start.antt =====
-- The start and the loop of the scheduler (run_scheduler of taskturbine-cli/src/scheduler.rs), from a
-- configuration that has been read. The parser of cron expressions is a parameter.
use taskturbine.Base.{ℕ, ◌*◌, ◌/◌, Option, none, some, List, [], ◌∷◌}
use taskturbine.Base.Text.{Text, Bytes, text_eq}
use taskturbine.Models.{second}
use taskturbine.Sql.Session.{Env, Session, Result, ok, err, panic}
use taskturbine.Storage.Spawn.{TaskOptions}
use taskturbine.Storage.Upkeep.{get_scheduler_last_run}
use taskturbine.Scheduler.{
  TimedeltaData, Schedule, cron, new_timedelta, StorageEntry, ScheduleOptions, task_options,
  restore, sort_entries, tick,
}

pub data ScheduleKind : Type 0 where
  by_cron : Text → ScheduleKind
  by_timedelta : TimedeltaData → ScheduleKind

pub record ScheduleEntry : Type 0 where
  pub taskname : Text
  pub channel : Text
  pub schedule : ScheduleKind
  pub params : Option Bytes
  pub options : Option ScheduleOptions

-- How the scheduler ends: it goes on with its entries, or the read of its state failed (`unwrap`).
pub data Started : Type 0 where
  started : List StorageEntry → Started
  failed : Started

abbrev pub whole_second : ℕ → ℕ
whole_second t = t / second * second

abbrev options_of : Option ScheduleOptions → Option TaskOptions
options_of none = none
options_of (some o) = some (task_options o)

module _ (parse_cron : Text → Option (ℕ → Option ℕ)) where
  abbrev cron_of : Text → Option (ℕ → Option ℕ) → Option Schedule
  cron_of expression none = none
  cron_of expression (some after) = some (cron expression after)

  -- ScheduleEntry::make_schedule.
  unfoldable pub make_schedule : ScheduleKind → Option Schedule
  make_schedule (by_cron expression) = cron_of expression (parse_cron expression)
  make_schedule (by_timedelta d) = some (new_timedelta d)

  -- StorageEntry::new.
  abbrev pub new_entry : Text → ScheduleEntry → ℕ → Schedule → StorageEntry
  new_entry key config last_run schedule = record {
    key = key;
    taskname = config.taskname;
    channel = config.channel;
    params = config.params;
    options = options_of config.options;
    schedule = schedule;
    last_run = last_run;
  }

  abbrev add_entry :
      List (Text × ℕ)
      → ℕ
      → Text
      → ScheduleEntry
      → Option Schedule
      → List StorageEntry
      → List StorageEntry
  add_entry state now key config none rest = rest
  add_entry state now key config (some schedule) rest =
      restore text_eq state (new_entry key config now schedule) ∷ rest

  -- The loop over the configuration: an entry with a schedule that is not valid is left out.
  unfoldable pub entries_of : List (Text × ℕ) → ℕ → List (Text × ScheduleEntry) → List StorageEntry
  entries_of state now [] = []
  entries_of state now ((key, config) ∷ rest) =
      add_entry state now key config (make_schedule config.schedule) (entries_of state now rest)

  abbrev start_with :
      List (Text × ScheduleEntry) → ℕ → Result (List (Text × ℕ)) × Session → Started × Session
  start_with configs now (ok state, s) =
      (started (sort_entries (whole_second now) (entries_of state (whole_second now) configs)), s)
  start_with configs now (err x, s) = (failed, s)
  start_with configs now (panic, s) = (failed, s)

  unfoldable pub start : List (Text × ScheduleEntry) → Env → Session → Started × Session
  start configs e s = start_with configs e.utc_now (get_scheduler_last_run e s)

-- run_scheduler, the loop: a tick at each of the times, until there is a shutdown.
unfoldable pub scheduler_loop : List Env → List StorageEntry → Session → List StorageEntry × Session
scheduler_loop [] entries s = (entries, s)
scheduler_loop (e ∷ es) entries s =
    let (sleep, next, s') = tick (whole_second e.utc_now) entries e s in scheduler_loop es next s'
