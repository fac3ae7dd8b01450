-- ===== src/Scheduler.antt =====
-- The scheduler of taskturbine-cli/src/scheduler.rs: entries, when they are due, and a tick.
pub mod Due
pub mod Start
pub mod Restart
use taskturbine.Base.{
  ℕ, ◌+◌, ◌-◌, ◌*◌, ◌/◌, ◌^◌, List, [], ◌∷◌, ◌++◌, Option, none, some, Bool, true, false, leb, ltb,
  or_else, sort_by, if◌then◌else◌,
}
use taskturbine.Base.Int.{ℤ, pos, negsuc, ◌+ℤ◌, ◌-ℤ◌, times, leb_ℤ, wrap_i32}
use taskturbine.Base.Text.{Text, Bytes, codes}
use taskturbine.Models.{SpawnResult, second}
use taskturbine.Sql.Session.{Env, Session, Result, ok, err, panic, M}
use taskturbine.Storage.Rows.{as_u64}
use taskturbine.Storage.Spawn.{spawn_task, TaskOptions, default_options}
use taskturbine.Storage.Upkeep.{set_scheduler_last_run}
use taskturbine.Cache.{show_count, get}

pub record TimedeltaData : Type 0 where
  pub hours : Option ℤ
  pub minutes : Option ℤ
  pub seconds : Option ℤ

-- The sum of the parts, in seconds, as an i32 that wraps around (as it does in a release build; a
-- debug build panics).
abbrev pub total_seconds : TimedeltaData → ℤ
total_seconds d = wrap_i32 (
    or_else d.seconds (pos 0)
    +ℤ times 60 (or_else d.minutes (pos 0))
    +ℤ times 3600 (or_else d.hours (pos 0)))

-- A cron expression is a parameter: its text, and `after`, the first time past a given one at which
-- it is due.
pub data Schedule : Type 0 where
  cron : Text → (ℕ → Option ℕ) → Schedule
  timedelta : ℕ → Schedule

-- TimedeltaSchedule::new: the seconds, as a u64.
unfoldable pub new_timedelta : TimedeltaData → Schedule
new_timedelta d = timedelta (as_u64 (total_seconds d))

-- `as i64` of a u64.
abbrev pub as_i64 : ℕ → ℤ
as_i64 n = if ltb n (2 ^ 63) then pos n else negsuc (2 ^ 64 - 1 - n)

-- num_seconds of `a - b`: whole seconds, rounded towards zero.
abbrev pub gap_seconds : ℕ → ℕ → ℤ
gap_seconds a b = if leb b a then pos ((a - b) / second) else pos 0 -ℤ pos ((b - a) / second)

abbrev pub cron_remaining : ℕ → Option ℕ → ℤ
cron_remaining now none = pos 1
cron_remaining now (some next) =
    let seconds = gap_seconds next now in if leb_ℤ seconds (pos 0) then pos 0 else seconds

-- Schedule::remaining_seconds of both kinds.
unfoldable pub schedule_remaining : Schedule → ℕ → ℕ → ℤ
schedule_remaining (cron expression after) now last_run = cron_remaining now (after last_run)
schedule_remaining (timedelta duration) now last_run = as_i64 duration -ℤ gap_seconds now last_run

-- Schedule::is_due.
abbrev pub schedule_due : Schedule → ℕ → ℕ → Bool
schedule_due w now last_run = leb_ℤ (schedule_remaining w now last_run) (pos 0)

-- Display of both kinds.
unfoldable pub show_schedule : Schedule → Text
show_schedule (cron expression after) = codes "c:" ++ expression
show_schedule (timedelta duration) = codes "td:" ++ show_count duration

pub record StorageEntry : Type 0 where
  pub key : Text
  pub taskname : Text
  pub channel : Text
  pub params : Option Bytes
  pub options : Option TaskOptions
  pub schedule : Schedule
  pub last_run : ℕ

pub record ScheduleOptions : Type 0 where
  pub headers : List (Text × Text)
  pub max_attempts : ℤ
  pub retry_seconds : ℤ
  pub retry_factor : ℕ
  pub retry_max_seconds : ℤ
  pub cancellation_max_age : ℤ

-- From<&ScheduleOptions> for TaskOptions.
abbrev pub task_options : ScheduleOptions → TaskOptions
task_options o = record default_options {
  headers = o.headers;
  max_attempts = o.max_attempts;
  retry_seconds = o.retry_seconds;
  retry_factor = o.retry_factor;
  retry_max_seconds = o.retry_max_seconds;
  cancellation_max_age = o.cancellation_max_age;
}

-- StorageEntry::is_due and remaining_seconds.
abbrev pub is_due : ℕ → StorageEntry → Bool
is_due now v = schedule_due v.schedule now v.last_run

abbrev pub remaining_seconds : ℕ → StorageEntry → ℤ
remaining_seconds now v = schedule_remaining v.schedule now v.last_run

unfoldable pub storage_key : StorageEntry → Text
storage_key v = v.key ++ (codes ":" ++ (v.taskname ++ (codes ":" ++ show_schedule v.schedule)))

-- The state that the storage has for an entry replaces its first `last_run`.
unfoldable pub restore : (Text → Text → Bool) → List (Text × ℕ) → StorageEntry → StorageEntry
restore same state v = record v { last_run = or_else (get (same (storage_key v)) state) v.last_run }

abbrev pub entry_le : ℕ → StorageEntry → StorageEntry → Bool
entry_le now a b = leb_ℤ (remaining_seconds now a) (remaining_seconds now b)

-- sort_entries.
unfoldable pub sort_entries : ℕ → List StorageEntry → List StorageEntry
sort_entries now = sort_by (entry_le now)

-- A spawn's answer: the entry has run now, and the storage is told; an error leaves it due.
abbrev pub spawned : ℕ → StorageEntry → Env → Result SpawnResult × Session → StorageEntry × Session
spawned now v e (ok r, s) =
    (record v { last_run = now }, (set_scheduler_last_run (storage_key v) now e s).1)
spawned now v e (err x, s) = (v, s)
spawned now v e (panic, s) = (v, s)

unfoldable pub run_entry : ℕ → StorageEntry → Env → Session → StorageEntry × Session
run_entry now v e s =
    spawned now v e (spawn_task v.channel v.taskname (or_else v.params []) v.options e s)

-- The loop of a tick, which ends at the first entry that is not due. Beside the entries and the
-- session it returns the entries that it tried.
unfoldable pub run_due :
    ℕ → List StorageEntry → Env → Session → List StorageEntry × Session × List StorageEntry
run_due now [] e s = ([], s, [])
run_due now (v ∷ vs) e s =
    let (w, s') = run_entry now v e s in
    let (ws, s'', tried) = run_due now vs e s' in
    if is_due now v then (w ∷ ws, s'', v ∷ tried) else (v ∷ vs, s, [])

abbrev first_remaining : ℕ → List StorageEntry → ℤ
first_remaining now [] = pos 1
first_remaining now (v ∷ vs) = remaining_seconds now v

-- Scheduler::tick. The entries are sorted again by the clock, and the sleep is by the tick's time.
unfoldable pub tick : ℕ → List StorageEntry → Env → Session → ℤ × List StorageEntry × Session
tick now entries e s =
    let (ran, s', tried) = run_due now entries e s in
    let sorted = sort_entries (e.utc_now / second * second) ran in
    (first_remaining now sorted, sorted, s')
