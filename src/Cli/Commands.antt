-- ===== src/Cli/Commands.antt =====
-- The commands that change the tables, and the arguments of those that list them
-- (taskturbine-cli/src). Clap parses the arguments; a JSON object of headers is parsed by a parameter.
use taskturbine.Base.{
  ℕ, zero, suc, ◌-◌, ◌*◌, Option, none, some, Bool, true, false, List, [], ◌∷◌, or_else,
}
use taskturbine.Base.Int.{ℤ, pos, negsuc, pos_part}
use taskturbine.Base.Text.{Text, Bytes, codes}
use taskturbine.Models.{Uuid, TaskState, SpawnResult, second}
use taskturbine.Sql.Session.{Env, Session, Result, ok, err, panic, StorageError, M}
use taskturbine.Storage.Spawn
use taskturbine.Storage.Spawn.{TaskOptions, default_options}
use taskturbine.Storage.Finish.{cancel_task}
use taskturbine.Storage.Event
use taskturbine.Storage.Upkeep
use taskturbine.Cli.Admin.{TaskListOptions, RunListOptions}

-- How a command ends.
pub data CliResult : Type 0 where
  done spawn_failed panicked : CliResult
  failed : StorageError → CliResult
  refused : Text → CliResult  -- an error with its message

abbrev pub ended {ℓ} : {A : Type ℓ} → Result A × Session → CliResult × Session
ended (ok a, s) = (done, s)
ended (err x, s) = (failed x, s)
ended (panic, s) = (panicked, s)

abbrev pub of_bytes : Option Text → Option Bytes
of_bytes o = o

-- cancel: a refusal is logged, and is no failure of the command.
abbrev pub logged {ℓ} : {A : Type ℓ} → Result A × Session → CliResult × Session
logged (ok a, s) = (done, s)
logged (err x, s) = (done, s)
logged (panic, s) = (panicked, s)

unfoldable pub cancel : Uuid → Option Text → Env → Session → CliResult × Session
cancel task_id reason e s = logged (cancel_task task_id (of_bytes reason) e s)

-- `Utc::now() - cutoff`. A negative number of seconds is a duration that no instant can be earlier
-- by, and the subtraction panics; an instant before the first one deletes as little as the first.
abbrev pub cut_off : {A : Type 0} → (ℕ → ℤ → M A) → ℤ → ℤ → Env → Session → CliResult × Session
cut_off cleanup (pos secs) limit e s = ended (cleanup (e.utc_now - secs * second) limit e s)
cut_off cleanup (negsuc n) limit e s = (panicked, s)

unfoldable pub cleanup_task : ℤ → ℤ → Env → Session → CliResult × Session
cleanup_task limit cutoff_secs = cut_off Upkeep.cleanup_tasks cutoff_secs limit

unfoldable pub cleanup_event : ℤ → ℤ → Env → Session → CliResult × Session
cleanup_event limit cutoff_secs = cut_off Upkeep.cleanup_events cutoff_secs limit

unfoldable pub emit_event : Text → Text → Env → Session → CliResult × Session
emit_event event_name payload e s = ended (Event.emit_event event_name payload e s)

-- clear: without --execute nothing is done.
unfoldable pub clear : Bool → Env → Session → CliResult × Session
clear true e s = ended (Upkeep.clear_storage e s)
clear false e s = (done, s)

pub record SpawnArgs : Type 0 where
  pub channel : Option Text
  pub taskname : Text
  pub params : Option Text
  pub repeat : Option ℤ
  pub headers : Option Text
  pub max_attempts : Option ℤ
  pub retry_seconds : Option ℤ
  pub retry_factor : Option ℕ
  pub cancellation_max_age : Option ℤ
  pub idempotency_key : Option Text

module _ (parse_headers : Text → Option (List (Text × Text))) where
  abbrev headers_of : Option Text → List (Text × Text)
  headers_of none = default_options.headers
  headers_of (some json) = or_else (parse_headers json) []

  -- From<SpawnArgs>: there is no argument for the longest delay.
  abbrev pub spawn_options : SpawnArgs → TaskOptions
  spawn_options a = record {
    idempotency_key = a.idempotency_key;
    headers = headers_of a.headers;
    max_attempts = or_else a.max_attempts default_options.max_attempts;
    retry_seconds = or_else a.retry_seconds default_options.retry_seconds;
    retry_factor = or_else a.retry_factor default_options.retry_factor;
    retry_max_seconds = default_options.retry_max_seconds;
    cancellation_max_age = or_else a.cancellation_max_age default_options.cancellation_max_age;
  }

  -- The answers of the loop. A panic ends it.
  abbrev pub and_spawn :
      Result SpawnResult × Session
      → (Session → List (Result SpawnResult) × Session)
      → List (Result SpawnResult) × Session
  and_spawn (ok r, s) rest = let (rs, s') = rest s in (ok r ∷ rs, s')
  and_spawn (err x, s) rest = let (rs, s') = rest s in (err x ∷ rs, s')
  and_spawn (panic, s) rest = (panic ∷ [], s)

  -- The loop: every copy is tried, and the answers are collected.
  unfoldable pub spawn_each :
      ℕ → M SpawnResult → Env → Session → List (Result SpawnResult) × Session
  spawn_each zero spawn e s = ([], s)
  spawn_each (suc n) spawn e s = and_spawn (spawn e s) λ s'. spawn_each n spawn e s'

  -- The first error ends the command.
  unfoldable pub reported : List (Result SpawnResult) → CliResult
  reported [] = done
  reported (ok r ∷ rs) = reported rs
  reported (err x ∷ rs) = spawn_failed
  reported (panic ∷ rs) = panicked

  unfoldable pub spawn_task : Text → SpawnArgs → Env → Session → CliResult × Session
  spawn_task default_channel a e s =
      let (rs, s') =
        spawn_each (pos_part (or_else a.repeat (pos 1)))
          (Spawn.spawn_task (or_else a.channel default_channel) a.taskname
            (or_else a.params (codes "{\"args\":[]}")) (some (spawn_options a)))
          e s in
      (reported rs, s')

pub record TaskListArgs : Type 0 where
  pub taskname : Option Text
  pub state : Option TaskState
  pub channel : Option Text
  pub limit : ℤ

abbrev pub task_list_options : TaskListArgs → TaskListOptions
task_list_options a = record {
  taskname = a.taskname;
  state = a.state;
  channel = a.channel;
  limit = a.limit;
}

pub record RunListArgs : Type 0 where
  pub task_id : Option Text
  pub state : Option TaskState
  pub channel : Option Text

-- The text of the task's identifier is parsed by the uuid crate; the channel is not used.
abbrev pub run_options : RunListArgs → Option Uuid → Option RunListOptions
run_options a none = none
run_options a (some id) = some (record { task_id = some id; state = a.state })

abbrev pub run_list_at : (Text → Option Uuid) → RunListArgs → Option Text → Option RunListOptions
run_list_at of_text a none = some (record { task_id = none; state = a.state })
run_list_at of_text a (some t) = run_options a (of_text t)

unfoldable pub run_list_options : (Text → Option Uuid) → RunListArgs → Option RunListOptions
run_list_options of_text a = run_list_at of_text a a.task_id
