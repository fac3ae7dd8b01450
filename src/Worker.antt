-- ===== src/Worker.antt =====
-- The application and the worker of taskturbine-app/src/app.rs, with Config of
-- taskturbine-app/src/config.rs. Metrics and logging are left out.
pub mod Outcome
pub mod Loops
pub mod Sending
pub mod Idle
use taskturbine.Base.{
  ℕ, ◌+◌, ◌*◌, List, [], ◌∷◌, ◌++◌, Option, none, some, Bool, true, false, ◌&&◌, not, any, or_else,
  is_some, if◌then◌else◌,
}
use taskturbine.Base.Int.{ℤ, pos, ltb_ℤ, next_i32}
use taskturbine.Base.Text.{Text, Bytes, codes, text_eq}
use taskturbine.Models
use taskturbine.Models.{ClaimedTask, SpawnResult, claimed_next_retry_in}
use taskturbine.Sql.Session.{
  Env, Session, Result, ok, err, panic, M, raise, StorageError, validation_error, no_task_named,
}
use taskturbine.Storage.Claim.{claim_task}
use taskturbine.Storage.Finish.{complete_run, schedule_run}
use taskturbine.Storage.Fail.{fail_run}
use taskturbine.Storage.Spawn.{spawn_task, TaskOptions}
use taskturbine.Storage.Upkeep.{run_upkeep}
use taskturbine.Cache.{Checkpoints, get, new}
use taskturbine.Context.{
  C, Flow, done, stop, aborted, FlowControl, invalid_value, failure, suspend, suspended,
}

pub record AppConfig : Type 0 where
  pub database_url : Text
  pub database_log_queries : Bool
  pub usecase : Text
  pub await_event_default_timeout_secs : ℤ
  pub default_channel : Text
  pub worker_concurrency : ℤ
  pub worker_sleep_ms : ℤ
  pub worker_cleanup_limit : ℤ
  pub worker_cleanup_cutoff_secs : ℤ
  pub worker_upkeep_interval_secs : ℤ
  pub worker_upkeep_inline : Bool
  pub worker_claim_timeout_secs : ℤ
  pub worker_shutdown_on_idle : Bool
  pub worker_shutdown_idle_max : ℤ

-- Config::default of taskturbine-core/src/config.rs.
abbrev pub core_default : Models.Config
core_default = record {
  database_url = [];
  database_log_queries = false;
  usecase = codes "default";
  await_event_default_timeout_secs = pos 120;
}

-- Config::default.
abbrev pub default_config : AppConfig
default_config = record {
  database_url = core_default.database_url;
  database_log_queries = core_default.database_log_queries;
  usecase = core_default.usecase;
  await_event_default_timeout_secs = core_default.await_event_default_timeout_secs;
  default_channel = codes "default";
  worker_concurrency = pos 3;
  worker_sleep_ms = pos 100;
  worker_upkeep_inline = true;
  worker_upkeep_interval_secs = pos 10;
  worker_cleanup_cutoff_secs = pos 600;
  worker_cleanup_limit = pos 1000;
  worker_claim_timeout_secs = pos 600;
  worker_shutdown_on_idle = false;
  worker_shutdown_idle_max = pos 5;
}

-- The conversion to the storage's configuration.
abbrev pub core_config : AppConfig → Models.Config
core_config c = record {
  database_url = c.database_url;
  database_log_queries = c.database_log_queries;
  usecase = c.usecase;
  await_event_default_timeout_secs = c.await_event_default_timeout_secs;
}

-- A task function, which gets a fresh context for the claimed task.
abbrev pub TaskFn : Type 0
TaskFn = ClaimedTask → C (Option Bytes)

pub record App : Type 0 where
  pub config : AppConfig
  pub tasks : List (Text × TaskFn)
  pub channels : List Text

-- TaskturbineApp::new and with_storage, the connection aside.
unfoldable pub new_app : AppConfig → App
new_app c = record { config = c; tasks = []; channels = c.default_channel ∷ [] }

unfoldable pub has_channel : App → Text → Bool
has_channel a channel = any (text_eq channel) a.channels

unfoldable pub add_channel : App → Text → App
unfolding has_channel
add_channel a channel =
    if has_channel a channel then a else record a { channels = channel ∷ a.channels }

unfoldable pub has_task : App → Text → Bool
has_task a task_name = is_some (get (text_eq task_name) a.tasks)

-- register_task; `none` is the panic on a name that is taken.
unfoldable pub register_task : App → Text → TaskFn → Option App
unfolding has_task
register_task a task_name task_fn =
    if has_task a task_name
    then none
    else some (record a { tasks = (task_name, task_fn) ∷ a.tasks })

-- channel(…).spawn_task(…); `panic` is the panic on an unknown channel.
unfoldable pub spawn_in : App → Text → Text → Bytes → Option TaskOptions → M SpawnResult
spawn_in a channel task_name params options e s =
    if has_channel a channel
    then (if has_task a task_name
        then spawn_task channel task_name params options e s
        else (err (validation_error (no_task_named task_name)), s))
    else (panic, s)

-- TaskturbineApp::spawn_task.
unfoldable pub app_spawn_task : App → Text → Bytes → Option TaskOptions → M SpawnResult
app_spawn_task a task_name params options e s =
    if has_task a task_name
    then spawn_task a.config.default_channel task_name params options e s
    else (err (validation_error (no_task_named task_name)), s)

-- TaskContext::spawn_task of taskturbine-app/src/context.rs: the application's.
unfoldable pub context_spawn_task : App → Text → Bytes → Option TaskOptions → M SpawnResult
context_spawn_task a task_name params options = app_spawn_task a task_name params options

pub record Worker : Type 0 where
  pub app : App
  pub channels : List Text
  pub worker_id : Text
  pub claim_count : ℤ
  pub idle_count : ℤ

-- Worker::new.
unfoldable pub new_worker : App → Text → List Text → Worker
new_worker a worker_id channels = record {
  app = a;
  channels = channels;
  worker_id = worker_id;
  claim_count = a.config.worker_concurrency;
  idle_count = pos 0;
}

-- The idle counter after an answer of the storage: an atomic i32, which wraps around.
abbrev pub counted : Worker → Result (List ClaimedTask) → Worker
counted w (ok []) =
    if w.app.config.worker_shutdown_on_idle
    then record w { idle_count = next_i32 w.idle_count }
    else w
counted w (ok (t ∷ ts)) =
    if w.app.config.worker_shutdown_on_idle then record w { idle_count = pos 0 } else w
counted w (err x) = w
counted w panic = w

-- Worker::claim_tasks.
unfoldable pub claim_tasks :
    Worker → ℕ → Env → Session → Result (List ClaimedTask) × Worker × Session
claim_tasks w timeout e s =
    let (answer, s') = claim_task w.channels w.worker_id timeout w.claim_count e s in
    (answer, counted w answer, s')

unfoldable pub should_shutdown : Worker → Bool
should_shutdown w =
    w.app.config.worker_shutdown_on_idle
    && not (ltb_ℤ w.idle_count w.app.config.worker_shutdown_idle_max)

-- Worker::run_upkeep.
unfoldable pub worker_upkeep : Worker → M (Unit {0})
worker_upkeep w = run_upkeep w.app.config.worker_cleanup_limit

-- The bytes of the reason for a task that is not registered.
abbrev pub missing_reason : Text → Bytes
missing_reason task_name = codes "{\"reason\":\"No task named " ++ (task_name ++ codes "\"}")

-- Worker::fail_run.
abbrev pub worker_fail_run : ClaimedTask → Env → Session → Session
worker_fail_run t e s = (fail_run t.run_id [] (some (claimed_next_retry_in e.floats t)) e s).1

-- What the worker records of a task function's result. An error of the recording is only logged,
-- and a panic of the function ends the executor with nothing recorded.
abbrev pub recorded : ClaimedTask → Env → Flow (Option Bytes) × Checkpoints × Session → Session
recorded t e (done r, c, s) = (complete_run t.run_id (or_else r []) e s).1
recorded t e (stop (invalid_value m), c, s) = worker_fail_run t e s
recorded t e (stop (failure m), c, s) = worker_fail_run t e s
recorded t e (stop suspended, c, s) = s
recorded t e (stop (suspend wait_for), c, s) = (schedule_run t.run_id wait_for e s).1
recorded t e (aborted, c, s) = s

abbrev pub dispatched : ClaimedTask → Option TaskFn → Env → Session → Session
dispatched t none e s = (fail_run t.run_id (missing_reason t.task_name) none e s).1
dispatched t (some task_fn) e s = recorded t e (task_fn t e new s)

-- Worker::execute_task.
unfoldable pub execute_task : Worker → ClaimedTask → Env → Session → Session
execute_task w t = dispatched t (get (text_eq t.task_name) w.app.tasks)
