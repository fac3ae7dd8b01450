-- ===== src/Python/Sync.antt =====
-- AppInner, WorkerInner and ContextInner of taskturbine-python/src/lib.rs.
use taskturbine.Base.{
  ℕ, ◌*◌, ◌/◌, Option, none, some, Bool, List, [], ◌∷◌, ◌++◌, any, map, not, ◌&&◌, or_else,
  if◌then◌else◌,
}
use taskturbine.Base.Int.{ℤ, pos, ltb_ℤ, next_i32}
use taskturbine.Base.Text.{Text, Bytes, codes, text_eq}
use taskturbine.Models
use taskturbine.Models.{Uuid, second}
use taskturbine.Sql.Session.{Env, Session, Result, ok, err, panic}
use taskturbine.Storage.Rows.{as_u64}
use taskturbine.Storage.Claim.{claim_task}
use taskturbine.Storage.Finish
use taskturbine.Storage.Fail
use taskturbine.Storage.Spawn
use taskturbine.Storage.Event
use taskturbine.Storage.Upkeep
use taskturbine.Cache
use taskturbine.Cache.{Checkpoints}
use taskturbine.Python.Values.{
  UuidTexts, ClaimedTask, SpawnResult, AwaitResult, Checkpoint, UpkeepMetric, from_claimed,
  from_spawn, from_await, from_checkpoint, from_metric,
}
use taskturbine.Python.Options.{Config, TaskOptions, core_options}
use taskturbine.Python.Calls.{
  P, PyResult, returned, raised, invalid_uuid, invalid_uuid_for_task, checkpoint_not_found,
  panic_exception, value_error, storage_error, checkpoint_error, answer, call, with_uuid,
  upkeep_due,
}

pub record AppInner : Type 0 where
  pub config : Config
  pub channels : List Text

-- A set of names: an insertion of a name that is there changes nothing.
abbrev pub insert_name : Text → List Text → List Text
insert_name name names = if any (text_eq name) names then names else name ∷ names

unfoldable pub insert_names : List Text → List Text → List Text
insert_names [] set = set
insert_names (n ∷ ns) set = insert_names ns (insert_name n set)

unfoldable pub py_new : Config → AppInner
py_new config = record { config = config; channels = config.default_channel ∷ [] }

unfoldable pub add_channel : AppInner → Text → AppInner
add_channel app name = record app { channels = insert_name name app.channels }

unfoldable pub set_channels : AppInner → List Text → AppInner
set_channels app names = record app { channels = insert_names names [] }

pub record WorkerInner : Type 0 where
  pub config : Config
  pub channels : List Text
  pub worker_id : Text
  pub idle_count : ℤ

unfoldable pub create_worker : AppInner → Text → List Text → WorkerInner
create_worker app worker_id channels = record {
  config = app.config;
  channels = channels;
  worker_id = worker_id;
  idle_count = pos 0;
}

pub record ContextInner : Type 0 where
  pub claimed_task : ClaimedTask
  pub checkpoints : Checkpoints

unfoldable pub create_context : ClaimedTask → ContextInner
create_context t = record { claimed_task = t; checkpoints = Cache.new }

unfoldable pub should_run_upkeep : WorkerInner → ℤ → Env → Bool
should_run_upkeep w timestamp e =
    upkeep_due w.config.worker_upkeep_inline w.config.worker_upkeep_interval_secs
      (e.utc_now / second) timestamp

unfoldable pub should_shutdown : WorkerInner → Bool
should_shutdown w =
    w.config.worker_shutdown_on_idle && not (ltb_ℤ w.idle_count w.config.worker_shutdown_idle_max)

unfoldable pub run_upkeep : WorkerInner → P (Unit {0})
run_upkeep w = call (λ u. u) storage_error (Upkeep.run_upkeep w.config.worker_cleanup_limit)

unfoldable pub upkeep_metrics : P (List UpkeepMetric)
upkeep_metrics = call (map from_metric) storage_error Upkeep.upkeep_metrics

unfoldable pub emit_event : Text → Bytes → P (Unit {0})
emit_event event_name payload = call (λ u. u) storage_error (Event.emit_event event_name payload)

-- The idle counter after a claim that succeeded: an i32, which wraps around in a release build.
abbrev pub counted : WorkerInner → PyResult (List ClaimedTask) → WorkerInner
counted w (returned []) = record w { idle_count = next_i32 w.idle_count }
counted w (returned (t ∷ ts)) = record w { idle_count = pos 0 }
counted w (raised x) = w

abbrev pub timeout_of : Config → ℕ
timeout_of c = as_u64 c.worker_claim_timeout_secs * second

abbrev pub reason_of : Option Bytes → Bytes
reason_of o = or_else o []

module _ (texts : UuidTexts) where
  unfoldable pub channel_spawn_task : Text → Text → Bytes → TaskOptions → P SpawnResult
  channel_spawn_task channel task_name params options =
      call (from_spawn texts) storage_error
        (Spawn.spawn_task channel task_name params (some (core_options options)))

  unfoldable pub spawn_task : AppInner → Text → Bytes → TaskOptions → P SpawnResult
  spawn_task app = channel_spawn_task app.config.default_channel

  unfoldable pub claim_tasks :
      WorkerInner → Env → Session → PyResult (List ClaimedTask) × WorkerInner × Session
  claim_tasks w e s =
      let (result, s') =
        answer (map (from_claimed texts)) storage_error (
          claim_task w.channels w.worker_id (timeout_of w.config) w.config.worker_concurrency e
            s) in
      (result, counted w result, s')

  unfoldable pub fail_run : Text → Option Bytes → Option ℕ → P (Unit {0})
  fail_run run_id reason retry_at =
      with_uuid (texts.of_text run_id)
        λ id. call (λ u. u) storage_error (Fail.fail_run id (reason_of reason) retry_at)

  unfoldable pub complete_run : Text → Bytes → P (Unit {0})
  complete_run run_id run_result =
      with_uuid (texts.of_text run_id)
        λ id. call (λ u. u) storage_error (Finish.complete_run id run_result)

  unfoldable pub schedule_run : Text → ℕ → P (Unit {0})
  schedule_run run_id wait_for =
      with_uuid (texts.of_text run_id)
        λ id. call (λ u. u) storage_error (Finish.schedule_run id wait_for)

  -- generate_checkpoint_name.
  unfoldable pub generate_checkpoint_name : ContextInner → Text → Text × ContextInner
  generate_checkpoint_name x step_name =
      let (name, c) = Cache.generate_name step_name x.checkpoints in
      (name, record x { checkpoints = c })

  -- The cached checkpoint, or the exception that there is none.
  abbrev pub cached : Option Models.Checkpoint → PyResult Checkpoint
  cached (some k) = returned (from_checkpoint texts k)
  cached none = raised checkpoint_not_found

  abbrev pub read_cache :
      ContextInner → Uuid → Text → Session → PyResult Checkpoint × ContextInner × Session
  read_cache x task_id name s = (cached (Cache.get_checkpoint x.checkpoints task_id name), x, s)

  abbrev pub after_load :
      ContextInner
      → Uuid
      → Text
      → Result (List Models.Checkpoint) × Session
      → PyResult Checkpoint × ContextInner × Session
  after_load x task_id name (ok ks, s) =
      read_cache (record x { checkpoints = Cache.store task_id ks x.checkpoints }) task_id name s
  after_load x task_id name (err y, s) = (raised (checkpoint_error y), x, s)
  after_load x task_id name (panic, s) = (raised panic_exception, x, s)

  abbrev pub get_known :
      ContextInner
      → Option Uuid
      → Text
      → Env
      → Session
      → PyResult Checkpoint × ContextInner × Session
  get_known x none name e s = (raised invalid_uuid_for_task, x, s)
  get_known x (some task_id) name e s =
      if Cache.is_loaded x.checkpoints task_id
      then read_cache x task_id name s
      else after_load x task_id name (Event.get_checkpoints task_id e s)

  -- get_checkpoint reads the storage on the first call, and only then.
  unfoldable pub get_checkpoint :
      ContextInner → Text → Env → Session → PyResult Checkpoint × ContextInner × Session
  get_checkpoint x name e s = get_known x (texts.of_text x.claimed_task.task_id) name e s

  -- A checkpoint that was written is cached.
  abbrev pub written :
      ContextInner
      → Result Models.Checkpoint × Session
      → PyResult Checkpoint × ContextInner × Session
  written x (ok k, s) =
      (returned (from_checkpoint texts k), record x { checkpoints = Cache.add k x.checkpoints }, s)
  written x (err y, s) = (raised (checkpoint_error y), x, s)
  written x (panic, s) = (raised panic_exception, x, s)

  abbrev pub set_known :
      ContextInner
      → Option Uuid
      → Option Uuid
      → Text
      → Bytes
      → Option ℕ
      → Env
      → Session
      → PyResult Checkpoint × ContextInner × Session
  set_known x none run_id name state extend_claim e s = (raised invalid_uuid, x, s)
  set_known x (some task_id) none name state extend_claim e s = (raised invalid_uuid, x, s)
  set_known x (some task_id) (some run_id) name state extend_claim e s =
      written x (Event.set_checkpoint task_id run_id name state extend_claim e s)

  unfoldable pub set_checkpoint :
      ContextInner
      → Text
      → Bytes
      → Option ℕ
      → Env
      → Session
      → PyResult Checkpoint × ContextInner × Session
  set_checkpoint x name state extend_claim e s =
      set_known x (texts.of_text x.claimed_task.task_id) (texts.of_text x.claimed_task.run_id) name
        state extend_claim e s

  unfoldable pub get_event_payload : ContextInner → Text → ℕ → P AwaitResult
  get_event_payload x event_name timeout =
      with_uuid (texts.of_text x.claimed_task.task_id) λ task_id.
        with_uuid (texts.of_text x.claimed_task.run_id) λ run_id. call from_await value_error (
          Event.await_event task_id run_id (codes "$awaitEvent:" ++ event_name) event_name
            (some timeout))
