-- ===== src/Python/Async.antt =====
-- AsyncAppInner, AsyncWorkerInner and AsyncContextInner of taskturbine-python/src/asynclib.rs. A
-- method returns a future, which stands here for what it does when it is awaited; identifiers are
-- parsed before there is a future, which makes no difference to the caller's exception.
use taskturbine.Base.{◌*◌, ◌/◌, Option, none, some, Bool, List, [], ◌∷◌, ◌++◌, map, or_else, ℕ}
use taskturbine.Base.Int.{ℤ}
use taskturbine.Base.Text.{Text, Bytes, codes}
use taskturbine.Models
use taskturbine.Models.{Uuid, second}
use taskturbine.Sql.Session.{Env, Session, Result, ok, err, panic}
use taskturbine.Storage.Rows.{as_u64}
use taskturbine.Storage.Claim.{claim_task}
use taskturbine.Storage.Finish
use taskturbine.Storage.Fail
use taskturbine.Storage.Spawn
use taskturbine.Storage.Event
use taskturbine.Storage.Upkeep
use taskturbine.Cache
use taskturbine.Cache.{Checkpoints}
use taskturbine.Python.Values.{
  UuidTexts, ClaimedTask, SpawnResult, AwaitResult, Checkpoint, UpkeepMetric, from_claimed,
  from_spawn, from_await, from_checkpoint, from_metric,
}
use taskturbine.Python.Options.{Config, TaskOptions, core_options}
use taskturbine.Python.Calls.{
  P, PyResult, returned, raised, invalid_uuid, checkpoint_not_found_or_failed, panic_exception,
  storage_error, checkpoint_error, call, with_uuid, upkeep_due,
}
use taskturbine.Python.Sync.{insert_name, insert_names}

pub record AsyncAppInner : Type 0 where
  pub config : Config
  pub channels : List Text

unfoldable pub py_new : Config → AsyncAppInner
py_new config = record { config = config; channels = config.default_channel ∷ [] }

unfoldable pub add_channel : AsyncAppInner → Text → AsyncAppInner
add_channel app value = record app { channels = insert_name value app.channels }

unfoldable pub set_channels : AsyncAppInner → List Text → AsyncAppInner
set_channels app names = record app { channels = insert_names names [] }

pub record AsyncWorkerInner : Type 0 where
  pub config : Config
  pub channels : List Text
  pub worker_id : Text

unfoldable pub create_worker : AsyncAppInner → Text → List Text → AsyncWorkerInner
create_worker app worker_id channels = record {
  config = app.config;
  channels = channels;
  worker_id = worker_id;
}

pub record AsyncContextInner : Type 0 where
  pub claimed_task : ClaimedTask
  pub checkpoints : Checkpoints

unfoldable pub create_context : ClaimedTask → AsyncContextInner
create_context t = record { claimed_task = t; checkpoints = Cache.new }

unfoldable pub should_run_upkeep : AsyncWorkerInner → ℤ → Env → Bool
should_run_upkeep w timestamp e =
    upkeep_due w.config.worker_upkeep_inline w.config.worker_upkeep_interval_secs
      (e.utc_now / second) timestamp

unfoldable pub run_upkeep : AsyncWorkerInner → P (Unit {0})
run_upkeep w = call (λ u. u) storage_error (Upkeep.run_upkeep w.config.worker_cleanup_limit)

unfoldable pub upkeep_metrics : P (List UpkeepMetric)
upkeep_metrics = call (map from_metric) storage_error Upkeep.upkeep_metrics

unfoldable pub emit_event : Text → Bytes → P (Unit {0})
emit_event event_name payload = call (λ u. u) storage_error (Event.emit_event event_name payload)

module _ (texts : UuidTexts) where
  unfoldable pub channel_spawn_task : Text → Text → Bytes → TaskOptions → P SpawnResult
  channel_spawn_task channel task_name params options =
      call (from_spawn texts) storage_error
        (Spawn.spawn_task channel task_name params (some (core_options options)))

  unfoldable pub spawn_task : AsyncAppInner → Text → Bytes → TaskOptions → P SpawnResult
  spawn_task app = channel_spawn_task app.config.default_channel

  unfoldable pub claim_tasks : AsyncWorkerInner → P (List ClaimedTask)
  claim_tasks w = call (map (from_claimed texts)) storage_error (
      claim_task w.channels w.worker_id (as_u64 w.config.worker_claim_timeout_secs * second)
        w.config.worker_concurrency)

  unfoldable pub fail_run : Text → Option Bytes → Option ℕ → P (Unit {0})
  fail_run run_id reason retry_at =
      with_uuid (texts.of_text run_id)
        λ id. call (λ u. u) storage_error (Fail.fail_run id (or_else reason []) retry_at)

  unfoldable pub complete_run : Text → Bytes → P (Unit {0})
  complete_run run_id run_result =
      with_uuid (texts.of_text run_id)
        λ id. call (λ u. u) storage_error (Finish.complete_run id run_result)

  unfoldable pub schedule_run : Text → ℕ → P (Unit {0})
  schedule_run run_id wait_for =
      with_uuid (texts.of_text run_id)
        λ id. call (λ u. u) storage_error (Finish.schedule_run id wait_for)

  unfoldable pub generate_checkpoint_name : AsyncContextInner → Text → Text × AsyncContextInner
  generate_checkpoint_name x step_name =
      let (name, c) = Cache.generate_name step_name x.checkpoints in
      (name, record x { checkpoints = c })

  -- What the storage says of a checkpoint that is not cached: an error is as no checkpoint.
  abbrev pub stored : Result (Option Models.Checkpoint) × Session → PyResult Checkpoint × Session
  stored (ok (some k), s) = (returned (from_checkpoint texts k), s)
  stored (ok none, s) = (raised checkpoint_not_found_or_failed, s)
  stored (err y, s) = (raised checkpoint_not_found_or_failed, s)
  stored (panic, s) = (raised panic_exception, s)

  abbrev pub or_stored : Option Models.Checkpoint → Uuid → Text → P Checkpoint
  or_stored (some k) task_id name e s = (returned (from_checkpoint texts k), s)
  or_stored none task_id name e s = stored (Event.get_checkpoint task_id name e s)

  -- get_checkpoint asks the storage for each checkpoint that is not cached, and caches no answer.
  unfoldable pub get_checkpoint : AsyncContextInner → Text → P Checkpoint
  get_checkpoint x name =
      with_uuid (texts.of_text x.claimed_task.task_id)
        λ task_id. or_stored (Cache.get_checkpoint x.checkpoints task_id name) task_id name

  abbrev pub written :
      AsyncContextInner
      → Result Models.Checkpoint × Session
      → PyResult Checkpoint × AsyncContextInner × Session
  written x (ok k, s) =
      (returned (from_checkpoint texts k), record x { checkpoints = Cache.add k x.checkpoints }, s)
  written x (err y, s) = (raised (checkpoint_error y), x, s)
  written x (panic, s) = (raised panic_exception, x, s)

  abbrev pub set_known :
      AsyncContextInner
      → Option Uuid
      → Option Uuid
      → Text
      → Bytes
      → Option ℕ
      → Env
      → Session
      → PyResult Checkpoint × AsyncContextInner × Session
  set_known x none run_id name state extend_claim e s = (raised invalid_uuid, x, s)
  set_known x (some task_id) none name state extend_claim e s = (raised invalid_uuid, x, s)
  set_known x (some task_id) (some run_id) name state extend_claim e s =
      written x (Event.set_checkpoint task_id run_id name state extend_claim e s)

  unfoldable pub set_checkpoint :
      AsyncContextInner
      → Text
      → Bytes
      → Option ℕ
      → Env
      → Session
      → PyResult Checkpoint × AsyncContextInner × Session
  set_checkpoint x name state extend_claim e s =
      set_known x (texts.of_text x.claimed_task.task_id) (texts.of_text x.claimed_task.run_id) name
        state extend_claim e s

  unfoldable pub get_event_payload : AsyncContextInner → Text → ℕ → P AwaitResult
  get_event_payload x event_name timeout =
      with_uuid (texts.of_text x.claimed_task.task_id) λ task_id.
        with_uuid (texts.of_text x.claimed_task.run_id) λ run_id. call from_await storage_error (
          Event.await_event task_id run_id (codes "$awaitEvent:" ++ event_name) event_name
            (some timeout))
