-- ===== src/Storage/Event.antt =====
-- Checkpoints and events: get_checkpoint, get_checkpoints, set_checkpoint, await_event and
-- emit_event of taskturbine-core/src/storage.rs.
use taskturbine.Base.{
  ℕ, ◌+◌, ◌*◌, ◌/◌, List, [], ◌∷◌, Option, none, some, Bool, true, false, ◌&&◌, ◌==◌, leb, any,
  find_first, rows_where, update_where, sort_by, or_else, if◌then◌else◌,
}
use taskturbine.Base.Text.{Text, Bytes, text_eq}
use taskturbine.Models.{Uuid, Task, Run, Checkpoint, EventRow, pending, second}
use taskturbine.Sql.Session.{
  Db, Env, M, ◌>>=◌, ◌>>◌, ask, pure, not_running, begin, commit, try_rollback, execute, fetch,
  pool_execute, pool_fetch,
}
use taskturbine.Storage.Rows.{
  is_run, find_task, is_running, column_is, as_u64, get_locked_run_state, find_checkpoint,
  store_checkpoint,
}
use taskturbine.Storage.Finish.{suspend_run, try_rollback_unless}

unfoldable pub get_checkpoint : Uuid → Text → M (Option Checkpoint)
get_checkpoint task_id step_name = pool_fetch λ db. find_checkpoint task_id step_name db.checkpoints

-- ORDER BY updated_at.
unfoldable pub get_checkpoints : Uuid → M (List Checkpoint)
get_checkpoints task_id = pool_fetch λ db.
    sort_by (λ a b. leb a.updated_at b.updated_at)
      (rows_where (λ c. c.task_id == task_id) db.checkpoints)

-- COALESCE(claim_expires_at, NOW()) + the whole seconds of the extension.
abbrev pub extended_run : Env → ℕ → Run → Run
extended_run e extension r = record r {
  claim_expires_at = some (or_else r.claim_expires_at e.now + extension / second * second);
}

-- The extension runs on the pool, not in the transaction.
abbrev pub extend_on_pool : Uuid → Option ℕ → M (Unit {0})
extend_on_pool run_id none = pure tt
extend_on_pool run_id (some extension) = ask >>= λ e.
    pool_execute λ db.
      (tt, record db { runs = update_where (is_run run_id) (extended_run e extension) db.runs })

unfoldable pub set_checkpoint : Uuid → Uuid → Text → Bytes → Option ℕ → M Checkpoint
set_checkpoint task_id run_id step_name state extend_claim = do
  begin
  checkpoint ← store_checkpoint task_id run_id step_name state
  extend_on_pool run_id extend_claim
  commit
  pure checkpoint

pub record AwaitResult : Type 0 where
  pub payload : Bytes
  pub should_suspend : Bool

abbrev pub is_event : Text → Text → EventRow → Bool
is_event usecase event_name v = text_eq v.usecase usecase && text_eq v.event_name event_name

-- The sentinel: INSERT … ON CONFLICT DO NOTHING.
abbrev pub insert_sentinel : Env → Text → List EventRow → List EventRow
insert_sentinel e event_name events =
    if any (is_event e.config.usecase event_name) events
    then events
    else record {
      usecase = e.config.usecase;
      event_name = event_name;
      payload = none;
      created_at = e.now;
    }
      ∷ events

abbrev event_payload : Option EventRow → Option Bytes
event_payload none = none
event_payload (some v) = v.payload

-- get_event, on the table: a missing row and a null payload are the same.
abbrev pub payload_of : Text → Text → List EventRow → Option Bytes
payload_of usecase event_name events =
    event_payload (find_first (is_event usecase event_name) events)

abbrev pub get_event : Text → M (Option Bytes)
get_event event_name = ask >>= λ e. fetch λ db. payload_of e.config.usecase event_name db.events

-- The end of await_event: with a payload the wait is over, and without one the run sleeps.
unfoldable pub deliver : Uuid → Uuid → Text → Text → Option ℕ → Option Bytes → M AwaitResult
deliver task_id run_id step_name event_name timeout (some payload) = do
  stored ← store_checkpoint task_id run_id step_name payload
  commit
  pure (record { payload = payload; should_suspend = false })
deliver task_id run_id step_name event_name timeout none = do
  e ← ask
  let wait_for = or_else timeout (as_u64 e.config.await_event_default_timeout_secs * second)
  suspend_run task_id run_id wait_for (some event_name)
  commit
  pure (record { payload = []; should_suspend = true })

-- The rest of await_event, where the step has no checkpoint yet.
unfoldable pub await_new : Uuid → Uuid → Text → Text → Option ℕ → M AwaitResult
await_new task_id run_id step_name event_name timeout = do
  e ← ask
  execute λ db. record db { events = insert_sentinel e event_name db.events }
  event ← get_event event_name
  run_row ← get_locked_run_state run_id
  try_rollback_unless (is_running run_row.state) (not_running run_id)
  deliver task_id run_id step_name event_name timeout event

abbrev pub on_checkpoint : Option Checkpoint → M AwaitResult → M AwaitResult
on_checkpoint none rest = rest
on_checkpoint (some c) rest =
    try_rollback >> pure (record { payload = c.state; should_suspend = false })

unfoldable pub await_event : Uuid → Uuid → Text → Text → Option ℕ → M AwaitResult
await_event task_id run_id step_name event_name timeout = do
  begin
  checkpoint_opt ← fetch λ db. find_checkpoint task_id step_name db.checkpoints
  on_checkpoint checkpoint_opt (await_new task_id run_id step_name event_name timeout)

-- INSERT … ON CONFLICT (usecase, event_name) DO UPDATE.
unfoldable pub upsert_event : EventRow → List EventRow → List EventRow
upsert_event v [] = v ∷ []
upsert_event v (w ∷ ws) =
    if is_event v.usecase v.event_name w
    then record w { payload = v.payload; created_at = v.created_at } ∷ ws
    else w ∷ upsert_event v ws

abbrev pub of_usecase : Env → Option Task → Bool
of_usecase e none = false
of_usecase e (some t) = text_eq t.usecase e.config.usecase

-- matching_waits: no condition on the state of the run.
abbrev pub waits_for : Env → Text → List Task → Run → Bool
waits_for e event_name tasks r =
    column_is r.wait_event_name event_name && of_usecase e (find_task r.task_id tasks)

-- SET of the woken runs.
abbrev pub woken_run : Env → Run → Run
woken_run e r = record r {
  state = pending;
  available_at = e.now;
  claimed_by = none;
  wait_event_name = none;
  claim_expires_at = none;
}

abbrev pub pending_task : Task → Task
pending_task t = record t { state = pending }

-- The statement that wakes the waiting runs and their tasks.
unfoldable pub wake : Env → Text → Db → Db
wake e event_name db = record db {
  runs = update_where (waits_for e event_name db.tasks) (woken_run e) db.runs;
  tasks =
      update_where
        (λ t.
          any (λ r. r.task_id == t.task_id) (rows_where (waits_for e event_name db.tasks) db.runs))
        pending_task db.tasks;
}

unfoldable pub emit_event : Text → Bytes → M (Unit {0})
emit_event event_name payload = do
  begin
  e ← ask
  execute λ db. record db {
    events =
        upsert_event
          (record {
            usecase = e.config.usecase;
            event_name = event_name;
            payload = some payload;
            created_at = e.now;
          })
          db.events;
  }
  execute (wake e event_name)
  commit
