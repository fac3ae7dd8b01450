-- ===== src/Storage/Finish.antt =====
-- complete_run, cancel_task, suspend_run and schedule_run of taskturbine-core/src/storage.rs.
use taskturbine.Base.{
  ℕ, ◌+◌, List, [], Option, none, some, Bool, true, false, ◌&&◌, not, ◌==◌, update_where, or_else,
}
use taskturbine.Base.Text.{Text, Bytes}
use taskturbine.Models.{Uuid, Task, Run, sleeping, completed, cancelled}
use taskturbine.Sql.Session.{
  Db, Env, M, ◌>>=◌, ◌>>◌, ask, raise, pure, StorageError, not_running, validation_error,
  currently_running, begin, commit, rollback, try_rollback, execute, execute_checked,
}
use taskturbine.Storage.Rows.{
  is_run, is_task, find_task, is_running, is_completed, get_locked_run_state, get_locked_task,
}

-- `if refused { atomic.rollback().await?; return Err(x) }`.
abbrev pub rollback_unless : Bool → StorageError → M (Unit {0})
rollback_unless true x = pure tt
rollback_unless false x = rollback >> raise x

-- The same, where the rollback's own failure is ignored.
abbrev pub try_rollback_unless : Bool → StorageError → M (Unit {0})
try_rollback_unless true x = pure tt
try_rollback_unless false x = try_rollback >> raise x

-- SET of the run in complete_run.
abbrev pub completed_run : Env → Bytes → Run → Run
completed_run e run_result r = record r {
  state = completed;
  completed_at = some e.now;
  wait_event_name = none;
  result = some run_result;
}

-- SET of the task in complete_run.
abbrev pub completed_task : Env → Uuid → Task → Task
completed_task e run_id t = record t {
  state = completed;
  last_attempt_run = some run_id;
  completed_at = some e.now;
}

unfoldable pub complete_run : Uuid → Bytes → M (Unit {0})
complete_run run_id run_result = do
  begin
  e ← ask
  run_row ← get_locked_run_state run_id
  rollback_unless (is_running run_row.state) (not_running run_id)
  execute
      λ db. record db { runs = update_where (is_run run_id) (completed_run e run_result) db.runs }
  execute λ db. record db {
    tasks = update_where (is_task run_row.task_id) (completed_task e run_id) db.tasks;
  }
  commit

-- WHERE and SET of the runs in cancel_task.
abbrev pub run_of_task : Uuid → Run → Bool
run_of_task task_id r = r.task_id == task_id && not (is_completed r.state)

abbrev pub cancelled_run : Env → Bytes → Run → Run
cancelled_run e reason r = record r {
  state = cancelled;
  completed_at = some e.now;
  failure_reason = some reason;
}

abbrev pub cancelled_task : Env → Task → Task
cancelled_task e t = record t { state = cancelled; completed_at = some e.now }

abbrev pub with_row : Option Task → Db → Option (Task × Db)
with_row none db = none
with_row (some t) db = some (t, db)

-- The statement of cancel_task, which returns the updated task.
abbrev pub cancel_statement : Env → Uuid → Bytes → Db → Option (Task × Db)
cancel_statement e task_id reason db =
    let tasks : List Task = update_where (is_task task_id) (cancelled_task e) db.tasks in
    with_row (find_task task_id tasks) (record db {
      tasks = tasks;
      runs = update_where (run_of_task task_id) (cancelled_run e reason) db.runs;
    })

unfoldable pub cancel_task : Uuid → Option Bytes → M Task
cancel_task task_id reason = do
  begin
  e ← ask
  task ← get_locked_task task_id
  rollback_unless (not (is_running task.state)) (validation_error currently_running)
  row ← execute_checked (cancel_statement e task_id (or_else reason []))
  commit
  pure row

-- SET of the run in suspend_run.
abbrev pub suspended_run : ℕ → Option Text → Run → Run
suspended_run available_at wait_event_name r = record r {
  state = sleeping;
  claimed_by = none;
  claim_expires_at = none;
  available_at = available_at;
  wait_event_name = wait_event_name;
}

abbrev pub sleeping_task : Task → Task
sleeping_task t = record t { state = sleeping }

unfoldable pub suspend_run : Uuid → Uuid → ℕ → Option Text → M (Unit {0})
suspend_run task_id run_id available_in wait_event_name = do
  e ← ask
  let available_at = e.utc_now + available_in
  execute λ db. record db {
    runs = update_where (is_run run_id) (suspended_run available_at wait_event_name) db.runs;
    tasks = update_where (is_task task_id) sleeping_task db.tasks;
  }

unfoldable pub schedule_run : Uuid → ℕ → M (Unit {0})
schedule_run run_id wait_for = do
  begin
  run ← get_locked_run_state run_id
  try_rollback_unless (is_running run.state) (not_running run_id)
  suspend_run run.task_id run_id wait_for none
  commit
