-- ===== src/Storage/Fail.antt =====
-- do_fail_run, fail_run and handle_expired_claims of taskturbine-core/src/storage.rs.
use taskturbine.Base.{
  ℕ, ◌+◌, ◌*◌, List, [], ◌∷◌, Option, none, some, Bool, true, false, ◌&&◌, ◌||◌, not, leb, ltb,
  length, rows_where, update_where, or_else, coalesce, if◌then◌else◌,
}
use taskturbine.Base.Int.{ℤ, pos, pos_part, leb_ℤ, ltb_ℤ}
use taskturbine.Base.Text.{Bytes, text_eq, codes}
use taskturbine.Models.{
  TaskState, Uuid, Task, Run, pending, running, sleeping, failed, cancelled, second,
  task_next_retry_in,
}
use taskturbine.Sql.Session.{
  Env, M, ◌>>=◌, ◌>>◌, ask, guard, pure, sql_error, not_running, now_v7, begin, commit, execute,
  execute_checked, fetch_one,
}
use taskturbine.Storage.Rows.{
  is_run, is_task, find_task, is_active, get_locked_run_state, get_locked_task, new_run, insert_run,
  limit_rows,
}

-- The states of a run that fail_run accepts.
abbrev pub is_failable : TaskState → Bool
is_failable running = true
is_failable sleeping = true
is_failable _ = false

-- SET of the failed run.
abbrev pub failed_run : Env → Bytes → Run → Run
failed_run e reason r = record r {
  state = failed;
  completed_at = some e.now;
  failure_reason = some reason;
  wait_event_name = none;
}

-- The retry would come at or after the task's maximum age; an age of 0 or less is no limit.
abbrev pub too_old : Task → ℕ → Bool
too_old t next_available_at =
    ltb_ℤ (pos 0) t.cancellation_max_age
    && leb (t.created_at + pos_part t.cancellation_max_age * second) next_available_at

-- The branch of a retry that is due too late.
abbrev pub expired_task : Env → Uuid → Task → Task
expired_task e run_id t = record t {
  attempts = t.attempts + 1;
  last_attempt_run = some run_id;
  state = cancelled;
  completed_at = some e.utc_now;
}

abbrev pub retry_state : Env → ℕ → TaskState
retry_state e next_available_at = if ltb e.utc_now next_available_at then sleeping else pending

-- The branch of a retry that is scheduled.
abbrev pub retried_task : Env → Uuid → ℕ → Task → Task
retried_task e run_id next_available_at t = record t {
  attempts = t.attempts + 1;
  last_attempt_run = some run_id;
  completed_at = none;
  state = retry_state e next_available_at;
}

-- The INSERT of the next attempt's run.
abbrev pub schedule_retry : Uuid → ℕ → Task → M Task
schedule_retry run_id next_available_at t = do
  e ← ask
  next_id ← now_v7
  execute_checked (
      insert_run (
        new_run e next_id t.task_id (t.attempts + 1) (retry_state e next_available_at)
          next_available_at))
  pure (retried_task e run_id next_available_at t)

-- The task after the failure, and the retry where attempts are left. A duration is not negative,
-- so the test of `next_available_at` against `now` never holds.
unfoldable pub next_attempt : Uuid → Option ℕ → Task → M Task
next_attempt run_id retry_in t = ask >>= λ e.
    let next_available_at = e.utc_now + or_else retry_in (task_next_retry_in e.floats t) in
    if leb_ℤ (pos (t.attempts + 1)) t.max_attempts
    then (if too_old t next_available_at
        then pure (expired_task e run_id t)
        else schedule_retry run_id next_available_at t)
    else pure t

-- SET of the task at the end of do_fail_run.
abbrev pub update_task : Task → Task → Task
update_task t row = record row {
  state = t.state;
  attempts = t.attempts;
  last_attempt_run = t.last_attempt_run;
  completed_at = coalesce row.completed_at t.completed_at;
}

unfoldable pub do_fail_run : Uuid → Bytes → Option ℕ → Bool → M (Unit {0})
do_fail_run run_id reason retry_in validate_running = do
  e ← ask
  run_row ← get_locked_run_state run_id
  guard (not validate_running || is_failable run_row.state) (not_running run_id)
  task ← get_locked_task run_row.task_id
  execute λ db. record db { runs = update_where (is_run run_id) (failed_run e reason) db.runs }
  updated ← next_attempt run_id retry_in task
  execute λ db. record db {
    tasks = update_where (is_task updated.task_id) (update_task updated) db.tasks;
  }

unfoldable pub fail_run : Uuid → Bytes → Option ℕ → M (Unit {0})
fail_run run_id reason retry_at = do begin; do_fail_run run_id reason retry_at true; commit

-- `<= NOW()` on a nullable column.
abbrev pub is_past : Env → Option ℕ → Bool
is_past e none = false
is_past e (some t) = leb t e.now

abbrev pub in_usecase : Env → Option Task → Bool
in_usecase e none = false
in_usecase e (some t) = text_eq t.usecase e.config.usecase

-- WHERE of the expired claims.
abbrev pub claim_expired : Env → List Task → Run → Bool
claim_expired e tasks r =
    is_past e r.claim_expires_at && in_usecase e (find_task r.task_id tasks) && is_active r.state

abbrev pub claim_timeout_reason : Bytes
claim_timeout_reason = codes "{\"reason\":\"claim timeout\"}"

-- The loop over the expired claims.
unfoldable pub fail_expired : List Run → M (Unit {0})
fail_expired [] = pure tt
fail_expired (r ∷ rs) =
    do_fail_run r.run_id claim_timeout_reason none false >>= λ _. fail_expired rs

unfoldable pub handle_expired_claims : ℤ → M ℕ
handle_expired_claims cleanup_limit = do
  begin
  e ← ask
  res ←
      fetch_one sql_error
        λ db. limit_rows cleanup_limit (rows_where (claim_expired e db.tasks) db.runs)
  fail_expired res
  commit
  pure (length res)
