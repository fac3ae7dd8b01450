-- ===== src/Storage/Helpers.antt =====
-- The helpers of taskturbine-core/src/storage.rs that the feature "test" adds. They look at no usecase
-- but get_event_row.
use taskturbine.Base.{◌==◌, List, Option, find_first, rows_where, update_where}
use taskturbine.Base.Text.{Text}
use taskturbine.Models.{Uuid, Task, Run, EventRow, TaskState}
use taskturbine.Sql.Session.{M, ◌>>=◌, ◌>>◌, ask, pool_execute, pool_fetch, sql_error}
use taskturbine.Storage.Rows.{is_task, find_run, find_task, column_is}
use taskturbine.Storage.Spawn.{lift_option}
use taskturbine.Storage.Event.{is_event}

-- Two statements of the pool: the runs of the task, and the task.
unfoldable pub set_run_state : Uuid → TaskState → M (Unit {0})
set_run_state task_id state = do
  pool_execute λ db. (
    tt,
    record db {
      runs = update_where (λ r. r.task_id == task_id) (λ r. record r { state = state }) db.runs;
    },
  )
  pool_execute λ db. (
    tt,
    record db { tasks = update_where (is_task task_id) (λ t. record t { state = state }) db.tasks },
  )

-- fetch_one: a missing row is an error.
unfoldable pub get_run : Uuid → M Run
get_run run_id = pool_fetch (λ db. find_run run_id db.runs) >>= lift_option sql_error

unfoldable pub get_task : Uuid → M Task
get_task task_id = pool_fetch (λ db. find_task task_id db.tasks) >>= lift_option sql_error

unfoldable pub get_runs_waiting : Text → M (List Run)
get_runs_waiting event_name =
    pool_fetch λ db. rows_where (λ r. column_is r.wait_event_name event_name) db.runs

unfoldable pub get_event_row : Text → M (Option EventRow)
get_event_row event_name =
    ask >>= λ e. pool_fetch λ db. find_first (is_event e.config.usecase event_name) db.events
