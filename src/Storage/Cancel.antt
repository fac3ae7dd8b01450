-- ===== src/Storage/Cancel.antt =====
-- What cancel_task does (taskturbine-core/src/storage.rs).
use taskturbine.Base.{◌≡◌, Option, [], or_else, update_where, arith}
use taskturbine.Base.Text.{Bytes}
use taskturbine.Models.{Uuid, Task}
use taskturbine.Sql.Session.{Env, Session, ok, effects}
use taskturbine.Storage.Rows.{is_task}
use taskturbine.Storage.Finish.{cancel_task, run_of_task, cancelled_run, cancelled_task}

-- Under any failing statements, a cancel_task that succeeds cancels the rows of the task, and every
-- run of it that is not completed, with the reason; nothing else changes.
pub cancel_task-written :
    (e : Env) (s : Session) (task_id : Uuid) (reason : Option Bytes) (t : Task)
    → (cancel_task task_id reason e s).0 ≡ ok t
    → (cancel_task task_id reason e s).1.store ≡ record s.store {
      tasks = update_where (is_task task_id) (cancelled_task e) s.store.tasks;
      runs = update_where (run_of_task task_id) (cancelled_run e (or_else reason [])) s.store.runs;
    }
unfolding cancel_task effects
cancel_task-written e s task_id reason t h = ground arith
