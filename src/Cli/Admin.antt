-- ===== src/Cli/Admin.antt =====
-- The queries of AdminStorage (taskturbine-cli/src/admin_storage.rs). The match of a task name with
-- a regular expression is the server's, a parameter.
use taskturbine.Base.{
  ℕ, Option, none, some, Bool, true, false, List, ◌&&◌, ◌||◌, ◌==◌, leb, ltb, rows_where, sort_by,
  find_first,
}
use taskturbine.Base.Int.{ℤ}
use taskturbine.Base.Text.{Text, text_eq}
use taskturbine.Models.{Uuid, Task, Run, Checkpoint, TaskState}
use taskturbine.Models.State.{state_eq}
use taskturbine.Sql.Session.{Env, M, ◌>>=◌, ask, pure, pool_fetch, sql_error}
use taskturbine.Storage.Rows.{is_task, is_run, find_task, limit_rows}
use taskturbine.Storage.Spawn.{lift_option}

pub record TaskListOptions : Type 0 where
  pub taskname : Option Text
  pub state : Option TaskState
  pub channel : Option Text
  pub limit : ℤ

pub record RunListOptions : Type 0 where
  pub task_id : Option Uuid
  pub state : Option TaskState

pub record TaskDetails : Type 0 where
  pub task : Task
  pub runs : List Run
  pub checkpoints : List Checkpoint

pub record RunDetails : Type 0 where
  pub run : Run
  pub checkpoints : List Checkpoint

-- A filter that is left out lets every row pass.
abbrev pub passes {ℓ} : {A : Type ℓ} → (A → Bool) → Option A → Bool
passes p none = true
passes p (some a) = p a

abbrev pub newest_first : ℕ → ℕ → Bool
newest_first a b = leb b a

abbrev pub own_row : Env → Option Task → Bool
own_row e none = false
own_row e (some t) = text_eq t.usecase e.config.usecase

-- `matches name pattern` is `name ~ pattern`.
module _ (matches : Text → Text → Bool) where
  abbrev pub task_selected : Env → TaskListOptions → Task → Bool
  task_selected e o t =
      text_eq t.usecase e.config.usecase
      && passes (matches t.task_name) o.taskname
      && passes (state_eq t.state) o.state
      && passes (text_eq t.channel) o.channel

  abbrev pub selected_tasks : Env → TaskListOptions → List Task → List Task
  selected_tasks e o tasks =
      sort_by (λ a b. newest_first a.created_at b.created_at) (rows_where (task_selected e o) tasks)

  unfoldable pub task_list : TaskListOptions → M (List Task)
  task_list o = do
    e ← ask
    res ← pool_fetch λ db. limit_rows o.limit (selected_tasks e o db.tasks)
    lift_option sql_error res

-- ORDER BY attempt, created_at.
abbrev pub run_order : Run → Run → Bool
run_order a b = ltb a.attempt b.attempt || (a.attempt == b.attempt && leb a.created_at b.created_at)

abbrev pub by_time : Checkpoint → Checkpoint → Bool
by_time a b = leb a.updated_at b.updated_at

-- A task that is missing, or of another usecase, is an error of the server.
unfoldable pub task_get : Uuid → M TaskDetails
task_get task_id = do
  e ← ask
  row ←
      pool_fetch
        λ db. find_first (λ t. is_task task_id t && text_eq t.usecase e.config.usecase) db.tasks
  task ← lift_option sql_error row
  runs ← pool_fetch λ db. sort_by run_order (rows_where (λ r. r.task_id == task_id) db.runs)
  checkpoints ←
      pool_fetch λ db. sort_by by_time (rows_where (λ c. c.task_id == task_id) db.checkpoints)
  pure (record { task = task; runs = runs; checkpoints = checkpoints })

abbrev pub run_selected : Env → RunListOptions → List Task → Run → Bool
run_selected e o tasks r =
    own_row e (find_task r.task_id tasks)
    && passes (λ id. r.task_id == id) o.task_id
    && passes (state_eq r.state) o.state

unfoldable pub run_list : RunListOptions → M (List Run)
run_list o = ask >>= λ e. pool_fetch λ db.
    sort_by (λ a b. newest_first a.created_at b.created_at)
      (rows_where (run_selected e o db.tasks) db.runs)

unfoldable pub run_get : Uuid → M RunDetails
run_get run_id = do
  e ← ask
  row ←
      pool_fetch
        λ db. find_first (λ r. is_run run_id r && own_row e (find_task r.task_id db.tasks)) db.runs
  run ← lift_option sql_error row
  checkpoints ←
      pool_fetch λ db. sort_by by_time (rows_where (λ c. c.owner_run_id == run_id) db.checkpoints)
  pure (record { run = run; checkpoints = checkpoints })
