-- ===== src/Storage/Rows.antt =====
-- The parts that the methods share: tests on rows, the locking reads, LIMIT, and the checkpoint
-- upsert (taskturbine-core/src/storage.rs).
use taskturbine.Base.{
  ℕ, ◌+◌, ◌-◌, ◌^◌, List, [], ◌∷◌, Option, none, some, Bool, true, false, ◌&&◌, ◌==◌, take, any,
  find_first, if◌then◌else◌,
}
use taskturbine.Base.Int.{ℤ, pos, negsuc}
use taskturbine.Base.Text.{Text, Bytes, text_eq}
use taskturbine.Models.{
  TaskState, pending, running, sleeping, completed, failed, cancelled, Uuid, Task, Run, Checkpoint,
}
use taskturbine.Sql.Session.{Db, Env, not_found, M, ◌>>=◌, ask, fetch_one, execute_checked}

abbrev pub is_run : Uuid → Run → Bool
is_run id r = r.run_id == id

abbrev pub is_task : Uuid → Task → Bool
is_task id t = t.task_id == id

abbrev pub find_run : Uuid → List Run → Option Run
find_run id = find_first (is_run id)

abbrev pub find_task : Uuid → List Task → Option Task
find_task id = find_first (is_task id)

-- state IN ('pending', 'sleeping').
abbrev pub is_waiting : TaskState → Bool
is_waiting pending = true
is_waiting sleeping = true
is_waiting _ = false

-- state IN ('running', 'pending', 'sleeping').
abbrev pub is_active : TaskState → Bool
is_active running = true
is_active pending = true
is_active sleeping = true
is_active _ = false

-- state = 'running'.
abbrev pub is_running : TaskState → Bool
is_running running = true
is_running _ = false

-- state = 'completed'.
abbrev pub is_completed : TaskState → Bool
is_completed completed = true
is_completed _ = false

-- Completed, failed or cancelled.
abbrev pub is_finished : TaskState → Bool
is_finished completed = true
is_finished failed = true
is_finished cancelled = true
is_finished _ = false

-- `=` on a nullable text column: NULL equals nothing.
abbrev pub column_is : Option Text → Text → Bool
column_is none t = false
column_is (some s) t = text_eq s t

-- LIMIT: the server refuses a negative one.
abbrev pub limit_rows {ℓ} : {A : Type ℓ} → ℤ → List A → Option (List A)
limit_rows (pos n) xs = some (take n xs)
limit_rows (negsuc n) xs = none

-- `as u64` of an i32.
abbrev pub as_u64 : ℤ → ℕ
as_u64 (pos n) = n
as_u64 (negsuc n) = 2 ^ 64 - (n + 1)

-- get_locked_run_state.
abbrev pub get_locked_run_state : Uuid → M Run
get_locked_run_state run_id = fetch_one (not_found run_id) λ db. find_run run_id db.runs

-- get_locked_task.
abbrev pub get_locked_task : Uuid → M Task
get_locked_task task_id = ask >>= λ e.
    fetch_one (not_found task_id)
      λ db. find_first (λ t. is_task task_id t && text_eq t.usecase e.config.usecase) db.tasks

-- INSERT INTO runs: the primary key refuses a second row with the id.
abbrev pub insert_run : Run → Db → Option (Unit {0} × Db)
insert_run r db =
    if any (is_run r.run_id) db.runs then none else some (tt, record db { runs = r ∷ db.runs })

-- The row that an INSERT of a run gives, with the columns that it leaves out.
abbrev pub new_run : Env → Uuid → Uuid → ℕ → TaskState → ℕ → Run
new_run e run_id task_id attempt state available_at = record {
  run_id = run_id;
  task_id = task_id;
  attempt = attempt;
  state = state;
  claimed_by = none;
  claim_expires_at = none;
  available_at = available_at;
  started_at = none;
  completed_at = none;
  result = none;
  failure_reason = none;
  created_at = e.now;
  wait_event_name = none;
}

abbrev pub is_checkpoint : Uuid → Text → Checkpoint → Bool
is_checkpoint task_id step_name c = c.task_id == task_id && text_eq c.step_name step_name

abbrev pub find_checkpoint : Uuid → Text → List Checkpoint → Option Checkpoint
find_checkpoint task_id step_name = find_first (is_checkpoint task_id step_name)

-- INSERT … ON CONFLICT (task_id, step_name) DO UPDATE.
unfoldable pub upsert_checkpoint : Checkpoint → List Checkpoint → List Checkpoint
upsert_checkpoint c [] = c ∷ []
upsert_checkpoint c (d ∷ ds) =
    if is_checkpoint c.task_id c.step_name d
    then record d { owner_run_id = c.owner_run_id; state = c.state; updated_at = c.updated_at } ∷ ds
    else d ∷ upsert_checkpoint c ds

abbrev pub put_checkpoint : Checkpoint → Db → Checkpoint × Db
put_checkpoint c db = (c, record db { checkpoints = upsert_checkpoint c db.checkpoints })

-- store_checkpoint. RETURNING * is the row as written, since the upsert sets every column.
unfoldable pub store_checkpoint : Uuid → Uuid → Text → Bytes → M Checkpoint
store_checkpoint task_id run_id step_name state = ask >>= λ e.
    let c : Checkpoint = record {
      task_id = task_id;
      step_name = step_name;
      state = state;
      owner_run_id = run_id;
      updated_at = e.now;
    } in
    execute_checked (λ db. some (put_checkpoint c db))
