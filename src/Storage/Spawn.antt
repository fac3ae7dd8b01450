-- ===== src/Storage/Spawn.antt =====
-- TaskOptions and spawn_task of taskturbine-core/src/storage.rs.
use taskturbine.Base.{
  ℕ, List, [], ◌∷◌, Option, none, some, Bool, false, ◌&&◌, not, ◌==◌, any, find_first, or_else,
  if◌then◌else◌,
}
use taskturbine.Base.Int.{ℤ, pos}
use taskturbine.Base.Text.{Text, Bytes, text_eq}
use taskturbine.Models.{Uuid, Task, SpawnResult, pending}
use taskturbine.Sql.Session.{
  Db, Env, M, ◌>>=◌, ◌>>◌, ask, guard, pure, raise, StorageError, encode_error, validation_error,
  retry_factor_too_small, duplicate_spawn, now_v7, begin, commit, execute_checked,
}
use taskturbine.Storage.Rows.{is_task, new_run, insert_run, column_is}

-- `retry_factor` is the bit pattern of an f64.
pub record TaskOptions : Type 0 where
  pub idempotency_key : Option Text
  pub headers : List (Text × Text)
  pub max_attempts : ℤ
  pub retry_seconds : ℤ
  pub retry_factor : ℕ
  pub retry_max_seconds : ℤ
  pub cancellation_max_age : ℤ

-- Default::default; 2.0 has the pattern 0x4000000000000000.
abbrev pub default_options : TaskOptions
default_options = record {
  idempotency_key = none;
  headers = [];
  max_attempts = pos 5;
  retry_seconds = pos 10;
  retry_factor = 0x4000000000000000;
  retry_max_seconds = pos 300;
  cancellation_max_age = pos 86400;
}

abbrev pub lift_option {ℓ} : {A : Type ℓ} → StorageError → Option A → M A
lift_option x none = raise x
lift_option x (some a) = pure a

-- The row that the INSERT gives.
abbrev pub new_task : Env → Uuid → Text → Text → Bytes → Bytes → TaskOptions → Task
new_task e task_id channel task_name params headers o = record {
  task_id = task_id;
  usecase = e.config.usecase;
  channel = channel;
  task_name = task_name;
  params = params;
  headers = headers;
  idempotency_key = o.idempotency_key;
  retry_seconds = o.retry_seconds;
  retry_factor = e.floats.narrow o.retry_factor;
  retry_max_seconds = o.retry_max_seconds;
  attempts = 0;
  max_attempts = o.max_attempts;
  cancellation_max_age = o.cancellation_max_age;
  created_at = e.now;
  first_started_at = none;
  state = pending;
  last_attempt_run = none;
  completed_at = none;
}

abbrev same_key : Option Text → Option Text → Bool
same_key a none = false
same_key a (some k) = column_is a k

-- The rows that conflict on (task_name, idempotency_key); a null key conflicts with none.
abbrev pub conflicts : Task → Task → Bool
conflicts t row =
    text_eq row.task_name t.task_name && same_key row.idempotency_key t.idempotency_key

abbrev insert_new : Task → Db → Option (Uuid × Db)
insert_new t db =
    if any (is_task t.task_id) db.tasks
    then none
    else some (t.task_id, record db { tasks = t ∷ db.tasks })

abbrev insert_or_conflict : Task → Db → Option Task → Option (Uuid × Db)
insert_or_conflict t db (some row) = some (row.task_id, db)
insert_or_conflict t db none = insert_new t db

-- INSERT … ON CONFLICT DO UPDATE (which sets the name to itself) RETURNING task_id. The primary
-- key refuses a second row with the id.
abbrev pub insert_task : Task → Db → Option (Uuid × Db)
insert_task t db = insert_or_conflict t db (find_first (conflicts t) db.tasks)

unfoldable pub spawn_task : Text → Text → Bytes → Option TaskOptions → M SpawnResult
spawn_task channel task_name params options = do
  e ← ask
  let o = or_else options default_options
  header_json ← lift_option encode_error (e.to_json o.headers)
  guard (not (e.floats.lt_one o.retry_factor)) (validation_error retry_factor_too_small)
  begin
  task_id ← now_v7
  spawned ←
      execute_checked (insert_task (new_task e task_id channel task_name params header_json o))
  guard (spawned == task_id) (duplicate_spawn spawned)
  run_id ← now_v7
  execute_checked (insert_run (new_run e run_id task_id 0 pending e.now))
  commit
  pure (record { task_id = task_id; run_id = run_id })
