-- ===== src/Tests/Fixtures.antt =====
-- A small database: one task with one run, in the states that the tests need.
use taskturbine.Base.{ℕ, ◌+◌, none, some, false, [], ◌∷◌}
use taskturbine.Base.Int.{pos}
use taskturbine.Base.Text.{codes}
use taskturbine.Models.{
  Task, Run, Floats, ClaimedTask, Checkpoint, EventRow, TaskState, running, sleeping,
}
use taskturbine.Sql.Session.{Db, Env, Session, empty_db}

abbrev pub floats : Floats
floats = record {
  of_i32 = λ n. 0;
  mul = λ a b. a;
  powi = λ a n. a;
  fmin = λ a b. b;
  to_secs = λ a. 1;
  narrow = λ a. a;
  lt_one = λ a. false;
}

-- The environment at an instant.
abbrev pub at : ℕ → Env
at t = record {
  config = record {
    database_url = [];
    database_log_queries = false;
    usecase = codes "u";
    await_event_default_timeout_secs = pos 120;
  };
  now = t;
  utc_now = t;
  new_v7 = λ n. n + 100;
  floats = floats;
  to_json = λ h. some [];
  locked = λ id. false;
}

abbrev pub task : TaskState → Task
task s = record {
  task_id = 1;
  usecase = codes "u";
  channel = codes "c";
  task_name = codes "t";
  params = [];
  headers = [];
  idempotency_key = none;
  retry_seconds = pos 10;
  retry_factor = 0;
  retry_max_seconds = pos 300;
  attempts = 1;
  max_attempts = pos 5;
  cancellation_max_age = pos 86400;
  created_at = 0;
  first_started_at = none;
  state = s;
  last_attempt_run = none;
  completed_at = none;
}

abbrev pub waiting_run : Run
waiting_run = record {
  run_id = 2;
  task_id = 1;
  attempt = 0;
  state = sleeping;
  claimed_by = none;
  claim_expires_at = none;
  available_at = 10;
  started_at = none;
  completed_at = none;
  result = none;
  failure_reason = none;
  created_at = 0;
  wait_event_name = some (codes "e");
}

abbrev pub running_run : Run
running_run = record waiting_run {
  state = running;
  claimed_by = some (codes "w");
  claim_expires_at = some 600;
  started_at = some 10;
  wait_event_name = none;
}

abbrev pub with_rows : Task → Run → Db
with_rows t r = record empty_db { tasks = t ∷ []; runs = r ∷ [] }

abbrev pub asleep : Db
asleep = with_rows (task sleeping) waiting_run

abbrev pub busy : Db
busy = with_rows (task running) running_run

-- A session on a database, none of whose statements fails.
abbrev pub on : Db → Session
on db = record { store = db; work = empty_db; faults = []; drawn = 0 }

abbrev pub claimed : ClaimedTask
claimed = record {
  task_id = 1;
  run_id = 2;
  channel = codes "c";
  task_name = codes "t";
  params = [];
  retry_seconds = pos 10;
  retry_factor = 0;
  retry_max_seconds = pos 300;
  attempt = 1;
  max_attempts = pos 5;
}

abbrev pub checkpoint : Checkpoint
checkpoint = record {
  task_id = 1;
  step_name = codes "s";
  state = 7 ∷ [];
  owner_run_id = 2;
  updated_at = 5;
}

abbrev pub event : EventRow
event = record {
  usecase = codes "u";
  event_name = codes "e";
  payload = some (9 ∷ []);
  created_at = 3;
}
