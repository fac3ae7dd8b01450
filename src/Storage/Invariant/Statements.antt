-- ===== src/Storage/Invariant/Statements.antt =====
-- Well-formed tables, and that each statement of Storage writes only such.
use taskturbine.Base.{
  ℕ, ◌≡◌, refl, Option, none, some, Bool, true, List, map, is_some, update_where, All, arith,
}
use taskturbine.Base.Int.{ℤ}
use taskturbine.Base.Rows.{
  All-update_where, All-delete_where, Distinct, Distinct-update_where, Distinct-delete_where,
  map-update_where,
}
use taskturbine.Base.Text.{Text, Bytes}
use taskturbine.Models.{
  TaskState, pending, running, sleeping, completed, failed, cancelled, Uuid, Task, Run, EventRow,
}
use taskturbine.Sql.Session.{Db, Env}
use taskturbine.Sql.Keeps.{Writes}
use taskturbine.Storage.Rows.{insert_run}
use taskturbine.Storage.Claim.{claim_statement, claimed_run, claimed_task, extend_statement}
use taskturbine.Storage.Finish.{cancel_statement, with_row}
use taskturbine.Storage.Spawn.{insert_task}
use taskturbine.Storage.Event.{extended_run, wake}
use taskturbine.Storage.Upkeep.{
  age_statement, cancel_aged, cleanup_events_statement, delete_events, cleanup_tasks_statement,
  delete_tasks,
}

-- What the columns of a run are in each state.
abbrev pub StateOk : TaskState → Run → Type 0
StateOk pending r = r.claimed_by ≡ none
StateOk sleeping r = r.claimed_by ≡ none
StateOk running r =
    (is_some r.claimed_by ≡ true)
    × (is_some r.claim_expires_at ≡ true)
    × (is_some r.started_at ≡ true)
StateOk completed r =
    (is_some r.completed_at ≡ true) × (is_some r.result ≡ true) × (r.wait_event_name ≡ none)
StateOk failed r =
    (is_some r.completed_at ≡ true) × (is_some r.failure_reason ≡ true) × (r.wait_event_name ≡ none)
StateOk cancelled r = is_some r.completed_at ≡ true

abbrev pub RunOk : Run → Type 0
RunOk r = StateOk r.state r

abbrev pub run_key : Run → ℕ
run_key r = r.run_id

abbrev pub task_key : Task → ℕ
task_key t = t.task_id

-- Every run is as its state says, and no two runs or tasks share an identifier.
pub record IsValid (db : Db) : Type 0 where
  pub runs_ok : All RunOk db.runs
  pub run_ids : Distinct run_key db.runs
  pub task_ids : Distinct task_key db.tasks

-- An UPDATE of runs that keeps the key and leaves each row that it changes as its state says.
pub update_runs-IsValid :
    (p : Run → Bool) (f : Run → Run) (db : Db)
    → ((r : Run) → p r ≡ true → RunOk r → RunOk (f r))
    → ((r : Run) → (f r).run_id ≡ r.run_id)
    → IsValid db
    → IsValid (record db { runs = update_where p f db.runs })
update_runs-IsValid p f db ok same v = record {
  runs_ok = All-update_where RunOk p f db.runs ok v.runs_ok;
  run_ids = Distinct-update_where run_key p f db.runs same v.run_ids;
  task_ids = v.task_ids;
}

pub update_tasks-IsValid :
    (p : Task → Bool) (f : Task → Task) (db : Db)
    → ((t : Task) → (f t).task_id ≡ t.task_id)
    → IsValid db
    → IsValid (record db { tasks = update_where p f db.tasks })
update_tasks-IsValid p f db same v = record {
  runs_ok = v.runs_ok;
  run_ids = v.run_ids;
  task_ids = Distinct-update_where task_key p f db.tasks same v.task_ids;
}

pub map_tasks-IsValid :
    (f : Task → Task) (db : Db)
    → ((t : Task) → (f t).task_id ≡ t.task_id)
    → IsValid db
    → IsValid (record db { tasks = map f db.tasks })
map_tasks-IsValid f db same v = rw map-update_where (update_tasks-IsValid (λ _. true) f db same v)

claimed_task-task_id :
    (e : Env) (claimed : List Run) (t : Task) → (claimed_task e claimed t).task_id ≡ t.task_id
claimed_task-task_id e claimed t = ground arith

pub insert_run-IsValid :
    (r : Run) (db : Db) → RunOk r → IsValid db → Writes IsValid (insert_run r db)
insert_run-IsValid r db ok v = ground arith

pub insert_task-IsValid : (t : Task) (db : Db) → IsValid db → Writes IsValid (insert_task t db)
insert_task-IsValid t db v = ground arith

pub claim_statement-IsValid :
    (e : Env) (channels : List Text) (worker_id : Text) (until : ℕ) (qty : ℤ) (db : Db)
    → IsValid db
    → IsValid (claim_statement e channels worker_id until qty db).1
unfolding claim_statement
claim_statement-IsValid e channels worker_id until qty db v =
    map_tasks-IsValid _ _ (claimed_task-task_id e _) (
      update_runs-IsValid _ (claimed_run e worker_id until) db (λ r _ _. (refl, refl, refl))
        (λ r. refl) v)

pub extend_statement-IsValid :
    (run_id : Uuid) (worker_id : Text) (until : ℕ) (db : Db)
    → IsValid db
    → IsValid (extend_statement run_id worker_id until db).1
extend_statement-IsValid run_id worker_id until db v =
    update_runs-IsValid _ _ db (λ r _ h. ground arith) (λ r. refl) v

with_row-IsValid : (o : Option Task) (db : Db) → IsValid db → Writes IsValid (with_row o db)
with_row-IsValid none db v = tt
with_row-IsValid (some t) db v = v

pub cancel_statement-IsValid :
    (e : Env) (task_id : Uuid) (reason : Bytes) (db : Db)
    → IsValid db
    → Writes IsValid (cancel_statement e task_id reason db)
cancel_statement-IsValid e task_id reason db v = with_row-IsValid _ _ (
    update_runs-IsValid _ _ _ (λ r _ _. refl) (λ r. refl)
      (update_tasks-IsValid _ _ db (λ t. refl) v))

pub wake-IsValid :
    (e : Env) (event_name : Text) (db : Db) → IsValid db → IsValid (wake e event_name db)
unfolding wake
wake-IsValid e event_name db v =
    update_tasks-IsValid _ _ _ (λ t. refl)
      (update_runs-IsValid _ _ db (λ r _ _. refl) (λ r. refl) v)

cancel_aged-IsValid :
    (e : Env) (db : Db) (o : Option (List Run)) → IsValid db → Writes IsValid (cancel_aged e db o)
cancel_aged-IsValid e db none v = tt
cancel_aged-IsValid e db (some picked) v =
    update_tasks-IsValid _ _ _ (λ t. refl)
      (update_runs-IsValid _ _ db (λ r _ _. refl) (λ r. refl) v)

pub age_statement-IsValid :
    (e : Env) (limit : ℤ) (db : Db) → IsValid db → Writes IsValid (age_statement e limit db)
unfolding age_statement
age_statement-IsValid e limit db v = cancel_aged-IsValid e db _ v

delete_events-IsValid :
    (db : Db) (o : Option (List EventRow)) → IsValid db → Writes IsValid (delete_events db o)
delete_events-IsValid db none v = tt
delete_events-IsValid db (some picked) v = record {
  runs_ok = v.runs_ok;
  run_ids = v.run_ids;
  task_ids = v.task_ids;
}

pub cleanup_events_statement-IsValid :
    (e : Env) (older_than : ℕ) (limit : ℤ) (db : Db)
    → IsValid db
    → Writes IsValid (cleanup_events_statement e older_than limit db)
unfolding cleanup_events_statement
cleanup_events_statement-IsValid e older_than limit db v = delete_events-IsValid db _ v

delete_tasks-IsValid :
    (db : Db) (o : Option (List Task)) → IsValid db → Writes IsValid (delete_tasks db o)
delete_tasks-IsValid db none v = tt
delete_tasks-IsValid db (some picked) v = record {
  runs_ok = All-delete_where RunOk _ db.runs v.runs_ok;
  run_ids = Distinct-delete_where run_key _ db.runs v.run_ids;
  task_ids = Distinct-delete_where task_key _ db.tasks v.task_ids;
}

pub cleanup_tasks_statement-IsValid :
    (e : Env) (older_than : ℕ) (limit : ℤ) (db : Db)
    → IsValid db
    → Writes IsValid (cleanup_tasks_statement e older_than limit db)
unfolding cleanup_tasks_statement
cleanup_tasks_statement-IsValid e older_than limit db v = delete_tasks-IsValid db _ v

pub extended_run-RunOk :
    (e : Env) (extension : ℕ) (r : Run) → RunOk r → RunOk (extended_run e extension r)
extended_run-RunOk e extension r h = ground arith
