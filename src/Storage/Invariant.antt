-- ===== src/Storage/Invariant.antt =====
-- The well-formedness of the tables, and that every method of Storage keeps it.
pub mod Statements
use taskturbine.Base.{
  ℕ, ◌≡◌, refl, Option, none, some, Bool, true, false, List, [], ◌∷◌, update_where, arith,
}
use taskturbine.Base.Int.{ℤ}
use taskturbine.Base.Text.{Text, Bytes}
use taskturbine.Models.{Uuid, Task, Run, Checkpoint, EventRow, pending, sleeping}
use taskturbine.Sql.Session.{Db, Env, M, StorageError}
use taskturbine.Sql.Keeps.{
  Keeps, Writes, keeps_rules, bind-Keeps, execute-Keeps, execute_checked-Keeps, pool_execute-Keeps,
}
use taskturbine.Storage.Rows.{
  store_checkpoint, is_run, is_task, put_checkpoint, new_run, insert_run,
}
use taskturbine.Storage.Claim.{claim_task, extend_claim}
use taskturbine.Storage.Finish.{
  complete_run, cancel_task, schedule_run, suspend_run, rollback_unless, try_rollback_unless,
  completed_run, completed_task,
}
use taskturbine.Storage.Fail.{
  next_attempt, do_fail_run, fail_run, fail_expired, handle_expired_claims, retry_state,
  schedule_retry, failed_run, update_task,
}
use taskturbine.Storage.Spawn.{spawn_task, lift_option, TaskOptions}
use taskturbine.Storage.Event.{
  deliver, await_new, await_event, on_checkpoint, emit_event, AwaitResult, set_checkpoint,
  extend_on_pool, upsert_event, insert_sentinel,
}
use taskturbine.Storage.Upkeep.{
  handle_cancellation_max_age, run_upkeep, cleanup_events, cleanup_tasks, clear_storage,
  set_scheduler_last_run,
}
use taskturbine.Storage.Kept.{Kept}
use taskturbine.Storage.Kept.Methods.{lift_option-Keeps, handle_cancellation_max_age-Kept}
pub use Statements.{RunOk, IsValid}
use Statements.{
  update_runs-IsValid, update_tasks-IsValid, insert_run-IsValid, insert_task-IsValid,
  claim_statement-IsValid, extend_statement-IsValid, cancel_statement-IsValid, wake-IsValid,
  age_statement-IsValid, extended_run-RunOk, cleanup_events_statement-IsValid,
  cleanup_tasks_statement-IsValid,
}

same_rows : (db d : Db) → d.runs ≡ db.runs → d.tasks ≡ db.tasks → IsValid db → IsValid d
same_rows db d r t v = record {
  runs_ok = rw r v.runs_ok;
  run_ids = rw r v.run_ids;
  task_ids = rw t v.task_ids;
}

pub IsValid-Kept : Kept IsValid
IsValid-Kept = record {
  claims = claim_statement-IsValid;
  extends = extend_statement-IsValid;
  prolongs = λ e extension run_id db v.
      update_runs-IsValid _ _ db (λ r _ h. extended_run-RunOk e extension r h) (λ r. refl) v;
  cancels = cancel_statement-IsValid;
  ages = age_statement-IsValid;
  wakes = wake-IsValid;
  deletes_events = cleanup_events_statement-IsValid;
  stores = λ c db v. same_rows db _ refl refl v;
  notes = λ events db v. same_rows db _ refl refl v;
  marks = λ state db v. same_rows db _ refl refl v;
  completes_run = λ e b run_id r db h found v.
      update_runs-IsValid _ _ db (λ r _ _. (refl, refl, refl)) (λ r. refl) v;
  completes_task = λ e run_id task_id db v. update_tasks-IsValid _ _ db (λ t. refl) v;
  suspends = λ at wait run_id task_id r db h found v.
      update_tasks-IsValid _ _ _ (λ t. refl)
        (update_runs-IsValid _ _ db (λ r _ _. refl) (λ r. refl) v);
}

retry_run-RunOk :
    (e : Env) (id task_id : Uuid) (attempt at : ℕ)
    → RunOk (new_run e id task_id attempt (retry_state e at) at)
retry_run-RunOk e id task_id attempt at = ground arith

schedule_retry-Keeps :
    (run_id : Uuid) (at : ℕ) (t : Task) → Keeps IsValid (schedule_retry run_id at t)
schedule_retry-Keeps run_id at t = bind-Keeps _ _ (search keeps_rules) λ e.
    bind-Keeps _ _ (search keeps_rules) λ id.
      bind-Keeps _ _
        (execute_checked-Keeps _ λ db v. insert_run-IsValid _ db (retry_run-RunOk e id _ _ at) v)
        λ _. search keeps_rules

next_attempt-Keeps :
    (run_id : Uuid) (retry_in : Option ℕ) (t : Task)
    → Keeps IsValid (next_attempt run_id retry_in t)
unfolding next_attempt
next_attempt-Keeps run_id retry_in t = search (keeps_rules, schedule_retry-Keeps)

do_fail_run-Keeps :
    (run_id : Uuid) (reason : Bytes) (retry_in : Option ℕ) (validate : Bool)
    → Keeps IsValid (do_fail_run run_id reason retry_in validate)
unfolding do_fail_run
do_fail_run-Keeps run_id reason retry_in validate =
    search (keeps_rules, next_attempt-Keeps, fail_write, task_write) depth 9
  where
    fail_write :
        (e : Env) (db : Db)
        → IsValid db
        → IsValid (record db { runs = update_where (is_run run_id) (failed_run e reason) db.runs })
    fail_write e db v = update_runs-IsValid _ _ db (λ r _ _. (refl, refl, refl)) (λ r. refl) v

    task_write :
        (t : Task) (db : Db)
        → IsValid db
        → IsValid (record db { tasks = update_where (is_task t.task_id) (update_task t) db.tasks })
    task_write t db v = update_tasks-IsValid _ _ db (λ t. refl) v

fail_expired-Keeps : (rs : List Run) → Keeps IsValid (fail_expired rs)
unfolding fail_expired
fail_expired-Keeps [] = search keeps_rules
fail_expired-Keeps (r ∷ rs) =
    bind-Keeps _ _ (do_fail_run-Keeps _ _ _ _) (λ _. fail_expired-Keeps rs)

pub fail_run-Keeps :
    (run_id : Uuid) (reason : Bytes) (retry_at : Option ℕ)
    → Keeps IsValid (fail_run run_id reason retry_at)
unfolding fail_run
fail_run-Keeps run_id reason retry_at = search (keeps_rules, do_fail_run-Keeps)

handle_expired_claims-Keeps : (limit : ℤ) → Keeps IsValid (handle_expired_claims limit)
unfolding handle_expired_claims
handle_expired_claims-Keeps limit = search (keeps_rules, fail_expired-Keeps) depth 9

pub spawn_task-Keeps :
    (channel task_name : Text) (params : Bytes) (options : Option TaskOptions)
    → Keeps IsValid (spawn_task channel task_name params options)
unfolding spawn_task
spawn_task-Keeps channel task_name params options =
    search (keeps_rules, lift_option-Keeps, insert_task-IsValid, first_run) depth 14
  where
    first_run :
        (e : Env) (id task_id : Uuid) (db : Db)
        → IsValid db
        → Writes IsValid (insert_run (new_run e id task_id 0 pending e.now) db)
    first_run e id task_id db v = insert_run-IsValid _ db refl v

pub run_upkeep-Keeps : (limit : ℤ) → Keeps IsValid (run_upkeep limit)
unfolding run_upkeep
run_upkeep-Keeps limit =
    search (keeps_rules, handle_expired_claims-Keeps, handle_cancellation_max_age-Kept IsValid-Kept)

pub cleanup_tasks-Keeps :
    (older_than : ℕ) (limit : ℤ) → Keeps IsValid (cleanup_tasks older_than limit)
unfolding cleanup_tasks
cleanup_tasks-Keeps older_than limit = search (keeps_rules, cleanup_tasks_statement-IsValid)

truncate_runs : (db : Db) → IsValid db → IsValid (record db { runs = [] })
truncate_runs db v = record { runs_ok = tt; run_ids = tt; task_ids = v.task_ids }

truncate_tasks : (db : Db) → IsValid db → IsValid (record db { tasks = [] })
truncate_tasks db v = record { runs_ok = v.runs_ok; run_ids = v.run_ids; task_ids = tt }

pub clear_storage-Keeps : Keeps IsValid clear_storage
unfolding clear_storage
clear_storage-Keeps = search (keeps_rules, same_rows, truncate_runs, truncate_tasks) depth 12
