-- ===== src/Storage/Kept.antt =====
-- What a property of the tables owes to the statements of Storage, so that the methods keep it.
pub mod Methods
pub mod Guarded
pub mod Calls
use taskturbine.Base.{ℕ, ◌≡◌, Option, some, true, List, update_where}
use taskturbine.Base.Int.{ℤ}
use taskturbine.Base.Text.{Text, Bytes}
use taskturbine.Models.{Uuid, Run, Checkpoint, EventRow, SchedulerState}
use taskturbine.Sql.Session.{Db, Env}
use taskturbine.Sql.Keeps.{Writes}
use taskturbine.Storage.Rows.{is_run, is_task, is_running, find_run, put_checkpoint}
use taskturbine.Storage.Claim.{claim_statement, extend_statement}
use taskturbine.Storage.Finish.{
  cancel_statement, completed_run, completed_task, suspended_run, sleeping_task,
}
use taskturbine.Storage.Event
use taskturbine.Storage.Event.{extended_run}
use taskturbine.Storage.Upkeep.{age_statement, cleanup_events_statement}

-- Every statement keeps `T`: those of complete_run and suspend_run for the running run that was
-- found.
pub record Kept (T : Db → Type 0) : Type 0 where
  pub claims :
      (e : Env) (channels : List Text) (worker_id : Text) (until : ℕ) (qty : ℤ) (db : Db)
      → T db
      → T (claim_statement e channels worker_id until qty db).1
  pub extends :
      (run_id : Uuid) (worker_id : Text) (until : ℕ) (db : Db)
      → T db
      → T (extend_statement run_id worker_id until db).1
  pub prolongs :
      (e : Env) (extension : ℕ) (run_id : Uuid) (db : Db)
      → T db
      → T (record db { runs = update_where (is_run run_id) (extended_run e extension) db.runs })
  pub cancels :
      (e : Env) (task_id : Uuid) (reason : Bytes) (db : Db)
      → T db
      → Writes T (cancel_statement e task_id reason db)
  pub ages : (e : Env) (limit : ℤ) (db : Db) → T db → Writes T (age_statement e limit db)
  pub wakes : (e : Env) (event_name : Text) (db : Db) → T db → T (Event.wake e event_name db)
  pub deletes_events :
      (e : Env) (older_than : ℕ) (limit : ℤ) (db : Db)
      → T db
      → Writes T (cleanup_events_statement e older_than limit db)
  pub stores : (c : Checkpoint) (db : Db) → T db → T (put_checkpoint c db).1
  pub notes : (events : List EventRow) (db : Db) → T db → T (record db { events = events })
  pub marks :
      (state : List SchedulerState) (db : Db) → T db → T (record db { scheduler_state = state })
  pub completes_run :
      (e : Env) (b : Bytes) (run_id : Uuid) (r : Run) (db : Db)
      → is_running r.state ≡ true
      → find_run run_id db.runs ≡ some r
      → T db
      → T (record db { runs = update_where (is_run run_id) (completed_run e b) db.runs })
  pub completes_task :
      (e : Env) (run_id task_id : Uuid) (db : Db)
      → T db
      → T (record db { tasks = update_where (is_task task_id) (completed_task e run_id) db.tasks })
  pub suspends :
      (at : ℕ) (wait : Option Text) (run_id task_id : Uuid) (r : Run) (db : Db)
      → is_running r.state ≡ true
      → find_run run_id db.runs ≡ some r
      → T db
      → T (record db {
        runs = update_where (is_run run_id) (suspended_run at wait) db.runs;
        tasks = update_where (is_task task_id) sleeping_task db.tasks;
      })
