-- ===== src/Storage/Lifecycle/Methods.antt =====
-- The state machine of a run, kept by every statement, and by a spawn.
use taskturbine.Base.{refl, [], arith}
use taskturbine.Base.Text.{Text, Bytes}
use taskturbine.Base.{Option}
use taskturbine.Models.{Uuid, Task}
use taskturbine.Sql.Session.{Db, Env}
use taskturbine.Sql.Keeps.{Keeps, Writes, keeps_rules}
use taskturbine.Storage.Upkeep.{cleanup_events_statement}
use taskturbine.Storage.Spawn.{spawn_task, insert_task, TaskOptions}
use taskturbine.Storage.Kept.{Kept}
use taskturbine.Storage.Kept.Methods.{lift_option-Keeps}
use taskturbine.Storage.Lifecycle.{Life, Tracks, same_runs, insert_run-Tracks}
use taskturbine.Storage.Lifecycle.Statements.{
  claim_statement-Tracks, extend_statement-Tracks, extended-Tracks, cancel_statement-Tracks,
  wake-Tracks, age_statement-Tracks, completed-Tracks, suspended-Tracks,
}
use taskturbine.Base.{ℕ}
use taskturbine.Base.Int.{ℤ}

module _ (id : Uuid) (start : Life) where
  abbrev T : Db → Type 0
  T = Tracks id start []

  delete_events-Tracks :
      (e : Env) (older_than : ℕ) (limit : ℤ) (db : Db)
      → T db
      → Writes T (cleanup_events_statement e older_than limit db)
  unfolding cleanup_events_statement
  delete_events-Tracks e older_than limit db t = ground (arith, same_runs id start [] db)

  pub Tracks-Kept : Kept T
  Tracks-Kept = record {
    claims = claim_statement-Tracks id start;
    extends = extend_statement-Tracks id start;
    prolongs = extended-Tracks id start;
    cancels = cancel_statement-Tracks id start;
    ages = age_statement-Tracks id start;
    wakes = wake-Tracks id start;
    deletes_events = delete_events-Tracks;
    stores = λ c db t. same_runs id start [] db _ refl t;
    notes = λ events db t. same_runs id start [] db _ refl t;
    marks = λ state db t. same_runs id start [] db _ refl t;
    completes_run = completed-Tracks id start;
    completes_task = λ e run_id task_id db t. same_runs id start [] db _ refl t;
    suspends = λ at wait run_id task_id r db h found t.
        suspended-Tracks id start at wait run_id r db _ refl h found t;
  }

  insert_task-Tracks : (t : Task) (db : Db) → T db → Writes T (insert_task t db)
  insert_task-Tracks t db h = ground (arith, same_runs id start [] db)

  pub spawn_task-Tracks :
      (channel task_name : Text) (params : Bytes) (options : Option TaskOptions)
      → Keeps T (spawn_task channel task_name params options)
  unfolding spawn_task
  spawn_task-Tracks channel task_name params options =
      search (keeps_rules, lift_option-Keeps, insert_task-Tracks, insert_run-Tracks) depth 14
