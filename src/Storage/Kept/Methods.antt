-- ===== src/Storage/Kept/Methods.antt =====
-- The methods whose statements need no guard to keep a property of the tables.
use taskturbine.Base.{ℕ, Bool, true, false, Option, none, some, List}
use taskturbine.Base.Int.{ℤ}
use taskturbine.Base.Text.{Text, Bytes}
use taskturbine.Models.{Uuid, Checkpoint}
use taskturbine.Sql.Session.{Db, StorageError}
use taskturbine.Sql.Keeps.{Keeps, keeps_rules, bind-Keeps, pool_execute-Keeps}
use taskturbine.Storage.Rows.{store_checkpoint}
use taskturbine.Storage.Claim.{claim_task, extend_claim}
use taskturbine.Storage.Finish.{cancel_task, rollback_unless}
use taskturbine.Storage.Spawn.{lift_option}
use taskturbine.Storage.Event.{emit_event, set_checkpoint, extend_on_pool}
use taskturbine.Storage.Upkeep.{handle_cancellation_max_age, cleanup_events, set_scheduler_last_run}
use taskturbine.Storage.Kept.{Kept}

rollback_unless-Keeps :
    {P : Db → Type 0} (b : Bool) (x : StorageError) → Keeps P (rollback_unless b x)
rollback_unless-Keeps true x = search keeps_rules
rollback_unless-Keeps false x = search keeps_rules

pub lift_option-Keeps {ℓ} :
    {A : Type ℓ} {P : Db → Type 0} (x : StorageError) (o : Option A) → Keeps P (lift_option x o)
lift_option-Keeps x none = search keeps_rules
lift_option-Keeps x (some a) = search keeps_rules

module _ {T : Db → Type 0} (k : Kept T) where
  pub claim_task-Kept :
      (channels : List Text) (worker_id : Text) (claim_timeout : ℕ) (qty : ℤ)
      → Keeps T (claim_task channels worker_id claim_timeout qty)
  unfolding claim_task
  claim_task-Kept channels worker_id claim_timeout qty = search (keeps_rules, k.claims) depth 9

  pub extend_claim-Kept :
      (worker_id : Text) (run_id : Uuid) (claim_timeout : ℕ)
      → Keeps T (extend_claim worker_id run_id claim_timeout)
  unfolding extend_claim
  extend_claim-Kept worker_id run_id claim_timeout = search (keeps_rules, k.extends) depth 9

  pub cancel_task-Kept :
      (task_id : Uuid) (reason : Option Bytes) → Keeps T (cancel_task task_id reason)
  unfolding cancel_task
  cancel_task-Kept task_id reason = search (keeps_rules, rollback_unless-Keeps, k.cancels) depth 12

  pub handle_cancellation_max_age-Kept : (limit : ℤ) → Keeps T (handle_cancellation_max_age limit)
  unfolding handle_cancellation_max_age
  handle_cancellation_max_age-Kept limit = search (keeps_rules, k.ages) depth 9

  pub emit_event-Kept :
      (event_name : Text) (payload : Bytes) → Keeps T (emit_event event_name payload)
  unfolding emit_event
  emit_event-Kept event_name payload = search (keeps_rules, k.wakes, k.notes) depth 9

  pub store_checkpoint-Kept :
      (task_id run_id : Uuid) (step_name : Text) (state : Bytes)
      → Keeps T (store_checkpoint task_id run_id step_name state)
  unfolding store_checkpoint
  store_checkpoint-Kept task_id run_id step_name state =
      bind-Keeps _ _ (search keeps_rules)
        λ e. search (keeps_rules, λ (db : Db) (c : Checkpoint) (t : T db). k.stores c db t)

  extend_on_pool-Kept : (run_id : Uuid) (o : Option ℕ) → Keeps T (extend_on_pool run_id o)
  extend_on_pool-Kept run_id none = search keeps_rules
  extend_on_pool-Kept run_id (some extension) =
      bind-Keeps _ _ (search keeps_rules)
        λ e. pool_execute-Keeps _ λ db t. k.prolongs e extension run_id db t

  pub set_checkpoint-Kept :
      (task_id run_id : Uuid) (step_name : Text) (state : Bytes) (o : Option ℕ)
      → Keeps T (set_checkpoint task_id run_id step_name state o)
  unfolding set_checkpoint
  set_checkpoint-Kept task_id run_id step_name state o =
      search (keeps_rules, store_checkpoint-Kept, extend_on_pool-Kept) depth 9

  pub cleanup_events-Kept : (older_than : ℕ) (limit : ℤ) → Keeps T (cleanup_events older_than limit)
  unfolding cleanup_events
  cleanup_events-Kept older_than limit = search (keeps_rules, k.deletes_events)

  pub set_scheduler_last_run-Kept :
      (key : Text) (last_run : ℕ) → Keeps T (set_scheduler_last_run key last_run)
  unfolding set_scheduler_last_run
  set_scheduler_last_run-Kept key last_run =
      bind-Keeps _ _ (search keeps_rules) λ e. pool_execute-Keeps _ λ db t. k.marks _ db t
