-- ===== src/Storage/Kept/Guarded.antt =====
-- The methods of Storage that ask for a running run: complete_run, schedule_run and await_event.
use taskturbine.Base.{ℕ, ◌≡◌, refl, Option, none, some, Bool, true, false}
use taskturbine.Base.Text.{Text, Bytes}
use taskturbine.Models.{Uuid, Run, Checkpoint}
use taskturbine.Sql.Session.{Db, M, StorageError}
use taskturbine.Sql.Keeps.{keeps_rules}
use taskturbine.Sql.Hoare.{
  Triple, ask-Triple, fetch_one-Triple, fetch-Triple, begin-Triple, commit-Triple, execute-Triple,
  bind-Triple, pure-Triple, rollback-raise-Triple, try_rollback-raise-Triple, Keeps-Triple,
  strengthen-Triple, weaken-Triple,
}
use taskturbine.Storage.Rows.{is_running, find_run}
use taskturbine.Storage.Finish.{
  complete_run, schedule_run, suspend_run, rollback_unless, try_rollback_unless,
}
use taskturbine.Storage.Event.{deliver, await_new, await_event, on_checkpoint, AwaitResult}
use taskturbine.Storage.Kept.{Kept}
use taskturbine.Storage.Kept.Methods.{store_checkpoint-Kept}

module _ {S P : Db → Type 0} where
  rollback_unless-Triple :
      (b : Bool) (x : StorageError) → Triple S P (rollback_unless b x) (λ u w. P w × (b ≡ true))
  rollback_unless-Triple true x = pure-Triple tt λ w h. (h, refl)
  rollback_unless-Triple false x = rollback-raise-Triple x

  try_rollback_unless-Triple :
      (b : Bool) (x : StorageError) → Triple S P (try_rollback_unless b x) (λ u w. P w × (b ≡ true))
  try_rollback_unless-Triple true x = pure-Triple tt λ w h. (h, refl)
  try_rollback_unless-Triple false x = try_rollback-raise-Triple x

module _ {T : Db → Type 0} (k : Kept T) where
  -- The run that was found is running.
  abbrev Found : Uuid → Run → Db → Type 0
  Found run_id r w = T w × (find_run run_id w.runs ≡ some r) × (is_running r.state ≡ true)

  pub complete_run-Kept :
      (run_id : Uuid) (run_result : Bytes) → Triple T T (complete_run run_id run_result) (λ u. T)
  unfolding complete_run
  complete_run-Kept run_id run_result = bind-Triple _ _ begin-Triple λ _.
      bind-Triple _ _ ask-Triple λ e. bind-Triple _ _ (fetch_one-Triple _ _) λ r.
        bind-Triple _ _ (rollback_unless-Triple _ _) λ _.
          bind-Triple _ _
            (execute-Triple {Q = T} _
              λ w h. k.completes_run e run_result run_id r w h.1 h.0.1 h.0.0)
            λ _.
              bind-Triple _ _
                (execute-Triple {Q = T} _ λ w t. k.completes_task e run_id r.task_id w t)
                λ _. commit-Triple λ w t. t

  suspend_run-Kept :
      (task_id run_id : Uuid) (r : Run) (available_in : ℕ) (wait : Option Text)
      → Triple T (Found run_id r) (suspend_run task_id run_id available_in wait) (λ u. T)
  unfolding suspend_run
  suspend_run-Kept task_id run_id r available_in wait =
      bind-Triple _ _ ask-Triple
        λ e. execute-Triple {Q = T} _ λ w h. k.suspends _ wait run_id task_id r w h.2 h.1 h.0

  pub schedule_run-Kept :
      (run_id : Uuid) (wait_for : ℕ) → Triple T T (schedule_run run_id wait_for) (λ u. T)
  unfolding schedule_run
  schedule_run-Kept run_id wait_for = bind-Triple _ _ begin-Triple λ _.
      bind-Triple _ _ (fetch_one-Triple _ _) λ r.
        bind-Triple _ _
          (weaken-Triple _ (λ u w h. (h.0.0, h.0.1, h.1)) (try_rollback_unless-Triple _ _))
          λ _.
            bind-Triple _ _ (suspend_run-Kept r.task_id run_id r wait_for none)
              λ _. commit-Triple λ w t. t

  deliver-Kept :
      (task_id run_id : Uuid) (step_name event_name : Text) (timeout : Option ℕ) (r : Run)
      (o : Option Bytes)
      → Triple T (Found run_id r) (deliver task_id run_id step_name event_name timeout o) (λ a. T)
  unfolding deliver
  deliver-Kept task_id run_id step_name event_name timeout r (some payload) =
      strengthen-Triple _ (λ w h. h.0)
        (bind-Triple _ _ (Keeps-Triple _ (store_checkpoint-Kept k task_id run_id step_name payload))
          λ _. bind-Triple _ _ (commit-Triple λ w t. t) λ _. pure-Triple _ λ w t. t)
  deliver-Kept task_id run_id step_name event_name timeout r none = bind-Triple _ _ ask-Triple λ e.
      bind-Triple _ _ (suspend_run-Kept task_id run_id r _ (some event_name))
        λ _. bind-Triple _ _ (commit-Triple λ w t. t) λ _. pure-Triple _ λ w t. t

  await_new-Kept :
      (task_id run_id : Uuid) (step_name event_name : Text) (timeout : Option ℕ)
      → Triple T T (await_new task_id run_id step_name event_name timeout) (λ a. T)
  unfolding await_new
  await_new-Kept task_id run_id step_name event_name timeout = bind-Triple _ _ ask-Triple λ e.
      bind-Triple _ _ (execute-Triple {Q = T} _ λ w t. k.notes _ w t) λ _.
        bind-Triple _ _ (bind-Triple _ _ ask-Triple λ e. fetch-Triple _) λ event.
          bind-Triple _ _ (fetch_one-Triple _ _) λ r.
            bind-Triple _ _
              (weaken-Triple _ (λ u w h. (h.0.0, h.0.1, h.1)) (try_rollback_unless-Triple _ _))
              λ _. deliver-Kept task_id run_id step_name event_name timeout r event

  on_checkpoint-Kept :
      (o : Option Checkpoint) (rest : M AwaitResult)
      → Triple T T rest (λ a. T)
      → Triple T T (on_checkpoint o rest) (λ a. T)
  on_checkpoint-Kept none rest h = h
  on_checkpoint-Kept (some c) rest h = Keeps-Triple _ (search keeps_rules)

  pub await_event-Kept :
      (task_id run_id : Uuid) (step_name event_name : Text) (timeout : Option ℕ)
      → Triple T T (await_event task_id run_id step_name event_name timeout) (λ a. T)
  unfolding await_event
  await_event-Kept task_id run_id step_name event_name timeout = bind-Triple _ _ begin-Triple λ _.
      bind-Triple _ _ (fetch-Triple _)
        λ o. on_checkpoint-Kept o _ (await_new-Kept task_id run_id step_name event_name timeout)
