-- ===== src/Storage/Atomic.antt =====
-- Which methods of Storage commit all of their work or none of it.
use taskturbine.Base.{ℕ, ◌≡◌, update_where, Option, none, some, Bool, true, false, List, [], ◌∷◌}
use taskturbine.Base.Int.{ℤ}
use taskturbine.Base.Text.{Text, Bytes}
use taskturbine.Models.{Uuid, Task, Run, Checkpoint}
use taskturbine.Sql.Session.{M, Env, Session, StorageError, err, sql_error, effects}
use taskturbine.Sql.Atomic.{
  IsAtomic, Uncommitted, Uncommitted-IsAtomic, bind-Uncommitted, atomic_rules, uncommitted_rules,
}
use taskturbine.Storage.Rows.{store_checkpoint, is_run}
use taskturbine.Storage.Finish.{
  complete_run, cancel_task, schedule_run, suspend_run, rollback_unless, try_rollback_unless,
}
use taskturbine.Storage.Fail.{
  next_attempt, do_fail_run, fail_run, fail_expired, handle_expired_claims,
}
use taskturbine.Storage.Spawn.{spawn_task, lift_option, TaskOptions}
use taskturbine.Storage.Event.{
  deliver, await_new, await_event, on_checkpoint, emit_event, AwaitResult, set_checkpoint,
  extended_run,
}
use taskturbine.Storage.Upkeep.{handle_cancellation_max_age}

rollback_unless-Uncommitted : (b : Bool) (x : StorageError) → Uncommitted (rollback_unless b x)
rollback_unless-Uncommitted true x = search uncommitted_rules
rollback_unless-Uncommitted false x = search uncommitted_rules

try_rollback_unless-Uncommitted :
    (b : Bool) (x : StorageError) → Uncommitted (try_rollback_unless b x)
try_rollback_unless-Uncommitted true x = search uncommitted_rules
try_rollback_unless-Uncommitted false x = search uncommitted_rules

lift_option-Uncommitted {ℓ} :
    {A : Type ℓ} (x : StorageError) (o : Option A) → Uncommitted (lift_option x o)
lift_option-Uncommitted x none = search uncommitted_rules
lift_option-Uncommitted x (some a) = search uncommitted_rules

store_checkpoint-Uncommitted :
    (task_id run_id : Uuid) (step_name : Text) (state : Bytes)
    → Uncommitted (store_checkpoint task_id run_id step_name state)
unfolding store_checkpoint
store_checkpoint-Uncommitted task_id run_id step_name state = search uncommitted_rules

suspend_run-Uncommitted :
    (task_id run_id : Uuid) (available_in : ℕ) (event_name : Option Text)
    → Uncommitted (suspend_run task_id run_id available_in event_name)
unfolding suspend_run
suspend_run-Uncommitted task_id run_id available_in event_name = search uncommitted_rules

next_attempt-Uncommitted :
    (run_id : Uuid) (retry_in : Option ℕ) (t : Task) → Uncommitted (next_attempt run_id retry_in t)
unfolding next_attempt
next_attempt-Uncommitted run_id retry_in t = search uncommitted_rules depth 9

do_fail_run-Uncommitted :
    (run_id : Uuid) (reason : Bytes) (retry_in : Option ℕ) (validate : Bool)
    → Uncommitted (do_fail_run run_id reason retry_in validate)
unfolding do_fail_run
do_fail_run-Uncommitted run_id reason retry_in validate =
    search (uncommitted_rules, next_attempt-Uncommitted) depth 9

fail_expired-Uncommitted : (rs : List Run) → Uncommitted (fail_expired rs)
unfolding fail_expired
fail_expired-Uncommitted [] = search uncommitted_rules
fail_expired-Uncommitted (r ∷ rs) =
    bind-Uncommitted _ _ (do_fail_run-Uncommitted _ _ _ _) (λ _. fail_expired-Uncommitted rs)

ruleset storage_rules = (
  atomic_rules, rollback_unless-Uncommitted, try_rollback_unless-Uncommitted,
  lift_option-Uncommitted, store_checkpoint-Uncommitted, suspend_run-Uncommitted,
  do_fail_run-Uncommitted, fail_expired-Uncommitted,
)

complete_run-IsAtomic :
    (run_id : Uuid) (run_result : Bytes) → IsAtomic (complete_run run_id run_result)
unfolding complete_run
complete_run-IsAtomic run_id run_result = search storage_rules depth 9

cancel_task-IsAtomic :
    (task_id : Uuid) (reason : Option Bytes) → IsAtomic (cancel_task task_id reason)
unfolding cancel_task
cancel_task-IsAtomic task_id reason = search storage_rules depth 9

fail_run-IsAtomic :
    (run_id : Uuid) (reason : Bytes) (retry_at : Option ℕ)
    → IsAtomic (fail_run run_id reason retry_at)
unfolding fail_run
fail_run-IsAtomic run_id reason retry_at = search storage_rules depth 9

schedule_run-IsAtomic : (run_id : Uuid) (wait_for : ℕ) → IsAtomic (schedule_run run_id wait_for)
unfolding schedule_run
schedule_run-IsAtomic run_id wait_for = search storage_rules depth 9

spawn_task-IsAtomic :
    (channel task_name : Text) (params : Bytes) (options : Option TaskOptions)
    → IsAtomic (spawn_task channel task_name params options)
unfolding spawn_task
spawn_task-IsAtomic channel task_name params options = search storage_rules depth 14

emit_event-IsAtomic :
    (event_name : Text) (payload : Bytes) → IsAtomic (emit_event event_name payload)
unfolding emit_event
emit_event-IsAtomic event_name payload = search storage_rules depth 9

handle_expired_claims-IsAtomic : (limit : ℤ) → IsAtomic (handle_expired_claims limit)
unfolding handle_expired_claims
handle_expired_claims-IsAtomic limit = search storage_rules depth 9

handle_cancellation_max_age-IsAtomic : (limit : ℤ) → IsAtomic (handle_cancellation_max_age limit)
unfolding handle_cancellation_max_age
handle_cancellation_max_age-IsAtomic limit = search storage_rules depth 9

deliver-IsAtomic :
    (task_id run_id : Uuid) (step_name event_name : Text) (timeout : Option ℕ) (o : Option Bytes)
    → IsAtomic (deliver task_id run_id step_name event_name timeout o)
unfolding deliver
deliver-IsAtomic task_id run_id step_name event_name timeout (some p) = search storage_rules depth 9
deliver-IsAtomic task_id run_id step_name event_name timeout none = search storage_rules depth 9

await_new-IsAtomic :
    (task_id run_id : Uuid) (step_name event_name : Text) (timeout : Option ℕ)
    → IsAtomic (await_new task_id run_id step_name event_name timeout)
unfolding await_new
await_new-IsAtomic task_id run_id step_name event_name timeout =
    search (storage_rules, deliver-IsAtomic) depth 12

on_checkpoint-IsAtomic :
    (o : Option Checkpoint) (rest : M AwaitResult) → IsAtomic rest → IsAtomic (on_checkpoint o rest)
on_checkpoint-IsAtomic none rest h = h
on_checkpoint-IsAtomic (some c) rest h = Uncommitted-IsAtomic _ (search uncommitted_rules)

await_event-IsAtomic :
    (task_id run_id : Uuid) (step_name event_name : Text) (timeout : Option ℕ)
    → IsAtomic (await_event task_id run_id step_name event_name timeout)
unfolding await_event
await_event-IsAtomic task_id run_id step_name event_name timeout =
    search (storage_rules, on_checkpoint-IsAtomic, await_new-IsAtomic) depth 9

-- Under every schedule of failing statements, each of the nine transactional methods either succeeds
-- or leaves the committed tables as they were: spawn_task, complete_run, fail_run, cancel_task,
-- schedule_run, await_event, emit_event, handle_expired_claims and handle_cancellation_max_age.
pub methods-IsAtomic :
    ((channel task_name : Text) (params : Bytes) (options : Option TaskOptions)
      → IsAtomic (spawn_task channel task_name params options))
    × ((run_id : Uuid) (run_result : Bytes) → IsAtomic (complete_run run_id run_result))
    × ((run_id : Uuid) (reason : Bytes) (retry_at : Option ℕ)
        → IsAtomic (fail_run run_id reason retry_at))
    × ((task_id : Uuid) (reason : Option Bytes) → IsAtomic (cancel_task task_id reason))
    × ((run_id : Uuid) (wait_for : ℕ) → IsAtomic (schedule_run run_id wait_for))
    × ((task_id run_id : Uuid) (step_name event_name : Text) (timeout : Option ℕ)
        → IsAtomic (await_event task_id run_id step_name event_name timeout))
    × ((event_name : Text) (payload : Bytes) → IsAtomic (emit_event event_name payload))
    × ((limit : ℤ) → IsAtomic (handle_expired_claims limit))
    × ((limit : ℤ) → IsAtomic (handle_cancellation_max_age limit))
methods-IsAtomic = (
  spawn_task-IsAtomic, complete_run-IsAtomic, fail_run-IsAtomic, cancel_task-IsAtomic,
  schedule_run-IsAtomic, await_event-IsAtomic, emit_event-IsAtomic, handle_expired_claims-IsAtomic,
  handle_cancellation_max_age-IsAtomic,
)

-- set_checkpoint is not among them. Where its commit fails, it returns the error, yet the extension
-- of the claim stands committed without the checkpoint.
pub set_checkpoint_torn :
    (e : Env) (s : Session) (task_id run_id : Uuid) (step_name : Text) (state : Bytes) (ext : ℕ)
    → s.faults ≡ false ∷ false ∷ false ∷ true ∷ []
    → ((set_checkpoint task_id run_id step_name state (some ext) e s).0 ≡ err sql_error)
      × ((set_checkpoint task_id run_id step_name state (some ext) e s).1.store ≡ record s.store {
        runs = update_where (is_run run_id) (extended_run e ext) s.store.runs;
      })
unfolding set_checkpoint store_checkpoint effects
set_checkpoint_torn e s task_id run_id step_name state ext h = (simp h, simp h)
