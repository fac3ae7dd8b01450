-- ===== src/Storage/Kept/Calls.antt =====
-- One call of a history keeps a property of the tables that the statements keep.
use taskturbine.Base.{ℕ, ◌≡◌, refl, Option}
use taskturbine.Base.Int.{ℤ}
use taskturbine.Base.Text.{Text, Bytes}
use taskturbine.Models.{Uuid}
use taskturbine.Sql.Session.{Db, Env, Session}
use taskturbine.Storage.Fail.{fail_run}
use taskturbine.Storage.Spawn.{spawn_task, TaskOptions}
use taskturbine.Storage.Upkeep.{run_upkeep, cleanup_tasks, clear_storage}
use taskturbine.Storage.Calls.{
  Call, perform, spawns, claims, extends, completes, cancels, fails, schedules, checkpoints, awaits,
  emits, upkeep, cleans_events, cleans_tasks, clears, marks_schedule,
}
use taskturbine.Storage.Kept.{Kept}
use taskturbine.Storage.Kept.Methods.{
  claim_task-Kept, extend_claim-Kept, cancel_task-Kept, emit_event-Kept, set_checkpoint-Kept,
  cleanup_events-Kept, set_scheduler_last_run-Kept,
}
use taskturbine.Storage.Kept.Guarded.{complete_run-Kept, schedule_run-Kept, await_event-Kept}

-- The calls that Kept says nothing of, those that insert or delete runs, or fail them: what is known
-- where the call `c` is one of them.
pub record Others (T : Db → Type 0) (c : Call) (e : Env) (s : Session) : Type 0 where
  pub spawned :
      (channel task_name : Text) (params : Bytes) (o : Option TaskOptions)
      → c ≡ spawns channel task_name params o
      → T (spawn_task channel task_name params o e s).1.store
  pub failed :
      (run_id : Uuid) (reason : Bytes) (retry_at : Option ℕ)
      → T (fail_run run_id reason retry_at e s).1.store
  pub kept_up : (limit : ℤ) → T (run_upkeep limit e s).1.store
  pub cleaned :
      (older_than : ℕ) (limit : ℤ)
      → c ≡ cleans_tasks older_than limit
      → T (cleanup_tasks older_than limit e s).1.store
  pub cleared : c ≡ clears → T (clear_storage e s).1.store

module _ {T : Db → Type 0} (k : Kept T) (e : Env) (s : Session) (v : T s.store) (w : T s.work) where
  pub perform-Kept : (c : Call) → Others T c e s → T (perform c e s).store
  unfolding perform
  perform-Kept (spawns c n p x) o = o.spawned c n p x refl
  perform-Kept (claims cs i t q) o = ((claim_task-Kept k cs i t q).at e s (v, w)).0
  perform-Kept (extends i r t) o = ((extend_claim-Kept k i r t).at e s (v, w)).0
  perform-Kept (completes r b) o = ((complete_run-Kept k r b).at e s v w).0
  perform-Kept (cancels t b) o = ((cancel_task-Kept k t b).at e s (v, w)).0
  perform-Kept (fails r b t) o = o.failed r b t
  perform-Kept (schedules r t) o = ((schedule_run-Kept k r t).at e s v w).0
  perform-Kept (checkpoints t r n b x) o = ((set_checkpoint-Kept k t r n b x).at e s (v, w)).0
  perform-Kept (awaits t r n i x) o = ((await_event-Kept k t r n i x).at e s v w).0
  perform-Kept (emits i b) o = ((emit_event-Kept k i b).at e s (v, w)).0
  perform-Kept (upkeep l) o = o.kept_up l
  perform-Kept (cleans_events t l) o = ((cleanup_events-Kept k t l).at e s (v, w)).0
  perform-Kept (cleans_tasks t l) o = o.cleaned t l refl
  perform-Kept clears o = o.cleared refl
  perform-Kept (marks_schedule i l) o = ((set_scheduler_last_run-Kept k i l).at e s (v, w)).0
