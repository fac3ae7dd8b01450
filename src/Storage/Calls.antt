-- ===== src/Storage/Calls.antt =====
-- Histories: any calls of the methods of Storage, one after the other, by any processes, each at its
-- own time and with its own failing statements.
use taskturbine.Base.{ℕ, Option, Bool, List, [], ◌∷◌}
use taskturbine.Base.Int.{ℤ}
use taskturbine.Base.Text.{Text, Bytes}
use taskturbine.Models.{Uuid}
use taskturbine.Sql.Session.{Db, Env, Session}
use taskturbine.Storage.Claim.{claim_task, extend_claim}
use taskturbine.Storage.Finish.{complete_run, cancel_task, schedule_run}
use taskturbine.Storage.Fail.{fail_run}
use taskturbine.Storage.Spawn.{spawn_task, TaskOptions}
use taskturbine.Storage.Event.{await_event, emit_event, set_checkpoint}
use taskturbine.Storage.Upkeep.{
  run_upkeep, cleanup_events, cleanup_tasks, clear_storage, set_scheduler_last_run,
}

-- The calls that write, with their arguments.
pub data Call : Type 0 where
  spawns : Text → Text → Bytes → Option TaskOptions → Call
  claims : List Text → Text → ℕ → ℤ → Call
  extends : Text → Uuid → ℕ → Call
  completes : Uuid → Bytes → Call
  cancels : Uuid → Option Bytes → Call
  fails : Uuid → Bytes → Option ℕ → Call
  schedules : Uuid → ℕ → Call
  checkpoints : Uuid → Uuid → Text → Bytes → Option ℕ → Call
  awaits : Uuid → Uuid → Text → Text → Option ℕ → Call
  emits : Text → Bytes → Call
  upkeep : ℤ → Call
  cleans_events cleans_tasks : ℕ → ℤ → Call
  clears : Call
  marks_schedule : Text → ℕ → Call

-- The session that a call leaves.
unfoldable pub perform : Call → Env → Session → Session
perform (spawns c n p o) e s = (spawn_task c n p o e s).1
perform (claims cs w t q) e s = (claim_task cs w t q e s).1
perform (extends w r t) e s = (extend_claim w r t e s).1
perform (completes r b) e s = (complete_run r b e s).1
perform (cancels t b) e s = (cancel_task t b e s).1
perform (fails r b d) e s = (fail_run r b d e s).1
perform (schedules r d) e s = (schedule_run r d e s).1
perform (checkpoints t r n b d) e s = (set_checkpoint t r n b d e s).1
perform (awaits t r n v d) e s = (await_event t r n v d e s).1
perform (emits v b) e s = (emit_event v b e s).1
perform (upkeep l) e s = (run_upkeep l e s).1
perform (cleans_events t l) e s = (cleanup_events t l e s).1
perform (cleans_tasks t l) e s = (cleanup_tasks t l e s).1
perform clears e s = (clear_storage e s).1
perform (marks_schedule k t) e s = (set_scheduler_last_run k t e s).1

-- One call in a history: what it is, its environment, its failing statements, and how many UUIDs
-- have been drawn before it.
pub record Event : Type 0 where
  pub call : Call
  pub env : Env
  pub faults : List Bool
  pub drawn : ℕ

abbrev pub opened : Event → Db → Session
opened v db = record { store = db; work = db; faults = v.faults; drawn = v.drawn }

-- The tables after a history.
unfoldable pub replay : Db → List Event → Db
replay db [] = db
replay db (v ∷ vs) = replay (perform v.call v.env (opened v db)).store vs
