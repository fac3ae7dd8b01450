-- ===== src/Storage/Complete.antt =====
-- What complete_run and schedule_run do, on every branch.
use taskturbine.Base.{ℕ, ◌+◌, ◌≡◌, refl, Option, none, some, [], update_where, arith, if◌then◌else◌}
use taskturbine.Base.Text.{Bytes}
use taskturbine.Models.{Uuid, Run, running}
use taskturbine.Sql.Session.{Db, Env, Session, Result, ok, err, not_found, not_running, effects}
use taskturbine.Storage.Rows.{find_run, is_run, is_task, is_running}
use taskturbine.Storage.Finish.{
  complete_run, schedule_run, suspend_run, completed_run, completed_task, suspended_run,
  sleeping_task,
}

-- The run found, and the tables after its completion.
pub record Completed (e : Env) (s s' : Db) (run_id : Uuid) (run_result : Bytes) : Type 0 where
  pub row : Run
  pub was_found : find_run run_id s.runs ≡ some row
  pub was_running : row.state ≡ running
  pub written : s' ≡ record s {
    runs = update_where (is_run run_id) (completed_run e run_result) s.runs;
    tasks = update_where (is_task row.task_id) (completed_task e run_id) s.tasks;
  }

complete_run_at :
    (e : Env) (s : Session) (run_id : Uuid) (run_result : Bytes) (o : Option Run)
    → find_run run_id s.store.runs ≡ o
    → (complete_run run_id run_result e s).0 ≡ ok tt
    → Completed e s.store (complete_run run_id run_result e s).1.store run_id run_result
unfolding complete_run effects
complete_run_at e s run_id run_result none f h = ground arith
complete_run_at e s run_id run_result (some r) f h = record {
  row = r;
  was_found = f;
  was_running = ground arith;
  written = ground arith;
}

-- Under any failing statements, a complete_run that succeeds found a running run. It wrote exactly
-- this: every row with the run's identifier becomes completed with the result, and every row with
-- its task's identifier becomes completed, with this run as its last attempt.
pub complete_run-Completed :
    (e : Env) (s : Session) (run_id : Uuid) (run_result : Bytes)
    → (complete_run run_id run_result e s).0 ≡ ok tt
    → Completed e s.store (complete_run run_id run_result e s).1.store run_id run_result
complete_run-Completed e s run_id run_result h = complete_run_at e s run_id run_result _ refl h

-- The answer, where no statement fails.
abbrev pub running_answer : Uuid → Option Run → Result (Unit {0})
running_answer run_id none = err (not_found run_id)
running_answer run_id (some r) = if is_running r.state then ok tt else err (not_running run_id)

complete_run_answer_at :
    (e : Env) (s : Session) (run_id : Uuid) (run_result : Bytes) (o : Option Run)
    → s.faults ≡ []
    → find_run run_id s.store.runs ≡ o
    → (complete_run run_id run_result e s).0 ≡ running_answer run_id o
unfolding complete_run effects
complete_run_answer_at e s run_id run_result none h f = ground arith
complete_run_answer_at e s run_id run_result (some r) h f = ground arith

schedule_run_answer_at :
    (e : Env) (s : Session) (run_id : Uuid) (wait_for : ℕ) (o : Option Run)
    → s.faults ≡ []
    → find_run run_id s.store.runs ≡ o
    → (schedule_run run_id wait_for e s).0 ≡ running_answer run_id o
unfolding schedule_run suspend_run effects
schedule_run_answer_at e s run_id wait_for none h f = ground arith
schedule_run_answer_at e s run_id wait_for (some r) h f = ground arith

-- Where no statement fails, complete_run and schedule_run succeed exactly on a running run. A
-- missing run is NotFound, any other state NotRunning.
pub running_answers :
    (e : Env) (s : Session) (run_id : Uuid) (run_result : Bytes) (wait_for : ℕ)
    → s.faults ≡ []
    → ((complete_run run_id run_result e s).0
        ≡ running_answer run_id (find_run run_id s.store.runs))
      × ((schedule_run run_id wait_for e s).0
          ≡ running_answer run_id (find_run run_id s.store.runs))
running_answers e s run_id run_result wait_for h = (
  complete_run_answer_at e s run_id run_result _ h refl,
  schedule_run_answer_at e s run_id wait_for _ h refl,
)

-- Under any failing statements, a schedule_run that succeeds found a running run, puts the run to
-- sleep until the wait is over, takes its claim away, and puts its task to sleep.
pub schedule_run-sleeping :
    (e : Env) (s : Session) (run_id : Uuid) (wait_for : ℕ) (r : Run)
    → find_run run_id s.store.runs ≡ some r
    → (schedule_run run_id wait_for e s).0 ≡ ok tt
    → (r.state ≡ running)
      × ((schedule_run run_id wait_for e s).1.store ≡ record s.store {
        runs =
            update_where (is_run run_id) (suspended_run (e.utc_now + wait_for) none) s.store.runs;
        tasks = update_where (is_task r.task_id) sleeping_task s.store.tasks;
      })
unfolding schedule_run suspend_run effects
schedule_run-sleeping e s run_id wait_for r f h = (ground arith, ground arith)
