-- ===== src/Storage/Effects/Ends.antt =====
-- The rows after complete_run and cancel_task of taskturbine-core/src/storage.rs, and that a run is
-- completed once.
use taskturbine.Base.{
  ◌≡◌, refl, sym, ap, ◌∙◌, ◌⊎◌, inl, inr, Option, none, some, false, List, [], ◌&&◌, not, ◌==◌,
  or_else, arith, if◌then◌else◌,
}
use taskturbine.Base.Rows.{
  Distinct, changed, find_first-changed, find_first-and, find_first-update_self,
}
use taskturbine.Base.Text.{Bytes}
use taskturbine.Models.{Uuid, Task, Run, running, completed, cancelled}
use taskturbine.Sql.Session.{
  Db, Env, Session, Result, ok, err, not_found, validation_error, currently_running, effects,
}
use taskturbine.Storage.Rows.{find_run, find_task, is_running, is_completed}
use taskturbine.Storage.Finish.{
  complete_run, cancel_task, completed_run, completed_task, cancelled_run, cancelled_task,
  run_of_task,
}
use taskturbine.Storage.Invariant.{IsValid}
use taskturbine.Storage.Invariant.Statements.{run_key, task_key}
use taskturbine.Storage.Calls.{Event, completes, perform, replay}
use taskturbine.Storage.History.{perform-IsValid}
use taskturbine.Storage.Lifecycle.Course.{IsKept, result_final}
use taskturbine.Storage.Retry.{own_task}
use taskturbine.Storage.Complete.{complete_run-Completed}
use taskturbine.Storage.Cancel.{cancel_task-written}

-- Under any failing statements, a complete_run that succeeds found a running run. The row of the run
-- is then completed at the database's time with the result and waits for no event, the row of its
-- task is completed at that time with this run as its last attempt, the other columns are as they
-- were, and so are all other runs and tasks.
pub complete_run_rows :
    (e : Env) (s : Session) (run_id : Uuid) (run_result : Bytes) (id : Uuid)
    → (complete_run run_id run_result e s).0 ≡ ok tt
    → (r : Run) × (find_run run_id s.store.runs ≡ some r)
      × (r.state ≡ running)
      × (find_run id (complete_run run_id run_result e s).1.store.runs
          ≡ changed
              (λ x. x.run_id == run_id)
              (λ x. record x {
                state = completed;
                completed_at = some e.now;
                wait_event_name = none;
                result = some run_result;
              })
              (find_run id s.store.runs))
      × (find_task id (complete_run run_id run_result e s).1.store.tasks
          ≡ changed
              (λ x. x.task_id == r.task_id)
              (λ x. record x {
                state = completed;
                last_attempt_run = some run_id;
                completed_at = some e.now;
              })
              (find_task id s.store.tasks))
complete_run_rows e s run_id run_result id h =
    let c = complete_run-Completed e s run_id run_result h in
    (
      c.row,
      c.was_found,
      c.was_running,
      rw c.written
          (find_first-changed run_key _ (completed_run e run_result) id s.store.runs (λ y. refl)),
      rw c.written
          (find_first-changed task_key _ (completed_task e run_id) id s.store.tasks (λ y. refl)),
    )

ended_not_running :
    (s : Run) (l : Run)
    → s.state ≡ completed
    → ((l.state ≡ s.state) ⊎ (l.state ≡ cancelled))
    → l.state ≡ running
    → ⊥
ended_not_running s l h (inl same) is = ground (arith, h, same, is)
ended_not_running s l h (inr gone) is = ground (arith, gone, is)

-- A call begins with the committed tables.
anew :
    (e : Env) (s : Session) (run_id : Uuid) (run_result : Bytes)
    → (complete_run run_id run_result e (record s { work = s.store })).1.store
      ≡ (complete_run run_id run_result e s).1.store
unfolding complete_run effects
anew e s run_id run_result = ground arith

complete_run-IsValid_at :
    (e : Env) (s : Session) (run_id : Uuid) (run_result : Bytes)
    → IsValid s.store
    → IsValid (complete_run run_id run_result e (record s { work = s.store })).1.store
unfolding perform
complete_run-IsValid_at e s run_id run_result v =
    perform-IsValid (completes run_id run_result) e (record s { work = s.store }) v v

complete_run-IsValid :
    (e : Env) (s : Session) (run_id : Uuid) (run_result : Bytes)
    → IsValid s.store
    → IsValid (complete_run run_id run_result e s).1.store
complete_run-IsValid e s run_id run_result v =
    rw (sym (anew e s run_id run_result)) (complete_run-IsValid_at e s run_id run_result v)

-- A run is completed at most once. From well-formed tables, after a complete_run that succeeded and
-- any history of calls, with any failing statements, in which the run is not deleted, no
-- complete_run of the run succeeds, whoever calls it, when, with which result and which statements
-- failing.
pub complete_run_once :
    (e : Env) (s : Session) (run_id : Uuid) (run_result : Bytes) (vs : List Event) (e' : Env)
    (s' : Session) (other : Bytes)
    → IsValid s.store
    → (complete_run run_id run_result e s).0 ≡ ok tt
    → IsKept run_id (complete_run run_id run_result e s).1.store vs
    → s'.store ≡ replay (complete_run run_id run_result e s).1.store vs
    → ¬ ((complete_run run_id other e' s').0 ≡ ok tt)
complete_run_once e s run_id run_result vs e' s' other valid done kept same again =
    let c = complete_run-Completed e s run_id run_result done in
    let first = (complete_run run_id run_result e s).1.store in
    let found : find_run run_id first.runs ≡ some (completed_run e run_result c.row) =
      rw c.written (
        find_first-update_self run_key (completed_run e run_result) run_id s.store.runs (λ y. refl)
          c.was_found) in
    let (last, there, over, _) =
      result_final vs first run_id (completed_run e run_result c.row)
        (complete_run-IsValid e s run_id run_result valid) found refl kept in
    let d = complete_run-Completed e' s' run_id other again in
    let row_is : some last ≡ some d.row =
      sym there ∙ sym (ap (λ (db : Db). find_run run_id db.runs) same) ∙ d.was_found in
    ended_not_running (completed_run e run_result c.row) last refl over
      (ground (arith, row_is, d.was_running))

held :
    (e : Env) (s : Session) (task_id : Uuid) (reason : Option Bytes) (t : Task) (o : Option Task)
    → own_task e task_id s.store.tasks ≡ o
    → (cancel_task task_id reason e s).0 ≡ ok t
    → (u : Task) × (own_task e task_id s.store.tasks ≡ some u) × (is_running u.state ≡ false)
unfolding cancel_task effects
held e s task_id reason t none f k = ground arith
held e s task_id reason t (some u) f k = (u, f, ground arith)

answered :
    (e : Env) (s : Session) (task_id : Uuid) (reason : Option Bytes) (t : Task)
    → (cancel_task task_id reason e s).0 ≡ ok t
    → find_task task_id (cancel_task task_id reason e s).1.store.tasks ≡ some t
unfolding cancel_task effects
answered e s task_id reason t k = ground arith

-- Under any failing statements, a cancel_task that succeeds found a task of the usecase that is not
-- running. The rows of that identifier are then cancelled at the database's time, each run of the
-- task that is not completed is cancelled at that time with the reason (or an empty one), the other
-- columns are as they were, and so are all other runs and tasks. The answer is the task's row.
pub cancel_task_rows :
    (e : Env) (s : Session) (task_id : Uuid) (reason : Option Bytes) (t : Task) (id : Uuid)
    → (cancel_task task_id reason e s).0 ≡ ok t
    → ((u : Task) × (own_task e task_id s.store.tasks ≡ some u) × (is_running u.state ≡ false))
      × (find_task task_id (cancel_task task_id reason e s).1.store.tasks ≡ some t)
      × (find_task id (cancel_task task_id reason e s).1.store.tasks
          ≡ changed
              (λ x. x.task_id == task_id)
              (λ x. record x { state = cancelled; completed_at = some e.now })
              (find_task id s.store.tasks))
      × (find_run id (cancel_task task_id reason e s).1.store.runs
          ≡ changed
              (λ x. x.task_id == task_id && not (is_completed x.state))
              (λ x. record x {
                state = cancelled;
                completed_at = some e.now;
                failure_reason = some (or_else reason []);
              })
              (find_run id s.store.runs))
cancel_task_rows e s task_id reason t id h =
    let written = cancel_task-written e s task_id reason t h in
    (
      held e s task_id reason t _ refl h,
      answered e s task_id reason t h,
      rw written (find_first-changed task_key _ (cancelled_task e) id s.store.tasks (λ y. refl)),
      rw written (
          find_first-changed run_key (run_of_task task_id) (cancelled_run e (or_else reason [])) id
            s.store.runs (λ y. refl)),
    )

-- What cancel_task answers, where no statement fails.
abbrev pub cancel_answer : Env → Uuid → Option Task → Result Task
cancel_answer e task_id none = err (not_found task_id)
cancel_answer e task_id (some t) =
    if is_running t.state
    then err (validation_error currently_running)
    else ok (record t { state = cancelled; completed_at = some e.now })

-- Where no statement fails and task identifiers are unique, cancel_task refuses as NotFound where
-- the caller's usecase has no task of the identifier, be it that there is none or that it is of
-- another usecase, and refuses a running task. It cancels a task in any other state, one that is
-- completed, failed or cancelled included, and answers with its row.
pub cancel_task_answers :
    (e : Env) (s : Session) (task_id : Uuid) (reason : Option Bytes) (o : Option Task)
    → s.faults ≡ []
    → Distinct task_key s.store.tasks
    → own_task e task_id s.store.tasks ≡ o
    → (cancel_task task_id reason e s).0 ≡ cancel_answer e task_id o
unfolding cancel_task effects
cancel_task_answers e s task_id reason none clean d f = ground arith
cancel_task_answers e s task_id reason (some t) clean d f = ground (
  arith,
  find_first-update_self task_key (cancelled_task e) task_id s.store.tasks {x = t} (λ y. refl)
      (find_first-and task_key _ task_id s.store.tasks {x = t} d f),
)
