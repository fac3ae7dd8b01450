-- ===== src/Worker/Outcome.antt =====
-- What executing a task does to its run (taskturbine-app/src/app.rs).
use taskturbine.Base.{ℕ, ◌+◌, ◌≡◌, refl, ◌∙◌, ◌⊎◌, inl, inr, [], Option, none, some, or_else}
use taskturbine.Base.Rows.{find_first-update_self}
use taskturbine.Base.Text.{Bytes, text_eq}
use taskturbine.Models.{ClaimedTask, Run, running}
use taskturbine.Sql.Session.{Env, Session, ok}
use taskturbine.Storage.Rows.{find_run}
use taskturbine.Storage.Finish.{complete_run, schedule_run, completed_run, suspended_run}
use taskturbine.Storage.Invariant.Statements.{run_key}
use taskturbine.Storage.Complete.{complete_run-Completed, running_answers, schedule_run-sleeping}
use taskturbine.Cache.{Checkpoints, get, new}
use taskturbine.Context.{Flow, done, stop, suspend, suspended}
use taskturbine.Worker.{Worker, TaskFn, execute_task}

-- The run after a task function that did not fail.
abbrev pub run_after : Env → Flow (Option Bytes) → Run → Run
run_after e (done r) row = completed_run e (or_else r []) row
run_after e (stop (suspend wait_for)) row = suspended_run (e.utc_now + wait_for) none row
run_after e _ row = row

complete_clean :
    (e : Env) (s : Session) (t : ClaimedTask) (b : Bytes) (row : Run)
    → s.faults ≡ []
    → find_run t.run_id s.store.runs ≡ some row
    → row.state ≡ running
    → find_run t.run_id (complete_run t.run_id b e s).1.store.runs ≡ some (completed_run e b row)
complete_clean e s t b row clean f on =
    let answer = (running_answers e s t.run_id b 0 clean).0 in
    let success : (complete_run t.run_id b e s).0 ≡ ok tt = answer ∙ (rw f (rw on refl)) in
    let c = complete_run-Completed e s t.run_id b success in
    rw c.written
      (find_first-update_self run_key (completed_run e b) t.run_id s.store.runs (λ y. refl) f)

schedule_clean :
    (e : Env) (s : Session) (t : ClaimedTask) (d : ℕ) (row : Run)
    → s.faults ≡ []
    → find_run t.run_id s.store.runs ≡ some row
    → row.state ≡ running
    → find_run t.run_id (schedule_run t.run_id d e s).1.store.runs
      ≡ some (suspended_run (e.utc_now + d) none row)
schedule_clean e s t d row clean f on =
    let answer = (running_answers e s t.run_id [] d clean).1 in
    let success : (schedule_run t.run_id d e s).0 ≡ ok tt = answer ∙ (rw f (rw on refl)) in
    rw (schedule_run-sleeping e s t.run_id d row f success).1 (
      find_first-update_self run_key (suspended_run (e.utc_now + d) none) t.run_id s.store.runs
        (λ y. refl) f)

-- Where no statement fails after the task function, and the run is still running then, executing a
-- registered task leaves its run completed with the function's result (or empty), if the function
-- returned; asleep for the time asked, if it asked to be suspended; and as the function left it, if
-- the function was suspended by an event.
pub execute_task-run :
    (w : Worker) (t : ClaimedTask) (e : Env) (s s1 : Session) (task_fn : TaskFn)
    (out : Flow (Option Bytes)) (c : Checkpoints) (row : Run) (r : Option Bytes) (d : ℕ)
    → get (text_eq t.task_name) w.app.tasks ≡ some task_fn
    → task_fn t e new s ≡ (out, c, s1)
    → s1.faults ≡ []
    → find_run t.run_id s1.store.runs ≡ some row
    → row.state ≡ running
    → (out ≡ done r) ⊎ ((out ≡ stop (suspend d)) ⊎ (out ≡ stop suspended))
    → find_run t.run_id (execute_task w t e s).store.runs ≡ some (run_after e out row)
unfolding execute_task
execute_task-run w t e s s1 task_fn out c row r d known ran clean f on (inl o) =
    rw (known, ran, o) (complete_clean e s1 t (or_else r []) row clean f on)
execute_task-run w t e s s1 task_fn out c row r d known ran clean f on (inr (inl o)) =
    rw (known, ran, o) (schedule_clean e s1 t d row clean f on)
execute_task-run w t e s s1 task_fn out c row r d known ran clean f on (inr (inr o)) =
    rw (known, ran, o) f
