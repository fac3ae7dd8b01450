-- ===== src/Storage/Retry.antt =====
-- What a failure does: retry, cancellation by age, and the end of the attempts
-- (do_fail_run and fail_run of taskturbine-core/src/storage.rs).
use taskturbine.Base.{
  ℕ, ◌+◌, ◌≡◌, ◌∙◌, Option, some, true, List, ◌∷◌, ◌&&◌, update_where, find_first, or_else, arith,
  if◌then◌else◌,
}
use taskturbine.Base.Int.{pos, leb_ℤ}
use taskturbine.Base.Text.{Bytes, text_eq}
use taskturbine.Models.{Uuid, Task, Run, task_next_retry_in}
use taskturbine.Sql.Session.{
  Db, Env, Session, Result, ok, effects, M, ◌>>=◌, ◌>>◌, execute, commit, later,
}
use taskturbine.Storage.Rows.{find_run, is_run, is_task, new_run}
use taskturbine.Storage.Fail.{
  fail_run, do_fail_run, next_attempt, is_failable, failed_run, too_old, expired_task, retried_task,
  retry_state, update_task,
}

-- get_locked_task, on the table.
abbrev pub own_task : Env → Uuid → List Task → Option Task
own_task e id = find_first (λ t. is_task id t && text_eq t.usecase e.config.usecase)

-- When the retry of a failure is due.
abbrev pub retry_at : Env → Option ℕ → Task → ℕ
retry_at e delay t = e.utc_now + or_else delay (task_next_retry_in e.floats t)

-- The tables after a failure whose run and task were found.
abbrev pub failed_db : Env → Session → Uuid → Bytes → Option ℕ → Task → Db
failed_db e s run_id reason delay t =
    let db = s.store in
    let failed = update_where (is_run run_id) (failed_run e reason) db.runs in
    let at = retry_at e delay t in
    let write = λ (u : Task). update_where (is_task t.task_id) (update_task u) db.tasks in
    if leb_ℤ (pos (t.attempts + 1)) t.max_attempts
    then (if too_old t at
        then record db { runs = failed; tasks = write (expired_task e run_id t) }
        else record db {
          runs =
              new_run e (e.new_v7 s.drawn) t.task_id (t.attempts + 1) (retry_state e at) at
              ∷ failed;
          tasks = write (retried_task e run_id at t);
        })
    else record db { runs = failed; tasks = write t }

-- The task that next_attempt returns, and the transaction's tables after it.
abbrev attempted : Env → Uuid → ℕ → Task → Task
attempted e run_id at t =
    if leb_ℤ (pos (t.attempts + 1)) t.max_attempts
    then (if too_old t at then expired_task e run_id t else retried_task e run_id at t)
    else t

abbrev attempted_runs : Env → ℕ → Uuid → ℕ → Task → List Run → List Run
attempted_runs e drawn run_id at t runs =
    if leb_ℤ (pos (t.attempts + 1)) t.max_attempts
    then (if too_old t at
        then runs
        else new_run e (e.new_v7 drawn) t.task_id (t.attempts + 1) (retry_state e at) at ∷ runs)
    else runs

abbrev Attempts : Env → Session → Uuid → ℕ → Task → Result Task × Session → Type 0
Attempts e s run_id at t (ok u, s') =
    (u ≡ attempted e run_id at t)
    × (s'.store ≡ s.store)
    × (s'.work ≡ record s.work { runs = attempted_runs e s.drawn run_id at t s.work.runs })
Attempts e s run_id at t _ = Unit

next_attempt-Attempts :
    (e : Env) (s : Session) (run_id : Uuid) (delay : Option ℕ) (t : Task)
    → Attempts e s run_id (retry_at e delay t) t (next_attempt run_id delay t e s)
unfolding next_attempt effects
next_attempt-Attempts e s run_id delay t = ground arith

abbrev write_task : Task → Db → Db
write_task u db = record db { tasks = update_where (is_task u.task_id) (update_task u) db.tasks }

-- The session of fail_run where next_attempt begins.
abbrev failing : Env → Session → Uuid → Bytes → Session
failing e s run_id reason = record s {
  work = record s.store { runs = update_where (is_run run_id) (failed_run e reason) s.store.runs };
  faults = later (later (later (later s.faults)));
}

-- The rest of fail_run after it.
abbrev finish : M Task → M (Unit {0})
finish m = (m >>= λ u. execute (write_task u)) >> commit

fail_run-finish :
    (e : Env) (s : Session) (run_id : Uuid) (reason : Bytes) (delay : Option ℕ) (r : Run) (t : Task)
    → find_run run_id s.store.runs ≡ some r
    → own_task e r.task_id s.store.tasks ≡ some t
    → (fail_run run_id reason delay e s).0 ≡ ok tt
    → (is_failable r.state ≡ true)
      × (fail_run run_id reason delay e s
          ≡ finish (next_attempt run_id delay t) e (failing e s run_id reason))
unfolding fail_run do_fail_run effects
fail_run-finish e s run_id reason delay r t f g h = (ground arith, ground arith)

-- What an answer of next_attempt becomes.
finish_at :
    (e : Env) (s s1 : Session) (run_id : Uuid) (at : ℕ) (t : Task) (m : M Task)
    → Attempts e s1 run_id at t (m e s1)
    → (finish m e s1).0 ≡ ok tt
    → (finish m e s1).1.store
      ≡ write_task
          (attempted e run_id at t)
          (record s1.work { runs = attempted_runs e s1.drawn run_id at t s1.work.runs })
unfolding effects
finish_at e s s1 run_id at t m a h = ground arith

attempted_db :
    (e : Env) (s : Session) (run_id : Uuid) (reason : Bytes) (delay : Option ℕ) (t : Task)
    → write_task (attempted e run_id (retry_at e delay t) t) (record s.store {
      runs =
          attempted_runs e s.drawn run_id
            (retry_at e delay t)
            t
            (update_where (is_run run_id) (failed_run e reason) s.store.runs);
    })
      ≡ failed_db e s run_id reason delay t
attempted_db e s run_id reason delay t = ground arith

-- Under any failing statements, a fail_run that succeeds found a running or sleeping run and its
-- task, and its effect is this. The run is failed with the reason and waits for no event. With
-- attempts left, and the retry due before the task's maximum age, a new run is inserted, due after
-- the delay, and the task counts one more attempt; due later, the task is cancelled. With no
-- attempts left the task's columns are written back as they were.
pub fail_run-failed_db :
    (e : Env) (s : Session) (run_id : Uuid) (reason : Bytes) (delay : Option ℕ) (r : Run) (t : Task)
    → find_run run_id s.store.runs ≡ some r
    → own_task e r.task_id s.store.tasks ≡ some t
    → (fail_run run_id reason delay e s).0 ≡ ok tt
    → (is_failable r.state ≡ true)
      × ((fail_run run_id reason delay e s).1.store ≡ failed_db e s run_id reason delay t)
fail_run-failed_db e s run_id reason delay r t f g h =
    let (failable, same) = fail_run-finish e s run_id reason delay r t f g h in
    (
      failable,
      rw same (
          finish_at e s (failing e s run_id reason) run_id (retry_at e delay t) t
            (next_attempt run_id delay t) (next_attempt-Attempts e _ run_id delay t) (rw same at h)
          ∙ attempted_db e s run_id reason delay t),
    )
