-- ===== src/Storage/Effects/Failures.antt =====
-- The rows after fail_run of taskturbine-core/src/storage.rs, and what a retry costs.
use taskturbine.Base.{
  ℕ, Bool-cases, ==_iff, ==_refl, any, max, ◌+◌, ◌*◌, ◌≡◌, refl, sym, ◌∙◌, ◌⊎◌, inl, inr, Option,
  none, some, Bool, true, false, List, ◌∷◌, ◌&&◌, not, ◌==◌, leb, ltb, or_else, coalesce,
  update_where, arith, if◌then◌else◌,
}
use taskturbine.Base.Int.{ℤ, pos, pos_part, leb_ℤ, ltb_ℤ}
use taskturbine.Base.Rows.{
  Distinct, changed, find_first-changed, find_first-and, find_first-key, find_first-map,
  find_first-update_self, find_first-update_ne,
}
use taskturbine.Base.Text.{Text, Bytes}
use taskturbine.Models.{
  Uuid, Task, Run, TaskState, pending, running, sleeping, failed, cancelled, second,
  task_next_retry_in,
}
use taskturbine.Sql.Session.{Db, Env, Session, ok, effects}
use taskturbine.Storage.Rows.{find_run, find_task, is_run, is_task, new_run}
use taskturbine.Storage.Fail.{
  fail_run, do_fail_run, is_failable, failed_run, retry_state, update_task, retried_task,
  expired_task,
}
use taskturbine.Storage.Claim.{claim_statement, candidates, is_among, claimed_task}
use taskturbine.Storage.Invariant.Statements.{run_key, task_key}
use taskturbine.Storage.Retry.{own_task, retry_at, failed_db, fail_run-failed_db}

no_run :
    (e : Env) (s : Session) (run_id : Uuid) (reason : Bytes) (delay : Option ℕ)
    → find_run run_id s.store.runs ≡ none
    → (fail_run run_id reason delay e s).0 ≡ ok tt
    → ⊥
unfolding fail_run do_fail_run effects
no_run e s run_id reason delay f h = ground arith

no_task :
    (e : Env) (s : Session) (run_id : Uuid) (reason : Bytes) (delay : Option ℕ) (r : Run)
    → find_run run_id s.store.runs ≡ some r
    → own_task e r.task_id s.store.tasks ≡ none
    → (fail_run run_id reason delay e s).0 ≡ ok tt
    → ⊥
unfolding fail_run do_fail_run effects
no_task e s run_id reason delay r f g h = ground arith

-- A fail_run that succeeds found the run and its task.
found_at :
    (e : Env) (s : Session) (run_id : Uuid) (reason : Bytes) (delay : Option ℕ) (o : Option Run)
    (p : Uuid → Option Task)
    → find_run run_id s.store.runs ≡ o
    → ((id : Uuid) → own_task e id s.store.tasks ≡ p id)
    → (fail_run run_id reason delay e s).0 ≡ ok tt
    → (r : Run) × (t : Task) × (find_run run_id s.store.runs ≡ some r)
      × (own_task e r.task_id s.store.tasks ≡ some t)
found_at e s run_id reason delay none p f g h = absurd (no_run e s run_id reason delay f h)
found_at e s run_id reason delay (some r) p f g h = at (own_task e r.task_id s.store.tasks) refl
  where
    at :
        (o : Option Task)
        → own_task e r.task_id s.store.tasks ≡ o
        → (r : Run) × (t : Task) × (find_run run_id s.store.runs ≡ some r)
          × (own_task e r.task_id s.store.tasks ≡ some t)
    at none k = absurd (no_task e s run_id reason delay r f k h)
    at (some t) k = (r, t, f, k)

failable_states : (s : TaskState) → is_failable s ≡ true → (s ≡ running) ⊎ (s ≡ sleeping)
failable_states running h = inl refl
failable_states sleeping h = inr refl
failable_states s h = ground arith

-- A retry that comes too late: at or after the age, counted in seconds, that the task may reach.
abbrev pub is_late : Task → ℕ → Bool
is_late t at =
    ltb_ℤ (pos 0) t.cancellation_max_age
    && leb (t.created_at + pos_part t.cancellation_max_age * second) at

-- The run with the identifier after the failure: the new run where there is one, or else the row of
-- before, failed if it is the run's.
abbrev pub run_after : Env → Session → Uuid → Bytes → Option ℕ → Task → Uuid → Option Run
run_after e s run_id reason delay t id =
    let at = e.utc_now + or_else delay (task_next_retry_in e.floats t) in
    if leb_ℤ (pos (t.attempts + 1)) t.max_attempts && not (is_late t at) && (e.new_v7 s.drawn == id)
    then some (record {
      run_id = e.new_v7 s.drawn;
      task_id = t.task_id;
      attempt = t.attempts + 1;
      state = if ltb e.utc_now at then sleeping else pending;
      claimed_by = none;
      claim_expires_at = none;
      available_at = at;
      started_at = none;
      completed_at = none;
      result = none;
      failure_reason = none;
      created_at = e.now;
      wait_event_name = none;
    })
    else changed (λ x. x.run_id == run_id)
        (λ x. record x {
          state = failed;
          completed_at = some e.now;
          failure_reason = some reason;
          wait_event_name = none;
        })
        (find_run id s.store.runs)

-- The task after the failure of its run.
abbrev pub task_after : Env → Uuid → Option ℕ → Task → Task
task_after e run_id delay t =
    let at = e.utc_now + or_else delay (task_next_retry_in e.floats t) in
    if leb_ℤ (pos (t.attempts + 1)) t.max_attempts
    then record t {
      attempts = t.attempts + 1;
      last_attempt_run = some run_id;
      state = if is_late t at then cancelled else if ltb e.utc_now at then sleeping else pending;
      completed_at =
          if is_late t at then coalesce t.completed_at (some e.utc_now) else t.completed_at;
    }
    else t

task_after_lem :
    (e : Env) (s : Session) (run_id : Uuid) (reason : Bytes) (delay : Option ℕ) (t : Task)
    → find_task t.task_id s.store.tasks ≡ some t
    → find_task t.task_id (failed_db e s run_id reason delay t).tasks
      ≡ some (task_after e run_id delay t)
task_after_lem e s run_id reason delay t f = ground (
  arith,
  written (retried_task e run_id (retry_at e delay t) t),
  written (expired_task e run_id t),
  written t,
)
  where
    written :
        (u : Task)
        → find_task t.task_id (update_where (is_task t.task_id) (update_task u) s.store.tasks)
          ≡ some (update_task u t)
    written u =
        find_first-update_self task_key (update_task u) t.task_id s.store.tasks (λ y. refl) f

run_after_lem :
    (e : Env) (s : Session) (run_id : Uuid) (reason : Bytes) (delay : Option ℕ) (t : Task)
    (id : Uuid)
    → find_run id (failed_db e s run_id reason delay t).runs
      ≡ run_after e s run_id reason delay t id
run_after_lem e s run_id reason delay t id = ground (
  arith,
  find_first-changed run_key (is_run run_id) (failed_run e reason) id s.store.runs (λ y. refl),
)

-- Its row, and those of the other tasks.
tasks_after :
    (e : Env) (s : Session) (run_id : Uuid) (reason : Bytes) (delay : Option ℕ) (t : Task)
    (id : Uuid)
    → find_task t.task_id s.store.tasks ≡ some t
    → find_task id (failed_db e s run_id reason delay t).tasks
      ≡ (if id == t.task_id then some (task_after e run_id delay t) else find_task id s.store.tasks)
tasks_after e s run_id reason delay t id f = elim (Bool-cases (id == t.task_id)) [
  | inl here ↦
      rw ((==_iff id t.task_id).0 here, ==_refl t.task_id)
        (task_after_lem e s run_id reason delay t f)
  | inr other ↦ rw other (
      ground (
        arith,
        kept (retried_task e run_id (retry_at e delay t) t) other,
        kept (expired_task e run_id t) other,
        kept t other,
      ))
]
  where
    kept :
        (u : Task)
        → (id == t.task_id) ≡ false
        → find_task id (update_where (is_task t.task_id) (update_task u) s.store.tasks)
          ≡ find_task id s.store.tasks
    kept u other =
        find_first-update_ne task_key (update_task u) id t.task_id s.store.tasks (λ y. refl)
          (ground arith)

-- Under any failing statements, where task identifiers are unique, a fail_run that succeeds found a
-- run that was running or sleeping, and its task. The run's row is then failed with the reason and
-- waits for no event. With attempts left and the retry not too late for the task's maximum age,
-- there is a new run of the task with the next attempt, pending, or sleeping until the delay given
-- (or the task's own) is over; the task is in the same state and counts the attempt. With attempts
-- left and the retry too late, the task counts the attempt and is cancelled. With none left the
-- task's row is as it was. All other runs and tasks are as they were.
pub fail_run_rows :
    (e : Env) (s : Session) (run_id : Uuid) (reason : Bytes) (delay : Option ℕ) (id other : Uuid)
    → Distinct task_key s.store.tasks
    → (fail_run run_id reason delay e s).0 ≡ ok tt
    → (r : Run) × (t : Task) × (find_run run_id s.store.runs ≡ some r)
      × ((r.state ≡ running) ⊎ (r.state ≡ sleeping))
      × (own_task e r.task_id s.store.tasks ≡ some t)
      × (find_run id (fail_run run_id reason delay e s).1.store.runs
          ≡ run_after e s run_id reason delay t id)
      × (find_task other (fail_run run_id reason delay e s).1.store.tasks ≡ (
          if other == r.task_id
          then some (task_after e run_id delay t)
          else find_task other s.store.tasks))
fail_run_rows e s run_id reason delay id other d h =
    let (r, t, f, g) =
      found_at e s run_id reason delay _ (λ i. own_task e i s.store.tasks) refl (λ i. refl) h in
    let (failable, store) = fail_run-failed_db e s run_id reason delay r t f g h in
    let row = find_first-and task_key _ r.task_id s.store.tasks d g in
    let key : t.task_id ≡ r.task_id = find_first-key task_key r.task_id s.store.tasks row in
    (
      r,
      t,
      f,
      failable_states r.state failable,
      g,
      rw store (run_after_lem e s run_id reason delay t id),
      rw (store, sym key) (tasks_after e s run_id reason delay t other (rw key row)),
    )

-- A claim that picks the first run of the tables counts its attempt.
claim_first :
    (e : Env) (channels : List Text) (worker_id : Text) (until : ℕ) (qty : ℤ) (db : Db) (new : Run)
    (rest : List Run) (x : Task)
    → db.runs ≡ new ∷ rest
    → is_among (candidates e channels qty db) new ≡ true
    → find_task new.task_id db.tasks ≡ some x
    → (u : Task) × (find_task new.task_id
          (claim_statement e channels worker_id until qty db).1.tasks
        ≡ some u)
      × (u.attempts ≡ max x.attempts (new.attempt + 1))
unfolding claim_statement
claim_first e channels worker_id until qty db new rest x first picked f = (
  _,
  find_first-map task_key (claimed_task e _) new.task_id db.tasks (λ y. ground arith) f,
  ground
      (arith, first, picked, find_first-key task_key new.task_id db.tasks f, ==_refl new.task_id),
)

-- A retry costs two attempts. After a fail_run that succeeded, with attempts left and the retry not
-- too late, any claim, by any worker and at any time, that picks the new run from the tables as the
-- failure left them leaves the task with two attempts more than before the failure.
pub retry_costs_two :
    (e e' : Env) (s : Session) (run_id : Uuid) (reason : Bytes) (delay : Option ℕ) (r : Run)
    (t : Task) (channels : List Text) (worker_id : Text) (until : ℕ) (qty : ℤ)
    → find_run run_id s.store.runs ≡ some r
    → own_task e r.task_id s.store.tasks ≡ some t
    → find_task t.task_id s.store.tasks ≡ some t
    → leb_ℤ (pos (t.attempts + 1)) t.max_attempts ≡ true
    → is_late t (e.utc_now + or_else delay (task_next_retry_in e.floats t)) ≡ false
    → (fail_run run_id reason delay e s).0 ≡ ok tt
    → let db = (fail_run run_id reason delay e s).1.store in
      any (is_run (e.new_v7 s.drawn)) (candidates e' channels qty db) ≡ true
      → (u : Task) × (find_task t.task_id
            (claim_statement e' channels worker_id until qty db).1.tasks
          ≡ some u)
        × (u.attempts ≡ t.attempts + 2)
retry_costs_two e e' s run_id reason delay r t channels worker_id until qty f g k more soon h
      picked =
    let store = (fail_run-failed_db e s run_id reason delay r t f g h).1 in
    let at = retry_at e delay t in
    let new = new_run e (e.new_v7 s.drawn) t.task_id (t.attempts + 1) (retry_state e at) at in
    let row : find_task t.task_id (fail_run run_id reason delay e s).1.store.tasks
        ≡ some (task_after e run_id delay t) =
      rw store (task_after_lem e s run_id reason delay t k) in
    let first : (fail_run run_id reason delay e s).1.store.runs
        ≡ new ∷ update_where (is_run run_id) (failed_run e reason) s.store.runs =
      rw (store, more, soon) refl in
    let (u, found, counted) =
      claim_first e' channels worker_id until qty (fail_run run_id reason delay e s).1.store new
        (update_where (is_run run_id) (failed_run e reason) s.store.runs)
        (task_after e run_id delay t) first picked row in
    let two : max (task_after e run_id delay t).attempts (t.attempts + 1 + 1) ≡ t.attempts + 2 =
      rw more (omega arith) in
    (u, found, counted ∙ two)
