-- ===== src/Storage/Effects/Wakes.antt =====
-- The rows after await_event and emit_event of taskturbine-core/src/storage.rs.
use taskturbine.Base.{
  ℕ, ◌+◌, ◌*◌, ◌≡◌, refl, ◌∙◌, Option, none, some, Bool, true, false, List, [], ◌∷◌, ◌&&◌, ◌==◌,
  ==_refl, ==_iff, Bool-cases, inl, inr, any, or_else, rows_where, arith, if◌then◌else◌,
}
use taskturbine.Base.Rows.{
  find_first-update_where, find_first-update_self, any-rows_where_and, any_of_found, find_first-key,
}
use taskturbine.Base.Text.{Text, Bytes, text_eq, text_eq_refl}
use taskturbine.Models.{Uuid, Task, Run, running, pending, sleeping, cancelled, second}
use taskturbine.Sql.Session.{Db, Env, Session, ok}
use taskturbine.Storage.Rows.{find_run, find_task, is_completed, column_is, as_u64, find_checkpoint}
use taskturbine.Storage.Finish.{
  cancel_task, cancelled_run, cancelled_task, suspended_run, sleeping_task,
}
use taskturbine.Storage.Event.{await_event, emit_event, wake, pending_task, waits_for, payload_of}
use taskturbine.Storage.Invariant.Statements.{run_key, task_key}
use taskturbine.Storage.Waking.{await_event_suspends, find_run-wake, emit_event-wake, wait_until}
use taskturbine.Storage.Effects.Ends.{cancel_task_rows}

-- Some run of the task waits for the event.
abbrev pub awaited : Text → Uuid → List Run → Bool
awaited name id = any (λ r. r.task_id == id && column_is r.wait_event_name name)

awaited_lem :
    (e : Env) (name : Text) (tasks : List Task) (t : Task) (id : Uuid) (runs : List Run)
    → find_task id tasks ≡ some t
    → any (λ r. waits_for e name tasks r && (r.task_id == id)) runs
      ≡ (text_eq t.usecase e.config.usecase && awaited name id runs)
awaited_lem e name tasks t id [] f = ground arith
awaited_lem e name tasks t id (r ∷ rs) f = elim (Bool-cases (r.task_id == id)) [
  | inl here ↦ ground (arith, awaited_lem e name tasks t id rs f, (==_iff r.task_id id).0 here)
  | inr other ↦ ground (arith, awaited_lem e name tasks t id rs f)
]

find_task-wake :
    (e : Env) (name : Text) (db : Db) (id : Uuid) (t : Task)
    → find_task id db.tasks ≡ some t
    → find_task id (wake e name db).tasks
      ≡ some (
          if text_eq t.usecase e.config.usecase && awaited name id db.runs
          then pending_task t
          else t)
unfolding wake
find_task-wake e name db id t f =
    let row =
      find_first-update_where task_key
        (λ u. any (λ r. r.task_id == u.task_id) (rows_where (waits_for e name db.tasks) db.runs))
        pending_task id db.tasks (λ y. refl) f in
    let key : t.task_id ≡ id = find_first-key task_key id db.tasks f in
    row
    ∙ rw
        (
          key,
          any-rows_where_and (λ r. r.task_id == id) (waits_for e name db.tasks) db.runs,
          awaited_lem e name db.tasks t id db.runs f,
        )
        refl

-- Under any failing statements, an emit_event that succeeds has set the event's payload and left
-- those of all other events as they were. A run that waits for the event, in whatever state, and
-- whose task is of the emitter's usecase, is then pending, available at once, claimed by nobody, and
-- waits no more, and so any task of the usecase with such a run is pending. All other runs and tasks
-- are as they were.
pub emit_event_rows :
    (e : Env) (s : Session) (name : Text) (payload : Bytes) (usecase other : Text) (r : Run)
    (t : Task)
    → find_run r.run_id s.store.runs ≡ some r
    → find_task r.task_id s.store.tasks ≡ some t
    → (emit_event name payload e s).0 ≡ ok tt
    → (payload_of usecase other (emit_event name payload e s).1.store.events ≡ (
        if text_eq e.config.usecase usecase && text_eq name other
        then some payload
        else payload_of usecase other s.store.events))
      × (find_run r.run_id (emit_event name payload e s).1.store.runs
          ≡ some (
              if column_is r.wait_event_name name && text_eq t.usecase e.config.usecase
              then record r {
                state = pending;
                available_at = e.now;
                claimed_by = none;
                wait_event_name = none;
                claim_expires_at = none;
              }
              else r))
      × (find_task r.task_id (emit_event name payload e s).1.store.tasks
          ≡ some (
              if text_eq t.usecase e.config.usecase && awaited name r.task_id s.store.runs
              then record t { state = pending }
              else t))
emit_event_rows e s name payload usecase other r t f g h =
    let (events, runs, tasks) = emit_event-wake e s name payload usecase other h in
    (
      events,
      rw runs (ground (arith, find_run-wake e name s.store r.run_id r f, g)),
      rw tasks (find_task-wake e name s.store r.task_id t g),
    )

-- A wait, from its start to its end. Where no statement fails, a running run of a step without a
-- checkpoint that awaits an event not yet emitted is told to suspend. Its row then sleeps until the
-- timeout (or the configured default) is over, claimed by nobody and waiting for the event, and the
-- row of its task sleeps. Under any failing statements, an emission of the event in the task's
-- usecase that succeeds on these tables makes the run pending and available at once, claimed by
-- nobody, and its task pending, so that a worker can claim it before the timeout.
pub await_event-emit_event :
    (e e' : Env) (s s' : Session) (step_name name : Text) (timeout : Option ℕ) (r : Run) (t : Task)
    (payload : Bytes)
    → s.faults ≡ []
    → find_checkpoint r.task_id step_name s.store.checkpoints ≡ none
    → find_run r.run_id s.store.runs ≡ some r
    → find_task r.task_id s.store.tasks ≡ some t
    → r.state ≡ running
    → payload_of e.config.usecase name s.store.events ≡ none
    → s'.store ≡ (await_event r.task_id r.run_id step_name name timeout e s).1.store
    → text_eq t.usecase e'.config.usecase ≡ true
    → (emit_event name payload e' s').0 ≡ ok tt
    → let slept = record r {
      state = sleeping;
      claimed_by = none;
      claim_expires_at = none;
      available_at =
          e.utc_now + or_else timeout (as_u64 e.config.await_event_default_timeout_secs * second);
      wait_event_name = some name;
    } in
      ((await_event r.task_id r.run_id step_name name timeout e s).0
        ≡ ok (record { payload = []; should_suspend = true }))
      × (find_run r.run_id s'.store.runs ≡ some slept)
      × (find_task r.task_id s'.store.tasks ≡ some (record t { state = sleeping }))
      × (find_run r.run_id (emit_event name payload e' s').1.store.runs
          ≡ some (record slept { state = pending; available_at = e'.now; wait_event_name = none }))
      × (find_task r.task_id (emit_event name payload e' s').1.store.tasks
          ≡ some (record t { state = pending }))
await_event-emit_event e e' s s' step_name name timeout r t payload clean fresh f g on p same own
      h =
    let (told, written) =
      await_event_suspends e s r.task_id r.run_id step_name name timeout r clean fresh f on p in
    let until = wait_until e timeout in
    let asleep : find_run r.run_id s'.store.runs ≡ some (suspended_run until (some name) r) =
      rw (same, written)
        (find_first-update_self run_key (suspended_run until (some name)) r.run_id s.store.runs
          (λ y. refl) f) in
    let sleeps : find_task r.task_id s'.store.tasks ≡ some (sleeping_task t) =
      rw (same, written)
        (find_first-update_self task_key sleeping_task r.task_id s.store.tasks (λ y. refl) g) in
    let (_, run, task) =
      emit_event_rows e' s' name payload [] [] (suspended_run until (some name) r) (sleeping_task t)
        asleep sleeps h in
    let waiting : awaited name r.task_id s'.store.runs ≡ true =
      any_of_found run_key _ r.run_id s'.store.runs asleep
        (ground (arith, text_eq_refl name, ==_refl r.task_id)) in
    (told, asleep, sleeps, run ∙ rw (own, text_eq_refl name) refl, task ∙ rw (own, waiting) refl)

-- A cancelled task comes back. Once cancel_task has cancelled a task and its waiting run, under any
-- failing statements, an emission of the event in the task's usecase that succeeds on these tables
-- makes both the run and the task pending again, the run available at once and claimed by nobody,
-- though both keep the time of their cancellation.
pub cancelled_task_woken :
    (e e' : Env) (s s' : Session) (reason : Option Bytes) (payload : Bytes) (r : Run) (t u : Task)
    (name : Text)
    → find_run r.run_id s.store.runs ≡ some r
    → find_task r.task_id s.store.tasks ≡ some t
    → column_is r.wait_event_name name ≡ true
    → is_completed r.state ≡ false
    → text_eq t.usecase e'.config.usecase ≡ true
    → (cancel_task r.task_id reason e s).0 ≡ ok u
    → s'.store ≡ (cancel_task r.task_id reason e s).1.store
    → (emit_event name payload e' s').0 ≡ ok tt
    → (find_run r.run_id s'.store.runs
        ≡ some (record r {
          state = cancelled;
          completed_at = some e.now;
          failure_reason = some (or_else reason []);
        }))
      × (find_task r.task_id s'.store.tasks
          ≡ some (record t { state = cancelled; completed_at = some e.now }))
      × (find_run r.run_id (emit_event name payload e' s').1.store.runs
          ≡ some (record r {
            state = pending;
            completed_at = some e.now;
            failure_reason = some (or_else reason []);
            available_at = e'.now;
            claimed_by = none;
            claim_expires_at = none;
            wait_event_name = none;
          }))
      × (find_task r.task_id (emit_event name payload e' s').1.store.tasks
          ≡ some (record t { state = pending; completed_at = some e.now }))
cancelled_task_woken e e' s s' reason payload r t u name f g waits live own c same h =
    let r1 = cancelled_run e (or_else reason []) r in
    let (_, _, _, run_rows) = cancel_task_rows e s r.task_id reason u r.run_id c in
    let (_, _, task_rows, _) = cancel_task_rows e s r.task_id reason u r.task_id c in
    let key : t.task_id ≡ r.task_id = find_first-key task_key r.task_id s.store.tasks g in
    let gone : find_run r.run_id s'.store.runs ≡ some r1 =
      rw (same, run_rows) (rw (f, live, ==_refl r.task_id) refl) in
    let task_gone : find_task r.task_id s'.store.tasks ≡ some (cancelled_task e t) =
      rw (same, task_rows) (rw (g, key, ==_refl r.task_id) refl) in
    let (_, run, task) =
      emit_event_rows e' s' name payload [] [] r1 (cancelled_task e t) gone task_gone h in
    let waiting : awaited name r.task_id s'.store.runs ≡ true =
      any_of_found run_key _ r.run_id s'.store.runs gone (rw (==_refl r.task_id) waits) in
    (gone, task_gone, run ∙ rw (own, waits) refl, task ∙ rw (own, waiting) refl)
