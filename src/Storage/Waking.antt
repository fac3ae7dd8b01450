-- ===== src/Storage/Waking.antt =====
-- Events: what an awaiting run gets, and what an emission wakes
-- (await_event and emit_event of taskturbine-core/src/storage.rs).
use taskturbine.Base.{
  ℕ, ◌+◌, ◌*◌, ◌≡◌, refl, sym, ◌∙◌, Option, none, some, true, false, List, [], ◌∷◌, ◌&&◌, any, inl,
  inr, Bool-cases, update_where, or_else, arith, if◌then◌else◌,
}
use taskturbine.Base.Rows.{find_first-update_where}
use taskturbine.Base.Text.{Text, Bytes, text_eq, text_eq_refl, text_eq_sound}
use taskturbine.Models.{Uuid, Run, Checkpoint, EventRow, running, second}
use taskturbine.Sql.Session.{Db, Env, Session, ok, effects}
use taskturbine.Storage.Rows.{
  find_run, is_run, is_task, as_u64, find_checkpoint, is_checkpoint, upsert_checkpoint,
  store_checkpoint,
}
use taskturbine.Storage.Finish.{suspend_run, suspended_run, sleeping_task}
use taskturbine.Storage.Event.{
  await_event, await_new, deliver, emit_event, wake, woken_run, waits_for, is_event, payload_of,
  upsert_event, insert_sentinel,
}
use taskturbine.Storage.Invariant.Statements.{run_key}

-- An emission replaces the payload of its event, and leaves the others as they were.
upsert_event_lem :
    (v : EventRow) (usecase name : Text) (events : List EventRow)
    → payload_of usecase name (upsert_event v events)
      ≡ (if is_event usecase name v then v.payload else payload_of usecase name events)
unfolding upsert_event
upsert_event_lem v usecase name [] = ground arith
upsert_event_lem v usecase name (w ∷ ws) = ground (
  arith,
  upsert_event_lem v usecase name ws,
  text_eq_sound v.usecase usecase,
  text_eq_sound w.usecase v.usecase,
  text_eq_sound w.event_name v.event_name,
  text_eq_sound w.usecase usecase,
  text_eq_sound w.event_name name,
  text_eq_sound v.event_name name,
)

payload_of-sentinel :
    (e : Env) (name : Text) (events : List EventRow)
    → payload_of e.config.usecase name (insert_sentinel e name events)
      ≡ payload_of e.config.usecase name events
payload_of-sentinel e name events =
    elim (Bool-cases (any (is_event e.config.usecase name) events)) [
      | inl known ↦ rw known
      | inr new ↦
          rw (new, text_eq_refl e.config.usecase, text_eq_refl name)
            (sym (payload_of_none e.config.usecase name events new))
    ]
  where
    payload_of_none :
        (u n : Text) (vs : List EventRow) → any (is_event u n) vs ≡ false → payload_of u n vs ≡ none
    payload_of_none u n [] h = refl
    payload_of_none u n (v ∷ vs) h = ground (arith, payload_of_none u n vs)

-- A stored checkpoint is found again, and the others are as they were.
pub find_checkpoint-upsert :
    (c : Checkpoint) (task_id : Uuid) (name : Text) (cs : List Checkpoint)
    → find_checkpoint task_id name (upsert_checkpoint c cs)
      ≡ (if is_checkpoint task_id name c then some c else find_checkpoint task_id name cs)
unfolding upsert_checkpoint
find_checkpoint-upsert c task_id name [] = refl
find_checkpoint-upsert c task_id name (d ∷ ds) = ground (
  arith,
  find_checkpoint-upsert c task_id name ds,
  text_eq_sound d.step_name c.step_name,
  text_eq_sound d.step_name name,
  text_eq_sound c.step_name name,
)

-- Under any failing statements, an emit_event that succeeds has set the event's payload, left the
-- payloads of all other events as they were, and woken the waiting runs.
pub emit_event-wake :
    (e : Env) (s : Session) (name : Text) (payload : Bytes) (usecase other : Text)
    → (emit_event name payload e s).0 ≡ ok tt
    → (payload_of usecase other (emit_event name payload e s).1.store.events ≡ (
        if text_eq e.config.usecase usecase && text_eq name other
        then some payload
        else payload_of usecase other s.store.events))
      × ((emit_event name payload e s).1.store.runs ≡ (wake e name s.store).runs)
      × ((emit_event name payload e s).1.store.tasks ≡ (wake e name s.store).tasks)
unfolding emit_event wake effects
emit_event-wake e s name payload usecase other h = (
  ground (
    arith,
    upsert_event_lem
        (record {
          usecase = e.config.usecase;
          event_name = name;
          payload = some payload;
          created_at = e.now;
        })
        usecase other s.store.events,
  ),
  ground arith,
  ground arith,
)

-- A step that has its checkpoint does not wait: where no statement fails, await_event returns the
-- checkpoint's payload, whatever was emitted since, and commits nothing.
pub await_event_replays :
    (e : Env) (s : Session) (task_id run_id : Uuid) (step_name name : Text) (timeout : Option ℕ)
    (c : Checkpoint)
    → s.faults ≡ []
    → find_checkpoint task_id step_name s.store.checkpoints ≡ some c
    → ((await_event task_id run_id step_name name timeout e s).0
        ≡ ok (record { payload = c.state; should_suspend = false }))
      × ((await_event task_id run_id step_name name timeout e s).1.store ≡ s.store)
unfolding await_event effects
await_event_replays e s task_id run_id step_name name timeout c clean f =
    (ground arith, ground arith)

-- A running run that awaits an event already emitted gets its payload at once, and the step's
-- checkpoint holds that payload (where no statement fails and the step has no checkpoint yet).
pub await_event_delivers :
    (e : Env) (s : Session) (task_id run_id : Uuid) (step_name name : Text) (timeout : Option ℕ)
    (r : Run) (payload : Bytes)
    → s.faults ≡ []
    → find_checkpoint task_id step_name s.store.checkpoints ≡ none
    → find_run run_id s.store.runs ≡ some r
    → r.state ≡ running
    → payload_of e.config.usecase name s.store.events ≡ some payload
    → ((await_event task_id run_id step_name name timeout e s).0
        ≡ ok (record { payload = payload; should_suspend = false }))
      × (find_checkpoint task_id step_name
            (await_event task_id run_id step_name name timeout e s).1.store.checkpoints
          ≡ some (record {
            task_id = task_id;
            step_name = step_name;
            state = payload;
            owner_run_id = run_id;
            updated_at = e.now;
          }))
unfolding await_event await_new deliver store_checkpoint effects
await_event_delivers e s task_id run_id step_name name timeout r payload clean fresh f on p =
    let emitted = payload_of-sentinel e name s.store.events ∙ p in
    (
      ground (arith, emitted),
      ground (
        arith,
        emitted,
        find_checkpoint-upsert
            (record {
              task_id = task_id;
              step_name = step_name;
              state = payload;
              owner_run_id = run_id;
              updated_at = e.now;
            })
            task_id step_name s.store.checkpoints,
        text_eq_refl step_name,
      ),
    )

-- When the wait of an await_event without a payload is over.
abbrev pub wait_until : Env → Option ℕ → ℕ
wait_until e timeout =
    e.utc_now + or_else timeout (as_u64 e.config.await_event_default_timeout_secs * second)

-- A running run that awaits an event not yet emitted is told to suspend: it sleeps until the
-- timeout, or the configured default, waiting for the event, and its task sleeps (where no statement
-- fails and the step has no checkpoint yet).
pub await_event_suspends :
    (e : Env) (s : Session) (task_id run_id : Uuid) (step_name name : Text) (timeout : Option ℕ)
    (r : Run)
    → s.faults ≡ []
    → find_checkpoint task_id step_name s.store.checkpoints ≡ none
    → find_run run_id s.store.runs ≡ some r
    → r.state ≡ running
    → payload_of e.config.usecase name s.store.events ≡ none
    → ((await_event task_id run_id step_name name timeout e s).0
        ≡ ok (record { payload = []; should_suspend = true }))
      × ((await_event task_id run_id step_name name timeout e s).1.store ≡ record s.store {
        events = insert_sentinel e name s.store.events;
        runs =
            update_where
              (is_run run_id)
              (suspended_run (wait_until e timeout) (some name))
              s.store.runs;
        tasks = update_where (is_task task_id) sleeping_task s.store.tasks;
      })
unfolding await_event await_new deliver suspend_run effects
await_event_suspends e s task_id run_id step_name name timeout r clean fresh f on p =
    let silent = payload_of-sentinel e name s.store.events ∙ p in
    (ground (arith, silent), ground (arith, silent))

-- An emission wakes a run that waits for the event, whatever the state of the run: it becomes
-- pending, available at once, claimed by nobody, and waits no more. A run that does not wait for the
-- event is as it was.
pub find_run-wake :
    (e : Env) (name : Text) (db : Db) (id : Uuid) (r : Run)
    → find_run id db.runs ≡ some r
    → find_run id (wake e name db).runs
      ≡ some (if waits_for e name db.tasks r then woken_run e r else r)
unfolding wake
find_run-wake e name db id r f =
    find_first-update_where run_key (waits_for e name db.tasks) (woken_run e) id db.runs (λ y. refl)
      f
