-- ===== src/Tests/Ends.antt =====
-- Tests and witnesses on the rows after the ends of runs, waits and spawns.
use taskturbine.Base.{◌≡◌, refl, Option, none, some, true, false, List, [], ◌∷◌, ◌&&◌, not, ◌==◌}
use taskturbine.Base.Rows.{changed}
use taskturbine.Base.Text.{Bytes, codes, text_eq}
use taskturbine.Models.{Run, Task, pending, running, sleeping, completed, cancelled}
use taskturbine.Sql.Session.{Db, clean, ok, err, not_found, duplicate_spawn, effects, empty_db}
use taskturbine.Storage.Rows.{find_run, find_task, is_completed, is_running}
use taskturbine.Storage.Finish.{complete_run, cancel_task}
use taskturbine.Storage.Spawn.{spawn_task, TaskOptions, default_options}
use taskturbine.Storage.Event.{await_event, emit_event, payload_of}
use taskturbine.Storage.Invariant.{IsValid}
use taskturbine.Storage.Calls.{Event, completes, replay, perform}
use taskturbine.Storage.Retry.{own_task}
use taskturbine.Storage.Effects.Ends.{
  complete_run_rows, complete_run_once, cancel_task_rows, cancel_task_answers,
}
use taskturbine.Storage.Effects.Wakes.{
  emit_event_rows, await_event-emit_event, cancelled_task_woken,
}
use taskturbine.Storage.Effects.Spawns.{Spawned, spawn_task_rows, spawn_task_idempotent}
use taskturbine.Tests.Fixtures.{at, task, waiting_run, running_run, asleep, busy, on}

abbrev after_completion : Db
after_completion = (complete_run 2 (8 ∷ []) (at 20) (on busy)).1.store

completes_busy : (complete_run 2 (8 ∷ []) (at 20) (on busy)).0 ≡ ok tt
unfolding complete_run effects
completes_busy = refl

complete_run_rows_example :
    (r : Run) × (find_run 2 busy.runs ≡ some r)
    × (r.state ≡ running)
    × (find_run 2 after_completion.runs
        ≡ changed
            (λ x. x.run_id == 2)
            (λ x. record x {
              state = completed;
              completed_at = some 20;
              wait_event_name = none;
              result = some (8 ∷ []);
            })
            (find_run 2 busy.runs))
    × (find_task 2 after_completion.tasks
        ≡ changed
            (λ x. x.task_id == r.task_id)
            (λ x. record x { state = completed; last_attempt_run = some 2; completed_at = some 20 })
            (find_task 2 busy.tasks))
complete_run_rows_example = complete_run_rows (at 20) (on busy) 2 (8 ∷ []) 2 completes_busy

busy-IsValid : IsValid busy
busy-IsValid = record {
  runs_ok = ((refl, refl, refl), tt);
  run_ids = (refl, tt);
  task_ids = (refl, tt);
}

abbrev again : List Event
again =
    record { call = completes 2 (4 ∷ []); env = at 25; faults = false ∷ true ∷ []; drawn = 0 } ∷ []

complete_run_once_example :
    ¬ ((complete_run 2 [] (at 30) (on (replay after_completion again))).0 ≡ ok tt)
unfolding complete_run effects perform
complete_run_once_example =
    complete_run_once (at 20) (on busy) 2 (8 ∷ []) again (at 30)
      (on (replay after_completion again)) [] busy-IsValid completes_busy (refl, tt) refl

cancels_asleep :
    (cancel_task 1 none (at 20) (on asleep)).0
    ≡ ok (record (task sleeping) { state = cancelled; completed_at = some 20 })
unfolding cancel_task effects text_eq
cancels_asleep = refl

abbrev stopped : Db
stopped = (cancel_task 1 none (at 20) (on asleep)).1.store

cancel_task_rows_example :
    ((u : Task) × (own_task (at 20) 1 asleep.tasks ≡ some u) × (is_running u.state ≡ false))
    × (find_task 1 stopped.tasks
        ≡ some (record (task sleeping) { state = cancelled; completed_at = some 20 }))
    × (find_task 2 stopped.tasks
        ≡ changed
            (λ x. x.task_id == 1)
            (λ x. record x { state = cancelled; completed_at = some 20 })
            (find_task 2 asleep.tasks))
    × (find_run 2 stopped.runs
        ≡ changed
            (λ x. x.task_id == 1 && not (is_completed x.state))
            (λ x. record x { state = cancelled; completed_at = some 20; failure_reason = some [] })
            (find_run 2 asleep.runs))
cancel_task_rows_example =
    cancel_task_rows (at 20) (on asleep) 1 none
      (record (task sleeping) { state = cancelled; completed_at = some 20 }) 2 cancels_asleep

abbrev foreign : Db
foreign = record asleep { tasks = record (task sleeping) { usecase = codes "v" } ∷ [] }

-- The task is of another usecase.
cancel_task_answers_example : (cancel_task 1 none (at 20) (on foreign)).0 ≡ err (not_found 1)
unfolding text_eq
cancel_task_answers_example =
    cancel_task_answers (at 20) (on foreign) 1 none none refl (refl, tt) refl

emits_asleep : (emit_event (codes "e") (9 ∷ []) (at 20) (on asleep)).0 ≡ ok tt
unfolding emit_event effects
emits_asleep = refl

abbrev after_emission : Db
after_emission = (emit_event (codes "e") (9 ∷ []) (at 20) (on asleep)).1.store

emit_event_rows_example :
    (payload_of (codes "u") (codes "e") after_emission.events ≡ some (9 ∷ []))
    × (find_run 2 after_emission.runs
        ≡ some (record waiting_run {
          state = pending;
          available_at = 20;
          claimed_by = none;
          wait_event_name = none;
          claim_expires_at = none;
        }))
    × (find_task 1 after_emission.tasks ≡ some (task pending))
unfolding text_eq
emit_event_rows_example =
    emit_event_rows (at 20) (on asleep) (codes "e") (9 ∷ []) (codes "u") (codes "e") waiting_run
      (task sleeping) refl refl emits_asleep

abbrev waits : Db
waits = (await_event 1 2 (codes "s") (codes "e") (some 5) (at 20) (on busy)).1.store

emits_waits : (emit_event (codes "e") (9 ∷ []) (at 22) (on waits)).0 ≡ ok tt
unfolding emit_event effects
emits_waits = refl

abbrev slept : Run
slept = record running_run {
  state = sleeping;
  claimed_by = none;
  claim_expires_at = none;
  available_at = 25;
  wait_event_name = some (codes "e");
}

await_event-emit_event_example :
    ((await_event 1 2 (codes "s") (codes "e") (some 5) (at 20) (on busy)).0
      ≡ ok (record { payload = []; should_suspend = true }))
    × (find_run 2 waits.runs ≡ some slept)
    × (find_task 1 waits.tasks ≡ some (task sleeping))
    × (find_run 2 (emit_event (codes "e") (9 ∷ []) (at 22) (on waits)).1.store.runs
        ≡ some (record slept { state = pending; available_at = 22; wait_event_name = none }))
    × (find_task 1 (emit_event (codes "e") (9 ∷ []) (at 22) (on waits)).1.store.tasks
        ≡ some (task pending))
unfolding text_eq
await_event-emit_event_example =
    await_event-emit_event (at 20) (at 22) (on busy) (on waits) (codes "s") (codes "e") (some 5)
      running_run (task running) (9 ∷ []) refl refl refl refl refl refl refl refl emits_waits

emits_stopped : (emit_event (codes "e") [] (at 30) (on stopped)).0 ≡ ok tt
unfolding emit_event effects
emits_stopped = refl

cancelled_task_woken_example :
    (find_run 2 stopped.runs
      ≡ some (record waiting_run {
        state = cancelled;
        completed_at = some 20;
        failure_reason = some [];
      }))
    × (find_task 1 stopped.tasks
        ≡ some (record (task sleeping) { state = cancelled; completed_at = some 20 }))
    × (find_run 2 (emit_event (codes "e") [] (at 30) (on stopped)).1.store.runs
        ≡ some (record waiting_run {
          state = pending;
          completed_at = some 20;
          failure_reason = some [];
          available_at = 30;
          claimed_by = none;
          claim_expires_at = none;
          wait_event_name = none;
        }))
    × (find_task 1 (emit_event (codes "e") [] (at 30) (on stopped)).1.store.tasks
        ≡ some (record (task sleeping) { state = pending; completed_at = some 20 }))
unfolding text_eq
cancelled_task_woken_example =
    cancelled_task_woken (at 20) (at 30) (on asleep) (on stopped) none [] waiting_run
      (task sleeping) (record (task sleeping) { state = cancelled; completed_at = some 20 })
      (codes "e") refl refl refl refl refl cancels_asleep refl emits_stopped

abbrev keyed : Option TaskOptions
keyed = some (record default_options { idempotency_key = some (codes "k") })

abbrev first : Db
first = (spawn_task (codes "c") (codes "t") [] keyed (at 20) (clean empty_db empty_db 0)).1.store

spawns_first :
    (spawn_task (codes "c") (codes "t") [] keyed (at 20) (clean empty_db empty_db 0)).0
    ≡ ok (record { task_id = 100; run_id = 101 })
unfolding spawn_task effects
spawns_first = refl

spawn_task_rows_example :
    (headers : Bytes) × Spawned
      (at 20)
      empty_db
      first
      0
      (codes "c")
      (codes "t")
      []
      (record default_options { idempotency_key = some (codes "k") })
      (record { task_id = 100; run_id = 101 })
      headers
spawn_task_rows_example =
    spawn_task_rows (at 20) empty_db empty_db 0 (codes "c") (codes "t") [] keyed
      (record { task_id = 100; run_id = 101 }) refl spawns_first

abbrev first_task : Task
first_task = record (task pending) {
  task_id = 100;
  idempotency_key = some (codes "k");
  retry_factor = (at 20).floats.narrow 0x4000000000000000;
  attempts = 0;
  created_at = 20;
}

abbrev finished_task : Task
finished_task = record first_task { state = completed; completed_at = some 40 }

-- The task of the key is completed meanwhile.
abbrev later_tables : Db
later_tables = record empty_db { tasks = finished_task ∷ [] }

spawn_task_idempotent_example :
    ((spawn_task (codes "d") (codes "t") (8 ∷ []) keyed (at 50) (clean later_tables empty_db 2)).0
      ≡ err (duplicate_spawn 100))
    × ((spawn_task
          (codes "d")
          (codes "t")
          (8 ∷ [])
          keyed
          (at 50)
          (clean later_tables empty_db 2)).1.store
        ≡ later_tables)
unfolding spawn_task text_eq effects
spawn_task_idempotent_example =
    spawn_task_idempotent (at 20) (at 50) empty_db empty_db later_tables empty_db 0 2 (codes "c")
      (codes "d") (codes "t") (codes "k") [] (8 ∷ []) [] keyed keyed
      (record { task_id = 100; run_id = 101 }) first_task finished_task refl spawns_first refl refl
      refl refl refl refl refl refl refl refl
