-- ===== src/Tests/Events.antt =====
-- Tests and witnesses on checkpoints, events, failing statements and garbage collection.
use taskturbine.Base.{◌≡◌, refl, none, some, true, false, [], ◌∷◌, All, update_where}
use taskturbine.Base.Int.{pos}
use taskturbine.Base.Text.{codes, text_eq}
use taskturbine.Models.{Task, EventRow, running, sleeping, completed}
use taskturbine.Sql.Session.{Db, Session, ok, err, sql_error, effects, empty_db}
use taskturbine.Storage.Rows.{find_run, find_task, find_checkpoint, is_run, is_task}
use taskturbine.Storage.Claim.{claim_statement, claimed_run, candidates, run_claimable}
use taskturbine.Storage.Finish.{suspended_run, sleeping_task}
use taskturbine.Storage.Event.{
  set_checkpoint, extended_run, await_event, emit_event, wake, woken_run, payload_of,
  insert_sentinel,
}
use taskturbine.Storage.Upkeep.{cleanup_tasks_statement, cleanup_events_statement}
use taskturbine.Storage.Atomic.{set_checkpoint_torn}
use taskturbine.Storage.Waking.{
  emit_event-wake, await_event_replays, await_event_delivers, await_event_suspends, find_run-wake,
}
use taskturbine.Storage.Stale.{claimed_run_woken}
use taskturbine.Storage.Cleanup.{
  HasTask, cleanup_tasks-HasTask, cleanup_tasks-keeps, cleanup_events_crosses,
}
use taskturbine.Tests.Fixtures.{
  at, task, waiting_run, running_run, asleep, busy, on, checkpoint, event,
}

abbrev torn : Session
torn = record (on busy) { faults = false ∷ false ∷ false ∷ true ∷ [] }

set_checkpoint_torn_example :
    ((set_checkpoint 1 2 (codes "s") [] (some 1000000) (at 20) torn).0 ≡ err sql_error)
    × ((set_checkpoint 1 2 (codes "s") [] (some 1000000) (at 20) torn).1.store
        ≡ record busy { runs = update_where (is_run 2) (extended_run (at 20) 1000000) busy.runs })
set_checkpoint_torn_example = set_checkpoint_torn (at 20) torn 1 2 (codes "s") [] 1000000 refl

emits : (emit_event (codes "e") (9 ∷ []) (at 20) (on asleep)).0 ≡ ok tt
unfolding emit_event effects
emits = refl

emit_event-wake_test :
    (payload_of
        (codes "u")
        (codes "e")
        (emit_event (codes "e") (9 ∷ []) (at 20) (on asleep)).1.store.events
      ≡ some (9 ∷ []))
    × ((emit_event (codes "e") (9 ∷ []) (at 20) (on asleep)).1.store.runs
        ≡ (wake (at 20) (codes "e") asleep).runs)
    × ((emit_event (codes "e") (9 ∷ []) (at 20) (on asleep)).1.store.tasks
        ≡ (wake (at 20) (codes "e") asleep).tasks)
unfolding text_eq
emit_event-wake_test =
    emit_event-wake (at 20) (on asleep) (codes "e") (9 ∷ []) (codes "u") (codes "e") emits

abbrev with_checkpoint : Db
with_checkpoint = record busy { checkpoints = checkpoint ∷ [] }

await_event_replays_test :
    ((await_event 1 2 (codes "s") (codes "e") none (at 20) (on with_checkpoint)).0
      ≡ ok (record { payload = 7 ∷ []; should_suspend = false }))
    × ((await_event 1 2 (codes "s") (codes "e") none (at 20) (on with_checkpoint)).1.store
        ≡ with_checkpoint)
unfolding text_eq
await_event_replays_test =
    await_event_replays (at 20) (on with_checkpoint) 1 2 (codes "s") (codes "e") none checkpoint
      refl refl

abbrev with_event : Db
with_event = record busy { events = event ∷ [] }

await_event_delivers_example :
    ((await_event 1 2 (codes "s") (codes "e") none (at 20) (on with_event)).0
      ≡ ok (record { payload = 9 ∷ []; should_suspend = false }))
    × (find_checkpoint 1
          (codes "s")
          (await_event 1 2 (codes "s") (codes "e") none (at 20) (on with_event)).1.store.checkpoints
        ≡ some (record {
          task_id = 1;
          step_name = codes "s";
          state = 9 ∷ [];
          owner_run_id = 2;
          updated_at = 20;
        }))
unfolding text_eq
await_event_delivers_example =
    await_event_delivers (at 20) (on with_event) 1 2 (codes "s") (codes "e") none running_run
      (9 ∷ []) refl refl refl refl refl

await_event_suspends_test :
    ((await_event 1 2 (codes "s") (codes "e") (some 5) (at 20) (on busy)).0
      ≡ ok (record { payload = []; should_suspend = true }))
    × ((await_event 1 2 (codes "s") (codes "e") (some 5) (at 20) (on busy)).1.store ≡ record busy {
      events = insert_sentinel (at 20) (codes "e") [];
      runs = update_where (is_run 2) (suspended_run 25 (some (codes "e"))) busy.runs;
      tasks = update_where (is_task 1) sleeping_task busy.tasks;
    })
await_event_suspends_test =
    await_event_suspends (at 20) (on busy) 1 2 (codes "s") (codes "e") (some 5) running_run refl
      refl refl refl refl

find_run-wake_test :
    find_run 2 (wake (at 20) (codes "e") asleep).runs ≡ some (woken_run (at 20) waiting_run)
unfolding text_eq
find_run-wake_test = find_run-wake (at 20) (codes "e") asleep 2 waiting_run refl

abbrev held : Db
held = (claim_statement (at 20) [] (codes "w") 600 (pos 1) asleep).1

claimed_run_woken_example :
    (find_run 2 held.runs ≡ some (claimed_run (at 20) (codes "w") 600 waiting_run))
    × (find_run 2 (wake (at 30) (codes "e") held).runs
        ≡ some (woken_run (at 30) (claimed_run (at 20) (codes "w") 600 waiting_run)))
unfolding candidates run_claimable text_eq
claimed_run_woken_example =
    claimed_run_woken (at 20) (at 30) [] (codes "w") 600 (pos 1) asleep waiting_run (task sleeping)
      (codes "e") refl refl refl refl refl

abbrev old_task : Task
old_task = record (task completed) { task_id = 3; completed_at = some 1 }

abbrev mixed : Db
mixed = record busy { tasks = old_task ∷ task running ∷ [] }

cleanup_tasks-HasTask_test : All (HasTask busy.tasks) busy.runs
unfolding cleanup_tasks_statement text_eq
cleanup_tasks-HasTask_test = cleanup_tasks-HasTask (at 20) 10 (pos 5) mixed busy 1 (refl, tt) refl

cleanup_tasks-keeps_example : find_task 1 busy.tasks ≡ some (task running)
unfolding cleanup_tasks_statement text_eq
cleanup_tasks-keeps_example =
    cleanup_tasks-keeps (at 20) 10 (pos 5) mixed busy 1 1 (task running) (refl, (refl, tt)) refl
      refl refl

abbrev foreign_event : EventRow
foreign_event = record event { usecase = codes "other"; created_at = 50 }

cleanup_events_crosses_test :
    cleanup_events_statement
      (at 20)
      10
      (pos 1)
      (record empty_db { events = event ∷ foreign_event ∷ [] })
    ≡ some (2, empty_db)
unfolding text_eq
cleanup_events_crosses_test =
    cleanup_events_crosses (at 20) 10 (record empty_db { events = event ∷ foreign_event ∷ [] })
      event foreign_event refl refl refl
