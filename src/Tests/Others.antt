-- ===== src/Tests/Others.antt =====
-- Tests and witnesses on names, steps, the worker and the scheduler.
use taskturbine.Base.{ℕ, ◌≡◌, ◌≢◌, refl, inl, none, some, [], ◌∷◌, arith}
use taskturbine.Base.Text.{codes, text_eq}
use taskturbine.Models.{Checkpoint}
use taskturbine.Sql.Session.{clean, Db, empty_db}
use taskturbine.Storage.Rows.{find_run, find_checkpoint, upsert_checkpoint}
use taskturbine.Storage.Finish.{completed_run}
use taskturbine.Storage.Waking.{find_checkpoint-upsert}
use taskturbine.Cache
use taskturbine.Cache.{
  Checkpoints, new, generate_name, get_counter, format_name, show_count, digits, is_loaded,
}
use taskturbine.Cache.Names.{generate_name_distinct, generate_name_collides, generate_each}
use taskturbine.Context.{done, StepFn, state, error, async_step, sleep_for}
use taskturbine.Context.Steps.{async_step_cached, async_step_durable, sleep_for_once}
use taskturbine.Worker.{Worker, TaskFn, default_config, new_app, new_worker, execute_task}
use taskturbine.Worker.Outcome.{execute_task-run}
use taskturbine.Scheduler.{StorageEntry, cron, timedelta, run_due, sort_entries, schedule_remaining}
use taskturbine.Scheduler.Due.{
  run_due-tries, tick_skips_none, cron_holds_up, IsSorted, sort_entries-IsSorted,
}
use taskturbine.Tests.Fixtures.{at, busy, on, running_run, claimed, checkpoint}

abbrev other : Checkpoint
other = record checkpoint { step_name = codes "z" }

find_checkpoint-upsert_test :
    find_checkpoint 1 (codes "s") (upsert_checkpoint checkpoint (other ∷ [])) ≡ some checkpoint
unfolding text_eq
find_checkpoint-upsert_test = find_checkpoint-upsert checkpoint 1 (codes "s") (other ∷ [])

generate_name_distinct_example :
    (generate_name (codes "a") new).0
    ≢ (generate_name
        (codes "a")
        (generate_each (codes "b" ∷ []) (generate_name (codes "a") new).1)).0
unfolding get_counter
generate_name_distinct_example =
    generate_name_distinct (codes "a") (codes "b" ∷ []) new (omega arith)

second_name : (generate_name (codes "a") (generate_name (codes "a") new).1).0 ≡ codes "a#2"
unfolding generate_name get_counter format_name show_count digits text_eq
second_name = refl

generate_name_collides_test :
    (generate_name (codes "a#2") (generate_name (codes "a") (generate_name (codes "a") new).1).1).0
    ≡ (generate_name (codes "a") (generate_name (codes "a") new).1).0
generate_name_collides_test = generate_name_collides (codes "a")

abbrev cache : Checkpoints
cache = record new { loaded = 1 ∷ []; checkpoint_data = ((1, codes "s"), checkpoint) ∷ [] }

-- A closure that fails, so that a run of it would show.
abbrev failing_fn : StepFn
failing_fn e s = (error [], s)

async_step_cached_test :
    async_step claimed (codes "s") failing_fn (at 20) cache (on busy)
    ≡ (done (7 ∷ []), (Cache.generate_name (codes "s") cache).1, on busy)
unfolding is_loaded generate_name get_counter format_name Cache.get_checkpoint text_eq
async_step_cached_test =
    async_step_cached claimed (codes "s") failing_fn (at 20) cache (on busy) checkpoint refl refl

abbrev step_fn : StepFn
step_fn e s = (state (5 ∷ []), s)

abbrev after_first : Db
after_first = (async_step claimed (codes "s") step_fn (at 20) new (clean busy empty_db 0)).2.store

async_step_durable_example :
    ((async_step claimed (codes "s") step_fn (at 20) new (clean busy empty_db 0)).0 ≡ done (5 ∷ []))
    × ((async_step
          (record claimed { run_id = 9 })
          (codes "s")
          failing_fn
          (at 40)
          new
          (clean after_first empty_db 4)).0
        ≡ done (5 ∷ []))
    × ((async_step
          (record claimed { run_id = 9 })
          (codes "s")
          failing_fn
          (at 40)
          new
          (clean after_first empty_db 4)).2
        ≡ clean after_first empty_db 4)
async_step_durable_example =
    async_step_durable (at 20) (at 40) claimed (record claimed { run_id = 9 }) (codes "s") step_fn
      failing_fn busy empty_db after_first empty_db 0 4 (clean busy empty_db 0) (5 ∷ []) refl refl
      refl refl refl refl

abbrev slept : Db
slept = record busy { checkpoints = checkpoint ∷ [] }

sleep_for_once_test :
    sleep_for claimed (codes "s") 60 (at 20) new (clean slept empty_db 0)
    ≡ (done tt, (Cache.generate_name (codes "s") new).1, clean slept empty_db 0)
unfolding generate_name get_counter format_name text_eq
sleep_for_once_test =
    sleep_for_once (at 20) claimed (codes "s") 60 new slept empty_db 0 checkpoint refl

-- A task function that returns a result.
abbrev task_fn : TaskFn
task_fn t e c s = (done (some (4 ∷ [])), c, s)

abbrev worker : Worker
worker =
    new_worker (record (new_app default_config) { tasks = (codes "t", task_fn) ∷ [] }) (codes "w")
      []

execute_task-run_example :
    find_run 2 (execute_task worker claimed (at 20) (on busy)).store.runs
    ≡ some (completed_run (at 20) (4 ∷ []) running_run)
unfolding new_worker new_app text_eq
execute_task-run_example =
    execute_task-run worker claimed (at 20) (on busy) (on busy) task_fn (done (some (4 ∷ []))) new
      running_run (some (4 ∷ [])) 0 refl refl refl refl refl (inl refl)

-- An entry with a delay in seconds, last run at 0.
abbrev entry : ℕ → StorageEntry
entry d = record {
  key = codes "k";
  taskname = codes "t";
  channel = codes "c";
  params = none;
  options = none;
  schedule = timedelta d;
  last_run = 0;
}

run_due-tries_test :
    (run_due 5000000 (entry 3 ∷ entry 60 ∷ []) (at 5000000) (on empty_db)).2 ≡ entry 3 ∷ []
unfolding schedule_remaining
run_due-tries_test =
    run_due-tries 5000000 (entry 3 ∷ entry 60 ∷ []) (at 5000000) (on empty_db)
      ((refl, tt), (tt, tt))

tick_skips_none_example :
    (run_due 5000000 (sort_entries 2000000 (entry 60 ∷ entry 3 ∷ [])) (at 5000000) (on empty_db)).2
    ≡ entry 3 ∷ []
unfolding schedule_remaining sort_entries
tick_skips_none_example =
    tick_skips_none 2 5 (entry 60 ∷ entry 3 ∷ []) (at 5000000) (on empty_db) (omega arith)
      ((0, refl, omega arith, omega arith), ((0, refl, omega arith, omega arith), tt))

-- A cron expression that is never due again.
abbrev never : StorageEntry
never = record (entry 0) { schedule = cron (codes "0 0 0 1 1 * 2020") (λ t. none) }

cron_holds_up_test :
    (run_due 9000000 (sort_entries 0 (never ∷ entry 5 ∷ [])) (at 9000000) (on empty_db)).2 ≡ []
unfolding schedule_remaining
cron_holds_up_test =
    cron_holds_up 0 9 never (entry 5) (codes "0 0 0 1 1 * 2020") (λ t. none) (at 9000000)
      (on empty_db) refl refl refl

sort_entries-IsSorted_test : IsSorted 5000000 (sort_entries 5000000 (entry 60 ∷ entry 3 ∷ []))
sort_entries-IsSorted_test = sort_entries-IsSorted 5000000 (entry 60 ∷ entry 3 ∷ [])
