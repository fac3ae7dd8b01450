-- ===== src/Tests/Spawns.antt =====
-- Tests and witnesses on spawning.
use taskturbine.Base.{◌≡◌, refl, Option, none, some, []}
use taskturbine.Base.Text.{codes, text_eq}
use taskturbine.Models.{Task, sleeping}
use taskturbine.Sql.Session.{Db, clean, ok, err, duplicate_spawn, empty_db}
use taskturbine.Storage.Spawn.{spawn_task, TaskOptions, default_options}
use taskturbine.Storage.Idempotent.{
  spawned_db, spawn_result, spawn_task-inserted, spawn_task_refused,
}
use taskturbine.Tests.Fixtures.{at, task, waiting_run, with_rows, busy}

abbrev keyed : Option TaskOptions
keyed = some (record default_options { idempotency_key = some (codes "k") })

abbrev keyed_task : Task
keyed_task = record (task sleeping) { idempotency_key = some (codes "k") }

abbrev with_key : Db
with_key = with_rows keyed_task waiting_run

spawn_task-inserted_test :
    ((spawn_task (codes "c") (codes "t") [] none (at 20) (clean busy empty_db 0)).0
      ≡ ok (spawn_result (at 20) 0))
    × ((spawn_task (codes "c") (codes "t") [] none (at 20) (clean busy empty_db 0)).1.store
        ≡ spawned_db
            (at 20)
            (spawn_result (at 20) 0)
            (codes "c")
            (codes "t")
            []
            []
            default_options
            busy)
unfolding text_eq
spawn_task-inserted_test =
    spawn_task-inserted (at 20) busy empty_db 0 (codes "c") (codes "t") [] [] none refl refl refl
      refl refl

spawn_task_refused_test :
    ((spawn_task (codes "d") (codes "t") [] keyed (at 20) (clean with_key empty_db 0)).0
      ≡ err (duplicate_spawn 1))
    × ((spawn_task (codes "d") (codes "t") [] keyed (at 20) (clean with_key empty_db 0)).1.store
        ≡ with_key)
unfolding text_eq
spawn_task_refused_test =
    spawn_task_refused (at 20) with_key empty_db 0 (codes "d") (codes "t") [] [] keyed keyed_task
      refl refl refl refl
