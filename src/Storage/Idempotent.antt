-- ===== src/Storage/Idempotent.antt =====
-- What spawn_task inserts, and what an idempotency key is for (taskturbine-core/src/storage.rs).
use taskturbine.Base.{
  ℕ, ◌+◌, ◌≡◌, refl, Option, none, some, Bool, false, ◌==◌, List, [], ◌∷◌, any, find_first, or_else,
  arith, ==_refl,
}
use taskturbine.Base.Text.{Text, Bytes}
use taskturbine.Models.{Uuid, Task, SpawnResult, pending}
use taskturbine.Sql.Session.{Db, Env, clean, ok, err, duplicate_spawn, effects}
use taskturbine.Storage.Rows.{is_run, is_task, new_run}
use taskturbine.Storage.Spawn.{spawn_task, TaskOptions, default_options, new_task, conflicts}

-- The options that apply.
abbrev pub applied : Option TaskOptions → TaskOptions
applied options = or_else options default_options

pub conflict_differs :
    (p : Task → Bool) (id : Uuid) (ts : List Task) (row : Task)
    → any (is_task id) ts ≡ false
    → find_first p ts ≡ some row
    → (row.task_id == id) ≡ false
conflict_differs p id [] row h f = cc
conflict_differs p id (t ∷ ts) row h f = ground (arith, conflict_differs p id ts row)

-- What a spawn without a conflict answers, and the tables after it.
abbrev pub spawn_result : Env → ℕ → SpawnResult
spawn_result e drawn = record { task_id = e.new_v7 drawn; run_id = e.new_v7 (drawn + 1) }

abbrev pub spawned_db : Env → SpawnResult → Text → Text → Bytes → Bytes → TaskOptions → Db → Db
spawned_db e r channel task_name params headers o db = record db {
  tasks = new_task e r.task_id channel task_name params headers o ∷ db.tasks;
  runs = new_run e r.run_id r.task_id 0 pending e.now ∷ db.runs;
}

-- The row that a new task conflicts with.
abbrev pub conflicting : Env → Uuid → Text → Option TaskOptions → List Task → Option Task
conflicting e id task_name options =
    find_first (conflicts (new_task e id [] task_name [] [] (applied options)))

-- Where no statement fails, the headers encode, the retry factor is at least 1 and the UUIDs are
-- new, a spawn_task whose idempotency key no task of its name has inserts one pending task with the
-- caller's values and one pending run of it that is due at once, and answers with their identifiers.
pub spawn_task-inserted :
    (e : Env) (db work : Db) (drawn : ℕ) (channel task_name : Text) (params headers : Bytes)
    (options : Option TaskOptions)
    → e.to_json (applied options).headers ≡ some headers
    → e.floats.lt_one (applied options).retry_factor ≡ false
    → any (is_task (e.new_v7 drawn)) db.tasks ≡ false
    → any (is_run (e.new_v7 (drawn + 1))) db.runs ≡ false
    → conflicting e (e.new_v7 drawn) task_name options db.tasks ≡ none
    → ((spawn_task channel task_name params options e (clean db work drawn)).0
        ≡ ok (spawn_result e drawn))
      × ((spawn_task channel task_name params options e (clean db work drawn)).1.store
          ≡ spawned_db e
              (spawn_result e drawn)
              channel
              task_name
              params
              headers
              (applied options)
              db)
unfolding spawn_task effects
spawn_task-inserted e db work drawn channel task_name params headers options json good new new_r f =
    (
      rw (json, good, f, new, ==_refl (e.new_v7 drawn), new_r) refl,
      rw (json, good, f, new, ==_refl (e.new_v7 drawn), new_r) refl,
    )

-- Where no statement fails, the headers encode, the retry factor is at least 1 and the UUID is new,
-- a spawn_task whose idempotency key a task of its name has is refused with that task's identifier,
-- whatever the usecase, channel and state of that task, and commits nothing.
pub spawn_task_refused :
    (e : Env) (db work : Db) (drawn : ℕ) (channel task_name : Text) (params headers : Bytes)
    (options : Option TaskOptions) (row : Task)
    → e.to_json (applied options).headers ≡ some headers
    → e.floats.lt_one (applied options).retry_factor ≡ false
    → any (is_task (e.new_v7 drawn)) db.tasks ≡ false
    → conflicting e (e.new_v7 drawn) task_name options db.tasks ≡ some row
    → ((spawn_task channel task_name params options e (clean db work drawn)).0
        ≡ err (duplicate_spawn row.task_id))
      × ((spawn_task channel task_name params options e (clean db work drawn)).1.store ≡ db)
unfolding spawn_task effects
spawn_task_refused e db work drawn channel task_name params headers options row json good new f =
    let other = conflict_differs _ (e.new_v7 drawn) db.tasks row new f in
    (rw (json, good, f, other) refl, rw (json, good, f, other) refl)
