-- ===== src/Storage/Cleanup.antt =====
-- What garbage collection deletes (cleanup_tasks and cleanup_events of
-- taskturbine-core/src/storage.rs).
use taskturbine.Base.{
  ℕ, ◌≡◌, some, Bool, true, false, List, [], ◌∷◌, ◌==◌, any, take, All, rows_where, delete_where,
  ==_iff, Bool-cases, inl, inr, arith,
}
use taskturbine.Base.Int.{ℤ, pos, negsuc}
use taskturbine.Base.Rows.{Distinct, any-take, any-unselected}
use taskturbine.Base.Text.{text_eq_refl}
use taskturbine.Models.{Uuid, Task, Run, EventRow}
use taskturbine.Sql.Session.{Db, Env}
use taskturbine.Storage.Rows.{find_task}
use taskturbine.Storage.Invariant.Statements.{task_key}
use taskturbine.Storage.Upkeep.{
  cleanup_tasks_statement, finished_task, cleanup_events_statement, old_event,
}

-- The task that a run belongs to is there.
abbrev pub HasTask : List Task → Run → Type 0
HasTask tasks r = any (λ t. t.task_id == r.task_id) tasks ≡ true

abbrev pub gone : List Task → Uuid → Bool
gone picked id = any (λ (t : Task). t.task_id == id) picked

any-delete_gone :
    (picked : List Task) (id : Uuid) (tasks : List Task)
    → gone picked id ≡ false
    → any (λ t. t.task_id == id) tasks ≡ true
    → any (λ t. t.task_id == id) (delete_where (λ t. gone picked t.task_id) tasks) ≡ true
any-delete_gone picked id [] h k = k
any-delete_gone picked id (t ∷ ts) h k =
    ground (arith, any-delete_gone picked id ts h, same picked t.task_id id)
  where
    same : (xs : List Task) (i j : ℕ) → (i == j) ≡ true → gone xs i ≡ gone xs j
    same xs i j e = rw ((==_iff i j).0 e)

pub kept_runs :
    (picked tasks : List Task) (runs : List Run)
    → All (HasTask tasks) runs
    → All
        (HasTask (delete_where (λ t. gone picked t.task_id) tasks))
        (delete_where (λ r. gone picked r.task_id) runs)
kept_runs picked tasks [] h = tt
kept_runs picked tasks (r ∷ rs) h =
    let rest = kept_runs picked tasks rs h.1 in
    ground (arith, any-delete_gone picked r.task_id tasks)

-- cleanup_tasks leaves no run without its task, if there was none.
pub cleanup_tasks-HasTask :
    (e : Env) (older_than : ℕ) (limit : ℤ) (db d : Db) (n : ℕ)
    → All (HasTask db.tasks) db.runs
    → cleanup_tasks_statement e older_than limit db ≡ some (n, d)
    → All (HasTask d.tasks) d.runs
unfolding cleanup_tasks_statement
cleanup_tasks-HasTask e older_than (pos l) db d n h k = ground (
  arith,
  kept_runs (take l (rows_where (finished_task e older_than) db.tasks)) db.tasks db.runs h,
)
cleanup_tasks-HasTask e older_than (negsuc l) db d n h k = cc

find_task-delete :
    (q : Uuid → Bool) (id : Uuid) (tasks : List Task) {t : Task}
    → find_task id tasks ≡ some t
    → q id ≡ false
    → find_task id (delete_where (λ x. q x.task_id) tasks) ≡ some t
find_task-delete q id [] f h = cc
find_task-delete q id (x ∷ xs) {t} f h = elim (Bool-cases (x.task_id == id)) [
  | inl here ↦ ground (arith, (==_iff x.task_id id).0 here)
  | inr other ↦ ground (arith, find_task-delete q id xs {t = t})
]

-- Where task identifiers are unique, cleanup_tasks deletes only tasks of the usecase that are
-- completed, failed or cancelled since before the cutoff: any other task is still there as it was.
pub cleanup_tasks-keeps :
    (e : Env) (older_than : ℕ) (limit : ℤ) (db d : Db) (n : ℕ) (id : Uuid) (t : Task)
    → Distinct task_key db.tasks
    → find_task id db.tasks ≡ some t
    → finished_task e older_than t ≡ false
    → cleanup_tasks_statement e older_than limit db ≡ some (n, d)
    → find_task id d.tasks ≡ some t
unfolding cleanup_tasks_statement
cleanup_tasks-keeps e older_than (pos l) db d n id t u f h k =
    let picked : List Task = take l (rows_where (finished_task e older_than) db.tasks) in
    let stays : gone picked id ≡ false =
      any-take task_key l id (rows_where (finished_task e older_than) db.tasks)
        (any-unselected task_key (finished_task e older_than) id db.tasks u f h) in
    ground (arith, find_task-delete (gone picked) id db.tasks {t = t} f stays)
cleanup_tasks-keeps e older_than (negsuc l) db d n id t u f h k = cc

-- cleanup_events deletes by the name alone: an old event of this usecase takes along every event of
-- its name, of any other usecase and however new.
pub cleanup_events_crosses :
    (e : Env) (older_than : ℕ) (db : Db) (own other : EventRow)
    → old_event e older_than own ≡ true
    → own.event_name ≡ other.event_name
    → db.events ≡ own ∷ other ∷ []
    → cleanup_events_statement e older_than (pos 1) db ≡ some (2, record db { events = [] })
unfolding cleanup_events_statement
cleanup_events_crosses e older_than db own other old same rows =
    rw rows (ground (arith, same, text_eq_refl own.event_name, text_eq_refl other.event_name))
