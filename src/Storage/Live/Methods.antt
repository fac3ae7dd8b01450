-- ===== src/Storage/Live/Methods.antt =====
-- Sound tables are kept by every statement, by the deletions, and by a spawn with a new identifier.
use taskturbine.Base.{
  ℕ, ◌≡◌, refl, Option, none, some, true, false, List, [], ◌∷◌, ◌==◌, any, All, find_first, ==_refl,
  ==_iff, Bool-cases, inl, inr, arith, update_where,
}
use taskturbine.Base.Int.{ℤ}
use taskturbine.Base.Text.{Text}
use taskturbine.Models.{Uuid, Task, Run}
use taskturbine.Sql.Session.{Db, Env, Session, M, ◌>>◌, effects, fails, pool_execute}
use taskturbine.Sql.Keeps.{Keeps, keeps_rules}
use taskturbine.Sql.Hoare.{Checked}
use taskturbine.Storage.Rows.{is_run, is_task, is_running, find_run}
use taskturbine.Storage.Cleanup.{HasTask}
use taskturbine.Storage.Finish.{completed_run, completed_task, suspended_run, sleeping_task}
use taskturbine.Storage.Spawn.{insert_task, conflicts}
use taskturbine.Storage.Upkeep.{cleanup_tasks, clear_storage}
use taskturbine.Storage.Kept.{Kept}
use taskturbine.Storage.Live.{Sound, Shrinks, lives, found_each, any-found}
use taskturbine.Storage.Live.Statements.{
  same_rows, update_runs-Sound, shrink_runs-Sound, update_tasks-Sound, every_found, NoLive,
  KnownTask, claim_statement-Sound, extend_statement-Sound, extended-Sound, cancel_statement-Sound,
  wake-Sound, age_statement-Sound, cleanup_events_statement-Sound, cleanup_tasks_statement-Sound,
}

suspended-Sound :
    (at : ℕ) (wait : Option Text) (run_id task_id : Uuid) (r : Run) (db : Db)
    → is_running r.state ≡ true
    → find_run run_id db.runs ≡ some r
    → Sound db
    → Sound (record db {
      runs = update_where (is_run run_id) (suspended_run at wait) db.runs;
      tasks = update_where (is_task task_id) sleeping_task db.tasks;
    })
suspended-Sound at wait run_id task_id r db running found v =
    update_tasks-Sound _ _ _ (λ t. refl)
      (update_runs-Sound (is_run run_id) (suspended_run at wait) db (λ x. refl) (λ x. refl)
        (every_found (is_run run_id) (suspended_run at wait) db.runs db.runs
          (found_each db.runs v.run_ids) live)
        v)
  where
    live :
        (x : Run)
        → find_run x.run_id db.runs ≡ some x
        → is_run run_id x ≡ true
        → Shrinks (suspended_run at wait) x
    live x there hit = ground (arith, there, found, (==_iff x.run_id run_id).0 hit, running)

pub Sound-Kept : Kept Sound
Sound-Kept = record {
  claims = claim_statement-Sound;
  extends = extend_statement-Sound;
  prolongs = extended-Sound;
  cancels = cancel_statement-Sound;
  ages = age_statement-Sound;
  wakes = wake-Sound;
  deletes_events = cleanup_events_statement-Sound;
  stores = λ c db v. same_rows db _ refl refl v;
  notes = λ events db v. same_rows db _ refl refl v;
  marks = λ state db v. same_rows db _ refl refl v;
  completes_run = λ e b run_id r db h found v.
      shrink_runs-Sound _ (completed_run e b) db (λ x. refl) (λ x. refl) (λ x. refl) v;
  completes_task =
      λ e run_id task_id db v. update_tasks-Sound _ (completed_task e run_id) db (λ t. refl) v;
  suspends = suspended-Sound;
}

pub cleanup_tasks-Sound :
    (older_than : ℕ) (limit : ℤ) → Keeps Sound (cleanup_tasks older_than limit)
unfolding cleanup_tasks
cleanup_tasks-Sound older_than limit = search (keeps_rules, cleanup_tasks_statement-Sound)

-- A statement on the pool, and what follows it, on the committed tables.
pool_then :
    (R : Db → Type 0) (f : Db → Unit {0} × Db) (rest : M (Unit {0})) (e : Env) (s : Session)
    → R s.store
    → ((s' : Session) → s'.store ≡ (f s.store).1 → R (rest e s').1.store)
    → R ((pool_execute f >> rest) e s).1.store
unfolding effects
pool_then R f rest e s before after = elim (Bool-cases (fails s.faults)) [
  | inl fault ↦ rw fault before
  | inr fine ↦ rw fine (after _ refl)
]

pool_last :
    (R : Db → Type 0) (f : Db → Unit {0} × Db) (e : Env) (s : Session)
    → R s.store
    → R (f s.store).1
    → R (pool_execute f e s).1.store
unfolding effects
pool_last R f e s before after = elim (Bool-cases (fails s.faults)) [
  | inl fault ↦ rw fault before
  | inr fine ↦ rw fine after
]

cleared : (db d : Db) → d ≡ record db { runs = [] } → Sound d
cleared db d h = rw h (record { run_ids = tt; owners = tt; single = tt })

-- The tasks go after the runs.
pub clear_storage-Sound :
    (e : Env) (s : Session) → Sound s.store → Sound (clear_storage e s).1.store
unfolding clear_storage
clear_storage-Sound e s v = pool_then Sound _ _ e s v λ s1 h1.
    let v1 : Sound s1.store = rw h1 (same_rows s.store _ refl refl v) in
    pool_then Sound _ _ e s1 v1 λ s2 h2.
      let v2 : Sound s2.store = rw h2 (same_rows s1.store _ refl refl v1) in
      pool_then Sound _ _ e s2 v2 λ s3 h3.
        let v3 : Sound s3.store = rw h3 (same_rows s2.store _ refl refl v2) in
        pool_then Sound _ _ e s3 v3 λ s4 h4.
          pool_last Sound _ e s4 (cleared s3.store s4.store h4)
            (rw h4 (cleared (record s3.store { tasks = [] }) _ refl))

-- A task that is not there has no run.
no_run :
    (id : Uuid) (tasks : List Task) (rs : List Run)
    → any (is_task id) tasks ≡ false
    → All (HasTask tasks) rs
    → any (lives id) rs ≡ false
no_run id tasks [] h o = refl
no_run id tasks (r ∷ rs) h o = ground (arith, no_run id tasks rs h o.1, (==_iff r.task_id id).0)

-- A task `id` that was just inserted: it has no live run.
abbrev pub NewTask : Uuid → Db → Type 0
NewTask id db = Sound db × NoLive id db × KnownTask id db

owners-cons :
    (t : Task) (tasks : List Task) (rs : List Run)
    → All (HasTask tasks) rs
    → All (HasTask (t ∷ tasks)) rs
owners-cons t tasks [] h = tt
owners-cons t tasks (r ∷ rs) h = (ground (arith, h.0), owners-cons t tasks rs h.1)

pub insert_task-New :
    (t : Task) (db : Db)
    → Sound db
    → any (is_task t.task_id) db.tasks ≡ false
    → Checked (λ spawned w. (spawned == t.task_id) ≡ true → NewTask t.task_id w) (insert_task t db)
insert_task-New t db v fresh = by_conflict (find_first (conflicts t) db.tasks) refl
  where
    inserted : NewTask t.task_id (record db { tasks = t ∷ db.tasks })
    inserted = (
      record {
        run_ids = v.run_ids;
        owners = owners-cons t db.tasks db.runs v.owners;
        single = v.single;
      },
      no_run t.task_id db.tasks db.runs fresh v.owners,
      rw (==_refl t.task_id) refl,
    )

    by_conflict :
        (o : Option Task)
        → find_first (conflicts t) db.tasks ≡ o
        → Checked
            (λ spawned w. (spawned == t.task_id) ≡ true → NewTask t.task_id w)
            (insert_task t db)
    by_conflict none f = rw (f, fresh) λ same. inserted
    by_conflict (some row) f =
        rw f
          λ same. ground (arith, any-found (conflicts t) (is_task t.task_id) db.tasks f same, fresh)
