-- ===== src/Storage/Live/Statements.antt =====
-- Each statement of Storage keeps tables sound: no task gets a second live run.
use taskturbine.Base.{
  ℕ, ◌≡◌, refl, Option, none, some, Bool, true, false, List, [], ◌∷◌, ◌==◌, any, All, map, take,
  rows_where, update_where, Bool-cases, inl, inr, arith,
}
use taskturbine.Base.Int.{ℤ, pos_part}
use taskturbine.Base.Rows.{
  Distinct-update_where, Distinct-delete_where, any-update_where, map-update_where,
}
use taskturbine.Base.Text.{Text, Bytes}
use taskturbine.Models.{Uuid, Task, Run, EventRow}
use taskturbine.Sql.Session.{Db, Env}
use taskturbine.Sql.Keeps.{Writes}
use taskturbine.Storage.Rows.{is_run, find_run, is_waiting, insert_run}
use taskturbine.Storage.Claim.{
  claim_statement, claimed_run, candidates, run_claimable, is_among, extend_statement,
}
use taskturbine.Storage.Exclusive.{claimable_waits}
use taskturbine.Storage.Cleanup.{HasTask, kept_runs}
use taskturbine.Storage.Finish.{cancel_statement, cancelled_run, with_row}
use taskturbine.Storage.Event
use taskturbine.Storage.Event.{extended_run, waits_for, woken_run}
use taskturbine.Storage.Upkeep.{
  age_statement, cancel_aged, aged_run, cleanup_events_statement, delete_events,
  cleanup_tasks_statement, delete_tasks,
}
use taskturbine.Storage.Invariant.Statements.{run_key, task_key}
use taskturbine.Storage.Lifecycle.Statements.{picked_holds}
use taskturbine.Storage.Live.{
  Sound, Shrinks, lives, update-OneLive, delete-OneLive, found_each, All-Shrinks,
}

-- Tables with the same runs and tasks.
pub same_rows : (db d : Db) → d.runs ≡ db.runs → d.tasks ≡ db.tasks → Sound db → Sound d
same_rows db d r t v = record {
  run_ids = rw r v.run_ids;
  owners = rw (r, t) v.owners;
  single = rw r v.single;
}

owners-update :
    (tasks : List Task) (p : Run → Bool) (f : Run → Run) (rs : List Run)
    → ((r : Run) → (f r).task_id ≡ r.task_id)
    → All (HasTask tasks) rs
    → All (HasTask tasks) (update_where p f rs)
owners-update tasks p f [] same h = tt
owners-update tasks p f (r ∷ rs) same h =
    let rest = owners-update tasks p f rs same h.1 in ground (arith, same r)

owners-tasks :
    (p : Task → Bool) (f : Task → Task) (tasks : List Task) (rs : List Run)
    → ((t : Task) → (f t).task_id ≡ t.task_id)
    → All (HasTask tasks) rs
    → All (HasTask (update_where p f tasks)) rs
owners-tasks p f tasks [] same h = tt
owners-tasks p f tasks (r ∷ rs) same h = (
  rw (any-update_where task_key p f r.task_id tasks same) h.0,
  owners-tasks p f tasks rs same h.1,
)

-- An UPDATE of runs that keeps both identifiers and makes no run live.
pub update_runs-Sound :
    (p : Run → Bool) (f : Run → Run) (db : Db)
    → ((r : Run) → (f r).run_id ≡ r.run_id)
    → ((r : Run) → (f r).task_id ≡ r.task_id)
    → All (λ r. p r ≡ true → Shrinks f r) db.runs
    → Sound db
    → Sound (record db { runs = update_where p f db.runs })
update_runs-Sound p f db run task shrinks v = record {
  run_ids = Distinct-update_where run_key p f db.runs run v.run_ids;
  owners = owners-update db.tasks p f db.runs task v.owners;
  single = update-OneLive p f task db.runs shrinks v.single;
}

-- The same, where the update makes no run live whatever its row.
pub shrink_runs-Sound :
    (p : Run → Bool) (f : Run → Run) (db : Db)
    → ((r : Run) → (f r).run_id ≡ r.run_id)
    → ((r : Run) → (f r).task_id ≡ r.task_id)
    → ((r : Run) → Shrinks f r)
    → Sound db
    → Sound (record db { runs = update_where p f db.runs })
shrink_runs-Sound p f db run task shrinks v =
    update_runs-Sound p f db run task (All-Shrinks p f db.runs shrinks) v

pub update_tasks-Sound :
    (p : Task → Bool) (f : Task → Task) (db : Db)
    → ((t : Task) → (f t).task_id ≡ t.task_id)
    → Sound db
    → Sound (record db { tasks = update_where p f db.tasks })
update_tasks-Sound p f db same v = record {
  run_ids = v.run_ids;
  owners = owners-tasks p f db.tasks db.runs same v.owners;
  single = v.single;
}

-- No live run of a task.
abbrev pub NoLive : Uuid → Db → Type 0
NoLive id db = any (lives id) db.runs ≡ false

abbrev pub KnownTask : Uuid → Db → Type 0
KnownTask id db = any (λ t. t.task_id == id) db.tasks ≡ true

-- A run is inserted for a task that has no live run.
pub insert_run-Sound :
    (r : Run) (db : Db)
    → Sound db
    → NoLive r.task_id db
    → KnownTask r.task_id db
    → Writes Sound (insert_run r db)
insert_run-Sound r db v none_live known = elim (Bool-cases (any (is_run r.run_id) db.runs)) [
  | inl there ↦ rw there tt
  | inr new ↦ rw new (record {
    run_ids = (new, v.run_ids);
    owners = (known, v.owners);
    single = (ground arith, v.single);
  })
]

pub every_found :
    (p : Run → Bool) (f : Run → Run) (all rs : List Run)
    → All (λ r. find_run r.run_id all ≡ some r) rs
    → ((r : Run) → find_run r.run_id all ≡ some r → p r ≡ true → Shrinks f r)
    → All (λ r. p r ≡ true → Shrinks f r) rs
every_found p f all [] h k = tt
every_found p f all (r ∷ rs) h k = (k r h.0, every_found p f all rs h.1 k)

pub claim_statement-Sound :
    (e : Env) (channels : List Text) (worker_id : Text) (until : ℕ) (qty : ℤ) (db : Db)
    → Sound db
    → Sound (claim_statement e channels worker_id until qty db).1
unfolding claim_statement candidates
claim_statement-Sound e channels worker_id until qty db v =
    let f = claimed_run e worker_id until in
    let claimable = run_claimable e channels db.tasks in
    let picked : List Run = take (pos_part qty) (rows_where claimable db.runs) in
    map_tasks-Sound _ _ (λ t. ground arith)
      (update_runs-Sound (is_among picked) f db (λ r. refl) (λ r. refl)
        (every_found (is_among picked) f db.runs db.runs (found_each db.runs v.run_ids)
          λ r found hit. waiting r (
            claimable_waits e channels db.tasks r
              (picked_holds claimable (pos_part qty) db.runs r.run_id r v.run_ids found refl hit)))
        v)
  where
    waiting : (r : Run) → is_waiting r.state ≡ true → Shrinks (claimed_run e worker_id until) r
    waiting r h = ground arith

    map_tasks-Sound :
        (g : Task → Task) (d : Db)
        → ((t : Task) → (g t).task_id ≡ t.task_id)
        → Sound d
        → Sound (record d { tasks = map g d.tasks })
    map_tasks-Sound g d same h = rw map-update_where (update_tasks-Sound (λ _. true) g d same h)

-- The UPDATEs that leave every row as live as it was, or less.
pub extend_statement-Sound :
    (run_id : Uuid) (worker_id : Text) (until : ℕ) (db : Db)
    → Sound db
    → Sound (extend_statement run_id worker_id until db).1
extend_statement-Sound run_id worker_id until db v =
    shrink_runs-Sound _ (λ r. record r { claim_expires_at = some until }) db (λ r. refl) (λ r. refl)
      (λ r. ground arith) v

pub extended-Sound :
    (e : Env) (extension : ℕ) (run_id : Uuid) (db : Db)
    → Sound db
    → Sound (record db { runs = update_where (is_run run_id) (extended_run e extension) db.runs })
extended-Sound e extension run_id db v =
    shrink_runs-Sound _ (extended_run e extension) db (λ r. refl) (λ r. refl) (λ r. ground arith) v

with_row-Sound : (o : Option Task) (db : Db) → Sound db → Writes Sound (with_row o db)
with_row-Sound none db v = tt
with_row-Sound (some t) db v = v

pub cancel_statement-Sound :
    (e : Env) (task_id : Uuid) (reason : Bytes) (db : Db)
    → Sound db
    → Writes Sound (cancel_statement e task_id reason db)
cancel_statement-Sound e task_id reason db v = with_row-Sound _ _ (
    shrink_runs-Sound _ (cancelled_run e reason) _ (λ r. refl) (λ r. refl) (λ r. ground arith)
      (update_tasks-Sound _ _ db (λ t. refl) v))

pub wake-Sound :
    (e : Env) (event_name : Text) (db : Db) → Sound db → Sound (Event.wake e event_name db)
unfolding Event.wake
wake-Sound e event_name db v =
    update_tasks-Sound _ _ _ (λ t. refl)
      (update_runs-Sound (waits_for e event_name db.tasks) (woken_run e) db (λ r. refl) (λ r. refl)
        (each db.runs) v)
  where
    each :
        (rs : List Run)
        → All (λ r. waits_for e event_name db.tasks r ≡ true → Shrinks (woken_run e) r) rs
    each [] = tt
    each (r ∷ rs) = (λ h. ground arith, each rs)

cancel_aged-Sound :
    (e : Env) (db : Db) (o : Option (List Run)) → Sound db → Writes Sound (cancel_aged e db o)
cancel_aged-Sound e db none v = tt
cancel_aged-Sound e db (some picked) v =
    update_tasks-Sound _ _ _ (λ t. refl)
      (shrink_runs-Sound _ (aged_run e) db (λ r. refl) (λ r. refl) (λ r. ground arith) v)

pub age_statement-Sound :
    (e : Env) (limit : ℤ) (db : Db) → Sound db → Writes Sound (age_statement e limit db)
unfolding age_statement
age_statement-Sound e limit db v = cancel_aged-Sound e db _ v

delete_events-Sound :
    (db : Db) (o : Option (List EventRow)) → Sound db → Writes Sound (delete_events db o)
delete_events-Sound db none v = tt
delete_events-Sound db (some picked) v = same_rows db _ refl refl v

pub cleanup_events_statement-Sound :
    (e : Env) (older_than : ℕ) (limit : ℤ) (db : Db)
    → Sound db
    → Writes Sound (cleanup_events_statement e older_than limit db)
unfolding cleanup_events_statement
cleanup_events_statement-Sound e older_than limit db v = delete_events-Sound db _ v

delete_tasks-Sound :
    (db : Db) (o : Option (List Task)) → Sound db → Writes Sound (delete_tasks db o)
delete_tasks-Sound db none v = tt
delete_tasks-Sound db (some picked) v = record {
  run_ids = Distinct-delete_where run_key _ db.runs v.run_ids;
  owners = kept_runs picked db.tasks db.runs v.owners;
  single = delete-OneLive _ db.runs v.single;
}

pub cleanup_tasks_statement-Sound :
    (e : Env) (older_than : ℕ) (limit : ℤ) (db : Db)
    → Sound db
    → Writes Sound (cleanup_tasks_statement e older_than limit db)
unfolding cleanup_tasks_statement
cleanup_tasks_statement-Sound e older_than limit db v = delete_tasks-Sound db _ v
