-- ===== src/Storage/Stale.antt =====
-- A wait that outlives its run's sleep: claim_task, cancel_task and handle_cancellation_max_age
-- leave wait_event_name on the run, and emit_event asks for nothing else
-- (taskturbine-core/src/storage.rs).
use taskturbine.Base.{ℕ, ◌≡◌, some, true, List, arith}
use taskturbine.Base.Int.{ℤ}
use taskturbine.Base.Rows.{find_first-map}
use taskturbine.Base.Text.{Text, text_eq}
use taskturbine.Models.{Uuid, Task, Run}
use taskturbine.Sql.Session.{Db, Env}
use taskturbine.Storage.Rows.{find_run, find_task, column_is}
use taskturbine.Storage.Claim.{claimed_run, claimed_task, claim_statement, candidates, is_among}
use taskturbine.Storage.Event.{wake, woken_run}
use taskturbine.Storage.Invariant.Statements.{task_key}
use taskturbine.Storage.Exclusive.{claim_statement-run}
use taskturbine.Storage.Waking.{find_run-wake}

claim_statement-usecase :
    (e : Env) (channels : List Text) (worker_id : Text) (until : ℕ) (qty : ℤ) (db : Db) (id : Uuid)
    (t : Task)
    → find_task id db.tasks ≡ some t
    → (u : Task) × (find_task id (claim_statement e channels worker_id until qty db).1.tasks
        ≡ some u)
      × (u.usecase ≡ t.usecase)
unfolding claim_statement
claim_statement-usecase e channels worker_id until qty db id t f =
    (_, find_first-map task_key (claimed_task e _) id db.tasks (λ y. ground arith) f, ground arith)

-- A run that waited for an event, timed out and was claimed is running, and still marked as waiting.
-- When the event is then emitted, it is pending again and its claim is gone, while the worker that
-- claimed it executes it.
pub claimed_run_woken :
    (e e' : Env) (channels : List Text) (worker_id : Text) (until : ℕ) (qty : ℤ) (db : Db) (r : Run)
    (t : Task) (name : Text)
    → find_run r.run_id db.runs ≡ some r
    → find_task r.task_id db.tasks ≡ some t
    → is_among (candidates e channels qty db) r ≡ true
    → column_is r.wait_event_name name ≡ true
    → text_eq t.usecase e'.config.usecase ≡ true
    → let claimed = (claim_statement e channels worker_id until qty db).1 in
      (find_run r.run_id claimed.runs ≡ some (claimed_run e worker_id until r))
      × (find_run r.run_id (wake e' name claimed).runs
          ≡ some (woken_run e' (claimed_run e worker_id until r)))
claimed_run_woken e e' channels worker_id until qty db r t name f g picked waits own =
    let held = claim_statement-run e channels worker_id until qty db r.run_id r f in
    let (u, found, same) =
      claim_statement-usecase e channels worker_id until qty db r.task_id t g in
    let woken =
      find_run-wake e' name (claim_statement e channels worker_id until qty db).1 r.run_id
        (claimed_run e worker_id until r) in
    (ground (arith, held), ground (arith, held, found, same, woken))
