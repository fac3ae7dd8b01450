-- ===== src/Python/Agree.antt =====
-- The blocking and the asynchronous bindings agree (taskturbine-python/src/lib.rs and asynclib.rs).
use taskturbine.Base.{ℕ, ◌≡◌, refl, Option, none, some, true, ==_refl, arith}
use taskturbine.Base.Text.{Text, Bytes, text_eq_refl}
use taskturbine.Models.{Uuid}
use taskturbine.Sql.Session.{Env, Session, Db, clean, effects, ok}
use taskturbine.Storage.Rows.{find_checkpoint, store_checkpoint}
use taskturbine.Storage.Event
use taskturbine.Cache
use taskturbine.Cache.Loads.{HasKey, load_lem}
use taskturbine.Models
use taskturbine.Python.Values.{UuidTexts, from_checkpoint, ClaimedTask}
use taskturbine.Python.Calls.{returned, with_uuid, outcome}
use taskturbine.Python.Sync
use taskturbine.Python.Sync.{WorkerInner, ContextInner, AppInner}
use taskturbine.Python.Async
use taskturbine.Python.Async.{AsyncWorkerInner, AsyncContextInner, AsyncAppInner}

-- Where no statement fails and no two checkpoints of a task have one step name, a first
-- get_checkpoint of the blocking bindings, which loads all checkpoints of the task, and one of the
-- asynchronous bindings, which asks for the one, give the caller the same checkpoint, or both raise
-- an exception, of the same class. Their texts differ.
pub get_checkpoint_agrees :
    (texts : UuidTexts) (t : ClaimedTask) (name : Text) (e : Env) (db work : Db) (drawn : ℕ)
    → HasKey db.checkpoints
    → outcome (Sync.get_checkpoint texts (Sync.create_context t) name e (clean db work drawn)).0
      ≡ outcome (Async.get_checkpoint texts (Async.create_context t) name e (clean db work drawn)).0
unfolding Sync.get_checkpoint Async.get_checkpoint Sync.create_context Async.create_context
    Cache.get_checkpoint Event.get_checkpoints Event.get_checkpoint effects Cache.is_loaded
    Cache.store
get_checkpoint_agrees texts t name e db work drawn u = agree (texts.of_text t.task_id)
  where
    agree :
        (o : Option Uuid)
        → outcome (Sync.get_known texts (Sync.create_context t) o name e (clean db work drawn)).0
          ≡ outcome
              (with_uuid o
                (λ id. Async.or_stored texts (Cache.get_checkpoint Cache.new id name) id name)
                e
                (clean db work drawn)).0
    agree none = refl
    agree (some id) =
        rw (load_lem id name db.checkpoints u) (answers (find_checkpoint id name db.checkpoints))
      where
        answers :
            (o : Option Models.Checkpoint)
            → outcome (Sync.cached texts o)
              ≡ outcome (Async.stored texts (ok o, clean db work drawn)).0
        answers none = refl
        answers (some k) = refl

-- What set_checkpoint of the storage returns is of the task and the step.
returned_key :
    (task_id run_id : Uuid) (name : Text) (state : Bytes) (o : Option ℕ) (e : Env) (s : Session)
    (k : Models.Checkpoint)
    → (Event.set_checkpoint task_id run_id name state o e s).0 ≡ ok k
    → (k.task_id ≡ task_id) × (k.step_name ≡ name)
unfolding Event.set_checkpoint store_checkpoint effects
returned_key task_id run_id name state none e s k h = (ground arith, ground arith)
returned_key task_id run_id name state (some n) e s k h = (ground arith, ground arith)

added_lem :
    (k : Models.Checkpoint) (c : Cache.Checkpoints) (id : Uuid) (name : Text)
    → k.task_id ≡ id
    → k.step_name ≡ name
    → Cache.get_checkpoint (Cache.add k c) id name ≡ some k
unfolding Cache.get_checkpoint Cache.add
added_lem k c id name i n = rw (i, n, ==_refl id, text_eq_refl name) refl

loaded_add :
    (k : Models.Checkpoint) (c : Cache.Checkpoints) (id : Uuid)
    → Cache.is_loaded (Cache.add k c) id ≡ Cache.is_loaded c id
unfolding Cache.is_loaded Cache.add
loaded_add k c id = refl

-- A context reads what it wrote: after a set_checkpoint that returned, under any failing statements,
-- a get_checkpoint of that name gives the caller the same checkpoint, at any time and from any tables,
-- and asks the storage nothing. The blocking bindings do so once the checkpoints are loaded.
pub get_checkpoint-set_checkpoint :
    (texts : UuidTexts) (x : ContextInner) (y : AsyncContextInner) (id run_id : Uuid) (name : Text)
    (state : Bytes) (o : Option ℕ) (e e' : Env) (s s' : Session) (k : Models.Checkpoint)
    → texts.of_text x.claimed_task.task_id ≡ some id
    → texts.of_text x.claimed_task.run_id ≡ some run_id
    → y.claimed_task ≡ x.claimed_task
    → Cache.is_loaded x.checkpoints id ≡ true
    → (Event.set_checkpoint id run_id name state o e s).0 ≡ ok k
    → let kept = Sync.set_checkpoint texts x name state o e s in
      let async_kept = Async.set_checkpoint texts y name state o e s in
      (kept.0 ≡ returned (from_checkpoint texts k))
      × (Sync.get_checkpoint texts kept.1 name e' s' ≡ (kept.0, kept.1, s'))
      × (Async.get_checkpoint texts async_kept.1 name e' s' ≡ (kept.0, s'))
unfolding Sync.set_checkpoint Async.set_checkpoint Sync.get_checkpoint Async.get_checkpoint
get_checkpoint-set_checkpoint texts x y id run_id name state o e e' s s' k i j same l h =
    let own = returned_key id run_id name state o e s k h in
    rw (same, i, j, h)
      (
        refl,
        rw (i, loaded_add k x.checkpoints id, l, added_lem k x.checkpoints id name own.0 own.1)
            refl,
        rw (i, added_lem k y.checkpoints id name own.0 own.1) refl,
      )
