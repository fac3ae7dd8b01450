-- ===== src/Storage/History.antt =====
-- Histories of calls keep tables well-formed.
use taskturbine.Base.{List, [], ◌∷◌}
use taskturbine.Sql.Session.{Db, Env, Session, empty_db}
use taskturbine.Storage.Calls.{Call, Event, perform, replay, opened}
use taskturbine.Storage.Kept.Calls.{perform-Kept}
use taskturbine.Storage.Invariant.{
  IsValid, IsValid-Kept, fail_run-Keeps, spawn_task-Keeps, run_upkeep-Keeps, cleanup_tasks-Keeps,
  clear_storage-Keeps,
}

pub perform-IsValid :
    (c : Call) (e : Env) (s : Session)
    → IsValid s.store
    → IsValid s.work
    → IsValid (perform c e s).store
perform-IsValid c e s v w = perform-Kept IsValid-Kept e s v w c (record {
  spawned = λ ch n p o same. ((spawn_task-Keeps ch n p o).at e s (v, w)).0;
  failed = λ r b t. ((fail_run-Keeps r b t).at e s (v, w)).0;
  kept_up = λ l. ((run_upkeep-Keeps l).at e s (v, w)).0;
  cleaned = λ t l same. ((cleanup_tasks-Keeps t l).at e s (v, w)).0;
  cleared = λ same. (clear_storage-Keeps.at e s (v, w)).0;
})

-- Well-formed tables stay so under any history: whatever the calls, their times, and the statements
-- that fail, run and task identifiers stay unique, a running run keeps its claim, and a completed or
-- failed run its result or reason and no awaited event.
pub replay-IsValid : (vs : List Event) (db : Db) → IsValid db → IsValid (replay db vs)
unfolding replay
replay-IsValid [] db v = v
replay-IsValid (h ∷ hs) db v = replay-IsValid hs _ (perform-IsValid h.call h.env (opened h db) v v)

pub empty-IsValid : IsValid empty_db
empty-IsValid = record { runs_ok = tt; run_ids = tt; task_ids = tt }
