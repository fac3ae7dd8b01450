-- ===== src/Storage/Lifecycle/Course.antt =====
-- The course of a run over a history of calls.
use taskturbine.Base.{
  sym, ◌≡◌, refl, ◌⊎◌, inl, inr, Option, none, some, Bool, true, false, List, [], ◌∷◌, is_some,
  arith,
}
use taskturbine.Base.Rows.{All-find_first}
use taskturbine.Base.Text.{Bytes}
use taskturbine.Models.{TaskState, Uuid, Run, completed, failed, cancelled}
use taskturbine.Sql.Session.{Db, Env, Session}
use taskturbine.Storage.Rows.{is_run, find_run}
use taskturbine.Storage.Invariant.{IsValid, RunOk}
use taskturbine.Storage.Invariant.Statements.{StateOk}
use taskturbine.Storage.Calls.{Call, Event, perform, replay, opened, cleans_tasks, clears}
use taskturbine.Storage.Lifecycle.{
  Life, life, Step, Reach, here, step, claim, complete, fail, suspend, wake, cancel, Tracks,
}
use taskturbine.Storage.Lifecycle.Deletion.{
  Stays, cleanup_tasks-Stays, clear_storage-Stays, stays, still,
}
use taskturbine.Storage.Kept.Calls.{perform-Kept}
use taskturbine.Storage.Lifecycle.Methods.{Tracks-Kept, spawn_task-Tracks}
use taskturbine.Storage.Lifecycle.Expiry.{fail_run-Tracks, run_upkeep-Tracks}

module _ (id : Uuid) (start : Life) where
  perform-Tracks :
      (c : Call) (e : Env) (db : Db) (s : Session)
      → s ≡ record { store = db; work = db; faults = s.faults; drawn = s.drawn }
      → Tracks id start [] db
      → is_some (find_run id (perform c e s).store.runs) ≡ true
      → Tracks id start [] (perform c e s).store
  unfolding perform
  perform-Tracks c e db s same t there = perform-Kept (Tracks-Kept id start) e s v w c (record {
    spawned = λ ch n p o is. ((spawn_task-Tracks id start ch n p o).at e s (v, w)).0;
    failed = λ r b x. ((fail_run-Tracks id start r b x).at e s v w).0;
    kept_up = λ l. ((run_upkeep-Tracks id start l).at e s v w).0;
    cleaned = λ o l is.
        still id start db _ t ((cleanup_tasks-Stays id t.row o l).at e s (a, b)).0
          (as_is (cleans_tasks o l) is);
    cleared = λ is.
        still id start db _ t ((clear_storage-Stays id t.row).at e s (a, b)).0 (as_is clears is);
  })
    where
      as_is : (call : Call) → c ≡ call → is_some (find_run id (perform call e s).store.runs) ≡ true
      as_is call is = rw (sym is) there

      v : Tracks id start [] s.store
      v = rw same t

      w : Tracks id start [] s.work
      w = rw same t

      a : Stays id t.row s.store
      a = rw same (stays id start db t)

      b : Stays id t.row s.work
      b = rw same (stays id start db t)

-- The run `id` is not deleted by any call of the history.
abbrev pub IsKept : Uuid → Db → List Event → Type 0
IsKept id db [] = Unit
IsKept id db (v ∷ vs) =
    let next : Db = (perform v.call v.env (opened v db)).store in
    (is_some (find_run id next.runs) ≡ true) × IsKept id next vs

replay-Tracks :
    (vs : List Event) (db : Db) (id : Uuid) (start : Life)
    → Tracks id start [] db
    → IsKept id db vs
    → Tracks id start [] (replay db vs)
unfolding replay
replay-Tracks [] db id start t kept = t
replay-Tracks (v ∷ vs) db id start t kept =
    replay-Tracks vs _ id start
      (perform-Tracks id start v.call v.env db (opened v db) refl t kept.0) kept.1

started :
    (db : Db) (id : Uuid) (r : Run)
    → IsValid db
    → find_run id db.runs ≡ some r
    → Tracks id (life r) [] db
started db id r valid found = record {
  row = r;
  found = found;
  moved = here;
  keys = valid.run_ids;
  expects = refl;
}

-- The tables implement the state machine of a run. From well-formed tables, under any history of
-- calls with any failing statements, a run that no call deletes gets from its state, awaited event
-- and result to those at the end by steps of the machine: a claim of a waiting run, the completion
-- or the suspension of a running one, the failure of an active one, the waking of one that awaits an
-- event, and a cancellation.
pub replay-Reach :
    (vs : List Event) (db : Db) (id : Uuid) (r : Run)
    → IsValid db
    → find_run id db.runs ≡ some r
    → IsKept id db vs
    → (last : Run) × (find_run id (replay db vs).runs ≡ some last) × Reach (life r) (life last)
replay-Reach vs db id r valid found kept =
    let t = replay-Tracks vs db id (life r) (started db id r valid found) kept in
    (t.row, t.found, t.moved)

abbrev pub is_ended : TaskState → Bool
is_ended completed = true
is_ended failed = true
is_ended _ = false

-- A run that has ended in the state `s` with a result, or was cancelled after that.
abbrev pub Ended : TaskState → Option Bytes → Life → Type 0
Ended s result l = ((l.state ≡ s) ⊎ (l.state ≡ cancelled)) × (l.wait ≡ none) × (l.result ≡ result)

Step-Ended :
    (s : TaskState) (result : Option Bytes) {l m : Life}
    → is_ended s ≡ true
    → Step l m
    → Ended s result l
    → Ended s result m
Step-Ended s result h (claim l waits) ended = ground arith
Step-Ended s result h (complete l b is) ended = ground arith
Step-Ended s result h (fail l active) ended = ground arith
Step-Ended s result h (suspend l wait is) ended = ground arith
Step-Ended s result h (wake l waits) ended = ground arith
Step-Ended s result h (cancel l) ended = (inr refl, ended.1, ended.2)

Reach-Ended :
    (s : TaskState) (result : Option Bytes) {l m : Life}
    → is_ended s ≡ true
    → Reach l m
    → Ended s result l
    → Ended s result m
Reach-Ended s result h here ended = ended
Reach-Ended s result h (step r move) ended =
    Step-Ended s result h move (Reach-Ended s result h r ended)

ended_wait : (s : TaskState) (r : Run) → is_ended s ≡ true → StateOk s r → r.wait_event_name ≡ none
ended_wait completed r h ok = ok.2
ended_wait failed r h ok = ok.2
ended_wait s r h ok = ground arith

-- The end of a run is final. From well-formed tables, after any history of calls with any failing
-- statements, a completed or failed run that no call deletes is in the state it was in, or cancelled,
-- and has the result it had.
pub result_final :
    (vs : List Event) (db : Db) (id : Uuid) (r : Run)
    → IsValid db
    → find_run id db.runs ≡ some r
    → is_ended r.state ≡ true
    → IsKept id db vs
    → (last : Run) × (find_run id (replay db vs).runs ≡ some last)
      × ((last.state ≡ r.state) ⊎ (last.state ≡ cancelled))
      × (last.result ≡ r.result)
result_final vs db id r valid found ended kept =
    let (last, there, path) = replay-Reach vs db id r valid found kept in
    let over = Reach-Ended r.state r.result ended path (
      inl refl,
      ended_wait r.state r ended (All-find_first RunOk (is_run id) db.runs valid.runs_ok found),
      refl,
    ) in
    (last, there, over.0, over.2)
