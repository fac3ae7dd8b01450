-- ===== src/Storage/Lifecycle/Statements.antt =====
-- Each statement of Storage that updates runs, as steps of the life of a run.
use taskturbine.Base.{
  ℕ, ◌≡◌, refl, Option, none, some, Bool, true, List, [], update_where, Bool-cases, inl, inr, arith,
  rows_where, take,
}
use taskturbine.Base.Int.{ℤ, pos_part}
use taskturbine.Base.Rows.{find_first-key, any-take, any-unselected, Distinct}
use taskturbine.Base.Text.{Text, Bytes}
use taskturbine.Models.{Uuid, Task, Run, running}
use taskturbine.Sql.Session.{Db, Env}
use taskturbine.Sql.Keeps.{Writes}
use taskturbine.Storage.Rows.{is_run, find_run, is_running}
use taskturbine.Storage.Claim.{claim_statement, claimed_run, candidates, is_among, extend_statement}
use taskturbine.Storage.Exclusive.{claimable_waits}
use taskturbine.Storage.Finish.{
  cancel_statement, cancelled_run, with_row, completed_run, suspended_run,
}
use taskturbine.Storage.Event
use taskturbine.Storage.Event.{extended_run, waits_for, woken_run}
use taskturbine.Storage.Upkeep.{age_statement, cancel_aged, aged_run}
use taskturbine.Storage.Invariant.Statements.{run_key}
use taskturbine.Storage.Lifecycle.{
  Life, life, Step, claim, complete, suspend, wake, cancel, Tracks, update-Tracks, found_same,
}

running_state : (r : Run) → is_running r.state ≡ true → r.state ≡ running
running_state r h = ground arith

-- A run that is picked by a test that is right about a row.
pub picked_holds :
    (p : Run → Bool) (n : ℕ) (runs : List Run) (id : Uuid) (r : Run)
    → Distinct run_key runs
    → find_run id runs ≡ some r
    → r.run_id ≡ id
    → is_among (take n (rows_where p runs)) r ≡ true
    → p r ≡ true
picked_holds p n runs id r d f same h = elim (Bool-cases (p r)) [
  | inl ok ↦ ok
  | inr other ↦ ground (
    arith,
    any-take run_key n id (rows_where p runs) (any-unselected run_key p id runs d f other),
    h,
    same,
  )
]

module _ (id : Uuid) (start : Life) where
  pub claim_statement-Tracks :
      (e : Env) (channels : List Text) (worker_id : Text) (until : ℕ) (qty : ℤ) (db : Db)
      → Tracks id start [] db
      → Tracks id start [] (claim_statement e channels worker_id until qty db).1
  unfolding claim_statement candidates
  claim_statement-Tracks e channels worker_id until qty db t =
      update-Tracks id start _ (claimed_run e worker_id until) db _ refl (λ r. refl) t
        λ hit. inr (
          claim (life t.row) (
            claimable_waits e channels db.tasks t.row (
              picked_holds _ (pos_part qty) db.runs id t.row t.keys t.found
                (find_first-key run_key id db.runs t.found) hit)))

  pub extend_statement-Tracks :
      (run_id : Uuid) (worker_id : Text) (until : ℕ) (db : Db)
      → Tracks id start [] db
      → Tracks id start [] (extend_statement run_id worker_id until db).1
  extend_statement-Tracks run_id worker_id until db t =
      update-Tracks id start _ _ db _ refl (λ r. refl) t λ hit. inl refl

  pub extended-Tracks :
      (e : Env) (extension : ℕ) (run_id : Uuid) (db : Db)
      → Tracks id start [] db
      → Tracks id start []
          (record db { runs = update_where (is_run run_id) (extended_run e extension) db.runs })
  extended-Tracks e extension run_id db t =
      update-Tracks id start _ _ db _ refl (λ r. refl) t λ hit. inl refl

  with_row-Tracks :
      (o : Option Task) (db : Db)
      → Tracks id start [] db
      → Writes (Tracks id start []) (with_row o db)
  with_row-Tracks none db t = tt
  with_row-Tracks (some row) db t = t

  pub cancel_statement-Tracks :
      (e : Env) (task_id : Uuid) (reason : Bytes) (db : Db)
      → Tracks id start [] db
      → Writes (Tracks id start []) (cancel_statement e task_id reason db)
  cancel_statement-Tracks e task_id reason db t = with_row-Tracks _ _ (
      update-Tracks id start _ (cancelled_run e reason) db _ refl (λ r. refl) t
        λ hit. inr (cancel (life t.row)))

  pub wake-Tracks :
      (e : Env) (event_name : Text) (db : Db)
      → Tracks id start [] db
      → Tracks id start [] (Event.wake e event_name db)
  unfolding Event.wake
  wake-Tracks e event_name db t =
      update-Tracks id start _ (woken_run e) db _ refl (λ r. refl) t
        λ hit. inr (wake (life t.row) (ground arith))

  cancel_aged-Tracks :
      (e : Env) (db : Db) (o : Option (List Run))
      → Tracks id start [] db
      → Writes (Tracks id start []) (cancel_aged e db o)
  cancel_aged-Tracks e db none t = tt
  cancel_aged-Tracks e db (some picked) t =
      update-Tracks id start _ (aged_run e) db _ refl (λ r. refl) t λ hit. inr (cancel (life t.row))

  pub age_statement-Tracks :
      (e : Env) (limit : ℤ) (db : Db)
      → Tracks id start [] db
      → Writes (Tracks id start []) (age_statement e limit db)
  unfolding age_statement
  age_statement-Tracks e limit db t = cancel_aged-Tracks e db _ t

  -- An UPDATE of the run that was found, by a step that its row allows.
  pub found_update :
      (run_id : Uuid) (r : Run) (f : Run → Run) (db d : Db)
      → d.runs ≡ update_where (is_run run_id) f db.runs
      → ((x : Run) → (f x).run_id ≡ x.run_id)
      → Step (life r) (life (f r))
      → find_run run_id db.runs ≡ some r
      → Tracks id start [] db
      → Tracks id start [] d
  found_update run_id r f db d h same move found t =
      update-Tracks id start _ f db d h same t
        λ hit. inr (rw (found_same id start db [] run_id r t found hit) move)

  pub completed-Tracks :
      (e : Env) (b : Bytes) (run_id : Uuid) (r : Run) (db : Db)
      → is_running r.state ≡ true
      → find_run run_id db.runs ≡ some r
      → Tracks id start [] db
      → Tracks id start []
          (record db { runs = update_where (is_run run_id) (completed_run e b) db.runs })
  completed-Tracks e b run_id r db h found t =
      found_update run_id r (completed_run e b) db _ refl (λ x. refl)
        (complete (life r) b (running_state r h)) found t

  pub suspended-Tracks :
      (at : ℕ) (wait : Option Text) (run_id : Uuid) (r : Run) (db d : Db)
      → d.runs ≡ update_where (is_run run_id) (suspended_run at wait) db.runs
      → is_running r.state ≡ true
      → find_run run_id db.runs ≡ some r
      → Tracks id start [] db
      → Tracks id start [] d
  suspended-Tracks at wait run_id r db d same h found t =
      found_update run_id r (suspended_run at wait) db d same (λ x. refl)
        (suspend (life r) wait (running_state r h)) found t
