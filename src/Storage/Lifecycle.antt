-- ===== src/Storage/Lifecycle.antt =====
-- The life of one run, as a state machine on what decides about it: its state, the event it waits
-- for, and its result.
pub mod Statements
pub mod Methods
pub mod Expiry
pub mod Deletion
pub mod Course
use taskturbine.Base.{
  ℕ, zero, suc, ◌+◌, ◌≡◌, refl, sym, ◌∙◌, Option, none, some, Bool, true, false, List, [], ◌∷◌,
  ◌==◌, ◌||◌, not, any, is_some, find_first, update_where, if◌then◌else◌, ==_iff, Bool-cases, inl,
  inr, ◌⊎◌, arith,
}
use taskturbine.Base.Rows.{Distinct, Distinct-update_where, find_first-update_where, find_first-key}
use taskturbine.Base.Text.{Text, Bytes}
use taskturbine.Models.{
  TaskState, Uuid, Run, pending, running, sleeping, completed, failed, cancelled,
}
use taskturbine.Sql.Session.{Db}
use taskturbine.Sql.Keeps.{Writes}
use taskturbine.Storage.Rows.{is_run, find_run, is_waiting, is_active, insert_run}
use taskturbine.Storage.Invariant.Statements.{run_key}

pub record Life : Type 0 where
  pub state : TaskState
  pub wait : Option Text
  pub result : Option Bytes

abbrev pub life : Run → Life
life r = record { state = r.state; wait = r.wait_event_name; result = r.result }

-- One step. A claim, a completion, a failure and a suspension ask for a state; an emission asks for
-- an awaited event only, and a cancellation for nothing.
pub data Step : Life → Life → Type 0 where
  claim : (l : Life) → is_waiting l.state ≡ true → Step l (record l { state = running })
  complete :
      (l : Life) (b : Bytes)
      → l.state ≡ running
      → Step l (record { state = completed; wait = none; result = some b })
  fail : (l : Life) → is_active l.state ≡ true → Step l (record l { state = failed; wait = none })
  suspend :
      (l : Life) (wait : Option Text)
      → l.state ≡ running
      → Step l (record l { state = sleeping; wait = wait })
  wake : (l : Life) → is_some l.wait ≡ true → Step l (record l { state = pending; wait = none })
  cancel : (l : Life) → Step l (record l { state = cancelled })

-- Any number of steps.
pub data Reach (l : Life) : Life → Type 0 where
  here : Reach l l
  step : {m n : Life} → Reach l m → Step m n → Reach l n

-- No two runs share an identifier, and the run `id` is there, in a state that is reached from
-- `start`; if it is among `rest`, its state is active.
pub record Tracks (id : Uuid) (start : Life) (rest : List Run) (db : Db) : Type 0 where
  pub row : Run
  pub found : find_run id db.runs ≡ some row
  pub moved : Reach start (life row)
  pub keys : Distinct run_key db.runs
  pub expects : (not (any (is_run id) rest) || is_active row.state) ≡ true

-- The life of a row is that of another, or one step later.
abbrev pub Moves : Life → Life → Type 0
Moves l m = (m ≡ l) ⊎ Step l m

any-found {ℓ} :
    {A : Type ℓ} (p : A → Bool) (xs : List A) {x : A} → find_first p xs ≡ some x → any p xs ≡ true
any-found p [] h = cc
any-found p (y ∷ ys) {x} h = ground (arith, any-found p ys {x = x})

module _ (id : Uuid) (start : Life) where
  Moves-Reach : {l m : Life} → Reach start l → Moves l m → Reach start m
  Moves-Reach r (inl same) = rw same r
  Moves-Reach r (inr s) = step r s

  -- Tables with the same runs.
  pub same_runs :
      (rest : List Run) (db d : Db)
      → d.runs ≡ db.runs
      → Tracks id start rest db
      → Tracks id start rest d
  same_runs rest db d h t = record {
    row = t.row;
    found = rw h t.found;
    moved = t.moved;
    keys = rw h t.keys;
    expects = t.expects;
  }

  -- An UPDATE of runs of which the one of `id` makes at most one step.
  pub update-Tracks :
      (p : Run → Bool) (f : Run → Run) (db d : Db)
      → d.runs ≡ update_where p f db.runs
      → ((r : Run) → (f r).run_id ≡ r.run_id)
      → (t : Tracks id start [] db) → (p t.row ≡ true → Moves (life t.row) (life (f t.row)))
      → Tracks id start [] d
  update-Tracks p f db d h same t move = record {
    row = if p t.row then f t.row else t.row;
    found = rw h (find_first-update_where run_key p f id db.runs same t.found);
    moved = elim (Bool-cases (p t.row)) [
      | inl hit ↦ rw hit (Moves-Reach t.moved (move hit))
      | inr miss ↦ rw miss t.moved
    ];
    keys = rw h (Distinct-update_where run_key p f db.runs same t.keys);
    expects = refl;
  }

  -- The run that was found under its identifier is the one that is followed, or another.
  pub found_same :
      (db : Db) (rest : List Run) (run_id : Uuid) (r : Run) (t : Tracks id start rest db)
      → find_run run_id db.runs ≡ some r
      → is_run run_id t.row ≡ true
      → t.row ≡ r
  found_same db rest run_id r t h k =
      let i : run_id ≡ id =
        sym ((==_iff t.row.run_id run_id).0 k) ∙ find_first-key run_key id db.runs t.found in
      ground (arith, t.found, h, i)

  pub insert_run-Tracks :
      (r : Run) (rest : List Run) (db : Db)
      → Tracks id start rest db
      → Writes (Tracks id start rest) (insert_run r db)
  insert_run-Tracks r rest db t = elim (Bool-cases (any (is_run r.run_id) db.runs)) [
    | inl there ↦ rw there tt
    | inr new ↦ rw new (inserted new)
  ]
    where
      other : any (is_run r.run_id) db.runs ≡ false → (r.run_id == id) ≡ false
      other new = ground (arith, any-found (is_run id) db.runs t.found, (==_iff r.run_id id).0)

      inserted :
          any (is_run r.run_id) db.runs ≡ false
          → Tracks id start rest (record db { runs = r ∷ db.runs })
      inserted new = record {
        row = t.row;
        found = rw (other new) t.found;
        moved = t.moved;
        keys = (new, t.keys);
        expects = t.expects;
      }
