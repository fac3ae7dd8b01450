-- ===== src/Storage/Exclusive.antt =====
-- Who gets a run: claim_task hands out only claimable runs, no more than asked for, and none twice.
use taskturbine.Base.{
  ℕ, ◌≤◌, ◌≡◌, refl, some, true, false, List, [], ◌∷◌, ◌==◌, All, length, rows_where, update_where,
  arith, if◌then◌else◌,
}
use taskturbine.Base.Int.{ℤ, pos_part}
use taskturbine.Base.Rows.{All-take, All-rows_where, length-take_le, find_first-update_where}
use taskturbine.Base.Text.{Text}
use taskturbine.Models.{Uuid, Task, Run}
use taskturbine.Sql.Session.{Db, Env}
use taskturbine.Storage.Rows.{find_run, is_waiting}
use taskturbine.Storage.Claim.{run_claimable, candidates, is_among, claimed_run, claim_statement}
use taskturbine.Storage.Invariant.Statements.{run_key}

-- The runs picked are claimable, and at most the number asked for.
pub candidates-claimable :
    (e : Env) (channels : List Text) (qty : ℤ) (db : Db)
    → All (λ r. run_claimable e channels db.tasks r ≡ true) (candidates e channels qty db)
      × (length (candidates e channels qty db) ≤ pos_part qty)
unfolding candidates
candidates-claimable e channels qty db = (
  All-take _ (pos_part qty) _ (All-rows_where _ _ db.runs (λ x h. h)),
  length-take_le (pos_part qty) _,
)

pub claimable_waits :
    (e : Env) (channels : List Text) (tasks : List Task) (r : Run)
    → run_claimable e channels tasks r ≡ true
    → is_waiting r.state ≡ true
unfolding run_claimable
claimable_waits e channels tasks r h = ground arith

-- After a claim, a run that waits is none of those that were picked.
unpicked_wait :
    (picked : List Run) (e e' : Env) (worker_id : Text) (until : ℕ) (channels : List Text)
    (tasks : List Task) (runs : List Run)
    → All
        (λ c. is_among picked c ≡ false)
        (rows_where
          (run_claimable e' channels tasks)
          (update_where (is_among picked) (claimed_run e worker_id until) runs))
unpicked_wait picked e e' worker_id until channels tasks [] = tt
unpicked_wait picked e e' worker_id until channels tasks (r ∷ rs) =
    let rest = unpicked_wait picked e e' worker_id until channels tasks rs in
    ground (arith, claimable_waits e' channels tasks (claimed_run e worker_id until r), rest)

not_among :
    (picked cs : List Run) (r : Run)
    → All (λ c. is_among picked c ≡ false) cs
    → is_among picked r ≡ true
    → is_among cs r ≡ false
not_among picked [] r h p = refl
not_among picked (c ∷ cs) r h p = ground (arith, not_among picked cs r h.1 p, same_among picked c r)
  where
    same_among :
        (xs : List Run) (c r : Run) → (c.run_id == r.run_id) ≡ true → is_among xs c ≡ is_among xs r
    same_among [] c r e = refl
    same_among (x ∷ xs) c r e = ground (arith, same_among xs c r e)

-- No run is handed out twice: a run that one claim_task picked is not picked by the next, whichever
-- worker calls it, when, for which channels and how many.
pub claims_exclusive :
    (e e' : Env) (channels channels' : List Text) (qty qty' : ℤ) (worker_id : Text) (until : ℕ)
    (db : Db) (r : Run)
    → is_among (candidates e channels qty db) r ≡ true
    → is_among
        (candidates e' channels' qty' (claim_statement e channels worker_id until qty db).1)
        r
      ≡ false
unfolding claim_statement
claims_exclusive e e' channels channels' qty qty' worker_id until db r h =
    not_among (candidates e channels qty db) _ r
      (unfold candidates in
        All-take _ (pos_part qty') _
          (unpicked_wait (candidates e channels qty db) e e' worker_id until channels' _ db.runs))
      h

-- A run that is picked is running afterwards, held by the worker until the deadline, with one
-- attempt more; a run that is not picked is as it was. (A wait for an event stays on the row.)
pub claim_statement-run :
    (e : Env) (channels : List Text) (worker_id : Text) (until : ℕ) (qty : ℤ) (db : Db) (id : Uuid)
    (r : Run)
    → find_run id db.runs ≡ some r
    → find_run id (claim_statement e channels worker_id until qty db).1.runs
      ≡ some
          (if is_among (candidates e channels qty db) r then claimed_run e worker_id until r else r)
unfolding claim_statement
claim_statement-run e channels worker_id until qty db id r f =
    find_first-update_where run_key (is_among (candidates e channels qty db))
      (claimed_run e worker_id until) id db.runs (λ y. refl) f
