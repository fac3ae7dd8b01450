-- ===== src/Storage/Claim.antt =====
-- claim_task and extend_claim of taskturbine-core/src/storage.rs.
use taskturbine.Base.{
  ℕ, ◌+◌, max, List, [], ◌∷◌, ◌++◌, map, Option, none, some, Bool, true, false, ◌&&◌, ◌||◌, not,
  ◌==◌, ltb, leb, take, any, find_first, rows_where, update_where, sort_by, coalesce,
}
use taskturbine.Base.Int.{ℤ, pos, pos_part, ltb_ℤ}
use taskturbine.Base.Text.{Text, text_eq}
use taskturbine.Models.{Uuid, Task, Run, ClaimedTask, running}
use taskturbine.Sql.Session.{
  Db, Env, M, ◌>>=◌, ◌>>◌, ask, guard, validation_error, qty_not_positive, claim_timeout_past,
  not_running, pool_execute,
}
use taskturbine.Storage.Rows.{is_run, find_task, is_waiting, is_running, column_is}

-- An empty list of channels is no condition.
abbrev pub in_channels : Text → List Text → Bool
in_channels channel [] = true
in_channels channel (c ∷ cs) = any (text_eq channel) (c ∷ cs)

-- The condition on the task of a candidate.
abbrev pub task_claimable : Env → List Text → Task → Bool
task_claimable e channels t =
    is_waiting t.state
    && text_eq t.usecase e.config.usecase
    && not (e.locked t.task_id)
    && in_channels t.channel channels

abbrev option_holds {ℓ} : {A : Type ℓ} → (A → Bool) → Option A → Bool
option_holds p none = false
option_holds p (some a) = p a

-- The WHERE clause of the candidates, the join and SKIP LOCKED included.
unfoldable pub run_claimable : Env → List Text → List Task → Run → Bool
run_claimable e channels tasks r =
    is_waiting r.state
    && leb r.available_at e.now
    && not (e.locked r.run_id)
    && option_holds (task_claimable e channels) (find_task r.task_id tasks)

unfoldable pub candidates : Env → List Text → ℤ → Db → List Run
candidates e channels qty db =
    take (pos_part qty) (rows_where (run_claimable e channels db.tasks) db.runs)

-- SET of claim_run.
abbrev pub claimed_run : Env → Text → ℕ → Run → Run
claimed_run e worker_id until r = record r {
  state = running;
  claimed_by = some worker_id;
  claim_expires_at = some until;
  started_at = some e.now;
  attempt = r.attempt + 1;
}

abbrev pub is_among : List Run → Run → Bool
is_among rs r = any (λ c. c.run_id == r.run_id) rs

-- SET of claim_task, for the claimed run that joins with the task.
abbrev mark_claimed : Env → Task → Option Run → Task
mark_claimed e t none = t
mark_claimed e t (some r) = record t {
  state = running;
  first_started_at = coalesce t.first_started_at (some e.now);
  attempts = max t.attempts r.attempt;
}

abbrev pub claimed_task : Env → List Run → Task → Task
claimed_task e claimed t = mark_claimed e t (find_first (λ r. r.task_id == t.task_id) claimed)

-- The final SELECT, for one claimed run.
abbrev claim_row : Run → Option Task → List ClaimedTask
claim_row r none = []
claim_row r (some t) =
    record {
      task_id = t.task_id;
      run_id = r.run_id;
      channel = t.channel;
      task_name = t.task_name;
      params = t.params;
      retry_seconds = t.retry_seconds;
      retry_factor = t.retry_factor;
      retry_max_seconds = t.retry_max_seconds;
      attempt = r.attempt;
      max_attempts = t.max_attempts;
    }
    ∷ []

unfoldable pub claim_rows : List Task → List Run → List ClaimedTask
claim_rows tasks [] = []
claim_rows tasks (r ∷ rs) = claim_row r (find_task r.task_id tasks) ++ claim_rows tasks rs

-- ORDER BY available_at, run_id.
abbrev pub claim_order : Run → Run → Bool
claim_order a b =
    ltb a.available_at b.available_at || (a.available_at == b.available_at && leb a.run_id b.run_id)

-- The whole statement. The SELECT reads the tasks as they were before the updates.
unfoldable pub claim_statement : Env → List Text → Text → ℕ → ℤ → Db → List ClaimedTask × Db
claim_statement e channels worker_id until qty db =
    let picked : List Run = candidates e channels qty db in
    let claimed : List Run =
      map (claimed_run e worker_id until) (rows_where (is_among picked) db.runs) in
    (
      claim_rows db.tasks (sort_by claim_order claimed),
      record db {
        runs = update_where (is_among picked) (claimed_run e worker_id until) db.runs;
        tasks = map (claimed_task e claimed) db.tasks;
      },
    )

-- claim_task. `claim_timeout` is a duration.
unfoldable pub claim_task : List Text → Text → ℕ → ℤ → M (List ClaimedTask)
claim_task channels worker_id claim_timeout qty = do
  guard (ltb_ℤ (pos 0) qty) (validation_error qty_not_positive)
  e ← ask
  let until = e.utc_now + claim_timeout
  guard (not (ltb until e.utc_now)) (validation_error claim_timeout_past)
  pool_execute (claim_statement e channels worker_id until qty)

-- WHERE of extend_claim.
abbrev pub holds_claim : Uuid → Text → Run → Bool
holds_claim run_id worker_id r =
    is_run run_id r && column_is r.claimed_by worker_id && is_running r.state

abbrev pub extend_statement : Uuid → Text → ℕ → Db → Bool × Db
extend_statement run_id worker_id until db = (
  any (holds_claim run_id worker_id) db.runs,
  record db {
    runs =
        update_where (holds_claim run_id worker_id)
          (λ r. record r { claim_expires_at = some until }) db.runs;
  },
)

-- extend_claim. `claim_timeout` is an instant; no row affected is an error.
unfoldable pub extend_claim : Text → Uuid → ℕ → M (Unit {0})
extend_claim worker_id run_id claim_timeout = do
  e ← ask
  guard (not (ltb claim_timeout e.utc_now)) (validation_error claim_timeout_past)
  affected ← pool_execute (extend_statement run_id worker_id claim_timeout)
  guard affected (not_running run_id)
