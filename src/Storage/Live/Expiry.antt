-- ===== src/Storage/Live/Expiry.antt =====
-- Failures keep tables sound: the run that fails is the only live one of its task, so the next
-- attempt's run is.
use taskturbine.Base.{
  ℕ, ◌≡◌, refl, Option, none, some, Bool, true, false, List, [], ◌∷◌, ◌||◌, ◌&&◌, not, any, is_some,
  take, find_first, rows_where, update_where, ==_iff, ==_refl, Bool-cases, inl, inr, arith,
}
use taskturbine.Base.Int.{ℤ, pos, negsuc}
use taskturbine.Base.Rows.{Distinct, All-take, Distinct-rows_where, Distinct-take}
use taskturbine.Base.Text.{Bytes, text_eq}
use taskturbine.Models.{Uuid, Task, Run, TaskState}
use taskturbine.Sql.Session.{Db, Env}
use taskturbine.Sql.Keeps.{Writes}
use taskturbine.Sql.Hoare.{
  Triple, ask-Triple, now_v7-Triple, guard-Triple, fetch_one-Triple, begin-Triple, commit-Triple,
  execute-Triple, bind-Triple, pure-Triple, inserts-Triple, Keeps-Triple, if-Triple, weaken-Triple,
  strengthen-Triple, fact-Triple,
}
use taskturbine.Storage.Rows.{
  is_run, is_task, find_run, is_active, get_locked_task, insert_run, limit_rows,
}
use taskturbine.Storage.Fail.{
  is_failable, failed_run, next_attempt, schedule_retry, do_fail_run, fail_run, fail_expired,
  claim_expired, handle_expired_claims,
}
use taskturbine.Storage.Upkeep.{run_upkeep}
use taskturbine.Storage.Invariant.Statements.{run_key}
use taskturbine.Storage.Kept.Methods.{handle_cancellation_max_age-Kept}
use taskturbine.Storage.Live.{Sound, is_live, ended-none, found_each, any-found}
use taskturbine.Storage.Live.Statements.{
  shrink_runs-Sound, update_tasks-Sound, KnownTask, insert_run-Sound,
}
use taskturbine.Storage.Live.Methods.{Sound-Kept, NewTask}
use taskturbine.Storage.Live.Due.{Due, Due-insert, Due-update, Due-selected}

-- Sound tables in which the runs `rest` are to be failed.
abbrev Left : List Run → Db → Type 0
Left rest w = Sound w × Due w.runs rest

-- A task that has no live run, in such tables.
abbrev Ended : Uuid → List Run → Db → Type 0
Ended task_id rest w = NewTask task_id w × Due w.runs rest

locked_owner :
    (e : Env) (task_id : Uuid) (tasks : List Task) {t : Task}
    → find_first (λ x. is_task task_id x && text_eq x.usecase e.config.usecase) tasks ≡ some t
    → t.task_id ≡ task_id
locked_owner e task_id [] h = cc
locked_owner e task_id (x ∷ xs) {t} h =
    ground (arith, (==_iff x.task_id task_id).0, locked_owner e task_id xs {t = t})

failed-Ended :
    (e : Env) (reason : Bytes) (run_id : Uuid) (r : Run) (t : Task) (rest : List Run) (w : Db)
    → find_run run_id w.runs ≡ some r
    → is_live r ≡ true
    → t.task_id ≡ r.task_id
    → KnownTask t.task_id w
    → any (is_run run_id) rest ≡ false
    → Left rest w
    → Ended t.task_id rest
        (record w { runs = update_where (is_run run_id) (failed_run e reason) w.runs })
failed-Ended e reason run_id r t rest w found live owner known other l = (
  (
    shrink_runs-Sound (is_run run_id) (failed_run e reason) w (λ x. refl) (λ x. refl) (λ x. refl)
        l.0,
    rw owner (
        ended-none (failed_run e reason) run_id w.runs (λ x. refl) (λ x. refl) l.0.single found
          live),
    known,
  ),
  Due-update (failed_run e reason) run_id w.runs rest (λ x. refl) other l.1,
)

module _ {S : Db → Type 0} where
  -- The task that is read is in the table under the identifier asked for.
  get_locked_task-Triple :
      {P : Db → Type 0} (task_id : Uuid)
      → Triple S P
          (get_locked_task task_id)
          (λ t w. P w × (t.task_id ≡ task_id) × KnownTask t.task_id w)
  get_locked_task-Triple task_id = bind-Triple _ _ ask-Triple λ e.
      weaken-Triple _
        (λ t w h. (
          h.0,
          locked_owner e task_id w.tasks h.1,
          any-found _ (is_task t.task_id) w.tasks h.1 (==_refl t.task_id),
        ))
        (fetch_one-Triple _ _)

  schedule_retry-Left :
      (run_id : Uuid) (at : ℕ) (t : Task) (rest : List Run)
      → Triple S (Ended t.task_id rest) (schedule_retry run_id at t) (λ a. Left rest)
  schedule_retry-Left run_id at t rest = bind-Triple _ _ ask-Triple λ e.
      bind-Triple _ _ now_v7-Triple λ next_id.
        bind-Triple _ _ (inserts-Triple {R = Left rest} _ λ w h. insert_run-Left _ rest w h)
          λ _. pure-Triple _ λ w h. h
    where
      insert_run-Left :
          (r : Run) (rest : List Run) (w : Db)
          → Ended r.task_id rest w
          → Writes (Left rest) (insert_run r w)
      insert_run-Left r rest w h = elim (Bool-cases (any (is_run r.run_id) w.runs)) [
        | inl there ↦ rw there tt
        | inr new ↦
            let sound = insert_run-Sound r w h.0.0 h.0.1 h.0.2 in
            rw new ((ground (arith, sound)), Due-insert r w.runs rest new h.1)
      ]

  next_attempt-Left :
      (run_id : Uuid) (retry_in : Option ℕ) (t : Task) (rest : List Run)
      → Triple S (Ended t.task_id rest) (next_attempt run_id retry_in t) (λ a. Left rest)
  unfolding next_attempt
  next_attempt-Left run_id retry_in t rest = bind-Triple _ _ ask-Triple λ e.
      if-Triple _ _ _
        (if-Triple _ _ _ (pure-Triple _ λ w h. (h.0.0, h.1)) (schedule_retry-Left run_id _ t rest))
        (pure-Triple _ λ w h. (h.0.0, h.1))

  -- The run is live once its row is found and its state is tested.
  do_fail_run-Left :
      (run_id : Uuid) (reason : Bytes) (retry_in : Option ℕ) (b : Bool) (rest : List Run)
      (P : Db → Type 0)
      → ((w : Db) → P w → Left rest w)
      → any (is_run run_id) rest ≡ false
      → ((w : Db) (r : Run)
          → P w
          → find_run run_id w.runs ≡ some r
          → (not b || is_failable r.state) ≡ true
          → is_live r ≡ true)
      → Triple S P (do_fail_run run_id reason retry_in b) (λ u. Left rest)
  unfolding do_fail_run
  do_fail_run-Left run_id reason retry_in b rest P l other live = bind-Triple _ _ ask-Triple λ e.
      bind-Triple _ _ (fetch_one-Triple _ _) λ r. bind-Triple _ _ (guard-Triple _ _) λ _.
        bind-Triple _ _ (get_locked_task-Triple r.task_id) λ task.
          bind-Triple _ _
            (execute-Triple {Q = Ended task.task_id rest} _ λ w h.
              failed-Ended e reason run_id r task rest w h.0.0.1 (live w r h.0.0.0 h.0.0.1 h.0.1)
                h.1 h.2 other (l w h.0.0.0))
            λ _.
              bind-Triple _ _ (next_attempt-Left run_id retry_in task rest)
                λ updated. execute-Triple _ λ w h. (update_tasks-Sound _ _ w (λ t. refl) h.0, h.1)

pub fail_run-Sound :
    (run_id : Uuid) (reason : Bytes) (retry_at : Option ℕ)
    → Triple Sound Sound (fail_run run_id reason retry_at) (λ u. Sound)
unfolding fail_run
fail_run-Sound run_id reason retry_at = bind-Triple _ _ begin-Triple λ _.
    bind-Triple _ _
      (do_fail_run-Left run_id reason retry_at true [] Sound (λ w v. (v, tt)) refl
        λ w r v found failable. failable_live r.state (is_some r.wait_event_name) failable)
      λ _. strengthen-Triple _ (λ w h. h.0) (commit-Triple λ w v. v)
  where
    failable_live :
        (state : TaskState) (b : Bool) → is_failable state ≡ true → (is_active state || b) ≡ true
    failable_live state b h = ground arith

fail_expired-Left :
    {S : Db → Type 0} (rs : List Run)
    → Distinct run_key rs
    → Triple S (Left rs) (fail_expired rs) (λ u. Sound)
unfolding fail_expired
fail_expired-Left [] d = pure-Triple _ λ w h. h.0
fail_expired-Left (r ∷ rs) d =
    bind-Triple _ _
      (do_fail_run-Left r.run_id _ none false rs (Left (r ∷ rs)) (λ w h. (h.0, h.1.1)) d.0
        λ w x h found known. ground (arith, h.1.0.0, h.1.0.1, found))
      λ _. fail_expired-Left rs d.1

-- The expired claims are of active runs.
expired-Left :
    (e : Env) (limit : ℤ) (rs : List Run) (w : Db)
    → limit_rows limit (rows_where (claim_expired e w.tasks) w.runs) ≡ some rs
    → Sound w
    → Distinct run_key rs × Left rs w
expired-Left e (negsuc n) rs w h v = cc
expired-Left e (pos n) rs w h v =
    let due = claim_expired e w.tasks in
    let same : rs ≡ take n (rows_where due w.runs) = ground arith in
    rw same (
      Distinct-take run_key n _ (Distinct-rows_where run_key due w.runs v.run_ids),
      (
        v,
        All-take _ n _
            (Due-selected due w.runs w.runs (λ r hit. ground arith) (found_each w.runs v.run_ids)),
      ),
    )

handle_expired_claims-Sound :
    (limit : ℤ) → Triple Sound Sound (handle_expired_claims limit) (λ n. Sound)
unfolding handle_expired_claims
handle_expired_claims-Sound limit = bind-Triple _ _ begin-Triple λ _.
    bind-Triple _ _ ask-Triple λ e.
      bind-Triple _ _
        (weaken-Triple _ (λ rs w h. expired-Left e limit rs w h.1 h.0) (fetch_one-Triple _ _))
        λ rs.
          fact-Triple _ (λ w h. h.0)
            λ d.
              bind-Triple _ _ (strengthen-Triple _ (λ w h. h.1) (fail_expired-Left rs d))
                λ _. bind-Triple _ _ (commit-Triple λ w v. v) λ _. pure-Triple _ λ w v. v

pub run_upkeep-Sound : (limit : ℤ) → Triple Sound Sound (run_upkeep limit) (λ u. Sound)
unfolding run_upkeep
run_upkeep-Sound limit = bind-Triple _ _ (handle_expired_claims-Sound limit) λ _.
    bind-Triple _ _ (Keeps-Triple _ (handle_cancellation_max_age-Kept Sound-Kept limit))
      λ _. pure-Triple _ λ w v. v
