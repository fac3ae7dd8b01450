-- ===== src/Storage/Lifecycle/Expiry.antt =====
-- The failure of a run and the expiry of claims as steps of its life: do_fail_run, fail_run and
-- handle_expired_claims.
use taskturbine.Base.{
  ℕ, ◌≡◌, refl, Option, none, some, Bool, true, false, List, [], ◌∷◌, ◌==◌, ◌||◌, not, any, take,
  rows_where, update_where, if◌then◌else◌, ==_iff, Bool-cases, inl, inr, arith,
}
use taskturbine.Base.Int.{ℤ, pos, negsuc}
use taskturbine.Base.Rows.{
  Distinct, Distinct-update_where, find_first-update_where, find_first-key, any-take,
  any-unselected, Distinct-rows_where, Distinct-take,
}
use taskturbine.Base.Text.{Bytes}
use taskturbine.Models.{Uuid, Task, Run}
use taskturbine.Sql.Session.{Db, Env}
use taskturbine.Sql.Hoare.{
  Triple, ask-Triple, now_v7-Triple, guard-Triple, fetch_one-Triple, begin-Triple, commit-Triple,
  execute-Triple, bind-Triple, pure-Triple, writes-Triple, Keeps-Triple, if-Triple, weaken-Triple,
  strengthen-Triple, fact-Triple,
}
use taskturbine.Storage.Rows.{is_run, find_run, is_active, limit_rows}
use taskturbine.Storage.Fail.{
  is_failable, failed_run, next_attempt, schedule_retry, do_fail_run, fail_run, fail_expired,
  claim_expired, handle_expired_claims,
}
use taskturbine.Storage.Upkeep.{run_upkeep}
use taskturbine.Storage.Invariant.Statements.{run_key}
use taskturbine.Storage.Lifecycle.{
  Life, life, Tracks, fail, step, same_runs, found_same, insert_run-Tracks,
}
use taskturbine.Storage.Kept.Methods.{handle_cancellation_max_age-Kept}
use taskturbine.Storage.Lifecycle.Methods.{Tracks-Kept}

module _ (id : Uuid) (start : Life) where
  -- What a failure of the run `run_id` leaves to be done: `rest` of `all`, without that run, which is
  -- active if it is the one that is followed.
  record Leaves (run_id : Uuid) (b : Bool) (all rest : List Run) : Type 0 where
    fewer : any (is_run id) rest ≡ true → any (is_run id) all ≡ true
    gone : (run_id == id) ≡ true → any (is_run id) rest ≡ false
    active :
        (w : Db) (r : Run) (t : Tracks id start all w)
        → find_run run_id w.runs ≡ some r
        → (not b || is_failable r.state) ≡ true
        → is_run run_id t.row ≡ true
        → is_active t.row.state ≡ true

  failed-Tracks :
      (e : Env) (reason : Bytes) (run_id : Uuid) (b : Bool) (all rest : List Run) (r : Run) (w : Db)
      → Leaves run_id b all rest
      → find_run run_id w.runs ≡ some r
      → (not b || is_failable r.state) ≡ true
      → Tracks id start all w
      → Tracks id start rest
          (record w { runs = update_where (is_run run_id) (failed_run e reason) w.runs })
  failed-Tracks e reason run_id b all rest r w l found known t = record {
    row = if is_run run_id t.row then failed_run e reason t.row else t.row;
    found =
        find_first-update_where run_key (is_run run_id) (failed_run e reason) id w.runs (λ x. refl)
          t.found;
    moved = elim (Bool-cases (is_run run_id t.row)) [
      | inl hit ↦ rw hit (step t.moved (fail (life t.row) (l.active w r t found known hit)))
      | inr miss ↦ rw miss t.moved
    ];
    keys =
        Distinct-update_where run_key (is_run run_id) (failed_run e reason) w.runs (λ x. refl)
          t.keys;
    expects = elim (Bool-cases (is_run run_id t.row)) [
      | inl hit ↦ rw (hit, l.gone (same hit)) refl
      | inr miss ↦ rw miss (kept (any (is_run id) rest) (any (is_run id) all) l.fewer t.expects)
    ];
  }
    where
      same : is_run run_id t.row ≡ true → (run_id == id) ≡ true
      same hit =
          ground
            (arith, (==_iff t.row.run_id run_id).0 hit, find_first-key run_key id w.runs t.found)

      kept :
          (a b : Bool)
          → (a ≡ true → b ≡ true)
          → (not b || is_active t.row.state) ≡ true
          → (not a || is_active t.row.state) ≡ true
      kept false b f h = refl
      kept true b f h = ground (arith, f refl)

  module _ {S : Db → Type 0} where
    schedule_retry-Tracks :
        (run_id : Uuid) (at : ℕ) (t : Task) (rest : List Run)
        → Triple S (Tracks id start rest) (schedule_retry run_id at t) (λ a. Tracks id start rest)
    schedule_retry-Tracks run_id at t rest = bind-Triple _ _ ask-Triple λ e.
        bind-Triple _ _ now_v7-Triple λ next_id.
          bind-Triple _ _ (writes-Triple _ λ w h. insert_run-Tracks id start _ rest w h)
            λ _. pure-Triple _ λ w h. h

    next_attempt-Tracks :
        (run_id : Uuid) (retry_in : Option ℕ) (t : Task) (rest : List Run)
        → Triple S
            (Tracks id start rest)
            (next_attempt run_id retry_in t)
            (λ a. Tracks id start rest)
    unfolding next_attempt
    next_attempt-Tracks run_id retry_in t rest = bind-Triple _ _ ask-Triple λ e.
        if-Triple _ _ _
          (if-Triple _ _ _ (pure-Triple _ λ w h. h) (schedule_retry-Tracks run_id _ t rest))
          (pure-Triple _ λ w h. h)

    do_fail_run-Tracks :
        (run_id : Uuid) (reason : Bytes) (retry_in : Option ℕ) (b : Bool) (all rest : List Run)
        → Leaves run_id b all rest
        → Triple S
            (Tracks id start all)
            (do_fail_run run_id reason retry_in b)
            (λ u. Tracks id start rest)
    unfolding do_fail_run
    do_fail_run-Tracks run_id reason retry_in b all rest l = bind-Triple _ _ ask-Triple λ e.
        bind-Triple _ _ (fetch_one-Triple _ _) λ r. bind-Triple _ _ (guard-Triple _ _) λ _.
          bind-Triple _ _
            (bind-Triple _ _ ask-Triple λ e. weaken-Triple _ (λ a w h. h.0) (fetch_one-Triple _ _))
            λ task.
              bind-Triple _ _
                (execute-Triple {Q = Tracks id start rest} _
                  λ w h. failed-Tracks e reason run_id b all rest r w l h.0.1 h.1 h.0.0)
                λ _.
                  bind-Triple _ _ (next_attempt-Tracks run_id retry_in task rest)
                    λ updated. execute-Triple _ λ w t. same_runs id start rest w _ refl t

  asked : (run_id : Uuid) → Leaves run_id true [] []
  asked run_id = record {
    fewer = λ h. h;
    gone = λ h. refl;
    active = λ w r t found known hit. ground (arith, found_same id start w [] run_id r t found hit);
  }

  pub fail_run-Tracks :
      (run_id : Uuid) (reason : Bytes) (retry_at : Option ℕ)
      → Triple
          (Tracks id start [])
          (Tracks id start [])
          (fail_run run_id reason retry_at)
          (λ u. Tracks id start [])
  unfolding fail_run
  fail_run-Tracks run_id reason retry_at = bind-Triple _ _ begin-Triple λ _.
      bind-Triple _ _ (do_fail_run-Tracks run_id reason retry_at true [] [] (asked run_id))
        λ _. commit-Triple λ w t. t

  next_expired :
      (r : Run) (rs : List Run) → Distinct run_key (r ∷ rs) → Leaves r.run_id false (r ∷ rs) rs
  next_expired r rs d = record {
    fewer = λ h. ground arith;
    gone = λ h. ground (arith, (==_iff r.run_id id).0 h, d.0);
    active = λ w x t found known hit. ground (
      arith,
      (==_iff t.row.run_id r.run_id).0 hit,
      find_first-key run_key id w.runs t.found,
      t.expects,
    );
  }

  fail_expired-Tracks :
      {S : Db → Type 0} (rs : List Run)
      → Distinct run_key rs
      → Triple S (Tracks id start rs) (fail_expired rs) (λ u. Tracks id start [])
  unfolding fail_expired
  fail_expired-Tracks [] d = pure-Triple _ λ w t. t
  fail_expired-Tracks (r ∷ rs) d =
      bind-Triple _ _ (do_fail_run-Tracks r.run_id _ none false (r ∷ rs) rs (next_expired r rs d))
        λ _. fail_expired-Tracks rs d.1

  -- The expired claims are of active runs.
  expired-Tracks :
      (e : Env) (limit : ℤ) (rs : List Run) (w : Db)
      → limit_rows limit (rows_where (claim_expired e w.tasks) w.runs) ≡ some rs
      → Tracks id start [] w
      → Distinct run_key rs × Tracks id start rs w
  expired-Tracks e (negsuc n) rs w h t = cc
  expired-Tracks e (pos n) rs w h t =
      let same : rs ≡ take n (rows_where (claim_expired e w.tasks) w.runs) = ground arith in
      rw same (
        Distinct-take run_key n _
            (Distinct-rows_where run_key (claim_expired e w.tasks) w.runs t.keys),
        record {
          row = t.row;
          found = t.found;
          moved = t.moved;
          keys = t.keys;
          expects = elim (Bool-cases (claim_expired e w.tasks t.row)) [
            | inl due ↦ ground arith
            | inr other ↦ ground (
              arith,
              any-take run_key n id (rows_where (claim_expired e w.tasks) w.runs)
                  (any-unselected run_key (claim_expired e w.tasks) id w.runs t.keys t.found other),
            )
          ];
        },
      )

  handle_expired_claims-Tracks :
      (limit : ℤ)
      → Triple
          (Tracks id start [])
          (Tracks id start [])
          (handle_expired_claims limit)
          (λ n. Tracks id start [])
  unfolding handle_expired_claims
  handle_expired_claims-Tracks limit = bind-Triple _ _ begin-Triple λ _.
      bind-Triple _ _ ask-Triple λ e.
        bind-Triple _ _
          (weaken-Triple _ (λ rs w h. expired-Tracks e limit rs w h.1 h.0) (fetch_one-Triple _ _))
          λ rs.
            fact-Triple _ (λ w h. h.0)
              λ d.
                bind-Triple _ _ (strengthen-Triple _ (λ w h. h.1) (fail_expired-Tracks rs d))
                  λ _. bind-Triple _ _ (commit-Triple λ w t. t) λ _. pure-Triple _ λ w t. t

  pub run_upkeep-Tracks :
      (limit : ℤ)
      → Triple
          (Tracks id start [])
          (Tracks id start [])
          (run_upkeep limit)
          (λ u. Tracks id start [])
  unfolding run_upkeep
  run_upkeep-Tracks limit = bind-Triple _ _ (handle_expired_claims-Tracks limit) λ _.
      bind-Triple _ _
        (Keeps-Triple _ (handle_cancellation_max_age-Kept (Tracks-Kept id start) limit))
        λ _. pure-Triple _ λ w t. t
