-- ===== src/Storage/Expired.antt =====
-- What handle_expired_claims of taskturbine-core/src/storage.rs leaves of the expired claims.
use mathlib.Core.Path.{subst}
use taskturbine.Base.{
  ℕ, ◌≡◌, ◌≤◌, refl, ap, sym, ◌∙◌, none, Bool, true, false, List, [], ◌∷◌, ◌||◌, not, any, All,
  length, take, rows_where, update_where, ==_iff, ==_refl, Bool-cases, inl, inr, arith,
}
use taskturbine.Base.Int.{pos}
use taskturbine.Base.Rows.{take_all}
use taskturbine.Base.Text.{Bytes}
use taskturbine.Models.{Uuid, Task, Run}
use taskturbine.Sql.Session.{
  Db, Env, Session, later, Result, ok, err, panic, and_then, commit, pure, ◌>>◌, fails, ◌>>=◌,
  effects,
}
use taskturbine.Sql.Keeps.{Writes}
use taskturbine.Sql.Hoare.{
  Triple, Yields, ask-Triple, now_v7-Triple, guard-Triple, fetch_one-Triple, execute-Triple,
  bind-Triple, pure-Triple, writes-Triple, if-Triple, weaken-Triple,
}
use taskturbine.Storage.Rows.{is_run, find_task, insert_run}
use taskturbine.Storage.Fail.{
  failed_run, update_task, next_attempt, schedule_retry, do_fail_run, fail_expired, claim_expired,
  in_usecase, handle_expired_claims,
}

module _ (e : Env) where
  -- A run with an expired claim is one of these.
  abbrev Among : List Run → List Task → Run → Type 0
  Among rs tasks x = (not (claim_expired e tasks x) || any (is_run x.run_id) rs) ≡ true

  -- The runs with an expired claim are among `rs`.
  abbrev Only : List Run → Db → Type 0
  Only rs w = All (Among rs w.tasks) w.runs

  failed-Only :
      (e' : Env) (reason : Bytes) (r : Run) (rs : List Run) (tasks : List Task) (runs : List Run)
      → All (Among (r ∷ rs) tasks) runs
      → All (Among rs tasks) (update_where (is_run r.run_id) (failed_run e' reason) runs)
  failed-Only e' reason r rs tasks [] h = tt
  failed-Only e' reason r rs tasks (x ∷ xs) h = elim (Bool-cases (is_run r.run_id x)) [
    | inl hit ↦ rw hit (ground arith, failed-Only e' reason r rs tasks xs h.1)
    | inr miss ↦ rw miss (
      ground (arith, h.0, (==_iff r.run_id x.run_id).0, ==_refl r.run_id),
      failed-Only e' reason r rs tasks xs h.1,
    )
  ]

  in_usecase-update :
      (id : Uuid) (p : Task → Bool) (t : Task) (tasks : List Task)
      → in_usecase e (find_task id (update_where p (update_task t) tasks))
        ≡ in_usecase e (find_task id tasks)
  in_usecase-update id p t [] = refl
  in_usecase-update id p t (x ∷ xs) = ground (arith, in_usecase-update id p t xs)

  updated-Only :
      (p : Task → Bool) (t : Task) (rs : List Run) (tasks : List Task) (runs : List Run)
      → All (Among rs tasks) runs
      → All (Among rs (update_where p (update_task t) tasks)) runs
  updated-Only p t rs tasks [] h = tt
  updated-Only p t rs tasks (x ∷ xs) h =
      (rw (in_usecase-update x.task_id p t tasks) h.0, updated-Only p t rs tasks xs h.1)

  module _ {S : Db → Type 0} where
    schedule_retry-Only :
        (rs : List Run) (run_id : Uuid) (at : ℕ) (t : Task)
        → Triple S (Only rs) (schedule_retry run_id at t) (λ a. Only rs)
    schedule_retry-Only rs run_id at t = bind-Triple _ _ ask-Triple λ e'.
        bind-Triple _ _ now_v7-Triple λ next_id.
          bind-Triple _ _ (writes-Triple _ λ w h. inserted _ w refl h) λ _. pure-Triple _ λ w h. h
      where
        inserted :
            (r : Run) (w : Db)
            → r.claim_expires_at ≡ none
            → Only rs w
            → Writes (Only rs) (insert_run r w)
        inserted r w unclaimed h = elim (Bool-cases (any (is_run r.run_id) w.runs)) [
          | inl there ↦ rw there tt
          | inr new ↦ rw new (rw unclaimed refl, h)
        ]

    do_fail_run-Only :
        (reason : Bytes) (r : Run) (rs : List Run)
        → Triple S (Only (r ∷ rs)) (do_fail_run r.run_id reason none false) (λ u. Only rs)
    unfolding do_fail_run next_attempt
    do_fail_run-Only reason r rs = bind-Triple _ _ ask-Triple λ e'.
        bind-Triple _ _ (weaken-Triple _ (λ a w h. h.0) (fetch_one-Triple _ _)) λ row.
          bind-Triple _ _ (weaken-Triple _ (λ a w h. h.0) (guard-Triple _ _)) λ _.
            bind-Triple _ _
              (bind-Triple _ _ ask-Triple
                λ e''. weaken-Triple _ (λ a w h. h.0) (fetch_one-Triple _ _))
              λ task.
                bind-Triple _ _
                  (execute-Triple {Q = Only rs} _
                    λ w h. failed-Only e' reason r rs w.tasks w.runs h)
                  λ _.
                    bind-Triple _ _
                      (bind-Triple _ _ ask-Triple λ e''.
                        if-Triple _ _ _
                          (if-Triple _ _ _ (pure-Triple _ λ w h. h)
                            (schedule_retry-Only rs r.run_id _ task))
                          (pure-Triple _ λ w h. h))
                      λ updated. execute-Triple _ λ w h. updated-Only _ updated rs w.tasks w.runs h

    fail_expired-Only : (rs : List Run) → Triple S (Only rs) (fail_expired rs) (λ u. Only [])
    unfolding fail_expired
    fail_expired-Only [] = pure-Triple _ λ w h. h
    fail_expired-Only (r ∷ rs) = bind-Triple _ _ (do_fail_run-Only _ r rs) λ _. fail_expired-Only rs

  none_left :
      (tasks : List Task) (runs : List Run)
      → All (Among [] tasks) runs
      → any (claim_expired e tasks) runs ≡ false
  none_left tasks [] h = refl
  none_left tasks (x ∷ xs) h = ground (arith, none_left tasks xs h.1)

  -- The end of handle_expired_claims, after the loop.
  committed :
      (n k : ℕ) (p : Result (Unit {0}) × Session)
      → Yields (λ u. Only []) p
      → (and_then p.0 p.1 (λ u s. (commit >> pure n) e s)).0 ≡ ok k
      → Only [] (and_then p.0 p.1 (λ u s. (commit >> pure n) e s)).1.store × (k ≡ n)
  unfolding effects
  committed n k (ok u, s) h done = elim (Bool-cases (fails s.faults)) [
    | inl fault ↦ ground arith
    | inr fine ↦ rw fine (h, ground arith)
  ]
  committed n k (err x, s) h done = cc
  committed n k (panic, s) h done = cc

  grown :
      (tasks : List Task) (x : Run) (rs ys : List Run)
      → All (Among rs tasks) ys
      → All (Among (x ∷ rs) tasks) ys
  grown tasks x rs [] h = tt
  grown tasks x rs (y ∷ ys) h = (ground (arith, h.0), grown tasks x rs ys h.1)

  -- The expired claims are those that the loop is for.
  selected-Only :
      (tasks : List Task) (runs : List Run)
      → All (Among (rows_where (claim_expired e tasks) runs) tasks) runs
  selected-Only tasks [] = tt
  selected-Only tasks (x ∷ xs) = elim (Bool-cases (claim_expired e tasks x)) [
    | inl hit ↦
        let rest : List Run = rows_where (claim_expired e tasks) xs in
        let all : x ∷ rest ≡ rows_where (claim_expired e tasks) (x ∷ xs) = rw hit refl in
        subst (λ rs. All (Among rs tasks) (x ∷ xs)) all
          (ground (arith, ==_refl x.run_id), grown tasks x rest xs (selected-Only tasks xs))
    | inr miss ↦
        let same : rows_where (claim_expired e tasks) xs
            ≡ rows_where (claim_expired e tasks) (x ∷ xs) =
          rw miss refl in
        subst (λ rs. All (Among rs tasks) (x ∷ xs)) same (rw miss refl, selected-Only tasks xs)
  ]

  -- What the method does after its query.
  looped :
      (rs : List Run) (k : ℕ) (s : Session)
      → Only rs s.work
      → ((fail_expired rs >> (commit >> pure (length rs))) e s).0 ≡ ok k
      → Only [] ((fail_expired rs >> (commit >> pure (length rs))) e s).1.store × (k ≡ length rs)
  unfolding ◌>>=◌
  looped rs k s h done =
      committed (length rs) k (fail_expired rs e s)
        ((fail_expired-Only {S = λ w. Unit} rs).at e s tt h).1 done

-- The session after the query, in the transaction.
abbrev asked : Session → Session
asked s = record s { work = s.store; faults = later (later s.faults) }

handled :
    (e : Env) (s : Session) (n : ℕ)
    → fails s.faults ≡ false
    → fails (later s.faults) ≡ false
    → let rs : List Run = take n (rows_where (claim_expired e s.store.tasks) s.store.runs) in
      handle_expired_claims (pos n) e s
      ≡ (fail_expired rs >> (commit >> pure (length rs))) e (asked s)
unfolding handle_expired_claims effects
handled e s n fine fine' = rw (fine, fine') refl

-- The transaction and the query have not failed.
fine_before :
    (e : Env) (s : Session) (n k : ℕ)
    → (handle_expired_claims (pos n) e s).0 ≡ ok k
    → (fails s.faults ≡ false) × (fails (later s.faults) ≡ false)
unfolding handle_expired_claims effects
fine_before e s n k done = elim (Bool-cases (fails s.faults)) [
  | inl fault ↦ ground arith
  | inr fine ↦ elim (Bool-cases (fails (later s.faults))) [
    | inl fault ↦ ground arith
    | inr fine' ↦ (fine, fine')
  ]
]

-- Under any failing statements, a handle_expired_claims that succeeds, with a limit of at least as many
-- rows as there are expired claims, has failed all of them: no claim is expired any more, and its
-- answer is their number.
pub handle_expired_claims-clears :
    (e : Env) (s : Session) (n k : ℕ)
    → length (rows_where (claim_expired e s.store.tasks) s.store.runs) ≤ n
    → (handle_expired_claims (pos n) e s).0 ≡ ok k
    → let after = (handle_expired_claims (pos n) e s).1.store in
      (any (claim_expired e after.tasks) after.runs ≡ false)
      × (k ≡ length (rows_where (claim_expired e s.store.tasks) s.store.runs))
handle_expired_claims-clears e s n k few done =
    let rows : List Run = rows_where (claim_expired e s.store.tasks) s.store.runs in
    let (fine, fine') = fine_before e s n k done in
    let all : take n rows ≡ rows = take_all n rows few in
    let steps : handle_expired_claims (pos n) e s
        ≡ (fail_expired rows >> (commit >> pure (length rows))) e (asked s) =
      handled e s n fine fine'
      ∙ ap (λ rs. (fail_expired rs >> (commit >> pure (length rs))) e (asked s)) all in
    let end =
      looped e rows k (asked s) (selected-Only e s.store.tasks s.store.runs)
        (ap (λ p. p.0) (sym steps) ∙ done) in
    rw steps (none_left e _ _ end.0, end.1)
