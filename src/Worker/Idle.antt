-- ===== src/Worker/Idle.antt =====
-- The shutdown of an idle worker: claim_tasks, should_shutdown and check_idle_shutdown of
-- taskturbine-app/src/app.rs, over tables with nothing to claim.
use taskturbine.Base.{
  ℕ, ◌+◌, ◌<◌, ◌≡◌, refl, sym, ap, ◌∙◌, Bool, true, false, List, [], ◌∷◌, ◌&&◌, any, All, length,
  suc, ltb, map, leb, if◌then◌else◌, rows_where, update_where, arith,
}
use taskturbine.Base.Int.{ℤ, pos, pos_part, ltb_ℤ, next_i32}
use taskturbine.Base.Rows.{take_nil}
use taskturbine.Base.Text.{Text}
use taskturbine.Models.{Run}
use taskturbine.Sql.Session.{Db, Env, Session, ok, effects}
use taskturbine.Storage.Claim.{
  claim_task, claim_statement, candidates, run_claimable, claim_rows, claimed_run,
}
use taskturbine.Worker.{Worker, claim_tasks, should_shutdown}
use taskturbine.Worker.Loops.{
  Answer, Claimer, Turn, claims, claiming, claim_loop, turn_in, claim_timeout, idle_loop, observed,
  departs, send_loop,
}

rows_where_none {ℓ} :
    {A : Type ℓ} (p : A → Bool) (xs : List A) → any p xs ≡ false → rows_where p xs ≡ []
rows_where_none p [] h = refl
rows_where_none p (x ∷ xs) h = ground (arith, rows_where_none p xs)

update_where_none {ℓ} : {A : Type ℓ} (f : A → A) (xs : List A) → update_where (λ _. false) f xs ≡ xs
update_where_none f [] = refl
update_where_none f (x ∷ xs) = rw (update_where_none f xs) refl

rows_where_never {ℓ} : {A : Type ℓ} (xs : List A) → rows_where (λ _. false) xs ≡ []
rows_where_never [] = refl
rows_where_never (x ∷ xs) = rows_where_never xs

map_same {ℓ} : {A : Type ℓ} (xs : List A) → map (λ x. x) xs ≡ xs
map_same [] = refl
map_same (x ∷ xs) = rw (map_same xs) refl

-- Where nothing can be claimed, the statement answers nothing and changes no table.
nothing_claimed :
    (e : Env) (channels : List Text) (worker_id : Text) (until : ℕ) (qty : ℤ) (db : Db)
    → any (run_claimable e channels db.tasks) db.runs ≡ false
    → claim_statement e channels worker_id until qty db ≡ ([], db)
unfolding claim_statement candidates claim_rows
nothing_claimed e channels worker_id until qty db h =
    rw
      (
        rows_where_none (run_claimable e channels db.tasks) db.runs h,
        take_nil {A = Run} (pos_part qty),
        rows_where_never db.runs,
        update_where_none (claimed_run e worker_id until) db.runs,
        map_same db.tasks,
      )
      refl

claim_task_nothing :
    (e : Env) (channels : List Text) (worker_id : Text) (timeout : ℕ) (qty : ℤ) (s : Session)
    → ltb_ℤ (pos 0) qty ≡ true
    → s.faults ≡ []
    → any (run_claimable e channels s.store.tasks) s.store.runs ≡ false
    → ((claim_task channels worker_id timeout qty e s).0 ≡ ok [])
      × ((claim_task channels worker_id timeout qty e s).1.store ≡ s.store)
      × ((claim_task channels worker_id timeout qty e s).1.faults ≡ [])
unfolding claim_task effects
claim_task_nothing e channels worker_id timeout qty s q fine h =
    let later : ltb (e.utc_now + timeout) e.utc_now ≡ false = ground arith in
    rw (q, later, fine, nothing_claimed e channels worker_id (e.utc_now + timeout) qty s.store h)
      (refl, refl, refl)

-- The worker with `n` idle claims counted.
abbrev idle : ℕ → Worker → Worker
idle n w = record w { idle_count = pos n }

-- Claims of the worker, with the channel's answers, and that nothing can be claimed at any of them.
abbrev pub polls : List (Env × List Answer) → List Turn
polls = map λ p. claims p.0 p.1

abbrev pub NothingDue : Worker → Db → List (Env × List Answer) → Type 0
NothingDue w db = All λ p. any (run_claimable p.0 w.channels db.tasks) db.runs ≡ false

-- A claimer that waits for a turn with `n` idle claims counted.
record Waits (w : Worker) (db : Db) (n : ℕ) (c : Claimer) : Type 0 where
  worker : c.worker ≡ idle n w
  store : c.session.store ≡ db
  faults : c.session.faults ≡ []
  phase : c.phase ≡ claiming

claim_tasks_nothing :
    (w : Worker) (timeout : ℕ) (e : Env) (s : Session)
    → w.app.config.worker_shutdown_on_idle ≡ true
    → ltb_ℤ (pos 0) w.claim_count ≡ true
    → s.faults ≡ []
    → any (run_claimable e w.channels s.store.tasks) s.store.runs ≡ false
    → claim_tasks w timeout e s ≡ (
      ok [],
      record w { idle_count = next_i32 w.idle_count },
      (claim_task w.channels w.worker_id timeout w.claim_count e s).1,
    )
unfolding claim_tasks
claim_tasks_nothing w timeout e s on q fine h =
    rw ((claim_task_nothing e w.channels w.worker_id timeout w.claim_count s q fine h).0, on) refl

next_lem : (n : ℕ) → n + 1 < 2147483648 → next_i32 (pos n) ≡ pos (n + 1)
next_lem n h = ground arith

idle_turn :
    (w : Worker) (db : Db) (n : ℕ) (c : Claimer) (e : Env) (answers : List Answer)
    → n + 1 < 2147483648
    → w.app.config.worker_shutdown_on_idle ≡ true
    → ltb_ℤ (pos 0) w.claim_count ≡ true
    → any (run_claimable e w.channels db.tasks) db.runs ≡ false
    → Waits w db n c
    → Waits w db (n + 1) (turn_in c.phase (claims e answers) c)
unfolding send_loop
idle_turn w db n c e answers small on q h k =
    let timeout = claim_timeout c.worker in
    let due : any (run_claimable e c.worker.channels c.session.store.tasks) c.session.store.runs
        ≡ false =
      rw (k.worker, k.store) h in
    let on_c : c.worker.app.config.worker_shutdown_on_idle ≡ true = rw k.worker on in
    let q_c : ltb_ℤ (pos 0) c.worker.claim_count ≡ true = rw k.worker q in
    let rest =
      claim_task_nothing e c.worker.channels c.worker.worker_id timeout c.worker.claim_count
        c.session q_c k.faults due in
    rw (k.phase, claim_tasks_nothing c.worker timeout e c.session on_c q_c k.faults due)
      (record {
        worker = rw k.worker (ap (λ i. record w { idle_count = i }) (next_lem n small));
        store = rest.1 ∙ k.store;
        faults = rest.2;
        phase = refl;
      })

idle_turns :
    (w : Worker) (db : Db) (n : ℕ) (c : Claimer) (ps : List (Env × List Answer))
    → n + length ps < 2147483648
    → w.app.config.worker_shutdown_on_idle ≡ true
    → ltb_ℤ (pos 0) w.claim_count ≡ true
    → NothingDue w db ps
    → Waits w db n c
    → Waits w db (n + length ps) (claim_loop (polls ps) c)
unfolding claim_loop
idle_turns w db n c [] small on q h k = let same : n + 0 ≡ n = omega arith in rw same k
idle_turns w db n c ((e, answers) ∷ ps) small on q h k =
    let same : n + suc (length ps) ≡ n + 1 + length ps = omega arith in
    rw same (
      idle_turns w db (n + 1) _ ps (omega arith) on q h.1
        (idle_turn w db n c e answers (omega arith) on q h.0 k))

-- The test of a worker that has been idle.
idle_test :
    (w : Worker) (m n : ℕ)
    → w.app.config.worker_shutdown_on_idle ≡ true
    → w.app.config.worker_shutdown_idle_max ≡ pos m
    → should_shutdown (idle n w) ≡ leb m n
unfolding should_shutdown
idle_test w m n on limit = rw (on, limit) (ground arith)

-- The claims of all the times between two ticks.
abbrev pub claims_of : List (List (Env × List Answer)) → ℕ
claims_of [] = 0
claims_of (ps ∷ rest) = length ps + claims_of rest

checks :
    (w : Worker) (db : Db) (m n : ℕ) (c : Claimer) (ps : List (Env × List Answer))
    (rest : List (List (Env × List Answer)))
    → n + claims_of (ps ∷ rest) < 2147483648
    → w.app.config.worker_shutdown_on_idle ≡ true
    → w.app.config.worker_shutdown_idle_max ≡ pos m
    → ltb_ℤ (pos 0) w.claim_count ≡ true
    → All (NothingDue w db) (ps ∷ rest)
    → Waits w db n c
    → idle_loop (observed (map polls (ps ∷ rest)) c) ≡ leb m (n + claims_of (ps ∷ rest))
unfolding idle_loop observed
checks w db m n c ps [] small on limit q h k =
    let next = idle_turns w db n c ps (omega arith) on q h.0 k in
    let test = ap should_shutdown next.worker ∙ idle_test w m (n + length ps) on limit in
    rw test (last_test n (length ps))
  where
    last_test : (a b : ℕ) → (if leb m (a + b) then true else false) ≡ leb m (a + (b + 0))
    last_test a b = ground arith
checks w db m n c ps (qs ∷ more) small on limit q h k =
    let next = idle_turns w db n c ps (omega arith) on q h.0 k in
    let test = ap should_shutdown next.worker ∙ idle_test w m (n + length ps) on limit in
    let after =
      checks w db m (n + length ps) (claim_loop (polls ps) c) qs more (omega arith) on limit q h.1
        next in
    rw (test, after) (or_later n (length ps) (claims_of (qs ∷ more)))
  where
    or_later :
        (a b d : ℕ) → (if leb m (a + b) then true else leb m (a + b + d)) ≡ leb m (a + (b + d))
    or_later a b d = ground arith

-- A worker that may shut down when idle ends: over tables with nothing to claim, and where no
-- statement fails, it departs at a tick exactly if the claims before that tick, with those counted
-- already, are as many as worker_shutdown_idle_max, as long as these claims are fewer than 2 ^ 31,
-- where the counter, an i32, would wrap around.
pub idle_worker_departs :
    (c : Claimer) (m counted : ℕ) (ps : List (Env × List Answer))
    (rest : List (List (Env × List Answer)))
    → c.worker.idle_count ≡ pos counted
    → counted + claims_of (ps ∷ rest) < 2147483648
    → c.worker.app.config.worker_shutdown_on_idle ≡ true
    → c.worker.app.config.worker_shutdown_idle_max ≡ pos m
    → ltb_ℤ (pos 0) c.worker.claim_count ≡ true
    → c.phase ≡ claiming
    → c.session.faults ≡ []
    → All (NothingDue c.worker c.session.store) (ps ∷ rest)
    → departs (map polls (ps ∷ rest)) c ≡ leb m (counted + claims_of (ps ∷ rest))
unfolding departs
idle_worker_departs c m counted ps rest start small on limit q ready fine h =
    let waits : Waits c.worker c.session.store counted c = record {
      worker = rw (sym start) refl;
      store = refl;
      faults = fine;
      phase = ready;
    } in
    both on (checks c.worker c.session.store m counted c ps rest small on limit q h waits)
  where
    both : {a b x : Bool} → a ≡ true → b ≡ x → (a && b) ≡ x
    both h k = ground arith
