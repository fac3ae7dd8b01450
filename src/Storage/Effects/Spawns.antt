-- ===== src/Storage/Effects/Spawns.antt =====
-- The rows after spawn_task of taskturbine-core/src/storage.rs, and how long an idempotency key
-- holds.
use taskturbine.Base.{
  ℕ, ◌+◌, ◌≡◌, refl, sym, ◌∙◌, Option, none, some, Bool, true, false, List, [], ◌∷◌, ◌&&◌, not,
  ◌==◌, ==_iff, Bool-cases, inl, inr, any, find_first, arith, ==_refl,
}
use taskturbine.Base.Text.{Text, Bytes, text_eq, text_eq_refl}
use taskturbine.Models.{Uuid, Task, Run, SpawnResult, pending}
use taskturbine.Sql.Session.{Db, Env, clean, ok, err, duplicate_spawn, effects}
use taskturbine.Storage.Rows.{is_run, is_task, find_task, column_is}
use taskturbine.Storage.Spawn.{spawn_task, TaskOptions, new_task, conflicts}
use taskturbine.Storage.Idempotent.{
  applied, conflicting, spawn_result, spawn_task-inserted, spawn_task_refused,
}

abbrev pub inserted_task : Env → Uuid → Text → Text → Bytes → Bytes → TaskOptions → Task
inserted_task e id channel task_name params headers o = record {
  task_id = id;
  usecase = e.config.usecase;
  channel = channel;
  task_name = task_name;
  params = params;
  headers = headers;
  idempotency_key = o.idempotency_key;
  retry_seconds = o.retry_seconds;
  retry_factor = e.floats.narrow o.retry_factor;
  retry_max_seconds = o.retry_max_seconds;
  attempts = 0;
  max_attempts = o.max_attempts;
  cancellation_max_age = o.cancellation_max_age;
  created_at = e.now;
  first_started_at = none;
  state = pending;
  last_attempt_run = none;
  completed_at = none;
}

abbrev pub inserted_run : Env → Uuid → Uuid → Run
inserted_run e id task_id = record {
  run_id = id;
  task_id = task_id;
  attempt = 0;
  state = pending;
  claimed_by = none;
  claim_expires_at = none;
  available_at = e.now;
  started_at = none;
  completed_at = none;
  result = none;
  failure_reason = none;
  created_at = e.now;
  wait_event_name = none;
}

-- The task of the name that has the key.
abbrev pub has_key : Text → Option Text → Task → Bool
has_key task_name none x = false
has_key task_name (some key) x = text_eq x.task_name task_name && column_is x.idempotency_key key

-- What a spawn that succeeds found, answered and wrote.
abbrev pub Spawned :
    Env → Db → Db → ℕ → Text → Text → Bytes → TaskOptions → SpawnResult → Bytes → Type 0
Spawned e db after drawn channel task_name params o r headers =
    (e.to_json o.headers ≡ some headers)
    × (e.floats.lt_one o.retry_factor ≡ false)
    × (any (has_key task_name o.idempotency_key) db.tasks ≡ false)
    × (r ≡ record { task_id = e.new_v7 drawn; run_id = e.new_v7 (drawn + 1) })
    × (after.tasks ≡ inserted_task e r.task_id channel task_name params headers o ∷ db.tasks)
    × (after.runs ≡ inserted_run e r.run_id r.task_id ∷ db.runs)

no_conflict :
    (t : Task) (ts : List Task)
    → find_first (conflicts t) ts ≡ none
    → any (has_key t.task_name t.idempotency_key) ts ≡ false
no_conflict t ts = go t.idempotency_key ts
  where
    go :
        (k : Option Text) (xs : List Task)
        → find_first (conflicts (record t { idempotency_key = k })) xs ≡ none
        → any (has_key t.task_name k) xs ≡ false
    go none [] h = refl
    go none (x ∷ xs) h = ground (arith, go none xs)
    go (some key) [] h = refl
    go (some key) (x ∷ xs) h = ground (arith, go (some key) xs)

module _ (e : Env) (db work : Db) (drawn : ℕ) (channel task_name : Text) (params : Bytes)
    (options : Option TaskOptions) (r : SpawnResult) where
  unencoded :
      e.to_json (applied options).headers ≡ none
      → (spawn_task channel task_name params options e (clean db work drawn)).0 ≡ ok r
      → ⊥
  unfolding spawn_task effects
  unencoded f h = let k = rw f at h in cc

  too_small :
      (headers : Bytes)
      → e.to_json (applied options).headers ≡ some headers
      → e.floats.lt_one (applied options).retry_factor ≡ true
      → (spawn_task channel task_name params options e (clean db work drawn)).0 ≡ ok r
      → ⊥
  unfolding spawn_task effects
  too_small headers f l h = let k = rw (f, l) at h in cc

  refused :
      (headers : Bytes) (row : Task)
      → e.to_json (applied options).headers ≡ some headers
      → e.floats.lt_one (applied options).retry_factor ≡ false
      → any (is_task (e.new_v7 drawn)) db.tasks ≡ false
      → conflicting e (e.new_v7 drawn) task_name options db.tasks ≡ some row
      → (spawn_task channel task_name params options e (clean db work drawn)).0 ≡ ok r
      → ⊥
  refused headers row f l new g h =
      let k =
        rw
          (spawn_task_refused e db work drawn channel task_name params headers options row f l new
            g).0
          at h in
      cc

  run_taken :
      (headers : Bytes)
      → e.to_json (applied options).headers ≡ some headers
      → e.floats.lt_one (applied options).retry_factor ≡ false
      → any (is_task (e.new_v7 drawn)) db.tasks ≡ false
      → conflicting e (e.new_v7 drawn) task_name options db.tasks ≡ none
      → any (is_run (e.new_v7 (drawn + 1))) db.runs ≡ true
      → (spawn_task channel task_name params options e (clean db work drawn)).0 ≡ ok r
      → ⊥
  unfolding spawn_task effects
  run_taken headers f l new g new_r h =
      let k = rw (f, l, g, new, ==_refl (e.new_v7 drawn), new_r) at h in cc

  spawned_at :
      (j : Option Bytes) (small : Bool) (c : Option Task) (taken : Bool)
      → e.to_json (applied options).headers ≡ j
      → e.floats.lt_one (applied options).retry_factor ≡ small
      → conflicting e (e.new_v7 drawn) task_name options db.tasks ≡ c
      → any (is_task (e.new_v7 drawn)) db.tasks ≡ false
      → any (is_run (e.new_v7 (drawn + 1))) db.runs ≡ taken
      → (spawn_task channel task_name params options e (clean db work drawn)).0 ≡ ok r
      → (headers : Bytes) × Spawned e db
          (spawn_task channel task_name params options e (clean db work drawn)).1.store
          drawn
          channel
          task_name
          params
          (applied options)
          r
          headers
  spawned_at none small c taken f l g new new_r h = absurd (unencoded f h)
  spawned_at (some headers) true c taken f l g new new_r h = absurd (too_small headers f l h)
  spawned_at (some headers) false (some row) taken f l g new new_r h =
      absurd (refused headers row f l new g h)
  spawned_at (some headers) false none true f l g new new_r h =
      absurd (run_taken headers f l new g new_r h)
  spawned_at (some headers) false none false f l g new new_r h =
      let (done, store) =
        spawn_task-inserted e db work drawn channel task_name params headers options f l new new_r
          g in
      let answer : r ≡ spawn_result e drawn = ground (arith, done, h) in
      (
        headers,
        (
          f,
          l,
          no_conflict (new_task e (e.new_v7 drawn) [] task_name [] [] (applied options)) db.tasks g,
          answer,
          rw (store, answer) refl,
          rw (store, answer) refl,
        ),
      )

-- Where no statement fails and the task's UUID is new, a spawn_task that succeeds had encoded the
-- headers, with a retry factor of at least 1, and no task of its name had its idempotency key. It
-- answered with two fresh identifiers, and added exactly two rows: a pending task of the usecase
-- with the caller's values and no attempt yet, and its first run, pending and due at once.
pub spawn_task_rows :
    (e : Env) (db work : Db) (drawn : ℕ) (channel task_name : Text) (params : Bytes)
    (options : Option TaskOptions) (r : SpawnResult)
    → any (is_task (e.new_v7 drawn)) db.tasks ≡ false
    → (spawn_task channel task_name params options e (clean db work drawn)).0 ≡ ok r
    → (headers : Bytes) × Spawned e db
        (spawn_task channel task_name params options e (clean db work drawn)).1.store
        drawn
        channel
        task_name
        params
        (applied options)
        r
        headers
spawn_task_rows e db work drawn channel task_name params options r new h =
    spawned_at e db work drawn channel task_name params options r _ _ _ _ refl refl refl new refl h

-- The first task with the key, where the identifier of those that have it is known.
first_with_key :
    (task_name key : Text) (id : Uuid) (ts : List Task) (t : Task)
    → find_task id ts ≡ some t
    → has_key task_name (some key) t ≡ true
    → any (λ x. has_key task_name (some key) x && not (x.task_id == id)) ts ≡ false
    → (row : Task) × (find_first (has_key task_name (some key)) ts ≡ some row) × (row.task_id ≡ id)
first_with_key task_name key id [] t f h alone = absurd cc
first_with_key task_name key id (x ∷ xs) t f h alone =
    elim (Bool-cases (has_key task_name (some key) x)) [
      | inl here ↦ (x, rw here refl, ground (arith, (==_iff x.task_id id).0))
      | inr other ↦
          let (row, found, same) =
            first_with_key task_name key id xs t (ground arith) h (ground arith) in
          (row, rw other found, same)
    ]

named :
    (e : Env) (db work : Db) (drawn : ℕ) (channel task_name key : Text) (params : Bytes)
    (options : Option TaskOptions) (r : SpawnResult) (u : Task)
    → any (is_task (e.new_v7 drawn)) db.tasks ≡ false
    → (spawn_task channel task_name params options e (clean db work drawn)).0 ≡ ok r
    → (applied options).idempotency_key ≡ some key
    → find_task r.task_id
        (spawn_task channel task_name params options e (clean db work drawn)).1.store.tasks
      ≡ some u
    → (u.task_name ≡ task_name) × (u.idempotency_key ≡ some key)
named e db work drawn channel task_name key params options r u new h k f =
    let (headers, (_, _, _, _, tasks, _)) =
      spawn_task_rows e db work drawn channel task_name params options r new h in
    let row : some (inserted_task e r.task_id channel task_name params headers (applied options))
        ≡ some u =
      rw (tasks, ==_refl r.task_id) at f in
    (ground (arith, row), ground (arith, row, k))

-- An idempotency key is good for one task at a time. Take a spawn with a key that succeeded (its
-- task's UUID new), and any later tables in which its task still has that name and key, and no other
-- task has both. There any spawn of the same name and key, by any client and with any other values,
-- is refused with that task's identifier, and commits nothing, whatever has become of the task. No
-- statement fails in either call, and the later headers encode, its retry factor is at least 1 and
-- its UUID is new.
pub spawn_task_idempotent :
    (e e' : Env) (db work db' work' : Db) (drawn drawn' : ℕ) (channel channel' task_name key : Text)
    (params params' headers' : Bytes) (options options' : Option TaskOptions) (r : SpawnResult)
    (u t : Task)
    → any (is_task (e.new_v7 drawn)) db.tasks ≡ false
    → (spawn_task channel task_name params options e (clean db work drawn)).0 ≡ ok r
    → (applied options).idempotency_key ≡ some key
    → find_task r.task_id
        (spawn_task channel task_name params options e (clean db work drawn)).1.store.tasks
      ≡ some u
    → find_task r.task_id db'.tasks ≡ some t
    → t.task_name ≡ u.task_name
    → t.idempotency_key ≡ u.idempotency_key
    → any
        (λ x.
          text_eq x.task_name task_name
          && column_is x.idempotency_key key
          && not (x.task_id == r.task_id))
        db'.tasks
      ≡ false
    → (applied options').idempotency_key ≡ some key
    → e'.to_json (applied options').headers ≡ some headers'
    → e'.floats.lt_one (applied options').retry_factor ≡ false
    → any (is_task (e'.new_v7 drawn')) db'.tasks ≡ false
    → ((spawn_task channel' task_name params' options' e' (clean db' work' drawn')).0
        ≡ err (duplicate_spawn r.task_id))
      × ((spawn_task channel' task_name params' options' e' (clean db' work' drawn')).1.store ≡ db')
spawn_task_idempotent e e' db work db' work' drawn drawn' channel channel' task_name key params
      params' headers' options options' r u t new first k inserted found name has alone k' json'
      good' new' =
    let (u_name, u_key) =
      named e db work drawn channel task_name key params options r u new first k inserted in
    let (row, conflict, same) =
      first_with_key task_name key r.task_id db'.tasks t found
        (rw (name ∙ u_name, has ∙ u_key, text_eq_refl task_name, text_eq_refl key) refl)
        (regroup db'.tasks alone) in
    rw (sym same) (
      spawn_task_refused e' db' work' drawn' channel' task_name params' headers' options' row json'
        good' new' (rw k' conflict))
  where
    regroup :
        (xs : List Task)
        → any
            (λ x.
              text_eq x.task_name task_name
              && column_is x.idempotency_key key
              && not (x.task_id == r.task_id))
            xs
          ≡ false
        → any (λ x. has_key task_name (some key) x && not (x.task_id == r.task_id)) xs ≡ false
    regroup [] h = refl
    regroup (x ∷ xs) h = ground (arith, regroup xs)
