-- ===== src/Context/Steps.antt =====
-- Durable steps: a step that has its checkpoint is not run again (taskturbine-app/src/context.rs).
use taskturbine.Base.{
  ℕ, ◌≡◌, refl, ◌∙◌, ◌⊎◌, inl, inr, Option, none, some, true, List, [], ◌∷◌, leb, ◌==◌, ==_refl,
  All, any, rows_where, arith, Bool-cases,
}
use taskturbine.Base.Rows.{any-sort_by, All-sort_by}
use taskturbine.Base.Text.{Text, Bytes, text_eq, text_eq_refl}
use taskturbine.Models.{Uuid, Checkpoint, ClaimedTask}
use taskturbine.Sql.Session.{Db, Env, Session, clean, ok, effects}
use taskturbine.Storage.Rows.{find_checkpoint, upsert_checkpoint, store_checkpoint}
use taskturbine.Storage.Event.{get_checkpoints, set_checkpoint, get_checkpoint}
use taskturbine.Cache
use taskturbine.Cache.{
  Checkpoints, get, insert_all, new, is_key, generate_name, get_counter, format_name, is_loaded,
  store,
}
use taskturbine.Cache.Loads.{task_rows, insert_all_missing, unsorted_missing}
use taskturbine.Context.{done, step_unless, StepFn, state, async_step, cached_step, sleep_for}

-- A step that is in the cache is not run: its stored bytes are returned, and neither the storage nor
-- the session changes, whatever the closure is.
pub async_step_cached :
    (t : ClaimedTask) (name : Text) (step_fn : StepFn) (e : Env) (c : Checkpoints) (s : Session)
    (k : Checkpoint)
    → Cache.is_loaded c t.task_id ≡ true
    → Cache.get_checkpoint (Cache.generate_name name c).1 t.task_id (Cache.generate_name name c).0
      ≡ some k
    → async_step t name step_fn e c s ≡ (done k.state, (Cache.generate_name name c).1, s)
unfolding async_step cached_step
async_step_cached t name step_fn e c s k l f = rw (l, f)

abbrev pub state_of : Option Checkpoint → Option Bytes
state_of none = none
state_of (some k) = some k.state

-- The rows of a step hold its bytes.
abbrev Holds : Text → Bytes → Checkpoint → Type 0
Holds name b k = text_eq k.step_name name ≡ true → k.state ≡ b

insert_all_found :
    (id : Uuid) (name : Text) (b : Bytes) (ks : List Checkpoint)
    (m : List ((Uuid × Text) × Checkpoint))
    → All (Holds name b) ks
    → (any (λ k. text_eq k.step_name name) ks ≡ true) ⊎ (state_of (get (is_key id name) m) ≡ some b)
    → state_of (get (is_key id name) (insert_all id ks m)) ≡ some b
unfolding insert_all
insert_all_found id name b [] m h (inl e) = cc
insert_all_found id name b [] m h (inr e) = e
insert_all_found id name b (k ∷ ks) m h e =
    insert_all_found id name b ks (((id, k.step_name), k) ∷ m) h.1 (ground (arith, h.0, ==_refl id))

missing-Holds :
    (id : Uuid) (name : Text) (b : Bytes) (cs : List Checkpoint)
    → find_checkpoint id name cs ≡ none
    → All (Holds name b) (rows_where (λ c. c.task_id == id) cs)
missing-Holds id name b [] h = tt
missing-Holds id name b (k ∷ ks) h = elim (Bool-cases (k.task_id == id)) [
  | inl own ↦ rw own ((λ e. ground arith), missing-Holds id name b ks (ground arith))
  | inr other ↦ rw other (missing-Holds id name b ks (ground arith))
]

-- After the upsert of a step that had no row, its rows are the new one.
upsert_rows :
    (c : Checkpoint) (cs : List Checkpoint)
    → find_checkpoint c.task_id c.step_name cs ≡ none
    → All
        (Holds c.step_name c.state)
        (rows_where (λ k. k.task_id == c.task_id) (upsert_checkpoint c cs))
      × (any
            (λ k. text_eq k.step_name c.step_name)
            (rows_where (λ k. k.task_id == c.task_id) (upsert_checkpoint c cs))
          ≡ true)
unfolding upsert_checkpoint
upsert_rows c [] h = rw (==_refl c.task_id, text_eq_refl c.step_name) (((λ e. refl), tt), refl)
upsert_rows c (k ∷ ks) h = elim (Bool-cases (k.task_id == c.task_id)) [
  | inl own ↦ let rest = upsert_rows c ks (ground arith) in rw own (ground (arith, rest))
  | inr other ↦ let rest = upsert_rows c ks (ground arith) in ground (arith, rest)
]

-- The row that a step writes.
abbrev pub step_row : Env → ClaimedTask → Text → Bytes → Checkpoint
step_row e t name b = record {
  task_id = t.task_id;
  step_name = name;
  state = b;
  owner_run_id = t.run_id;
  updated_at = e.now;
}

pub set_checkpoint_clean :
    (e : Env) (t : ClaimedTask) (name : Text) (b : Bytes) (s : Session)
    → s.faults ≡ []
    → ((set_checkpoint t.task_id t.run_id name b none e s).0 ≡ ok (step_row e t name b))
      × ((set_checkpoint t.task_id t.run_id name b none e s).1.store ≡ record s.store {
        checkpoints = upsert_checkpoint (step_row e t name b) s.store.checkpoints;
      })
      × ((set_checkpoint t.task_id t.run_id name b none e s).1.faults ≡ [])
unfolding set_checkpoint store_checkpoint effects
set_checkpoint_clean e t name b s h = (ground arith, ground arith, ground arith)

-- A first step of a context, where the storage answers.
first_step :
    (e : Env) (t : ClaimedTask) (name : Text) (f : StepFn) (db work : Db) (drawn : ℕ)
    → async_step t name f e new (clean db work drawn)
      ≡ step_unless t name f
          (get
            (is_key t.task_id name)
            (insert_all t.task_id (task_rows t.task_id db.checkpoints) []))
          e
          (Cache.generate_name name (store t.task_id (task_rows t.task_id db.checkpoints) new)).1
          (clean db work drawn)
unfolding async_step cached_step effects generate_name get_counter format_name is_loaded store
    get_checkpoints Cache.get_checkpoint
first_step e t name f db work drawn = refl

step_runs :
    (e : Env) (t : ClaimedTask) (name : Text) (f : StepFn) (c : Checkpoints) (s s1 : Session)
    (b : Bytes)
    → f e s ≡ (state b, s1)
    → s1.faults ≡ []
    → ((step_unless t name f none e c s).0 ≡ done b)
      × ((step_unless t name f none e c s).2.store.checkpoints
          ≡ upsert_checkpoint (step_row e t name b) s1.store.checkpoints)
step_runs e t name f c s s1 b ran h = rw ran (ground (arith, set_checkpoint_clean e t name b s1 h))

step_known :
    (e : Env) (t : ClaimedTask) (name : Text) (f : StepFn) (c : Checkpoints) (s : Session)
    (b : Bytes) (o : Option Checkpoint)
    → state_of o ≡ some b
    → ((step_unless t name f o e c s).0 ≡ done b) × ((step_unless t name f o e c s).2 ≡ s)
step_known e t name f c s b none h = cc
step_known e t name f c s b (some k) h = (ground arith, refl)

first_run :
    (e : Env) (t : ClaimedTask) (name : Text) (f : StepFn) (db work : Db) (drawn : ℕ) (s1 : Session)
    (b : Bytes)
    → find_checkpoint t.task_id name db.checkpoints ≡ none
    → f e (clean db work drawn) ≡ (state b, s1)
    → s1.faults ≡ []
    → ((async_step t name f e new (clean db work drawn)).0 ≡ done b)
      × ((async_step t name f e new (clean db work drawn)).2.store.checkpoints
          ≡ upsert_checkpoint (step_row e t name b) s1.store.checkpoints)
first_run e t name f db work drawn s1 b fresh ran ok1 =
    let missing : get (is_key t.task_id name)
          (insert_all t.task_id (task_rows t.task_id db.checkpoints) [])
        ≡ none =
      insert_all_missing t.task_id name (task_rows t.task_id db.checkpoints) []
        (any-sort_by (λ a b. leb a.updated_at b.updated_at)
            (λ (k : Checkpoint). text_eq k.step_name name)
            (rows_where (λ c. c.task_id == t.task_id) db.checkpoints)
          ∙ unsorted_missing t.task_id name db.checkpoints fresh)
        refl in
    rw (first_step e t name f db work drawn, missing)
      (step_runs e t name f
        (Cache.generate_name name (store t.task_id (task_rows t.task_id db.checkpoints) new)).1
        (clean db work drawn) s1 b ran ok1)

known_row :
    (c : Checkpoint) (cs : List Checkpoint) (db : Db) (id : Uuid)
    → id ≡ c.task_id
    → find_checkpoint c.task_id c.step_name cs ≡ none
    → db.checkpoints ≡ upsert_checkpoint c cs
    → state_of (get (is_key id c.step_name) (insert_all id (task_rows id db.checkpoints) []))
      ≡ some c.state
known_row c cs db id same fresh kept =
    let rows = upsert_rows c cs fresh in
    rw (same, kept)
      (insert_all_found c.task_id c.step_name c.state _ []
        (All-sort_by _ (Holds c.step_name c.state) _ rows.0)
        (inl (any-sort_by _ (λ (k : Checkpoint). text_eq k.step_name c.step_name) _ ∙ rows.1)))

-- A step that completed is not run again. The first run of a task executes the step, which had no
-- checkpoint, and gets its bytes. Any later run of the task, in a context of its own and at any later
-- state of the tables that still holds those checkpoints, gets the same bytes from its first step of
-- that name, and its closure is not called: the session is as before (where no statement fails).
pub async_step_durable :
    (e e' : Env) (t t' : ClaimedTask) (name : Text) (f g : StepFn) (db work db' work' : Db)
    (drawn drawn' : ℕ) (s1 : Session) (b : Bytes)
    → t'.task_id ≡ t.task_id
    → find_checkpoint t.task_id name db.checkpoints ≡ none
    → f e (clean db work drawn) ≡ (state b, s1)
    → s1.faults ≡ []
    → find_checkpoint t.task_id name s1.store.checkpoints ≡ none
    → db'.checkpoints ≡ (async_step t name f e new (clean db work drawn)).2.store.checkpoints
    → ((async_step t name f e new (clean db work drawn)).0 ≡ done b)
      × ((async_step t' name g e' new (clean db' work' drawn')).0 ≡ done b)
      × ((async_step t' name g e' new (clean db' work' drawn')).2 ≡ clean db' work' drawn')
async_step_durable e e' t t' name f g db work db' work' drawn drawn' s1 b same fresh ran ok1 fresh1
      kept =
    let first = first_run e t name f db work drawn s1 b fresh ran ok1 in
    let second = step_known e' t' name g _ (clean db' work' drawn') b _ (
      known_row (step_row e t name b) s1.store.checkpoints db' t'.task_id same fresh1
        (kept ∙ first.1)) in
    (
      first.0,
      rw (first_step e' t' name g db' work' drawn') second.0,
      rw (first_step e' t' name g db' work' drawn') second.1,
    )

-- A sleep suspends once: where its checkpoint is stored, sleep_for goes on without suspending, and
-- changes nothing (where no statement fails).
pub sleep_for_once :
    (e : Env) (t : ClaimedTask) (step_name : Text) (duration : ℕ) (c : Checkpoints) (db work : Db)
    (drawn : ℕ) (k : Checkpoint)
    → find_checkpoint t.task_id (Cache.generate_name step_name c).0 db.checkpoints ≡ some k
    → sleep_for t step_name duration e c (clean db work drawn)
      ≡ (done tt, (Cache.generate_name step_name c).1, clean db work drawn)
unfolding sleep_for get_checkpoint effects
sleep_for_once e t step_name duration c db work drawn k f = rw f
