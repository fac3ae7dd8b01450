-- ===== src/Context/Sequence.antt =====
-- Tasks whose body is a sequence of steps (async_step of taskturbine-app/src/context.rs).
pub mod Replay
use mathlib.Core.Path.{subst}
use taskturbine.Base.{
  ℕ, ◌≡◌, refl, ap, sym, ◌∙◌, Option, none, some, Bool, true, false, List, [], ◌∷◌, All, ==_refl,
  ==_iff, arith, Bool-cases, inl, inr, ◌==◌, ◌&&◌,
}
use taskturbine.Base.Text.{Text, Bytes, text_eq, text_eq_refl, text_eq_sound}
use taskturbine.Models.{Uuid, Checkpoint, ClaimedTask}
use taskturbine.Sql.Session.{Db, Env, Session, Result, clean, ok, err, panic, effects}
use taskturbine.Storage.Rows.{find_checkpoint, upsert_checkpoint, is_checkpoint}
use taskturbine.Storage.Event.{set_checkpoint}
use taskturbine.Storage.Waking.{find_checkpoint-upsert}
use taskturbine.Cache
use taskturbine.Cache.{Checkpoints, get, is_key, generate_name, is_loaded, add, new}
use taskturbine.Cache.Loads.{HasKey, load_lem, task_rows}
use taskturbine.Context.{
  C, Flow, done, stop, aborted, StepFn, StepResult, state, error, async_step, cached_step,
  step_unless, after_step, stored,
}
use taskturbine.Context.Steps.{state_of, step_row, async_step_cached, set_checkpoint_clean}

-- The result of a step, before those of the rest.
abbrev pub before :
    Bytes → Flow (List Bytes) × Checkpoints × Session → Flow (List Bytes) × Checkpoints × Session
before b (done bs, c, s) = (done (b ∷ bs), c, s)
before b (stop x, c, s) = (stop x, c, s)
before b (aborted, c, s) = (aborted, c, s)

abbrev pub and_rest :
    (Checkpoints → Session → Flow (List Bytes) × Checkpoints × Session)
    → Flow Bytes × Checkpoints × Session
    → Flow (List Bytes) × Checkpoints × Session
and_rest rest (done b, c, s) = before b (rest c s)
and_rest rest (stop x, c, s) = (stop x, c, s)
and_rest rest (aborted, c, s) = (aborted, c, s)

-- A task function that runs named steps in order, each with `?`, and has their results.
unfoldable pub run_steps : ClaimedTask → List (Text × StepFn) → C (List Bytes)
run_steps t [] e c s = (done [], c, s)
run_steps t ((name, f) ∷ fs) e c s =
    and_rest (λ c' s'. run_steps t fs e c' s') (async_step t name f e c s)

-- A step whose closure stores no checkpoint, and under which no statement fails later.
pub record IsQuiet (f : StepFn) : Type 0 where
  pub keeps : (e : Env) (s : Session) → (f e s).1.store.checkpoints ≡ s.store.checkpoints
  pub clean : (e : Env) (s : Session) → s.faults ≡ [] → (f e s).1.faults ≡ []

-- The cache holds the task's rows.
pub record Synced (id : Uuid) (c : Checkpoints) (cs : List Checkpoint) : Type 0 where
  pub keyed : HasKey cs
  pub loaded : is_loaded c id ≡ true
  pub found : (name : Text) → get (is_key id name) c.checkpoint_data ≡ find_checkpoint id name cs

upsert-HasKey :
    (c : Checkpoint) (cs : List Checkpoint) → HasKey cs → HasKey (upsert_checkpoint c cs)
unfolding upsert_checkpoint
upsert-HasKey c [] h = (refl, tt)
upsert-HasKey c (k ∷ ks) h = elim (Bool-cases (is_checkpoint c.task_id c.step_name k)) [
  | inl hit ↦ rw hit (h.0, h.1)
  | inr miss ↦ rw miss (
    ground (
      arith,
      find_checkpoint-upsert c k.task_id k.step_name ks,
      h.0,
      (==_iff c.task_id k.task_id).0,
      text_eq_sound c.step_name k.step_name,
      ==_refl k.task_id,
      text_eq_refl k.step_name,
    ),
    upsert-HasKey c ks h.1,
  )
]

-- The rows that are there stay as they are.
abbrev pub Extends : Uuid → List Checkpoint → List Checkpoint → Type 0
Extends id cs cs' =
    (name : Text) (k : Checkpoint)
    → find_checkpoint id name cs ≡ some k
    → find_checkpoint id name cs' ≡ some k

-- What a step that gave `b` leaves: its row, and a cache that holds the rows.
pub record Stepped (t : ClaimedTask) (name : Text) (b : Bytes) (c c' : Checkpoints)
    (cs : List Checkpoint) (s : Session) : Type 0 where
  pub synced : Synced t.task_id c' s.store.checkpoints
  pub faults : s.faults ≡ []
  pub counters : c'.counters ≡ c.counters
  pub row : state_of (find_checkpoint t.task_id name s.store.checkpoints) ≡ some b
  pub extends : Extends t.task_id cs s.store.checkpoints

-- The row of a new step, in the table and in the cache.
added-Synced :
    (e : Env) (t : ClaimedTask) (name : Text) (b : Bytes) (c : Checkpoints) (cs : List Checkpoint)
    → Synced t.task_id c cs
    → Synced t.task_id (add (step_row e t name b) c) (upsert_checkpoint (step_row e t name b) cs)
unfolding add is_loaded
added-Synced e t name b c cs h = record {
  keyed = upsert-HasKey (step_row e t name b) cs h.keyed;
  loaded = h.loaded;
  found =
      λ m. ground (arith, find_checkpoint-upsert (step_row e t name b) t.task_id m cs, h.found m);
}

added-Extends :
    (e : Env) (t : ClaimedTask) (name : Text) (b : Bytes) (cs : List Checkpoint)
    → find_checkpoint t.task_id name cs ≡ none
    → Extends t.task_id cs (upsert_checkpoint (step_row e t name b) cs)
added-Extends e t name b cs new m k f =
    ground
      (arith, find_checkpoint-upsert (step_row e t name b) t.task_id m cs, text_eq_sound name m)

-- The same of a step's answer, if it is a result.
abbrev pub After :
    ClaimedTask → Text → Checkpoints → List Checkpoint → Flow Bytes × Checkpoints × Session → Type 0
After t name c cs (done b, c', s) = Stepped t name b c c' cs s
After t name c cs (stop x, c', s) = Unit
After t name c cs (aborted, c', s) = Unit

stored-After :
    (e : Env) (t : ClaimedTask) (name : Text) (b : Bytes) (c : Checkpoints) (cs : List Checkpoint)
    (p : Result Checkpoint × Session)
    → Synced t.task_id c cs
    → find_checkpoint t.task_id name cs ≡ none
    → p.0 ≡ ok (step_row e t name b)
    → p.1.store.checkpoints ≡ upsert_checkpoint (step_row e t name b) cs
    → p.1.faults ≡ []
    → After t name c cs (stored b c p)
unfolding add
stored-After e t name b c cs (ok k, s) h new answer store faults =
    let same : k ≡ step_row e t name b = ground arith in
    record {
      synced = rw (same, store) (added-Synced e t name b c cs h);
      faults = faults;
      counters = refl;
      row = rw store (
          ground (
            arith,
            find_checkpoint-upsert (step_row e t name b) t.task_id name cs,
            ==_refl t.task_id,
            text_eq_refl name,
          ));
      extends = λ m x f. rw store (added-Extends e t name b cs new m x f);
    }
stored-After e t name b c cs (err x, s) h new answer store faults = cc
stored-After e t name b c cs (panic, s) h new answer store faults = cc

ran-After :
    (e : Env) (t : ClaimedTask) (name : Text) (c : Checkpoints) (cs : List Checkpoint)
    (r : StepResult × Session)
    → Synced t.task_id c cs
    → find_checkpoint t.task_id name cs ≡ none
    → r.1.store.checkpoints ≡ cs
    → r.1.faults ≡ []
    → After t name c cs (after_step t name e c r)
ran-After e t name c cs (state b, s) h new store faults =
    let answer = set_checkpoint_clean e t name b s faults in
    stored-After e t name b c cs _ h new answer.0 (rw⁻¹ store (ap (λ d. d.checkpoints) answer.1))
      answer.2
ran-After e t name c cs (error x, s) h new store faults = tt

step_unless-After :
    (e : Env) (t : ClaimedTask) (name : Text) (f : StepFn) (c : Checkpoints) (s : Session)
    (o : Option Checkpoint)
    → IsQuiet f
    → Synced t.task_id c s.store.checkpoints
    → s.faults ≡ []
    → find_checkpoint t.task_id name s.store.checkpoints ≡ o
    → After t name c s.store.checkpoints (step_unless t name f o e c s)
step_unless-After e t name f c s (some k) q h fine there = record {
  synced = h;
  faults = fine;
  counters = refl;
  row = rw there refl;
  extends = λ m x g. g;
}
step_unless-After e t name f c s none q h fine there =
    ran-After e t name c s.store.checkpoints (f e s) h there (q.keeps e s) (q.clean e s fine)

pub async_step-After :
    (e : Env) (t : ClaimedTask) (name : Text) (f : StepFn) (c : Checkpoints) (s : Session)
    → IsQuiet f
    → Synced t.task_id c s.store.checkpoints
    → s.faults ≡ []
    → After t
        (generate_name name c).0
        (generate_name name c).1
        s.store.checkpoints
        (async_step t name f e c s)
unfolding async_step cached_step generate_name is_loaded Cache.get_checkpoint
async_step-After e t name f c s q h fine =
    let (known, c') = generate_name name c in
    let named : Synced t.task_id c' s.store.checkpoints = record {
      keyed = h.keyed;
      loaded = h.loaded;
      found = h.found;
    } in
    rw (h.loaded, h.found known) (step_unless-After e t known f c' s _ q named fine refl)
