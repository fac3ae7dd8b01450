-- ===== src/Context/Sequence/Replay.antt =====
-- A sequence of steps that has completed is not run again (taskturbine-app/src/context.rs).
use mathlib.Core.Path.{subst}
use taskturbine.Base.{
  ℕ, ◌≡◌, refl, ap, sym, ◌∙◌, Option, none, some, List, [], ◌∷◌, All, ==_refl, arith,
}
use taskturbine.Base.Text.{Text, Bytes}
use taskturbine.Models.{Uuid, Checkpoint, ClaimedTask}
use taskturbine.Sql.Session.{Db, Env, Session, clean, effects}
use taskturbine.Storage.Rows.{find_checkpoint}
use taskturbine.Cache
use taskturbine.Cache.{Checkpoints, get, is_key, generate_name, is_loaded, add, new}
use taskturbine.Cache.Loads.{HasKey, load_lem, task_rows}
use taskturbine.Context.{Flow, done, stop, aborted, StepFn, async_step}
use taskturbine.Context.Steps.{state_of, async_step_cached}
use taskturbine.Storage.Event.{get_checkpoints}
use taskturbine.Context.Sequence.{
  before, and_rest, run_steps, IsQuiet, Synced, Stepped, After, Extends, async_step-After,
}

-- The names that a sequence of steps gets depend on the counters only.
abbrev numbered : List (Text × ℕ) → Checkpoints
numbered counters = record new { counters = counters }

-- The rows hold the results of the steps, each under the name that it gets.
abbrev Trace : Uuid → List (Text × ℕ) → List (Text × StepFn) → List Bytes → List Checkpoint → Type 0
Trace id n [] [] cs = Unit
Trace id n [] (b ∷ bs) cs = ⊥
Trace id n (p ∷ ps) [] cs = ⊥
Trace id n (p ∷ ps) (b ∷ bs) cs =
    (state_of (find_checkpoint id (generate_name p.0 (numbered n)).0 cs) ≡ some b)
    × Trace id (generate_name p.0 (numbered n)).1.counters ps bs cs

-- What a sequence of steps leaves, if it has results.
abbrev Ran :
    Uuid
    → List (Text × ℕ)
    → List (Text × StepFn)
    → List Checkpoint
    → Flow (List Bytes) × Checkpoints × Session
    → Type 0
Ran id n fs cs (done bs, c, s) =
    HasKey s.store.checkpoints
    × Trace id n fs bs s.store.checkpoints
    × Extends id cs s.store.checkpoints
Ran id n fs cs (stop x, c, s) = Unit
Ran id n fs cs (aborted, c, s) = Unit

state_some :
    (o : Option Checkpoint) (b : Bytes)
    → state_of o ≡ some b
    → (k : Checkpoint) × (o ≡ some k) × (k.state ≡ b)
state_some none b h = cc
state_some (some k) b h = (k, refl, ground arith)

before-Ran :
    (t : ClaimedTask) (name : Text) (f : StepFn) (fs : List (Text × StepFn)) (c c' : Checkpoints)
    (cs : List Checkpoint) (b : Bytes) (s : Session) (p : Flow (List Bytes) × Checkpoints × Session)
    → Stepped t (generate_name name c).0 b (generate_name name c).1 c' cs s
    → Ran t.task_id c'.counters fs s.store.checkpoints p
    → Ran t.task_id c.counters ((name, f) ∷ fs) cs (before b p)
unfolding generate_name Cache.get_counter
before-Ran t name f fs c c' cs b s (done bs, c2, s2) k h =
    let (row, there, value) = state_some _ b k.row in
    (
      h.0,
      (
        ap state_of (h.2 _ row there) ∙ ap some value,
        subst (λ n. Trace t.task_id n fs bs s2.store.checkpoints) k.counters h.1,
      ),
      λ m x g. h.2 m x (k.extends m x g),
    )
before-Ran t name f fs c c' cs b s (stop x, c2, s2) k h = tt
before-Ran t name f fs c c' cs b s (aborted, c2, s2) k h = tt

and_rest-Ran :
    (t : ClaimedTask) (name : Text) (f : StepFn) (fs : List (Text × StepFn)) (c : Checkpoints)
    (cs : List Checkpoint)
    (rest : Checkpoints → Session → Flow (List Bytes) × Checkpoints × Session)
    (p : Flow Bytes × Checkpoints × Session)
    → After t (generate_name name c).0 (generate_name name c).1 cs p
    → ((c' : Checkpoints) (s : Session)
        → Synced t.task_id c' s.store.checkpoints
        → s.faults ≡ []
        → Ran t.task_id c'.counters fs s.store.checkpoints (rest c' s))
    → Ran t.task_id c.counters ((name, f) ∷ fs) cs (and_rest rest p)
and_rest-Ran t name f fs c cs rest (done b, c', s) h k =
    before-Ran t name f fs c c' cs b s (rest c' s) h (k c' s h.synced h.faults)
and_rest-Ran t name f fs c cs rest (stop x, c', s) h k = tt
and_rest-Ran t name f fs c cs rest (aborted, c', s) h k = tt

run_steps-Ran :
    (e : Env) (t : ClaimedTask) (fs : List (Text × StepFn)) (c : Checkpoints) (s : Session)
    → All (λ p. IsQuiet p.1) fs
    → Synced t.task_id c s.store.checkpoints
    → s.faults ≡ []
    → Ran t.task_id c.counters fs s.store.checkpoints (run_steps t fs e c s)
unfolding run_steps
run_steps-Ran e t [] c s q h fine = (h.keyed, tt, λ m x g. g)
run_steps-Ran e t ((name, f) ∷ fs) c s q h fine =
    and_rest-Ran t name f fs c s.store.checkpoints (λ c' s'. run_steps t fs e c' s')
      (async_step t name f e c s) (async_step-After e t name f c s q.0 h fine)
      λ c' s' h' fine'. run_steps-Ran e t fs c' s' q.1 h' fine'

-- The same names, with any closures.
abbrev pub SameNames : List (Text × StepFn) → List (Text × StepFn) → Type 0
SameNames [] [] = Unit
SameNames [] (p ∷ ps) = ⊥
SameNames (p ∷ ps) [] = ⊥
SameNames (p ∷ ps) (q ∷ qs) = (q.0 ≡ p.0) × SameNames ps qs

before_done :
    (b : Bytes) (bs : List Bytes) (p : Flow (List Bytes) × Checkpoints × Session)
    → p.0 ≡ done bs
    → ((before b p).0 ≡ done (b ∷ bs)) × ((before b p).2 ≡ p.2)
before_done b bs (done cs, c, s) h = (ground arith, refl)
before_done b bs (stop x, c, s) h = cc
before_done b bs (aborted, c, s) h = cc

run_steps-Trace :
    (e : Env) (t : ClaimedTask) (fs gs : List (Text × StepFn)) (bs : List Bytes)
    (cs : List Checkpoint) (c : Checkpoints) (s : Session)
    → SameNames fs gs
    → Trace t.task_id c.counters fs bs cs
    → Synced t.task_id c cs
    → ((run_steps t gs e c s).0 ≡ done bs) × ((run_steps t gs e c s).2 ≡ s)
unfolding run_steps generate_name Cache.get_counter Cache.get_checkpoint is_loaded
run_steps-Trace e t [] [] [] cs c s same h y = (refl, refl)
run_steps-Trace e t [] [] (b ∷ bs) cs c s same h y = absurd h
run_steps-Trace e t [] (g ∷ gs) bs cs c s same h y = absurd same
run_steps-Trace e t (f ∷ fs) [] bs cs c s same h y = absurd same
run_steps-Trace e t (f ∷ fs) (g ∷ gs) [] cs c s same h y = absurd h
run_steps-Trace e t (f ∷ fs) ((name, g) ∷ gs) (b ∷ bs) cs c s same h y =
    let named : Trace t.task_id c.counters ((name, f.1) ∷ fs) (b ∷ bs) cs =
      subst (λ m. Trace t.task_id c.counters ((m, f.1) ∷ fs) (b ∷ bs) cs) (sym same.0) h in
    let (row, there, value) = state_some _ b named.0 in
    let (known, c') = generate_name name c in
    let cached = async_step_cached t name g e c s row y.loaded (y.found known ∙ there) in
    let rest =
      run_steps-Trace e t fs gs bs cs c' s same.1 named.1
        (record { keyed = y.keyed; loaded = y.loaded; found = y.found }) in
    let all = before_done row.state bs (run_steps t gs e c' s) rest.0 in
    rw cached (all.0 ∙ ap (λ x. done (x ∷ bs)) value, all.1 ∙ rest.1)

-- A fresh context, once it has read the task's rows.
abbrev loaded_context : Uuid → List Checkpoint → Checkpoints
loaded_context id cs = Cache.store id (task_rows id cs) new

loaded-Synced : (id : Uuid) (cs : List Checkpoint) → HasKey cs → Synced id (loaded_context id cs) cs
unfolding is_loaded Cache.store
loaded-Synced id cs h = record {
  keyed = h;
  loaded = rw (==_refl id) refl;
  found = λ name. load_lem id name cs h;
}

of_done :
    (id : Uuid) (n : List (Text × ℕ)) (fs : List (Text × StepFn)) (cs : List Checkpoint)
    (bs : List Bytes) (p : Flow (List Bytes) × Checkpoints × Session)
    → p.0 ≡ done bs
    → Ran id n fs cs p
    → HasKey p.2.store.checkpoints × Trace id n fs bs p.2.store.checkpoints
of_done id n fs cs bs (done xs, c, s) h r =
    let same : xs ≡ bs = ground arith in (r.0, rw⁻¹ same r.1)
of_done id n fs cs bs (stop x, c, s) h r = cc
of_done id n fs cs bs (aborted, c, s) h r = cc

-- A fresh context reads the rows before the first step.
run_steps_loads :
    (e : Env) (t : ClaimedTask) (p : Text × StepFn) (fs : List (Text × StepFn)) (db work : Db)
    (drawn : ℕ)
    → run_steps t (p ∷ fs) e new (clean db work drawn)
      ≡ run_steps t (p ∷ fs) e (loaded_context t.task_id db.checkpoints) (clean db work drawn)
unfolding run_steps async_step effects is_loaded Cache.store get_checkpoints
run_steps_loads e t (name, f) fs db work drawn = rw (==_refl t.task_id) refl

-- A task that completed its steps has the same results again, without running them, where no
-- statement fails. In a first run the steps, whose closures store no checkpoint, have all returned. Then a later run, in a context of
-- its own, over tables with the checkpoints that the first left, and whose steps have the same names
-- in the same order, returns the same results; no closure is called, and the session is as before.
-- Checkpoints that earlier, unfinished runs left may be there, and names may repeat.
pub steps_durable :
    (e e' : Env) (t t' : ClaimedTask) (fs gs : List (Text × StepFn)) (bs : List Bytes)
    (db work db' work' : Db) (drawn drawn' : ℕ)
    → t'.task_id ≡ t.task_id
    → HasKey db.checkpoints
    → All (λ p. IsQuiet p.1) fs
    → SameNames fs gs
    → (run_steps t fs e new (clean db work drawn)).0 ≡ done bs
    → db'.checkpoints ≡ (run_steps t fs e new (clean db work drawn)).2.store.checkpoints
    → ((run_steps t' gs e' new (clean db' work' drawn')).0 ≡ done bs)
      × ((run_steps t' gs e' new (clean db' work' drawn')).2 ≡ clean db' work' drawn')
unfolding run_steps Cache.store
steps_durable e e' t t' [] [] bs db work db' work' drawn drawn' id u q same ran kept = (ran, refl)
steps_durable e e' t t' [] (g ∷ gs) bs db work db' work' drawn drawn' id u q same ran kept =
    absurd same
steps_durable e e' t t' (f ∷ fs) [] bs db work db' work' drawn drawn' id u q same ran kept =
    absurd same
steps_durable e e' t t' (f ∷ fs) (g ∷ gs) bs db work db' work' drawn drawn' id u q same ran kept =
    let first = run_steps_loads e t f fs db work drawn in
    let c = loaded_context t.task_id db.checkpoints in
    let left =
      of_done t.task_id [] (f ∷ fs) db.checkpoints bs
        (run_steps t (f ∷ fs) e c (clean db work drawn)) (ap (λ p. p.0) (sym first) ∙ ran)
        (run_steps-Ran e t (f ∷ fs) c (clean db work drawn) q
          (loaded-Synced t.task_id db.checkpoints u) refl) in
    let stored : db'.checkpoints
        ≡ (run_steps t (f ∷ fs) e c (clean db work drawn)).2.store.checkpoints =
      kept ∙ ap (λ p. p.2.store.checkpoints) first in
    let c' = loaded_context t'.task_id db'.checkpoints in
    let keyed : HasKey db'.checkpoints = subst HasKey (sym stored) left.0 in
    let trace : Trace t'.task_id [] (f ∷ fs) bs db'.checkpoints =
      subst (λ i. Trace i [] (f ∷ fs) bs db'.checkpoints) (sym id)
        (subst (Trace t.task_id [] (f ∷ fs) bs) (sym stored) left.1) in
    let again =
      run_steps-Trace e' t' (f ∷ fs) (g ∷ gs) bs db'.checkpoints c' (clean db' work' drawn') same
        trace (loaded-Synced t'.task_id db'.checkpoints keyed) in
    let second = run_steps_loads e' t' g gs db' work' drawn' in
    (ap (λ p. p.0) second ∙ again.0, ap (λ p. p.2) second ∙ again.1)
