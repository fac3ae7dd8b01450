-- ===== src/Context.antt =====
-- TaskContext of taskturbine-app/src/context.rs: what a running task calls.
pub mod Steps
pub mod Sequence
use taskturbine.Base.{
  ℕ, ◌*◌, ◌++◌, List, [], ◌∷◌, Option, none, some, Bool, true, false, or_else, if◌then◌else◌,
}
use taskturbine.Base.Int.{ℤ}
use taskturbine.Base.Text.{Text, Bytes, codes}
use taskturbine.Models.{Uuid, Checkpoint, ClaimedTask, second}
use taskturbine.Sql.Session.{Env, Session, Result, ok, err, panic, StorageError, M}
use taskturbine.Storage.Rows.{as_u64}
use taskturbine.Storage.Event.{
  get_checkpoint, get_checkpoints, set_checkpoint, await_event, emit_event, AwaitResult,
}
use taskturbine.Cache
use taskturbine.Cache.{Checkpoints}

-- What went wrong, for the messages of FlowControl::Failure. `step_failed` stands for the Debug text
-- of the step's own error.
pub data Cause : Type 0 where
  loading_checkpoints storing_checkpoint getting_checkpoint storing_wait storing_event :
      StorageError → Cause
  step_failed task_failed : Text → Cause

pub data FlowControl : Type 0 where
  invalid_value : Text → FlowControl
  failure : Cause → FlowControl
  suspend : ℕ → FlowControl
  suspended : FlowControl

-- Result<A, FlowControl>; `aborted` is a panic.
pub data Flow (A : Type 0) : Type 0 where
  done : A → Flow A
  stop : FlowControl → Flow A
  aborted : Flow A

-- A method of the context: it reads and writes the cache of checkpoints and the storage.
abbrev pub C : Type 0 → Type 0
C A = Env → Checkpoints → Session → Flow A × Checkpoints × Session

-- The closure of a step, which may itself use the storage: it returns bytes or an error.
pub data StepResult : Type 0 where
  state : Bytes → StepResult
  error : Text → StepResult

abbrev pub StepFn : Type 0
StepFn = Env → Session → StepResult × Session

-- The last part of async_step: the checkpoint's answer.
abbrev pub stored :
    Bytes → Checkpoints → Result Checkpoint × Session → Flow Bytes × Checkpoints × Session
stored b c (ok k, s) = (done b, Cache.add k c, s)
stored b c (err x, s) = (stop (failure (storing_checkpoint x)), c, s)
stored b c (panic, s) = (aborted, c, s)

-- The step has run.
abbrev pub after_step :
    ClaimedTask
    → Text
    → Env
    → Checkpoints
    → StepResult × Session
    → Flow Bytes × Checkpoints × Session
after_step t name e c (state b, s) = stored b c (set_checkpoint t.task_id t.run_id name b none e s)
after_step t name e c (error x, s) = (stop (failure (step_failed x)), c, s)

-- The step is looked up in the cache, and runs only if it is not there.
abbrev pub step_unless : ClaimedTask → Text → StepFn → Option Checkpoint → C Bytes
step_unless t name step_fn (some k) e c s = (done k.state, c, s)
step_unless t name step_fn none e c s = after_step t name e c (step_fn e s)

unfoldable pub cached_step : ClaimedTask → Text → StepFn → C Bytes
cached_step t name step_fn e c s =
    let (checkpoint_name, c') = Cache.generate_name name c in
    step_unless t checkpoint_name step_fn (Cache.get_checkpoint c' t.task_id checkpoint_name) e c' s

-- The checkpoints have been read.
abbrev pub loaded :
    ClaimedTask
    → C Bytes
    → Env
    → Checkpoints
    → Result (List Checkpoint) × Session
    → Flow Bytes × Checkpoints × Session
loaded t rest e c (ok ks, s) = rest e (Cache.store t.task_id ks c) s
loaded t rest e c (err x, s) = (stop (failure (loading_checkpoints x)), c, s)
loaded t rest e c (panic, s) = (aborted, c, s)

-- async_step.
unfoldable pub async_step : ClaimedTask → Text → StepFn → C Bytes
async_step t name step_fn e c s =
    if Cache.is_loaded c t.task_id
    then cached_step t name step_fn e c s
    else loaded t (cached_step t name step_fn) e c (get_checkpoints t.task_id e s)

-- step: the closure does not wait, so it does not use the storage.
unfoldable pub step : ClaimedTask → Text → StepResult → C Bytes
step t name result = async_step t name (λ e s. (result, s))

abbrev result_of : Result (Option Checkpoint) → Option Bytes
result_of (ok (some k)) = some k.state
result_of _ = none

abbrev read_step : ClaimedTask → Option Text → Env → Session → Option Bytes × Session
read_step t none e s = (none, s)
read_step t (some name) e s =
    (result_of (get_checkpoint t.task_id name e s).0, (get_checkpoint t.task_id name e s).1)

-- step_result: it reads the storage, and an error there is no result.
unfoldable pub step_result :
    ClaimedTask → Text → Env → Checkpoints → Session → Option Bytes × Session
step_result t step_name e c s = read_step t (Cache.get_latest_name c step_name) e s

abbrev slept :
    ℕ → Checkpoints → Result Checkpoint × Session → Flow (Unit {0}) × Checkpoints × Session
slept duration c (ok k, s) = (stop (suspend duration), c, s)
slept duration c (err x, s) = (stop (failure (storing_checkpoint x)), c, s)
slept duration c (panic, s) = (aborted, c, s)

abbrev sleep_unless :
    ClaimedTask
    → Text
    → Text
    → ℕ
    → Env
    → Checkpoints
    → Result (Option Checkpoint) × Session
    → Flow (Unit {0}) × Checkpoints × Session
sleep_unless t name step_name duration e c (ok (some k), s) = (done tt, c, s)
sleep_unless t name step_name duration e c (ok none, s) =
    slept duration c (set_checkpoint t.task_id t.run_id name step_name none e s)
sleep_unless t name step_name duration e c (err x, s) =
    (stop (failure (getting_checkpoint x)), c, s)
sleep_unless t name step_name duration e c (panic, s) = (aborted, c, s)

-- sleep_for: the first time it leaves a checkpoint and suspends, and after that it goes on.
unfoldable pub sleep_for : ClaimedTask → Text → ℕ → C (Unit {0})
sleep_for t step_name duration e c s =
    let (name, c') = Cache.generate_name step_name c in
    sleep_unless t name step_name duration e c' (get_checkpoint t.task_id name e s)

pub record Event : Type 0 where
  pub event_name : Text
  pub payload : Bytes

abbrev awaited :
    Text → Checkpoints → Result AwaitResult × Session → Flow Event × Checkpoints × Session
awaited name c (ok w, s) = (
  (if w.should_suspend
      then stop suspended
      else done (record { event_name = name; payload = w.payload })),
  c,
  s,
)
awaited name c (err x, s) = (stop (failure (storing_wait x)), c, s)
awaited name c (panic, s) = (aborted, c, s)

-- The step name of a wait.
abbrev pub await_step : Text → Text
await_step event_name = codes "$awaitEvent:" ++ event_name

-- TaskContext::await_event; its default timeout is the application's.
unfoldable pub await : ClaimedTask → Text → Option ℕ → C Event
await t event_name timeout e c s =
    let wait_for = or_else timeout (as_u64 e.config.await_event_default_timeout_secs * second) in
    awaited event_name c
      (await_event t.task_id t.run_id (await_step event_name) event_name (some wait_for) e s)

abbrev emitted : Checkpoints → Result (Unit {0}) × Session → Flow (Unit {0}) × Checkpoints × Session
emitted c (ok u, s) = (done u, c, s)
emitted c (err x, s) = (stop (failure (storing_event x)), c, s)
emitted c (panic, s) = (aborted, c, s)

-- TaskturbineApp::emit_event, and TaskContext::emit_event, which calls it.
unfoldable pub emit : Text → Bytes → C (Unit {0})
emit event_name payload e c s = emitted c (emit_event event_name payload e s)
