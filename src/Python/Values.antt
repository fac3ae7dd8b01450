-- ===== src/Python/Values.antt =====
-- The values of taskturbine-python/src/models.rs and their conversions. The texts of UUIDs are a
-- parameter.
use taskturbine.Base.{ℕ, ◌+◌, ◌/◌, ◌≡◌, Option, none, some, Bool}
use taskturbine.Base.Int.{ℤ}
use taskturbine.Base.Text.{Text, Bytes, codes}
use taskturbine.Models
use taskturbine.Models.{Uuid, Floats, second, retry_delay}
use taskturbine.Storage.Event
use taskturbine.Storage.Upkeep

-- The texts of UUIDs, and what the uuid crate says of them: the text of an identifier is parsed to
-- the identifier.
pub record UuidTexts : Type 0 where
  pub to_text : Uuid → Text
  pub of_text : Text → Option Uuid
  pub of_text-to_text : (id : Uuid) → of_text (to_text id) ≡ some id

pub record ClaimedTask : Type 0 where
  pub task_id : Text
  pub run_id : Text
  pub channel : Text
  pub task_name : Text
  pub params : Bytes
  pub retry_seconds : ℤ
  pub retry_factor : ℕ
  pub retry_max_seconds : ℤ
  pub attempt : ℕ
  pub max_attempts : ℤ

-- ClaimedTask::next_retry_in, computed like its namesake of the core.
unfoldable pub next_retry_in : Floats → ClaimedTask → ℕ
next_retry_in fl t =
    retry_delay fl t.retry_seconds t.retry_factor t.retry_max_seconds (t.attempt + 1)

pub record SpawnResult : Type 0 where
  pub run_id : Text
  pub task_id : Text

pub record AwaitResult : Type 0 where
  pub payload : Bytes
  pub should_suspend : Bool

pub record Checkpoint : Type 0 where
  pub task_id : Text
  pub step_name : Text
  pub state : Bytes
  pub owner_run_id : Text
  pub updated_at : ℕ

pub record UpkeepMetric : Type 0 where
  pub channel : Text
  pub total : ℕ
  pub running : ℕ
  pub pending : ℕ
  pub sleeping : ℕ

-- The conversions from the core.
abbrev pub from_await : Event.AwaitResult → AwaitResult
from_await r = record { payload = r.payload; should_suspend = r.should_suspend }

abbrev pub from_metric : Upkeep.UpkeepMetric → UpkeepMetric
from_metric m = record {
  channel = m.channel;
  total = m.total;
  running = m.running;
  pending = m.pending;
  sleeping = m.sleeping;
}

-- The error of a conversion to the core: the text of its message.
pub data Conversion (A : Type 0) : Type 0 where
  converted : A → Conversion A
  invalid : Text → Conversion A

module _ (texts : UuidTexts) where
  abbrev pub from_claimed : Models.ClaimedTask → ClaimedTask
  from_claimed t = record {
    task_id = texts.to_text t.task_id;
    run_id = texts.to_text t.run_id;
    channel = t.channel;
    task_name = t.task_name;
    params = t.params;
    retry_seconds = t.retry_seconds;
    retry_factor = t.retry_factor;
    retry_max_seconds = t.retry_max_seconds;
    attempt = t.attempt;
    max_attempts = t.max_attempts;
  }

  abbrev pub claimed_of : ClaimedTask → Option Uuid → Option Uuid → Conversion Models.ClaimedTask
  claimed_of t none run_id = invalid (codes "Invalid task_id")
  claimed_of t (some task_id) none = invalid (codes "Invalid run_id")
  claimed_of t (some task_id) (some run_id) = converted (record {
    task_id = task_id;
    run_id = run_id;
    channel = t.channel;
    task_name = t.task_name;
    params = t.params;
    retry_seconds = t.retry_seconds;
    retry_factor = t.retry_factor;
    retry_max_seconds = t.retry_max_seconds;
    attempt = t.attempt;
    max_attempts = t.max_attempts;
  })

  -- TryFrom<ClaimedTask>. Both identifiers are parsed from the field task_id, as in the source.
  unfoldable pub try_claimed : ClaimedTask → Conversion Models.ClaimedTask
  try_claimed t = claimed_of t (texts.of_text t.task_id) (texts.of_text t.task_id)

  abbrev pub from_spawn : Models.SpawnResult → SpawnResult
  from_spawn r = record { run_id = texts.to_text r.run_id; task_id = texts.to_text r.task_id }

  abbrev pub spawn_of : Option Uuid → Option Uuid → Conversion Models.SpawnResult
  spawn_of none run_id = invalid (codes "Invalid task_id")
  spawn_of (some task_id) none = invalid (codes "Invalid task_id")
  spawn_of (some task_id) (some run_id) = converted (record { task_id = task_id; run_id = run_id })

  -- TryFrom<SpawnResult>.
  unfoldable pub try_spawn : SpawnResult → Conversion Models.SpawnResult
  try_spawn r = spawn_of (texts.of_text r.task_id) (texts.of_text r.run_id)

  abbrev pub from_checkpoint : Models.Checkpoint → Checkpoint
  from_checkpoint c = record {
    task_id = texts.to_text c.task_id;
    owner_run_id = texts.to_text c.owner_run_id;
    step_name = c.step_name;
    state = c.state;
    updated_at = c.updated_at / second;
  }
