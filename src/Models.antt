-- ===== src/Models.antt =====
-- The entities of taskturbine-core/src/models.rs, as rows of the tables that
-- taskturbine-core/migrations creates, and the configuration of taskturbine-core/src/config.rs.
-- Identifiers (UUIDs) are numbers; instants and durations are microseconds; a float is its bit
-- pattern.
pub mod State
pub mod Names
pub use State.{TaskState, pending, running, sleeping, completed, failed, cancelled}
use taskturbine.Base.{ℕ, ◌+◌, ◌*◌, Option, Bool}
use taskturbine.Base.Int.{ℤ}
use taskturbine.Base.Text.{Bytes, Text}

-- Both TaskId and RunId wrap a UUID.
abbrev pub Uuid : Type 0
Uuid = ℕ

pub record Task : Type 0 where
  pub task_id : Uuid
  pub usecase : Text
  pub channel : Text
  pub task_name : Text
  pub params : Bytes
  pub headers : Bytes
  pub idempotency_key : Option Text
  pub retry_seconds : ℤ
  pub retry_factor : ℕ
  pub retry_max_seconds : ℤ
  pub attempts : ℕ
  pub max_attempts : ℤ
  pub cancellation_max_age : ℤ
  pub created_at : ℕ
  pub first_started_at : Option ℕ
  pub state : TaskState
  pub last_attempt_run : Option Uuid
  pub completed_at : Option ℕ

pub record Run : Type 0 where
  pub run_id : Uuid
  pub task_id : Uuid
  pub attempt : ℕ
  pub state : TaskState
  pub claimed_by : Option Text
  pub claim_expires_at : Option ℕ
  pub available_at : ℕ
  pub started_at : Option ℕ
  pub completed_at : Option ℕ
  pub result : Option Bytes
  pub failure_reason : Option Bytes
  pub created_at : ℕ
  pub wait_event_name : Option Text

pub record Checkpoint : Type 0 where
  pub task_id : Uuid
  pub step_name : Text
  pub state : Bytes
  pub owner_run_id : Uuid
  pub updated_at : ℕ

-- A row of the events table. A null payload is the sentinel that a waiting task leaves.
pub record EventRow : Type 0 where
  pub usecase : Text
  pub event_name : Text
  pub payload : Option Bytes
  pub created_at : ℕ

-- A row of the waits table, of which the program only deletes.
pub record Wait : Type 0 where
  pub task_id : Uuid
  pub run_id : Uuid
  pub step_name : Text
  pub event_name : Text

pub record SchedulerState : Type 0 where
  pub usecase : Text
  pub schedule_id : Text
  pub last_run : ℕ

pub record ClaimedTask : Type 0 where
  pub task_id : Uuid
  pub run_id : Uuid
  pub channel : Text
  pub task_name : Text
  pub params : Bytes
  pub retry_seconds : ℤ
  pub retry_factor : ℕ
  pub retry_max_seconds : ℤ
  pub attempt : ℕ
  pub max_attempts : ℤ

pub record SpawnResult : Type 0 where
  pub task_id : Uuid
  pub run_id : Uuid

pub record Config : Type 0 where
  pub database_url : Text
  pub database_log_queries : Bool
  pub usecase : Text
  pub await_event_default_timeout_secs : ℤ

-- The float operations that the retry delays use, on bit patterns. `to_secs` is the saturating cast
-- of an f32 to u64, `narrow` the conversion of an f64 to a real column, `lt_one` the test of an f64
-- against 1.0.
pub record Floats : Type 0 where
  pub of_i32 : ℤ → ℕ
  pub mul : ℕ → ℕ → ℕ
  pub powi : ℕ → ℕ → ℕ
  pub fmin : ℕ → ℕ → ℕ
  pub to_secs : ℕ → ℕ
  pub narrow : ℕ → ℕ
  pub lt_one : ℕ → Bool

-- One second, in the unit of instants.
abbrev pub second : ℕ
second = 1000000

-- Task::next_retry_in and ClaimedTask::next_retry_in differ in the exponent only.
abbrev pub retry_delay : Floats → ℤ → ℕ → ℤ → ℕ → ℕ
retry_delay fl seconds factor max_seconds exponent =
    fl.to_secs
      (fl.fmin (fl.mul (fl.of_i32 seconds) (fl.powi factor exponent)) (fl.of_i32 max_seconds))
    * second

unfoldable pub task_next_retry_in : Floats → Task → ℕ
task_next_retry_in fl t =
    retry_delay fl t.retry_seconds t.retry_factor t.retry_max_seconds t.attempts

unfoldable pub claimed_next_retry_in : Floats → ClaimedTask → ℕ
claimed_next_retry_in fl t =
    retry_delay fl t.retry_seconds t.retry_factor t.retry_max_seconds (t.attempt + 1)
