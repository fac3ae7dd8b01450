-- ===== src/Cli/Formatters.antt =====
-- What the commands print (taskturbine-cli/src/formatters.rs): a list of lines. How identifiers,
-- numbers and instants are written, and what is UTF-8, is the standard library's and chrono's.
use taskturbine.Base.{ℕ, ◌++◌, Bool, List, [], ◌∷◌, Option, none, some, or_else, if◌then◌else◌}
use taskturbine.Base.Int.{ℤ}
use taskturbine.Base.Text.{Text, Bytes, codes}
use taskturbine.Models.{Uuid, Task, Run, Checkpoint, TaskState, completed}
use taskturbine.Models.State.{show_state}
use taskturbine.Scheduler.{gap_seconds}

-- Display of the values, and str::from_utf8.
pub record Display : Type 0 where
  pub uuid : Uuid → Text
  pub natural : ℕ → Text
  pub integer : ℤ → Text
  pub real : ℕ → Text
  pub instant : ℕ → Text
  pub from_utf8 : Bytes → Option Text

abbrev pub invalid_data : Text
invalid_data = codes "<non-utf8 data>"

module _ (d : Display) where
  abbrev pub shown : Bytes → Text
  shown b = or_else (d.from_utf8 b) invalid_data

  abbrev pub payload_line : Bool → Option Bytes → List Text
  payload_line show_results none = []
  payload_line show_results (some result) =
      if show_results then (codes " payload: " ++ shown result) ∷ [] else []

  unfoldable pub dump_run : Run → Bool → Bool → List Text
  dump_run run show_results show_task_id =
      (codes "Run Id: " ++ d.uuid run.run_id)
      ∷ ((if show_task_id then (codes " task id: " ++ d.uuid run.task_id) ∷ [] else [])
          ++ (codes " attempt: " ++ d.natural run.attempt)
            ∷ (codes " state: " ++ show_state run.state)
            ∷ (codes " claimed_by: " ++ or_else run.claimed_by (codes "<unclaimed>"))
            ∷ (codes " created at: " ++ d.instant run.created_at)
            ∷ payload_line show_results run.result)

  -- The time of a completed task.
  abbrev duration_line : Task → TaskState → Option ℕ → List Text
  duration_line task completed (some completed_at) =
      (codes " time to completion: "
        ++ (d.integer (gap_seconds completed_at task.created_at) ++ codes " seconds"))
      ∷ []
  duration_line task _ _ = []

  unfoldable pub dump_task : Task → List Text
  dump_task task =
      (codes "Task Id: " ++ d.uuid task.task_id)
      ∷ (codes "  channel:    " ++ task.channel)
      ∷ (codes "  task_name:  " ++ task.task_name)
      ∷ (codes "  state:      " ++ show_state task.state)
      ∷ (codes "  headers:    " ++ shown task.headers)
      ∷ (codes "  parameters: " ++ shown task.params)
      ∷ codes " Retry:"
      ∷ (codes "  seconds:      " ++ d.integer task.retry_seconds)
      ∷ (codes "  factor:       " ++ d.real task.retry_factor)
      ∷ (codes "  max_seconds:  " ++ d.integer task.retry_max_seconds)
      ∷ (codes "  attempts:     " ++ d.natural task.attempts)
      ∷ (codes "  max_attempts: " ++ d.integer task.max_attempts)
      ∷ (codes " cancellation_max_age:  " ++ d.integer task.cancellation_max_age)
      ∷ duration_line task task.state task.completed_at

  unfoldable pub dump_checkpoint : Checkpoint → Bool → List Text
  dump_checkpoint checkpoint show_results =
      (codes "Checkpoint: " ++ checkpoint.step_name)
      ∷ (codes " owner run: " ++ d.uuid checkpoint.owner_run_id)
      ∷ (codes " updated at: " ++ d.instant checkpoint.updated_at)
      ∷ (if show_results then (codes " result: " ++ shown checkpoint.state) ∷ [] else [])
