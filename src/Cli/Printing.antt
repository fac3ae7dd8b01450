-- ===== src/Cli/Printing.antt =====
-- The commands that list and show tasks and runs: task_list.rs, run_list.rs, task_get.rs and
-- run_get.rs of taskturbine-cli/src, with the lines that they print.
use taskturbine.Base.{◌++◌, Bool, true, false, List, [], ◌∷◌, Option, none, some}
use taskturbine.Base.Text.{Text, codes}
use taskturbine.Models.{Uuid, Checkpoint}
use taskturbine.Sql.Session.{Env, Session, Result, ok, err, panic}
use taskturbine.Cli.Admin.{
  TaskDetails, RunDetails, RunListOptions, task_list, task_get, run_list, run_get,
}
use taskturbine.Cli.Commands.{
  CliResult, done, failed, panicked, refused, TaskListArgs, task_list_options, RunListArgs,
  run_list_options,
}
use taskturbine.Cli.Formatters.{Display, dump_run, dump_task, dump_checkpoint}

-- How a command ends, what it prints, and the session that it leaves.
abbrev pub Outcome : Type 0
Outcome = CliResult × List Text × Session

-- An error ends the command before it prints.
abbrev pub printed {ℓ} : {A : Type ℓ} → (A → List Text) → Result A × Session → Outcome
printed print (ok a, s) = (done, print a, s)
printed print (err x, s) = (failed x, [], s)
printed print (panic, s) = (panicked, [], s)

abbrev pub lines_of {ℓ} : {A : Type ℓ} → (A → List Text) → List A → List Text
lines_of line [] = []
lines_of line (x ∷ xs) = line x ++ lines_of line xs

abbrev pub blank : Text
blank = []

pub record TaskGetArgs : Type 0 where
  pub task_id : Uuid
  pub show_results : Bool

module _ (d : Display) where
  unfoldable pub list_task : (Text → Text → Bool) → TaskListArgs → Env → Session → Outcome
  list_task matches a e s =
      printed (lines_of λ t. dump_task d t ++ blank ∷ [])
        (task_list matches (task_list_options a) e s)

  abbrev pub list_run_with : Option RunListOptions → Env → Session → Outcome
  list_run_with none e s = (refused (codes "Invalid task_id"), [], s)
  list_run_with (some o) e s =
      printed (λ rs. blank ∷ lines_of (λ r. dump_run d r false true ++ blank ∷ []) rs)
        (run_list o e s)

  unfoldable pub list_run : (Text → Option Uuid) → RunListArgs → Env → Session → Outcome
  list_run of_text a = list_run_with (run_list_options of_text a)

  abbrev pub checkpoints_part : Bool → List Checkpoint → List Text
  checkpoints_part show_results cs =
      codes "== Checkpoints ==" ∷ blank ∷ lines_of (λ c. dump_checkpoint d c show_results) cs

  unfoldable pub show_task : Bool → TaskDetails → List Text
  show_task show_results details =
      blank
      ∷ (dump_task d details.task
          ++ blank
            ∷ codes "== Runs =="
            ∷ blank
            ∷ (lines_of (λ r. dump_run d r show_results false) details.runs
                ++ blank ∷ checkpoints_part show_results details.checkpoints))

  unfoldable pub get_task : TaskGetArgs → Env → Session → Outcome
  get_task a e s = printed (show_task a.show_results) (task_get a.task_id e s)

  unfoldable pub show_run : RunDetails → List Text
  show_run details =
      blank
      ∷ (dump_run d details.run true true
          ++ blank ∷ (checkpoints_part true details.checkpoints ++ blank ∷ []))

  unfoldable pub get_run : Uuid → Env → Session → Outcome
  get_run run_id e s = printed show_run (run_get run_id e s)
