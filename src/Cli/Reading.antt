-- ===== src/Cli/Reading.antt =====
-- The commands that only read (main of taskturbine-cli/src/main.rs).
use taskturbine.Base.{◌≡◌, refl, ◌∙◌, Bool, true, false, not, Option, none, some, List, arith}
use taskturbine.Base.Text.{Text}
use taskturbine.Models.{Uuid}
use taskturbine.Sql.Session.{Env, Session, Result, ok, err, panic, effects}
use taskturbine.Worker.{AppConfig}
use taskturbine.Cli.Admin.{TaskListOptions, RunListOptions, task_list, task_get, run_list, run_get}
use taskturbine.Cli.Commands.{clear, RunListArgs, run_list_options, task_list_options}
use taskturbine.Cli.Formatters.{Display}
use taskturbine.Cli.Configuring.{create_config}
use taskturbine.Cli.Printing.{list_run_with, printed, list_task, list_run, get_task, get_run}
use taskturbine.Cli.Main.{
  Commands, clears, upkeep_worker, migrates, schedules, cleans_events, cleans_tasks, emits,
  lists_runs, lists_tasks, gets_run, gets_task, spawns, cancels, Cli, cli_config, Host, run_command,
  main, run_with, with_config,
}

-- The commands that list and show, and clear where it is not confirmed.
abbrev pub is_reading : Commands → Bool
is_reading (clears execute) = not execute
is_reading (lists_runs a) = true
is_reading (lists_tasks a) = true
is_reading (gets_run run_id) = true
is_reading (gets_task a) = true
is_reading _ = false

printed-store {ℓ} :
    {A : Type ℓ} (print : A → List Text) (p : Result A × Session)
    → (printed print p).2.store ≡ p.1.store
printed-store print (ok a, s) = refl
printed-store print (err x, s) = refl
printed-store print (panic, s) = refl

task_list-store :
    (matches : Text → Text → Bool) (o : TaskListOptions) (e : Env) (s : Session)
    → (task_list matches o e s).1.store ≡ s.store
unfolding task_list effects
task_list-store matches o e s = ground arith

task_get-store : (task_id : Uuid) (e : Env) (s : Session) → (task_get task_id e s).1.store ≡ s.store
unfolding task_get effects
task_get-store task_id e s = ground arith

run_list-store : (o : RunListOptions) (e : Env) (s : Session) → (run_list o e s).1.store ≡ s.store
unfolding run_list effects
run_list-store o e s = ground arith

run_get-store : (run_id : Uuid) (e : Env) (s : Session) → (run_get run_id e s).1.store ≡ s.store
unfolding run_get effects
run_get-store run_id e s = ground arith

list_run-store :
    (d : Display) (of_text : Text → Option Uuid) (a : RunListArgs) (e : Env) (s : Session)
    → (list_run d of_text a e s).2.store ≡ s.store
unfolding list_run
list_run-store d of_text a e s = by_options (run_list_options of_text a)
  where
    by_options : (o : Option RunListOptions) → (list_run_with d o e s).2.store ≡ s.store
    by_options none = refl
    by_options (some o) = printed-store _ (run_list o e s) ∙ run_list-store o e s

module _ {F : Type 0} (host : Host F) where
  run_command-store :
      (c : AppConfig) (command : Commands) (e : Env) (s : Session)
      → is_reading command ≡ true
      → (run_command host c command e s).2.store ≡ s.store
  unfolding run_command clear list_task get_task get_run
  run_command-store c (clears true) e s h = cc
  run_command-store c (clears false) e s h = refl
  run_command-store c upkeep_worker e s h = cc
  run_command-store c migrates e s h = cc
  run_command-store c (schedules config) e s h = cc
  run_command-store c (cleans_events limit cutoff_secs) e s h = cc
  run_command-store c (cleans_tasks limit cutoff_secs) e s h = cc
  run_command-store c (emits event_name payload) e s h = cc
  run_command-store c (lists_runs a) e s h = list_run-store host.display host.parse_uuid a e s
  run_command-store c (lists_tasks a) e s h =
      printed-store _ (task_list host.matches (task_list_options a) e s)
      ∙ task_list-store host.matches (task_list_options a) e s
  run_command-store c (gets_run run_id) e s h =
      printed-store _ (run_get run_id e s) ∙ run_get-store run_id e s
  run_command-store c (gets_task a) e s h =
      printed-store _ (task_get a.task_id e s) ∙ task_get-store a.task_id e s
  run_command-store c (spawns a) e s h = cc
  run_command-store c (cancels task_id reason) e s h = cc

-- The commands that list and show, and clear without --execute, change no table, whatever their
-- arguments, the configuration and the statements that fail.
pub main_reads :
    {F : Type 0} (host : Host F) (args : Cli) (e : Env) (s : Session)
    → is_reading args.command ≡ true
    → (main host args e s).2.store ≡ s.store
unfolding main
main_reads host args e s h = by_config (create_config host.figment (cli_config args))
  where
    by_config : (o : Option AppConfig) → (run_with host o args.command e s).2.store ≡ s.store
    by_config none = refl
    by_config (some c) = run_command-store host c args.command (with_config c e) s h
