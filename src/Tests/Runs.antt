-- ===== src/Tests/Runs.antt =====
-- Tests and witnesses on claims, completions, failures and histories.
use taskturbine.Base.{
  ℕ, ◌≤◌, ◌≡◌, refl, none, some, true, false, List, [], ◌∷◌, All, length, map, update_where,
}
use taskturbine.Base.Int.{pos}
use taskturbine.Base.Text.{codes, text_eq}
use taskturbine.Models.{Task, running, sleeping, TaskState}
use taskturbine.Models.Names.{parse-show}
use taskturbine.Models.State.{show_state, parse_state, to_lowercase}
use taskturbine.Sql.Session.{Db, ok, err, not_running, effects, empty_db}
use taskturbine.Storage.Rows.{find_run, is_run, is_task}
use taskturbine.Storage.Claim.{
  candidates, run_claimable, is_among, claimed_run, claim_statement, claim_task, claim_rows,
}
use taskturbine.Storage.Finish.{
  complete_run, schedule_run, suspend_run, cancel_task, suspended_run, sleeping_task, run_of_task,
  cancelled_run, cancelled_task,
}
use taskturbine.Storage.Fail.{fail_run, do_fail_run, next_attempt}
use taskturbine.Storage.Spawn.{spawn_task}
use taskturbine.Storage.Exclusive.{candidates-claimable, claims_exclusive, claim_statement-run}
use taskturbine.Storage.Complete.{
  Completed, complete_run-Completed, running_answers, schedule_run-sleeping,
}
use taskturbine.Storage.Retry.{fail_run-failed_db, failed_db}
use taskturbine.Storage.Cancel.{cancel_task-written}
use taskturbine.Storage.Effects.Ends.{cancel_task_answers}
use taskturbine.Storage.Calls.{Event, Call, spawns, claims, completes, replay, perform}
use taskturbine.Storage.History.{replay-IsValid, empty-IsValid}
use taskturbine.Storage.Invariant.{IsValid}
use taskturbine.Tests.Fixtures.{at, task, waiting_run, running_run, asleep, busy, on}

abbrev call : Call → ℕ → ℕ → Event
call c t n = record { call = c; env = at t; faults = []; drawn = n }

abbrev history : List Event
history =
    call (spawns (codes "c") (codes "t") [] none) 1 0
    ∷ call (claims [] (codes "w") 600 (pos 5)) 2 2
    ∷ call (completes 101 []) 3 2
    ∷ []

-- The history does its work: the run that it spawns is claimed and completed.
history_states : map (λ r. r.state) (replay empty_db history).runs ≡ TaskState.completed ∷ []
unfolding replay perform spawn_task claim_task claim_statement candidates run_claimable complete_run
    claim_rows text_eq effects
history_states = refl

replay-IsValid_example : IsValid (replay empty_db history)
replay-IsValid_example = replay-IsValid history empty_db empty-IsValid

picks_waiting : is_among (candidates (at 20) [] (pos 1) asleep) waiting_run ≡ true
unfolding candidates run_claimable text_eq
picks_waiting = refl

candidates-claimable_test :
    All (λ r. run_claimable (at 20) [] asleep.tasks r ≡ true) (candidates (at 20) [] (pos 1) asleep)
    × (length (candidates (at 20) [] (pos 1) asleep) ≤ 1)
candidates-claimable_test = candidates-claimable (at 20) [] (pos 1) asleep

claims_exclusive_example :
    is_among
      (candidates (at 30) [] (pos 9) (claim_statement (at 20) [] (codes "w") 600 (pos 1) asleep).1)
      waiting_run
    ≡ false
claims_exclusive_example =
    claims_exclusive (at 20) (at 30) [] [] (pos 1) (pos 9) (codes "w") 600 asleep waiting_run
      picks_waiting

claim_statement-run_test :
    find_run 2 (claim_statement (at 20) [] (codes "w") 600 (pos 1) asleep).1.runs
    ≡ some (claimed_run (at 20) (codes "w") 600 waiting_run)
unfolding candidates run_claimable text_eq
claim_statement-run_test =
    claim_statement-run (at 20) [] (codes "w") 600 (pos 1) asleep 2 waiting_run refl

completes_busy : (complete_run 2 (8 ∷ []) (at 20) (on busy)).0 ≡ ok tt
unfolding complete_run effects
completes_busy = refl

complete_run-Completed_test :
    Completed (at 20) busy (complete_run 2 (8 ∷ []) (at 20) (on busy)).1.store 2 (8 ∷ [])
complete_run-Completed_test = complete_run-Completed (at 20) (on busy) 2 (8 ∷ []) completes_busy

running_answers_test :
    ((complete_run 2 [] (at 20) (on asleep)).0 ≡ err (not_running 2))
    × ((schedule_run 2 5 (at 20) (on asleep)).0 ≡ err (not_running 2))
running_answers_test = running_answers (at 20) (on asleep) 2 [] 5 refl

schedules_busy : (schedule_run 2 5 (at 20) (on busy)).0 ≡ ok tt
unfolding schedule_run suspend_run effects
schedules_busy = refl

schedule_run-sleeping_test :
    (running_run.state ≡ running)
    × ((schedule_run 2 5 (at 20) (on busy)).1.store ≡ record busy {
      runs = update_where (is_run 2) (suspended_run 25 none) busy.runs;
      tasks = update_where (is_task 1) sleeping_task busy.tasks;
    })
schedule_run-sleeping_test =
    schedule_run-sleeping (at 20) (on busy) 2 5 running_run refl schedules_busy

fails_busy : (fail_run 2 [] (some 5) (at 20) (on busy)).0 ≡ ok tt
unfolding fail_run do_fail_run next_attempt effects text_eq
fails_busy = refl

fail_run-failed_db_test :
    (true ≡ true)
    × ((fail_run 2 [] (some 5) (at 20) (on busy)).1.store
        ≡ failed_db (at 20) (on busy) 2 [] (some 5) (task running))
unfolding text_eq
fail_run-failed_db_test =
    fail_run-failed_db (at 20) (on busy) 2 [] (some 5) running_run (task running) refl refl
      fails_busy

abbrev last_task : Task
last_task = record (task running) { max_attempts = pos 1 }

abbrev last_try : Db
last_try = record busy { tasks = last_task ∷ [] }

cancels_asleep :
    (cancel_task 1 none (at 20) (on asleep)).0 ≡ ok (cancelled_task (at 20) (task sleeping))
unfolding text_eq
cancels_asleep =
    cancel_task_answers (at 20) (on asleep) 1 none (some (task sleeping)) refl (refl, tt) refl

cancel_task-written_test : (cancel_task 1 none (at 20) (on asleep)).1.store ≡ record asleep {
  tasks = update_where (is_task 1) (cancelled_task (at 20)) asleep.tasks;
  runs = update_where (run_of_task 1) (cancelled_run (at 20) []) asleep.runs;
}
cancel_task-written_test =
    cancel_task-written (at 20) (on asleep) 1 none (cancelled_task (at 20) (task sleeping))
      cancels_asleep

parse-show_test : parse_state (codes "Running") ≡ some running
unfolding to_lowercase show_state
parse-show_test = parse-show running (codes "Running") refl
