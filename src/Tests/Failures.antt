-- ===== src/Tests/Failures.antt =====
-- Tests and witnesses on what a failure leaves.
use taskturbine.Base.{◌≡◌, refl, ◌⊎◌, some, [], ◌==◌, if◌then◌else◌}
use taskturbine.Base.Int.{pos}
use taskturbine.Base.Text.{codes, text_eq}
use taskturbine.Models.{Run, Task, running, sleeping}
use taskturbine.Sql.Session.{Db, ok, effects}
use taskturbine.Storage.Rows.{find_run, find_task}
use taskturbine.Storage.Claim.{claim_statement, candidates, run_claimable}
use taskturbine.Storage.Fail.{fail_run, do_fail_run, next_attempt}
use taskturbine.Storage.Retry.{own_task}
use taskturbine.Storage.Effects.Failures.{fail_run_rows, retry_costs_two, run_after, task_after}
use taskturbine.Tests.Fixtures.{at, task, running_run, busy, on}

fails_busy : (fail_run 2 [] (some 5) (at 20) (on busy)).0 ≡ ok tt
unfolding fail_run do_fail_run next_attempt effects text_eq
fails_busy = refl

abbrev after_failure : Db
after_failure = (fail_run 2 [] (some 5) (at 20) (on busy)).1.store

fail_run_rows_example :
    (r : Run) × (t : Task) × (find_run 2 busy.runs ≡ some r)
    × ((r.state ≡ running) ⊎ (r.state ≡ sleeping))
    × (own_task (at 20) r.task_id busy.tasks ≡ some t)
    × (find_run 100 after_failure.runs ≡ run_after (at 20) (on busy) 2 [] (some 5) t 100)
    × (find_task 1 after_failure.tasks ≡ (
        if 1 == r.task_id then some (task_after (at 20) 2 (some 5) t) else find_task 1 busy.tasks))
fail_run_rows_example = fail_run_rows (at 20) (on busy) 2 [] (some 5) 100 1 (refl, tt) fails_busy

retry_costs_two_example :
    (u : Task) × (find_task 1
        (claim_statement (at 30) [] (codes "w") 600 (pos 1) after_failure).1.tasks
      ≡ some u)
    × (u.attempts ≡ 3)
unfolding fail_run do_fail_run next_attempt effects text_eq candidates run_claimable
retry_costs_two_example =
    retry_costs_two (at 20) (at 30) (on busy) 2 [] (some 5) running_run (task running) []
      (codes "w") 600 (pos 1) refl refl refl refl refl fails_busy refl
