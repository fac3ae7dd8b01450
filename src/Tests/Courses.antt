-- ===== src/Tests/Courses.antt =====
-- Tests and witnesses on the life of a run.
use taskturbine.Base.{
  any, false, arith, length, rows_where, ℕ, ◌≡◌, refl, ◌⊎◌, none, some, List, [], ◌∷◌,
}
use taskturbine.Base.Int.{pos}
use taskturbine.Base.Text.{codes, text_eq}
use taskturbine.Models.{Run, completed, cancelled}
use taskturbine.Sql.Session.{Db, effects}
use taskturbine.Storage.Rows.{find_run}
use taskturbine.Storage.Claim.{claim_task, claim_statement, candidates, run_claimable, claim_rows}
use taskturbine.Storage.Finish.{complete_run, completed_run}
use taskturbine.Storage.Fail.{
  fail_run, do_fail_run, next_attempt, handle_expired_claims, fail_expired, claim_expired,
}
use taskturbine.Storage.Expired.{handle_expired_claims-clears}
use taskturbine.Storage.Spawn.{spawn_task}
use taskturbine.Storage.Event.{emit_event, upsert_event, wake}
use taskturbine.Storage.Calls.{
  Event, Call, claims, completes, emits, fails, spawns, replay, perform,
}
use taskturbine.Storage.Invariant.{IsValid}
use taskturbine.Storage.Lifecycle.{Reach, life}
use taskturbine.Storage.Lifecycle.Course.{replay-Reach, result_final}
use taskturbine.Storage.Live.{Sound}
use taskturbine.Storage.Live.Course.{replay-Sound}
use taskturbine.Tests.Fixtures.{at, task, waiting_run, running_run, asleep, busy, on, with_rows}

abbrev call : Call → ℕ → Event
call c t = record { call = c; env = at t; faults = []; drawn = 0 }

asleep-IsValid : IsValid asleep
asleep-IsValid = record { runs_ok = (refl, tt); run_ids = (refl, tt); task_ids = (refl, tt) }

-- The event comes, and a worker claims the run and completes it.
abbrev to_the_end : List Event
to_the_end =
    call (emits (codes "e") (7 ∷ [])) 5
    ∷ call (claims [] (codes "w") 600 (pos 5)) 20
    ∷ call (completes 2 (4 ∷ [])) 30
    ∷ []

replay-Reach_example :
    (last : Run) × (find_run 2 (replay asleep to_the_end).runs ≡ some last)
    × Reach (life waiting_run) (life last)
unfolding text_eq perform emit_event upsert_event wake claim_task claim_statement candidates
    run_claimable claim_rows complete_run effects
replay-Reach_example =
    replay-Reach to_the_end asleep 2 waiting_run asleep-IsValid refl (refl, (refl, (refl, tt)))

abbrev done_run : Run
done_run = completed_run (at 30) (4 ∷ []) running_run

abbrev over : Db
over = with_rows (task completed) done_run

over-IsValid : IsValid over
over-IsValid = record {
  runs_ok = ((refl, refl, refl), tt);
  run_ids = (refl, tt);
  task_ids = (refl, tt);
}

abbrev after_the_end : List Event
after_the_end =
    call (emits (codes "e") (7 ∷ [])) 35
    ∷ call (claims [] (codes "w") 600 (pos 5)) 40
    ∷ call (completes 2 (9 ∷ [])) 50
    ∷ []

result_final_example :
    (last : Run) × (find_run 2 (replay over after_the_end).runs ≡ some last)
    × ((last.state ≡ completed) ⊎ (last.state ≡ cancelled))
    × (last.result ≡ some (4 ∷ []))
unfolding text_eq perform emit_event upsert_event wake claim_task claim_statement candidates
    run_claimable claim_rows complete_run effects
result_final_example =
    result_final after_the_end over 2 done_run over-IsValid refl refl (refl, (refl, (refl, tt)))

-- The event comes, a worker claims the run, the run fails, and a task is spawned.
abbrev failing : List Event
failing =
    call (emits (codes "e") (7 ∷ [])) 5
    ∷ call (claims [] (codes "w") 600 (pos 5)) 20
    ∷ call (fails 2 (4 ∷ []) none) 30
    ∷ call (spawns (codes "c") (codes "t") [] none) 40
    ∷ []

asleep-Sound : Sound asleep
asleep-Sound = record { run_ids = (refl, tt); owners = (refl, tt); single = (refl, tt) }

replay-Sound_example : Sound (replay asleep failing)
unfolding text_eq perform emit_event upsert_event wake claim_task claim_statement candidates
    run_claimable claim_rows fail_run do_fail_run next_attempt spawn_task effects
    taskturbine.Models.task_next_retry_in
replay-Sound_example = replay-Sound failing asleep asleep-Sound (tt, (tt, (tt, (refl, tt))))

handle_expired_claims-clears_example :
    let after = (handle_expired_claims (pos 1) (at 700) (on busy)).1.store in
    (any (claim_expired (at 700) after.tasks) after.runs ≡ false)
    × (length (rows_where (claim_expired (at 700) busy.tasks) busy.runs) ≡ 1)
unfolding handle_expired_claims fail_expired do_fail_run next_attempt text_eq effects
    taskturbine.Models.task_next_retry_in
handle_expired_claims-clears_example =
    handle_expired_claims-clears (at 700) (on busy) 1 1 (omega arith) refl
