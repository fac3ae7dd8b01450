-- ===== src/Tests/Loops.antt =====
-- Tests and witnesses on the loops of a worker.
use mathlib.Core.List.{reverse}
use taskturbine.Base.{◌≡◌, refl, map, true, [], ◌∷◌, ◌++◌, List, arith}
use taskturbine.Base.Int.{pos}
use taskturbine.Base.Text.{codes, text_eq}
use taskturbine.Models.{ClaimedTask}
use taskturbine.Sql.Session.{Session, effects, empty_db, sql_error}
use taskturbine.Storage.Claim.{claim_task, run_claimable}
use taskturbine.Worker.{default_config, new_app, new_worker, claim_tasks}
use taskturbine.Worker.Loops.{
  accepted, full, closed, finished, disabled, claiming, send_loop, Claimer, Turn, claims, sends,
  claim_loop, last, but_last, claim_timeout, departs,
}
use taskturbine.Worker.Sending.{send_loop-append, send_loop_finishes, claim_loop_stops}
use taskturbine.Worker.Idle.{polls, idle_worker_departs}
use taskturbine.Tests.Fixtures.{at, on, claimed, asleep}

abbrev second : ClaimedTask
second = record claimed { task_id = 3; run_id = 4 }

abbrev both : List ClaimedTask
both = claimed ∷ second ∷ []

-- The channel takes the second task, is full, and is closed.
send_loop-append_example :
    (send_loop (accepted ∷ full ∷ closed ∷ []) both).left
      ++ reverse (send_loop (accepted ∷ full ∷ closed ∷ []) both).sent
    ≡ both
send_loop-append_example = send_loop-append (accepted ∷ full ∷ closed ∷ []) both

sent_last_first : (send_loop (accepted ∷ full ∷ accepted ∷ []) both).sent ≡ second ∷ claimed ∷ []
unfolding send_loop last but_last
sent_last_first = refl

send_loop_finishes_example :
    ((send_loop (full ∷ accepted ∷ full ∷ accepted ∷ []) both).status ≡ finished)
    × ((send_loop (full ∷ accepted ∷ full ∷ accepted ∷ []) both).left ≡ [])
send_loop_finishes_example =
    send_loop_finishes (full ∷ accepted ∷ full ∷ accepted ∷ []) both refl (omega arith)

-- The first statement of the session fails.
abbrev failing : Session
failing = record (on empty_db) { faults = true ∷ [] }

abbrev claimer : Claimer
claimer = record {
  worker = new_worker (new_app default_config) (codes "w") [];
  session = failing;
  sent = [];
  phase = claiming;
}

abbrev later_turns : List Turn
later_turns = claims (at 30) (accepted ∷ []) ∷ sends [] ∷ []

claim_loop_stops_example :
    ((claim_loop (claims (at 20) [] ∷ later_turns) claimer).session
      ≡ (claim_tasks claimer.worker (claim_timeout claimer.worker) (at 20) failing).2)
    × ((claim_loop (claims (at 20) [] ∷ later_turns) claimer).sent ≡ [])
    × ((claim_loop (claims (at 20) [] ∷ later_turns) claimer).phase ≡ disabled)
unfolding new_worker new_app claim_tasks claim_task effects
claim_loop_stops_example =
    claim_loop_stops claimer (at 20) [] later_turns sql_error refl refl (refl, (refl, tt))

-- The run is due at 10.
abbrev idle_claimer : Claimer
idle_claimer = record claimer {
  worker =
      new_worker
        (new_app (record default_config {
          usecase = codes "u";
          worker_shutdown_on_idle = true;
          worker_shutdown_idle_max = pos 2;
        }))
        (codes "w") [];
  session = on asleep;
}

idle_worker_departs_example :
    departs (map polls (((at 3, []) ∷ []) ∷ ((at 5, []) ∷ []) ∷ [])) idle_claimer ≡ true
unfolding new_worker new_app run_claimable text_eq
idle_worker_departs_example =
    idle_worker_departs idle_claimer 2 0 ((at 3, []) ∷ []) (((at 5, []) ∷ []) ∷ []) refl
      (omega arith) refl refl refl refl refl ((refl, tt), ((refl, tt), tt))
