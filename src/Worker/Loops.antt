-- ===== src/Worker/Loops.antt =====
-- The loops of a running worker: claim_tasks, process_task, run_upkeep and check_idle_shutdown of
-- taskturbine-app/src/app.rs. What the channel answers, which branch of a `tokio::select!` is ready,
-- and when a timer ticks are parameters: lists, in the order of time. A `select!` whose branch is
-- ready with a value that its pattern does not match goes on waiting without that branch.
use taskturbine.Base.{
  ℕ, Option, none, some, zero, suc, ◌*◌, ◌&&◌, Bool, true, false, List, [], ◌∷◌, ◌++◌,
  if◌then◌else◌,
}
use taskturbine.Base.Int.{pos, pos_part, ltb_ℤ}
use taskturbine.Models.{ClaimedTask, second}
use taskturbine.Sql.Session.{Env, Session, Result, ok, err, panic}
use taskturbine.Storage.Rows.{as_u64}
use taskturbine.Worker.{Worker, claim_tasks, execute_task, worker_upkeep, should_shutdown}

-- What `try_send` answers.
pub data Answer : Type 0 where
  accepted full closed : Answer

-- How the sending of claimed tasks stands: all are sent, the channel is closed, or it goes on.
pub data Sending : Type 0 where
  finished shut waiting : Sending

pub record Sent : Type 0 where
  pub sent : List ClaimedTask  -- in the order of sending
  pub left : List ClaimedTask
  pub status : Sending

-- The claimed tasks but the last, and the last.
unfoldable pub but_last : ClaimedTask → List ClaimedTask → List ClaimedTask
but_last t [] = []
but_last t (u ∷ us) = t ∷ but_last u us

unfoldable pub last : ClaimedTask → List ClaimedTask → ClaimedTask
last t [] = t
last t (u ∷ us) = last u us

-- The inner loop of claim_tasks: the last task is sent, and popped if the channel took it; a full
-- channel is tried again after a sleep.
unfoldable pub send_loop : List Answer → List ClaimedTask → Sent
send_loop answers [] = record { sent = []; left = []; status = finished }
send_loop [] (t ∷ ts) = record { sent = []; left = t ∷ ts; status = waiting }
send_loop (accepted ∷ answers) (t ∷ ts) =
    let rest = send_loop answers (but_last t ts) in record rest { sent = last t ts ∷ rest.sent }
send_loop (full ∷ answers) (t ∷ ts) = send_loop answers (t ∷ ts)
send_loop (closed ∷ answers) (t ∷ ts) = record { sent = []; left = t ∷ ts; status = shut }

-- Where the claimer stands: it waits for a turn, it waits with the branch of the claim disabled, it
-- sends what it claimed, or it has ended.
pub data Phase : Type 0 where
  claiming disabled ended : Phase
  sending : List ClaimedTask → Phase

pub record Claimer : Type 0 where
  pub worker : Worker
  pub session : Session
  pub sent : List ClaimedTask
  pub phase : Phase

-- What is ready: there are no receivers, there is a shutdown, a claim at a time with what the
-- channel answers to its tasks, or more answers of the channel.
pub data Turn : Type 0 where
  no_receivers stopping : Turn
  claims : Env → List Answer → Turn
  sends : List Answer → Turn

abbrev pub phase_of : Sent → Phase
phase_of r = by_status r.status r.left
  where
    by_status : Sending → List ClaimedTask → Phase
    by_status finished ts = claiming
    by_status shut ts = ended
    by_status waiting ts = sending ts

abbrev pub delivered : Claimer → Sent → Claimer
delivered c r = record c { sent = c.sent ++ r.sent; phase = phase_of r }

-- The answer of Worker::claim_tasks: the branch matches Ok only.
abbrev pub claimed : List Answer → Claimer → Result (List ClaimedTask) × Worker × Session → Claimer
claimed answers c (ok ts, w, s) =
    delivered (record c { worker = w; session = s }) (send_loop answers ts)
claimed answers c (err x, w, s) = record c { worker = w; session = s; phase = disabled }
claimed answers c (panic, w, s) = record c { worker = w; session = s; phase = ended }

abbrev pub claim_timeout : Worker → ℕ
claim_timeout w = as_u64 w.app.config.worker_claim_timeout_secs * second

abbrev pub turn_in : Phase → Turn → Claimer → Claimer
turn_in claiming no_receivers c = record c { phase = ended }
turn_in claiming stopping c = record c { phase = ended }
turn_in claiming (claims e answers) c =
    claimed answers c (claim_tasks c.worker (claim_timeout c.worker) e c.session)
turn_in claiming (sends answers) c = c
turn_in disabled no_receivers c = record c { phase = ended }
turn_in disabled stopping c = record c { phase = ended }
turn_in disabled (claims e answers) c = c
turn_in disabled (sends answers) c = c
turn_in (sending ts) no_receivers c = c
turn_in (sending ts) stopping c = c
turn_in (sending ts) (claims e answers) c = c
turn_in (sending ts) (sends answers) c = delivered c (send_loop answers ts)
turn_in ended turn c = c

-- claim_tasks, the loop.
unfoldable pub claim_loop : List Turn → Claimer → Claimer
claim_loop [] c = c
claim_loop (t ∷ ts) c = claim_loop ts (turn_in c.phase t c)

-- What is ready in process_task: the first or the second `recv()` with a task or with an error, or a
-- shutdown; a task comes with the environment of its execution.
pub data Ready : Type 0 where
  first_task second_task : ClaimedTask → Env → Ready
  first_error second_error shutdown : Ready

pub record Executor : Type 0 where
  pub session : Session
  pub executed : List ClaimedTask
  pub first : Bool  -- the branch that executes a task is enabled
  pub second : Bool  -- the branch that ends the loop is enabled
  pub running : Bool

-- A task of the first `recv()` is executed, and the `select!` starts again with both branches.
abbrev pub executes : Worker → ClaimedTask → Env → Executor → Executor
executes w t e x =
    if x.first
    then record x {
      session = execute_task w t e x.session;
      executed = x.executed ++ t ∷ [];
      first = true;
      second = true;
    }
    else x

abbrev pub ready_step : Worker → Ready → Executor → Executor
ready_step w (first_task t e) x = executes w t e x
ready_step w (second_task t e) x = record x { second = false }
ready_step w first_error x = record x { first = false }
ready_step w second_error x = if x.second then record x { running = false } else x
ready_step w shutdown x = record x { running = false }

-- process_task, the loop.
unfoldable pub process_task : Worker → List Ready → Executor → Executor
process_task w [] x = x
process_task w (r ∷ rs) x = if x.running then process_task w rs (ready_step w r x) else x

-- The ticks of a timer, and a shutdown.
pub data Tick : Type 0 where
  tick : Env → Tick
  stopped : Tick

-- run_upkeep, the loop: an error is logged, and the next tick tries again. The metrics are left out.
unfoldable pub upkeep_loop : Worker → List Tick → Session → Session
upkeep_loop w [] s = s
upkeep_loop w (tick e ∷ ts) s = upkeep_loop w ts (worker_upkeep w e s).1
upkeep_loop w (stopped ∷ ts) s = s

-- check_idle_shutdown: the worker as it is at each tick of a second; whether it shuts down.
unfoldable pub idle_loop : List Worker → Bool
idle_loop [] = false
idle_loop (w ∷ ws) = if should_shutdown w then true else idle_loop ws

-- The worker as each tick of check_idle_shutdown finds it: the claimer takes its turns between them.
unfoldable pub observed : List (List Turn) → Claimer → List Worker
observed [] c = []
observed (ts ∷ rest) c = let c' = claim_loop ts c in c'.worker ∷ observed rest c'

-- run_worker, for a worker that may shut down when it is idle: whether it departs at one of the ticks.
unfoldable pub departs : List (List Turn) → Claimer → Bool
departs ticks c = c.worker.app.config.worker_shutdown_on_idle && idle_loop (observed ticks c)

-- The tasks that a running worker spawns.
pub data Spawned : Type 0 where
  executor claimer upkeeper idle_checker : Spawned

abbrev executors : ℕ → List Spawned
executors zero = []
executors (suc n) = executor ∷ executors n

-- run_worker: the tasks that it spawns. `none` is a panic: a channel has a capacity of twice the
-- executors, which must not be 0, and a negative number is too large as a usize.
unfoldable pub run_worker : Worker → Option (List Spawned)
run_worker w =
    let config = w.app.config in
    if ltb_ℤ (pos 0) config.worker_concurrency
    then some (
        executors (pos_part config.worker_concurrency)
        ++ claimer
          ∷ ((if config.worker_upkeep_inline then upkeeper ∷ [] else [])
              ++ (if config.worker_shutdown_on_idle then idle_checker ∷ [] else [])))
    else none

-- run_upkeep_worker.
unfoldable pub run_upkeep_worker : List Spawned
run_upkeep_worker = upkeeper ∷ []
