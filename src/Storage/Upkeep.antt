-- ===== src/Storage/Upkeep.antt =====
-- Upkeep: handle_cancellation_max_age, run_upkeep, cleanup_events, cleanup_tasks, clear_storage,
-- upkeep_metrics and the scheduler's state, of taskturbine-core/src/storage.rs.
use taskturbine.Base.{
  ℕ, ◌+◌, ◌*◌, List, [], ◌∷◌, map, Option, none, some, Bool, false, ◌&&◌, ◌==◌, ltb, length, any,
  or_else, rows_where, update_where, delete_where, if◌then◌else◌,
}
use taskturbine.Base.Int.{ℤ, pos_part, neg_part}
use taskturbine.Base.Text.{Text, text_eq}
use taskturbine.Models.{
  Uuid, pending, running, sleeping, cancelled, Task, Run, EventRow, SchedulerState, second,
}
use taskturbine.Models.State.{state_eq}
use taskturbine.Sql.Session.{
  Db, Env, M, ◌>>=◌, ◌>>◌, ask, pure, Result, ok, err, panic, begin, commit_or_panic, pool_fetch,
  pool_execute, pool_execute_checked, execute_checked,
}
use taskturbine.Storage.Rows.{find_task, is_waiting, is_finished, limit_rows}
use taskturbine.Storage.Fail.{handle_expired_claims}

-- NOW() - since > max_age seconds, for a signed age.
abbrev pub older_than_age : Env → ℤ → ℕ → Bool
older_than_age e age since = ltb (since + pos_part age * second) (e.now + neg_part age * second)

-- The age counts from the first start, or from the creation of a task that never started.
abbrev pub age_start : Task → ℕ
age_start t = or_else t.first_started_at t.created_at

abbrev over_age : Env → Option Task → Bool
over_age e none = false
over_age e (some t) =
    is_waiting t.state
    && text_eq t.usecase e.config.usecase
    && older_than_age e t.cancellation_max_age (age_start t)

abbrev pub run_over_age : Env → List Task → Run → Bool
run_over_age e tasks r = over_age e (find_task r.task_id tasks)

abbrev pub aged_run : Env → Run → Run
aged_run e r = record r { state = cancelled; completed_at = some e.now }

abbrev pub aged_task : Env → Task → Task
aged_task e t = record t { state = cancelled; completed_at = some e.now }

abbrev pub cancel_aged : Env → Db → Option (List Run) → Option (ℕ × Db)
cancel_aged e db none = none
cancel_aged e db (some picked) =
    let is_picked = λ (t : Task). any (λ r. r.task_id == t.task_id) picked in
    some (
      length (rows_where is_picked db.tasks),
      record db {
        runs = update_where (λ r. any (λ c. c.run_id == r.run_id) picked) (aged_run e) db.runs;
        tasks = update_where is_picked (aged_task e) db.tasks;
      },
    )

-- The statement: the affected tasks are counted.
unfoldable pub age_statement : Env → ℤ → Db → Option (ℕ × Db)
age_statement e limit db =
    cancel_aged e db (limit_rows limit (rows_where (run_over_age e db.tasks) db.runs))

unfoldable pub handle_cancellation_max_age : ℤ → M ℕ
handle_cancellation_max_age limit = do
  begin
  e ← ask
  affected ← execute_checked (age_statement e limit)
  commit_or_panic
  pure affected

unfoldable pub run_upkeep : ℤ → M (Unit {0})
run_upkeep limit = do
  released ← handle_expired_claims limit
  affected ← handle_cancellation_max_age limit
  pure tt

abbrev pub old_event : Env → ℕ → EventRow → Bool
old_event e older_than v = text_eq v.usecase e.config.usecase && ltb v.created_at older_than

abbrev pub delete_events : Db → Option (List EventRow) → Option (ℕ × Db)
delete_events db none = none
delete_events db (some picked) =
    let named =
      λ (v : EventRow). any (λ (w : EventRow). text_eq w.event_name v.event_name) picked in
    some (length (rows_where named db.events), record db { events = delete_where named db.events })

-- The DELETE goes by the names alone.
unfoldable pub cleanup_events_statement : Env → ℕ → ℤ → Db → Option (ℕ × Db)
cleanup_events_statement e older_than limit db =
    delete_events db (limit_rows limit (rows_where (old_event e older_than) db.events))

unfoldable pub cleanup_events : ℕ → ℤ → M ℕ
cleanup_events older_than limit =
    ask >>= λ e. pool_execute_checked (cleanup_events_statement e older_than limit)

abbrev pub before : Option ℕ → ℕ → Bool
before none t = false
before (some s) t = ltb s t

abbrev pub finished_task : Env → ℕ → Task → Bool
finished_task e older_than t =
    is_finished t.state && before t.completed_at older_than && text_eq t.usecase e.config.usecase

abbrev pub delete_tasks : Db → Option (List Task) → Option (ℕ × Db)
delete_tasks db none = none
delete_tasks db (some picked) =
    let gone = λ (id : Uuid). any (λ (t : Task). t.task_id == id) picked in
    some (
      length (rows_where (λ t. gone t.task_id) db.tasks),
      record db {
        waits = delete_where (λ w. gone w.task_id) db.waits;
        runs = delete_where (λ r. gone r.task_id) db.runs;
        checkpoints = delete_where (λ c. gone c.task_id) db.checkpoints;
        tasks = delete_where (λ t. gone t.task_id) db.tasks;
      },
    )

unfoldable pub cleanup_tasks_statement : Env → ℕ → ℤ → Db → Option (ℕ × Db)
cleanup_tasks_statement e older_than limit db =
    delete_tasks db (limit_rows limit (rows_where (finished_task e older_than) db.tasks))

unfoldable pub cleanup_tasks : ℕ → ℤ → M ℕ
cleanup_tasks older_than limit =
    ask >>= λ e. pool_execute_checked (cleanup_tasks_statement e older_than limit)

-- The five TRUNCATEs, in order, each committed by itself.
unfoldable pub clear_storage : M (Unit {0})
clear_storage = do
  pool_execute λ db. (tt, record db { events = [] })
  pool_execute λ db. (tt, record db { waits = [] })
  pool_execute λ db. (tt, record db { checkpoints = [] })
  pool_execute λ db. (tt, record db { runs = [] })
  pool_execute λ db. (tt, record db { tasks = [] })

pub record UpkeepMetric : Type 0 where
  pub channel : Text
  pub total : ℕ
  pub running : ℕ
  pub pending : ℕ
  pub sleeping : ℕ

abbrev pub count_where {ℓ} : {A : Type ℓ} → (A → Bool) → List A → ℕ
count_where p xs = length (rows_where p xs)

-- The aggregates of one group.
abbrev pub channel_metric : List Task → Text → UpkeepMetric
channel_metric tasks c =
    let group : List Task = rows_where (λ t. text_eq t.channel c) tasks in
    record {
      channel = c;
      total = length group;
      running = count_where (λ t. state_eq t.state running) group;
      pending = count_where (λ t. state_eq t.state pending) group;
      sleeping = count_where (λ t. state_eq t.state sleeping) group;
    }

-- GROUP BY channel.
unfoldable pub channels_of : List Task → List Text
channels_of [] = []
channels_of (t ∷ ts) =
    let rest : List Text = channels_of ts in
    if any (text_eq t.channel) rest then rest else t.channel ∷ rest

unfoldable pub metrics_of : Env → List Task → List UpkeepMetric
metrics_of e tasks =
    let own : List Task = rows_where (λ t. text_eq t.usecase e.config.usecase) tasks in
    map (channel_metric own) (channels_of own)

abbrev no_metric : UpkeepMetric
no_metric = record { channel = []; total = 0; running = 0; pending = 0; sleeping = 0 }

abbrev or_no_metric : Result (List UpkeepMetric) → List UpkeepMetric
or_no_metric (ok ms) = ms
or_no_metric (err x) = no_metric ∷ []
or_no_metric panic = no_metric ∷ []

-- upkeep_metrics has no error: a failed query gives one row of zeros.
unfoldable pub upkeep_metrics : M (List UpkeepMetric)
upkeep_metrics e s =
    let m : M (List UpkeepMetric) = pool_fetch (λ db. metrics_of e db.tasks) in
    (ok (or_no_metric (m e s).0), (m e s).1)

-- get_scheduler_last_run: the rows of the usecase, as the entries of the map.
unfoldable pub get_scheduler_last_run : M (List (Text × ℕ))
get_scheduler_last_run = ask >>= λ e. pool_fetch λ db.
    map (λ w. (w.schedule_id, w.last_run))
      (rows_where (λ w. text_eq w.usecase e.config.usecase) db.scheduler_state)

-- INSERT … ON CONFLICT (usecase, schedule_id) DO UPDATE.
unfoldable pub upsert_schedule : SchedulerState → List SchedulerState → List SchedulerState
upsert_schedule w [] = w ∷ []
upsert_schedule w (x ∷ xs) =
    if text_eq x.usecase w.usecase && text_eq x.schedule_id w.schedule_id
    then record x { last_run = w.last_run } ∷ xs
    else x ∷ upsert_schedule w xs

unfoldable pub set_scheduler_last_run : Text → ℕ → M (Unit {0})
set_scheduler_last_run key last_run = ask >>= λ e. pool_execute λ db. (
  tt,
  record db {
    scheduler_state =
        upsert_schedule
          (record { usecase = e.config.usecase; schedule_id = key; last_run = last_run })
          db.scheduler_state;
  },
)
