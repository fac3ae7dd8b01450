-- ===== src/Tests/Schedules.antt =====
-- Tests and witnesses on the start of the scheduler.
use taskturbine.Base.{ℕ, ◌≡◌, refl, none, some, [], ◌∷◌, List, Option}
use taskturbine.Base.Int.{pos}
use taskturbine.Base.Text.{Text, codes, text_eq, text_eq_complete}
use taskturbine.Sql.Session.{Session, empty_db, effects}
use taskturbine.Storage.Upkeep.{get_scheduler_last_run, set_scheduler_last_run, upsert_schedule}
use taskturbine.Cache.{show_count, digits}
use taskturbine.Scheduler.{
  StorageEntry, timedelta, new_timedelta, restore, storage_key, show_schedule,
}
use taskturbine.Scheduler.Start.{
  ScheduleEntry, by_cron, by_timedelta, entries_of, make_schedule, new_entry,
}
use taskturbine.Scheduler.Restart.{restart_restores, state_of}
use taskturbine.Tests.Fixtures.{at, on}

abbrev config : ScheduleEntry
config = record {
  taskname = codes "t";
  channel = codes "c";
  schedule = by_timedelta (record { hours = none; minutes = none; seconds = some (pos 9) });
  params = none;
  options = none;
}

abbrev no_cron : Text → Option (ℕ → Option ℕ)
no_cron expression = none

-- An entry whose cron expression is not valid is left out.
skips_invalid :
    entries_of no_cron [] 5
      ((codes "a", record config { schedule = by_cron (codes "x") }) ∷ (codes "b", config) ∷ [])
    ≡ new_entry no_cron (codes "b") config 5 (timedelta 9) ∷ []
unfolding entries_of make_schedule new_timedelta restore storage_key
skips_invalid = refl

abbrev entry : Text → StorageEntry
entry key = new_entry no_cron key config 0 (timedelta 9)

abbrev after_run : Session
after_run =
    on (set_scheduler_last_run (storage_key (entry (codes "k"))) 70 (at 80) (on empty_db)).1.store

abbrev read_state : List (Text × ℕ)
read_state = (storage_key (entry (codes "k")), 70) ∷ []

restart_restores_example :
    ((restore text_eq read_state (entry (codes "k"))).last_run ≡ 70)
    × (restore text_eq read_state (entry (codes "z"))
        ≡ restore text_eq (state_of (codes "u") []) (entry (codes "z")))
unfolding set_scheduler_last_run get_scheduler_last_run upsert_schedule text_eq storage_key
    show_schedule show_count digits effects
restart_restores_example =
    restart_restores (at 80) (at 90) (on empty_db) after_run 70 (entry (codes "k"))
      (entry (codes "k")) (entry (codes "z")) read_state refl refl refl refl refl
      (text_eq_complete _ _ refl)
