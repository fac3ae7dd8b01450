-- ===== src/Tests/Sequences.antt =====
-- Tests and witnesses on tasks that are sequences of steps.
use taskturbine.Base.{◌≡◌, refl, List, [], ◌∷◌}
use taskturbine.Base.Text.{Text, Bytes, codes, text_eq}
use taskturbine.Models.{ClaimedTask}
use taskturbine.Sql.Session.{Db, clean, empty_db, effects}
use taskturbine.Storage.Rows.{store_checkpoint, upsert_checkpoint}
use taskturbine.Storage.Event.{set_checkpoint, get_checkpoints}
use taskturbine.Cache
use taskturbine.Cache.{new}
use taskturbine.Context.{done, StepFn, state, error, async_step, cached_step}
use taskturbine.Context.Sequence.{run_steps, IsQuiet}
use taskturbine.Context.Sequence.Replay.{steps_durable}
use taskturbine.Tests.Fixtures.{at, busy, claimed}

abbrev returns : Bytes → StepFn
returns b e s = (state b, s)

returns-IsQuiet : (b : Bytes) → IsQuiet (returns b)
returns-IsQuiet b = record { keeps = λ e s. refl; clean = λ e s h. h }

abbrev fails : StepFn
fails e s = (error [], s)

-- The same name twice, and another.
abbrev steps : List (Text × StepFn)
steps =
    (codes "a", returns (1 ∷ []))
    ∷ (codes "a", returns (2 ∷ []))
    ∷ (codes "b", returns (3 ∷ []))
    ∷ []

abbrev later_steps : List (Text × StepFn)
later_steps = (codes "a", fails) ∷ (codes "a", fails) ∷ (codes "b", fails) ∷ []

abbrev again : ClaimedTask
again = record claimed { run_id = 9 }

abbrev after_first : Db
after_first = (run_steps claimed steps (at 20) new (clean busy empty_db 0)).2.store

steps_durable_example :
    ((run_steps again later_steps (at 40) new (clean after_first empty_db 4)).0
      ≡ done ((1 ∷ []) ∷ (2 ∷ []) ∷ (3 ∷ []) ∷ []))
    × ((run_steps again later_steps (at 40) new (clean after_first empty_db 4)).2
        ≡ clean after_first empty_db 4)
unfolding run_steps async_step cached_step set_checkpoint get_checkpoints store_checkpoint
    upsert_checkpoint effects text_eq Cache.is_loaded Cache.store Cache.generate_name
    Cache.get_counter Cache.format_name Cache.get_checkpoint Cache.add Cache.show_count Cache.digits
steps_durable_example =
    steps_durable (at 20) (at 40) claimed again steps later_steps
      ((1 ∷ []) ∷ (2 ∷ []) ∷ (3 ∷ []) ∷ []) busy empty_db after_first empty_db 0 4 refl tt
      (returns-IsQuiet _, (returns-IsQuiet _, (returns-IsQuiet _, tt))) (refl, (refl, (refl, tt)))
      refl refl
