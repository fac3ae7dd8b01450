-- ===== src/Python/RoundTrip.antt =====
-- What is left of a value that goes to Python and back (taskturbine-python/src/models.rs).
use taskturbine.Base.{◌≡◌, refl}
use taskturbine.Base.Int.{pos}
use taskturbine.Base.Text.{text_eq}
use taskturbine.Models
use taskturbine.Python.Values.{
  UuidTexts, ClaimedTask, converted, from_claimed, try_claimed, from_spawn, try_spawn,
}
use taskturbine.Python.Dicts.{Objects, to_dict, from_dict, built, get_item}

-- A claimed task that is made a dict, and the dict a claimed task, is the same as before.
pub from_dict-to_dict : (py : Objects) (t : ClaimedTask) → from_dict py (to_dict py t) ≡ built t
unfolding from_dict to_dict get_item text_eq
from_dict-to_dict py t =
    rw
      (
        py.text_law t.task_id,
        py.text_law t.run_id,
        py.text_law t.channel,
        py.text_law t.task_name,
        py.bytes_law t.params,
        py.i32_law t.retry_seconds,
        py.f32_law t.retry_factor,
        py.i32_law t.retry_max_seconds,
        py.i32_law (pos t.attempt),
        py.i32_law t.max_attempts,
      )
      refl

-- A spawn result comes back from Python as it was. A claimed task comes back with the identifier of
-- its task in the place of the identifier of its run.
pub try_claimed-from_claimed :
    (texts : UuidTexts) (r : Models.SpawnResult) (t : Models.ClaimedTask)
    → (try_spawn texts (from_spawn texts r) ≡ converted r)
      × (try_claimed texts (from_claimed texts t) ≡ converted (record t { run_id = t.task_id }))
unfolding try_spawn try_claimed
try_claimed-from_claimed texts r t = (
  rw (texts.of_text-to_text r.task_id, texts.of_text-to_text r.run_id) refl,
  rw (texts.of_text-to_text t.task_id) refl,
)
