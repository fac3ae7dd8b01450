-- ===== src/Tests/Bindings.antt =====
-- Tests and witnesses on the Python bindings and the commands.
use taskturbine.Base.{ℕ, All, ◌==◌, ◌≡◌, refl, Option, none, some, Bool, true, [], ◌∷◌}
use taskturbine.Base.Int.{ℤ, pos}
use taskturbine.Base.Text.{Text, Bytes, codes, text_eq}
use taskturbine.Models
use taskturbine.Models.{Uuid, Task, Run, Checkpoint, pending, running}
use taskturbine.Sql.Session.{Db, clean, empty_db, effects}
use taskturbine.Storage.Rows.{find_task, store_checkpoint}
use taskturbine.Storage.Event
use taskturbine.Cache
use taskturbine.Python.Values.{
  UuidTexts, ClaimedTask, from_claimed, try_claimed, converted, from_spawn, try_spawn,
  from_checkpoint,
}
use taskturbine.Python.Dicts.{Objects, from_dict, to_dict, built}
use taskturbine.Python.Calls.{returned, outcome}
use taskturbine.Python.Sync
use taskturbine.Python.Async
use taskturbine.Python.RoundTrip.{from_dict-to_dict, try_claimed-from_claimed}
use taskturbine.Python.Agree.{get_checkpoint_agrees, get_checkpoint-set_checkpoint}
use taskturbine.Cli.Admin.{
  TaskListOptions, RunListOptions, task_list, task_get, run_list, run_get, own_row,
}
use taskturbine.Cli.Queries.{IsAnswer, task_list-IsAnswer, queries_own}
use taskturbine.Tests.Fixtures.{at, on, busy, running_run, task, claimed, checkpoint}

-- The text of an identifier is its one code unit.
abbrev parsed : Text → Option Uuid
parsed [] = none
parsed (x ∷ []) = some x
parsed (x ∷ y ∷ xs) = none

abbrev texts : UuidTexts
texts = record { to_text = λ id. id ∷ []; of_text = parsed; of_text-to_text = λ id. refl }

data Value : Type 0 where
  text : Text → Value
  bytes : Bytes → Value
  int : ℤ → Value
  float : ℕ → Value

abbrev string_of : Value → Text
string_of (text x) = x
string_of (bytes x) = x
string_of (int n) = []
string_of (float x) = []

abbrev bytes_of : Value → Option Bytes
bytes_of (bytes x) = some x
bytes_of _ = none

abbrev int_of : Value → Option ℤ
int_of (int n) = some n
int_of _ = none

abbrev float_of : Value → Option ℕ
float_of (float x) = some x
float_of _ = none

abbrev objects : Objects
objects = record {
  Value = Value;
  of_text = text;
  of_bytes = bytes;
  of_i32 = int;
  of_f32 = float;
  to_string = string_of;
  extract_bytes = bytes_of;
  extract_i32 = int_of;
  extract_f32 = float_of;
  text_law = λ x. refl;
  bytes_law = λ x. refl;
  i32_law = λ x. refl;
  f32_law = λ x. refl;
}

abbrev py_claimed : ClaimedTask
py_claimed = from_claimed texts claimed

from_dict-to_dict_test : from_dict objects (to_dict objects py_claimed) ≡ built py_claimed
from_dict-to_dict_test = from_dict-to_dict objects py_claimed

abbrev spawn_result : Models.SpawnResult
spawn_result = record { run_id = 2; task_id = 1 }

try_claimed-from_claimed_example :
    (try_spawn texts (from_spawn texts spawn_result) ≡ converted spawn_result)
    × (try_claimed texts (from_claimed texts claimed) ≡ converted (record claimed { run_id = 1 }))
try_claimed-from_claimed_example = try_claimed-from_claimed texts spawn_result claimed

abbrev with_checkpoints : Db
with_checkpoints = record busy {
  checkpoints = record checkpoint { step_name = codes "z" } ∷ checkpoint ∷ [];
}

get_checkpoint_agrees_example :
    outcome
      (Sync.get_checkpoint texts
        (Sync.create_context py_claimed)
        (codes "s")
        (at 20)
        (clean with_checkpoints empty_db 0)).0
    ≡ outcome
        (Async.get_checkpoint texts
          (Async.create_context py_claimed)
          (codes "s")
          (at 20)
          (clean with_checkpoints empty_db 0)).0
unfolding text_eq
get_checkpoint_agrees_example =
    get_checkpoint_agrees texts py_claimed (codes "s") (at 20) with_checkpoints empty_db 0
      (refl, (refl, tt))

abbrev loaded_context : Sync.ContextInner
loaded_context = record {
  claimed_task = py_claimed;
  checkpoints = record Cache.new { loaded = 1 ∷ [] };
}

abbrev written_checkpoint : Checkpoint
written_checkpoint = record checkpoint { state = 5 ∷ []; updated_at = 20 }

abbrev kept : Sync.ContextInner
kept =
    (Sync.set_checkpoint texts loaded_context (codes "s") (5 ∷ []) none (at 20)
      (clean busy empty_db 0)).1

abbrev async_kept : Async.AsyncContextInner
async_kept =
    (Async.set_checkpoint texts (Async.create_context py_claimed) (codes "s") (5 ∷ []) none (at 20)
      (clean busy empty_db 0)).1

get_checkpoint-set_checkpoint_test :
    ((Sync.set_checkpoint texts loaded_context
        (codes "s")
        (5 ∷ [])
        none
        (at 20)
        (clean busy empty_db 0)).0
      ≡ returned (from_checkpoint texts written_checkpoint))
    × (Sync.get_checkpoint texts kept (codes "s") (at 70) (on empty_db) ≡ (
      (Sync.set_checkpoint texts loaded_context
          (codes "s")
          (5 ∷ [])
          none
          (at 20)
          (clean busy empty_db 0)).0,
      kept,
      on empty_db,
    ))
    × (Async.get_checkpoint texts async_kept (codes "s") (at 70) (on empty_db) ≡ (
      (Sync.set_checkpoint texts loaded_context
          (codes "s")
          (5 ∷ [])
          none
          (at 20)
          (clean busy empty_db 0)).0,
      on empty_db,
    ))
unfolding text_eq Cache.is_loaded Async.create_context Event.set_checkpoint store_checkpoint effects
get_checkpoint-set_checkpoint_test =
    get_checkpoint-set_checkpoint texts loaded_context (Async.create_context py_claimed) 1 2
      (codes "s") (5 ∷ []) none (at 20) (at 70) (clean busy empty_db 0) (on empty_db)
      written_checkpoint refl refl refl refl refl

-- The texts match that are equal.
abbrev matches : Text → Text → Bool
matches name pattern = text_eq name pattern

abbrev older : Task
older = task pending

abbrev newer : Task
newer = record (task running) { task_id = 8; created_at = 4 }

abbrev two_tasks : Db
two_tasks = record busy { tasks = older ∷ newer ∷ [] }

abbrev first_page : TaskListOptions
first_page = record { taskname = some (codes "t"); state = none; channel = none; limit = pos 1 }

task_list-IsAnswer_example : IsAnswer matches (at 20) first_page (older ∷ newer ∷ []) (newer ∷ [])
unfolding text_eq task_list effects
task_list-IsAnswer_example =
    task_list-IsAnswer matches first_page (at 20) (on two_tasks) (newer ∷ []) refl

abbrev every_run : RunListOptions
every_run = record { task_id = none; state = none }

queries_own_example :
    (text_eq (codes "u") (codes "u") ≡ true)
    × All (λ (r : Run). (r.task_id == 1) ≡ true) (running_run ∷ [])
    × All
        (λ (r : Run). own_row (at 20) (find_task r.task_id (older ∷ newer ∷ [])) ≡ true)
        (running_run ∷ [])
    × (own_row (at 20) (find_task 1 (older ∷ newer ∷ [])) ≡ true)
unfolding text_eq task_get run_list run_get effects
queries_own_example =
    queries_own (at 20) (on two_tasks) 1 2 every_run
      (record { task = older; runs = running_run ∷ []; checkpoints = [] }) (running_run ∷ [])
      (record { run = running_run; checkpoints = [] }) refl refl refl
