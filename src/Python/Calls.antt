-- ===== src/Python/Calls.antt =====
-- How a method of the bindings calls the storage: the exceptions, and the parsing of identifiers
-- (taskturbine-python/src/lib.rs and asynclib.rs).
use taskturbine.Base.{ℕ, Option, none, some, Bool, not, ◌&&◌, ◌⊎◌, inl, inr}
use taskturbine.Base.Int.{ℤ, pos, ltb_ℤ, ◌-ℤ◌}
use taskturbine.Models.{Uuid}
use taskturbine.Sql.Session.{Env, Session, Result, ok, err, panic, StorageError, M}

-- The exceptions: those with a text of their own ("Invalid uuid", "Invalid uuid for task_id",
-- "Checkpoint not found", "Checkpoint not found, or read failed"), and those whose text quotes an
-- error of the storage. `panic_exception` is a panic of the storage, which PyO3 raises.
pub data PyErr : Type 0 where
  invalid_uuid invalid_uuid_for_task : PyErr
  checkpoint_not_found checkpoint_not_found_or_failed : PyErr
  panic_exception : PyErr
  value_error storage_error checkpoint_error : StorageError → PyErr

-- The classes of the exceptions: ValueError, the bindings' StorageError and CheckpointError, and
-- PanicException.
pub data PyClass : Type 0 where
  value_class storage_class checkpoint_class panic_class : PyClass

abbrev pub class_of : PyErr → PyClass
class_of invalid_uuid = value_class
class_of invalid_uuid_for_task = value_class
class_of checkpoint_not_found = checkpoint_class
class_of checkpoint_not_found_or_failed = checkpoint_class
class_of panic_exception = panic_class
class_of (value_error x) = value_class
class_of (storage_error x) = storage_class
class_of (checkpoint_error x) = checkpoint_class

pub data PyResult (A : Type 0) : Type 0 where
  returned : A → PyResult A
  raised : PyErr → PyResult A

-- The value, or the class of the exception.
abbrev pub outcome : {A : Type 0} → PyResult A → A ⊎ PyClass
outcome (returned a) = inl a
outcome (raised x) = inr (class_of x)

abbrev pub P : Type 0 → Type 0
P A = Env → Session → PyResult A × Session

-- `map` of the value and `map_err` of the error of an answer.
abbrev pub answer :
    {A B : Type 0} → (A → B) → (StorageError → PyErr) → Result A × Session → PyResult B × Session
answer f x (ok a, s) = (returned (f a), s)
answer f x (err y, s) = (raised (x y), s)
answer f x (panic, s) = (raised panic_exception, s)

abbrev pub call : {A B : Type 0} → (A → B) → (StorageError → PyErr) → M A → P B
call f x m e s = answer f x (m e s)

-- `let Ok(id) = … else` on the text of an identifier.
abbrev pub with_uuid : {A : Type 0} → Option Uuid → (Uuid → P A) → P A
with_uuid none k e s = (raised invalid_uuid, s)
with_uuid (some id) k e s = k id e s

-- should_run_upkeep, on the clock's seconds: `timestamp` is an i64 of the caller.
abbrev pub upkeep_due : Bool → ℤ → ℕ → ℤ → Bool
upkeep_due inline interval now timestamp = inline && not (ltb_ℤ (pos now -ℤ timestamp) interval)
