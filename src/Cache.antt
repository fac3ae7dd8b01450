-- ===== src/Cache.antt =====
-- Checkpoints of taskturbine-core/src/models.rs: the in-memory names and values of steps. A lock is
-- held by one thread at a time and never poisoned, so `store` and `add` do not fail.
pub mod Names
pub mod Loads
use taskturbine.Base.{
  ℕ, ◌+◌, ◌-◌, ◌%◌, ◌^◌, ◌/◌, List, [], ◌∷◌, ◌++◌, Option, none, some, Bool, true, false, ◌&&◌,
  ◌==◌, ltb, any, or_else, zero, suc, if◌then◌else◌,
}
use taskturbine.Base.Text.{Text, text_eq, codes}
use taskturbine.Models.{Uuid, Checkpoint}

-- Display of a u32: the decimal digits. The fuel is above the number, so it never runs out.
unfoldable pub digits : ℕ → ℕ → Text
digits zero n = []
digits (suc f) n =
    let rest = digits f (n / 10) in if ltb n 10 then (48 + n) ∷ [] else rest ++ (48 + n % 10) ∷ []

unfoldable pub show_count : ℕ → Text
unfolding digits
show_count n = digits (suc n) n

-- A map by keys, as an association list: the newest entry of a key counts.
abbrev pub get {ℓ κ} : {K : Type ℓ} {V : Type κ} → (K → Bool) → List (K × V) → Option V
get is_key [] = none
get is_key ((k, v) ∷ m) = if is_key k then some v else get is_key m

pub record Checkpoints : Type 0 where
  pub counters : List (Text × ℕ)
  pub loaded : List Uuid
  pub checkpoint_data : List ((Uuid × Text) × Checkpoint)

-- Checkpoints::new.
abbrev pub new : Checkpoints
new = record { counters = []; loaded = []; checkpoint_data = [] }

unfoldable pub format_name : Text → ℕ → Text
format_name name count = if count == 1 then name else name ++ (codes "#" ++ show_count count)

unfoldable pub get_counter : Checkpoints → Text → Option ℕ
get_counter c name = get (text_eq name) c.counters

unfoldable pub get_latest_name : Checkpoints → Text → Option Text
get_latest_name c step_name = latest (get_counter c step_name)
  where
    latest : Option ℕ → Option Text
    latest none = none
    latest (some counter) = some (format_name step_name counter)

-- The count of a name after one more: a missing counter starts at 0, and a u32 wraps around.
abbrev pub next_count : Option ℕ → ℕ
next_count o = (or_else o 0 + 1) % 2 ^ 32

unfoldable pub generate_name : Text → Checkpoints → Text × Checkpoints
generate_name name c =
    let count = next_count (get_counter c name) in
    (format_name name count, record c { counters = (name, count) ∷ c.counters })

unfoldable pub is_loaded : Checkpoints → Uuid → Bool
is_loaded c task_id = any (λ t. t == task_id) c.loaded

abbrev pub is_key : Uuid → Text → Uuid × Text → Bool
is_key task_id name (t, n) = t == task_id && text_eq n name

-- `get` of one checkpoint.
unfoldable pub get_checkpoint : Checkpoints → Uuid → Text → Option Checkpoint
get_checkpoint c task_id name = get (is_key task_id name) c.checkpoint_data

unfoldable pub insert_all :
    Uuid → List Checkpoint → List ((Uuid × Text) × Checkpoint) → List ((Uuid × Text) × Checkpoint)
insert_all task_id [] m = m
insert_all task_id (k ∷ ks) m = insert_all task_id ks (((task_id, k.step_name), k) ∷ m)

unfoldable pub store : Uuid → List Checkpoint → Checkpoints → Checkpoints
unfolding insert_all
store task_id ks c = record c {
  checkpoint_data = insert_all task_id ks c.checkpoint_data;
  loaded = task_id ∷ c.loaded;
}

unfoldable pub add : Checkpoint → Checkpoints → Checkpoints
add k c = record c { checkpoint_data = ((k.task_id, k.step_name), k) ∷ c.checkpoint_data }
