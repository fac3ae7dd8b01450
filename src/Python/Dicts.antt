-- ===== src/Python/Dicts.antt =====
-- A claimed task as a dict of Python (to_dict and from_dict of taskturbine-python/src/models.rs). The
-- values of Python are parameters.
use taskturbine.Base.{ℕ, ◌≡◌, Option, none, some, List, [], ◌∷◌}
use taskturbine.Base.Int.{ℤ, pos, pos_part}
use taskturbine.Base.Text.{Text, Bytes, codes, text_eq}
use taskturbine.Cache.{get}
use taskturbine.Python.Values.{ClaimedTask}

-- The values of Python, as far as to_dict makes them and from_dict takes them apart; the laws say
-- that a value is taken apart into what it was made of. `str` of any value is a text.
pub record Objects : Type 1 where
  pub Value : Type 0
  pub of_text : Text → Value
  pub of_bytes : Bytes → Value
  pub of_i32 : ℤ → Value
  pub of_f32 : ℕ → Value
  pub to_string : Value → Text
  pub extract_bytes : Value → Option Bytes
  pub extract_i32 : Value → Option ℤ
  pub extract_f32 : Value → Option ℕ
  pub text_law : (x : Text) → to_string (of_text x) ≡ x
  pub bytes_law : (x : Bytes) → extract_bytes (of_bytes x) ≡ some x
  pub i32_law : (x : ℤ) → extract_i32 (of_i32 x) ≡ some x
  pub f32_law : (x : ℕ) → extract_f32 (of_f32 x) ≡ some x

pub data DictError : Type 0 where
  key_error : Text → DictError
  invalid_value : DictError

pub data DictResult (A : Type 0) : Type 0 where
  built : A → DictResult A
  refused : DictError → DictResult A

abbrev pub and_also : {A B : Type 0} → DictResult A → (A → DictResult B) → DictResult B
and_also (built a) k = k a
and_also (refused x) k = refused x

abbrev pub extracted : {A : Type 0} → Option A → DictResult A
extracted (some a) = built a
extracted none = refused invalid_value

module _ (py : Objects) where
  -- A dict as its items, the newest first: set_item puts one before the others.
  abbrev pub PyDict : Type 0
  PyDict = List (Text × py.Value)

  unfoldable pub to_dict : ClaimedTask → PyDict
  to_dict t =
      (codes "max_attempts", py.of_i32 t.max_attempts)
      ∷ (codes "attempt", py.of_i32 (pos t.attempt))
      ∷ (codes "retry_max_seconds", py.of_i32 t.retry_max_seconds)
      ∷ (codes "retry_factor", py.of_f32 t.retry_factor)
      ∷ (codes "retry_seconds", py.of_i32 t.retry_seconds)
      ∷ (codes "params", py.of_bytes t.params)
      ∷ (codes "task_name", py.of_text t.task_name)
      ∷ (codes "channel", py.of_text t.channel)
      ∷ (codes "run_id", py.of_text t.run_id)
      ∷ (codes "task_id", py.of_text t.task_id)
      ∷ []

  abbrev pub found_item : Text → Option py.Value → DictResult py.Value
  found_item key (some v) = built v
  found_item key none = refused (key_error key)

  unfoldable pub get_item : Text → PyDict → DictResult py.Value
  get_item key dict = found_item key (get (text_eq key) dict)

  abbrev pub item : {A : Type 0} → Text → (py.Value → DictResult A) → PyDict → DictResult A
  item key take dict = and_also (get_item key dict) take

  abbrev pub text_of : py.Value → DictResult Text
  text_of v = built (py.to_string v)

  abbrev pub i32_of : py.Value → DictResult ℤ
  i32_of v = extracted (py.extract_i32 v)

  -- An attempt is not negative: its other values are not modelled.
  abbrev pub natural_of : py.Value → DictResult ℕ
  natural_of v = and_also (extracted (py.extract_i32 v)) λ n. built (pos_part n)

  -- ClaimedTask::from_dict: the first item that is missing or of another type is the error.
  unfoldable pub from_dict : PyDict → DictResult ClaimedTask
  from_dict dict = and_also (item (codes "task_id") text_of dict) λ task_id.
      and_also (item (codes "run_id") text_of dict) λ run_id.
        and_also (item (codes "channel") text_of dict) λ channel.
          and_also (item (codes "task_name") text_of dict) λ task_name.
            and_also (item (codes "params") (λ v. extracted (py.extract_bytes v)) dict) λ params.
              and_also (item (codes "retry_seconds") i32_of dict) λ retry_seconds.
                and_also (item (codes "retry_factor") (λ v. extracted (py.extract_f32 v)) dict)
                  λ retry_factor.
                    and_also (item (codes "retry_max_seconds") i32_of dict) λ retry_max_seconds.
                      and_also (item (codes "attempt") natural_of dict) λ attempt.
                        and_also (item (codes "max_attempts") i32_of dict) λ max_attempts.
                          built (record {
                            task_id = task_id;
                            run_id = run_id;
                            channel = channel;
                            task_name = task_name;
                            params = params;
                            retry_seconds = retry_seconds;
                            retry_factor = retry_factor;
                            retry_max_seconds = retry_max_seconds;
                            attempt = attempt;
                            max_attempts = max_attempts;
                          })
