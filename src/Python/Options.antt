-- ===== src/Python/Options.antt =====
-- The configuration of taskturbine-python/src/config.rs and the options of taskturbine-python/src/lib.rs.
use taskturbine.Base.{ℕ, Option, none, some, Bool, true, false, List, or_else}
use taskturbine.Base.Int.{ℤ, pos}
use taskturbine.Base.Text.{Text, codes}
use taskturbine.Models
use taskturbine.Models.{Uuid, Floats, second, retry_delay}
use taskturbine.Storage.Spawn

pub record Config : Type 0 where
  pub app_module : Text
  pub database_url : Text
  pub database_log_queries : Bool
  pub usecase : Text
  pub default_channel : Text
  pub worker_concurrency : ℤ
  pub worker_sleep_ms : ℤ
  pub worker_cleanup_limit : ℤ
  pub worker_cleanup_cutoff_secs : ℤ
  pub worker_upkeep_interval_secs : ℤ
  pub worker_upkeep_inline : Bool
  pub worker_claim_timeout_secs : ℤ
  pub worker_max_tasks_per_child : ℤ
  pub worker_shutdown_idle_max : ℤ
  pub worker_shutdown_on_idle : Bool
  pub await_event_default_timeout_secs : ℤ

-- The constructor, with the defaults of its signature.
abbrev pub default_config : Text → Text → Config
default_config app_module database_url = record {
  app_module = app_module;
  database_url = database_url;
  database_log_queries = false;
  usecase = codes "default";
  default_channel = codes "default";
  worker_concurrency = pos 3;
  worker_sleep_ms = pos 200;
  worker_cleanup_limit = pos 1000;
  worker_cleanup_cutoff_secs = pos 600;
  worker_upkeep_interval_secs = pos 10;
  worker_upkeep_inline = true;
  worker_claim_timeout_secs = pos 600;
  worker_max_tasks_per_child = pos 1000;
  worker_shutdown_idle_max = pos 5;
  worker_shutdown_on_idle = false;
  await_event_default_timeout_secs = pos 120;
}

abbrev pub core_config : Config → Models.Config
core_config c = record {
  database_url = c.database_url;
  database_log_queries = c.database_log_queries;
  usecase = c.usecase;
  await_event_default_timeout_secs = c.await_event_default_timeout_secs;
}

pub record TaskOptions : Type 0 where
  pub idempotency_key : Option Text
  pub headers : List (Text × Text)
  pub max_attempts : ℤ
  pub retry_seconds : ℤ
  pub retry_factor : ℕ
  pub retry_max_seconds : ℤ
  pub cancellation_max_age : ℤ

abbrev pub core_options : TaskOptions → Spawn.TaskOptions
core_options o = record {
  idempotency_key = o.idempotency_key;
  headers = o.headers;
  max_attempts = o.max_attempts;
  retry_seconds = o.retry_seconds;
  retry_factor = o.retry_factor;
  retry_max_seconds = o.retry_max_seconds;
  cancellation_max_age = o.cancellation_max_age;
}

-- What copy_with is given: a value that is left out stays.
pub record OptionChanges : Type 0 where
  pub idempotency_key : Option Text
  pub headers : Option (List (Text × Text))
  pub max_attempts : Option ℤ
  pub retry_seconds : Option ℤ
  pub retry_factor : Option ℕ
  pub retry_max_seconds : Option ℤ
  pub cancellation_max_age : Option ℤ

abbrev or_key : Option Text → Option Text → Option Text
or_key (some k) old = some k
or_key none old = old

unfoldable pub copy_with : TaskOptions → OptionChanges → TaskOptions
copy_with o c = record {
  idempotency_key = or_key c.idempotency_key o.idempotency_key;
  headers = or_else c.headers o.headers;
  max_attempts = or_else c.max_attempts o.max_attempts;
  retry_seconds = or_else c.retry_seconds o.retry_seconds;
  retry_factor = or_else c.retry_factor o.retry_factor;
  retry_max_seconds = or_else c.retry_max_seconds o.retry_max_seconds;
  cancellation_max_age = or_else c.cancellation_max_age o.cancellation_max_age;
}
