-- ===== src/Tests/CommandLine.antt =====
-- Tests and witnesses on the command line.
use taskturbine.Base.{◌≡◌, refl, Option, none, some, true, false, [], ◌∷◌, arith, if◌then◌else◌}
use taskturbine.Base.Text.{Text, codes, text_eq}
use taskturbine.Models.{running}
use taskturbine.Sql.Session.{Db}
use taskturbine.Worker.{AppConfig, default_config}
use taskturbine.Cli.Configuring.{Figment, create_config, usecase_key, url_key}
use taskturbine.Cli.Precedence.{Merges, above, create_config-order}
use taskturbine.Cli.Formatters.{Display}
use taskturbine.Cli.Printing.{get_task}
use taskturbine.Cli.Main.{Cli, Host, gets_task, main, unreadable}
use taskturbine.Cli.Reading.{main_reads}
use taskturbine.Cli.Hiding.{get_task_hides, without_results}
use taskturbine.Tests.Fixtures.{at, on, busy, with_rows, task, running_run}

-- A builder that keeps the value of each key.
abbrev Values : Type 0
Values = Text → Option Text

abbrev env : Text → Text → Option Text
env prefix key = if text_eq key usecase_key then some (codes "u") else none

abbrev file : Text → Text → Option Text
file path key = if text_eq key url_key then some (codes "file") else none

abbrev extracted : Option Text → Option Text → Option AppConfig
extracted (some u) (some d) = some (record default_config { usecase = u; database_url = d })
extracted _ _ = none

abbrev values : Figment Values
values = record {
  from = λ c k.
      if text_eq k usecase_key
      then some c.usecase
      else if text_eq k url_key
      then some c.database_url
      else none;
  merge_env = λ prefix f k. above (env prefix k) (f k);
  merge_toml = λ path f k. above (file path k) (f k);
  merge_value = λ key v f k. above (if text_eq k key then some v else none) (f k);
  extract = λ f. extracted (f usecase_key) (f url_key);
}

values-Merges : Merges values env file (λ k f. f k)
unfolding text_eq
values-Merges = record {
  env_over = λ prefix key f. refl;
  file_over = λ path key f. refl;
  value_over = λ j key v f. refl;
  from_usecase = λ c. refl;
  from_url = λ c. refl;
  extracts = λ f c h. known (f usecase_key) (f url_key) c h;
}
  where
    known :
        (u d : Option Text) (c : AppConfig)
        → extracted u d ≡ some c
        → (u ≡ some c.usecase) × (d ≡ some c.database_url)
    known none d c h = cc
    known (some u) none c h = cc
    known (some u) (some d) c h = (ground arith, ground arith)

abbrev built : AppConfig
built = record default_config { usecase = codes "u"; database_url = codes "file" }

-- The database is of the file, and the use case of the environment.
create_config-order_example : (built.usecase ≡ codes "u") × (built.database_url ≡ codes "file")
unfolding create_config text_eq
create_config-order_example =
    create_config-order values env file (λ k f. f k) values-Merges
      (record { database_url = none; usecase = none; config = some (codes "c.toml") }) built refl

abbrev display : Display
display = record {
  uuid = λ id. id ∷ [];
  natural = λ n. n ∷ [];
  integer = λ n. [];
  real = λ n. n ∷ [];
  instant = λ n. n ∷ [];
  from_utf8 = λ b. some b;
}

abbrev host : Host Values
host = record {
  figment = values;
  display = display;
  matches = text_eq;
  parse_uuid = λ t. none;
  parse_headers = λ t. none;
  parse_cron = λ t. none;
  schedule_file = λ path. unreadable;
  update_schema = λ e s. (true, s);
  times = [];
}

abbrev args : Cli
args = record {
  database_url = none;
  usecase = none;
  verbose = false;
  config = none;
  command = gets_task (record { task_id = 1; show_results = true });
}

main_reads_example : (main host args (at 5) (on busy)).2.store ≡ busy
main_reads_example = main_reads host args (at 5) (on busy) refl

-- The same run, where it has a result.
abbrev answered : Db
answered = with_rows (task running) (record running_run { result = some (9 ∷ []) })

get_task_hides_example :
    let a = without_results 1 in
    ((get_task display a (at 5) (on answered)).0
      ≡ (get_task display a (at 5) (record (on answered) { store = busy })).0)
    × ((get_task display a (at 5) (on answered)).1
        ≡ (get_task display a (at 5) (record (on answered) { store = busy })).1)
get_task_hides_example = get_task_hides display 1 (at 5) (on answered) busy refl
