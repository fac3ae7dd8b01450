-- ===== src/Cli/Configuring.antt =====
-- CliConfig and create_config of taskturbine-cli/src/main.rs. Figment builds a configuration from
-- providers: it is a parameter, with what its documentation says of `merge`.
use taskturbine.Base.{Option, none, some}
use taskturbine.Base.Text.{Text, codes}
use taskturbine.Worker.{AppConfig, default_config}

-- The builder.
pub record Figment (F : Type 0) : Type 0 where
  pub from : AppConfig → F
  pub merge_env : Text → F → F
  pub merge_toml : Text → F → F
  pub merge_value : Text → Text → F → F
  pub extract : F → Option AppConfig

pub record CliConfig : Type 0 where
  pub database_url : Option Text
  pub usecase : Option Text
  pub config : Option Text

abbrev pub usecase_key : Text
usecase_key = codes "usecase"

abbrev pub url_key : Text
url_key = codes "database_url"

module _ {F : Type 0} (fig : Figment F) where
  abbrev pub with_file : Option Text → F → F
  with_file none f = f
  with_file (some config_file) f = fig.merge_toml config_file f

  abbrev pub with_value : Text → Option Text → F → F
  with_value key none f = f
  with_value key (some v) f = fig.merge_value key v f

  -- create_config; `none` is the error of the extraction.
  unfoldable pub create_config : CliConfig → Option AppConfig
  create_config args =
      let builder = fig.merge_env (codes "TASKTURBINE_") (fig.from default_config) in
      let builder = with_file args.config builder in
      let builder = with_value url_key args.database_url builder in
      fig.extract (with_value usecase_key args.usecase builder)
