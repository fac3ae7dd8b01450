-- ===== src/Cli/Precedence.antt =====
-- Which source a configuration's values come from (create_config of taskturbine-cli/src/main.rs).
use taskturbine.Base.{
  ◌≡◌, refl, ◌∙◌, sym, ap, Option, none, some, false, or_else, if◌then◌else◌, arith,
}
use taskturbine.Base.Text.{Text, codes, text_eq, text_eq_refl}
use taskturbine.Worker.{AppConfig, default_config}
use taskturbine.Cli.Configuring.{
  Figment, CliConfig, usecase_key, url_key, with_file, with_value, create_config,
}

-- The first of two values that is there.
abbrev pub above : Option Text → Option Text → Option Text
above none b = b
above (some a) b = some a

-- What Figment documents: the value of a key is that of the last provider merged that has it, and an
-- extracted configuration has the values of its keys. `env` and `file` are what the environment and
-- the files hold.
pub record Merges {F : Type 0} (fig : Figment F) (env : Text → Text → Option Text)
    (file : Text → Text → Option Text) (find : Text → F → Option Text) : Type 0 where
  pub env_over :
      (prefix key : Text) (f : F)
      → find key (fig.merge_env prefix f) ≡ above (env prefix key) (find key f)
  pub file_over :
      (path key : Text) (f : F)
      → find key (fig.merge_toml path f) ≡ above (file path key) (find key f)
  pub value_over :
      (j key v : Text) (f : F)
      → find j (fig.merge_value key v f) ≡ above (if text_eq j key then some v else none) (find j f)
  pub from_usecase : (c : AppConfig) → find usecase_key (fig.from c) ≡ some c.usecase
  pub from_url : (c : AppConfig) → find url_key (fig.from c) ≡ some c.database_url
  pub extracts :
      (f : F) (c : AppConfig)
      → fig.extract f ≡ some c
      → (find usecase_key f ≡ some c.usecase) × (find url_key f ≡ some c.database_url)

abbrev pub in_file : (Text → Text → Option Text) → Option Text → Text → Option Text
in_file file none key = none
in_file file (some path) key = file path key

given :
    (a b e : Option Text) (d x : Text)
    → some x ≡ above a (above b (above e (some d)))
    → x ≡ or_else (above a (above b e)) d
given none none none d x h = ground arith
given none none (some v) d x h = ground arith
given none (some v) e d x h = ground arith
given (some v) b e d x h = ground arith

-- The value of a key of what create_config extracts.
module _ {F : Type 0} (fig : Figment F) (env file : Text → Text → Option Text)
    (find : Text → F → Option Text) (m : Merges fig env file find) where
  find-file :
      (o : Option Text) (key : Text) (f : F)
      → find key (with_file fig o f) ≡ above (in_file file o key) (find key f)
  find-file none key f = refl
  find-file (some path) key f = m.file_over path key f

  find-own :
      (key : Text) (o : Option Text) (f : F)
      → find key (with_value fig key o f) ≡ above o (find key f)
  find-own key none f = refl
  find-own key (some v) f = let same = text_eq_refl key in rw (m.value_over key key v f, same) refl

  find-other :
      (j key : Text) (o : Option Text) (f : F)
      → text_eq j key ≡ false
      → find j (with_value fig key o f) ≡ find j f
  find-other j key none f h = refl
  find-other j key (some v) f h = rw (m.value_over j key v f, h) refl

  -- What the file, the environment and the defaults give.
  below :
      (key : Text) (o : Option Text) (d : Text)
      → find key (fig.from default_config) ≡ some d
      → find key (with_file fig o (fig.merge_env (codes "TASKTURBINE_") (fig.from default_config)))
        ≡ above (in_file file o key) (above (env (codes "TASKTURBINE_") key) (some d))
  below key o d h =
      find-file o key _
      ∙ ap (above (in_file file o key)) (m.env_over _ key _ ∙ ap (above (env _ key)) h)

-- The arguments override the configuration file, the file the environment, and the environment the
-- defaults: if a configuration is built, its use case and database are the first that are given.
pub create_config-order :
    {F : Type 0} (fig : Figment F) (env file : Text → Text → Option Text)
    (find : Text → F → Option Text)
    → Merges fig env file find
    → (args : CliConfig) (c : AppConfig) → create_config fig args ≡ some c
    → (c.usecase
        ≡ or_else
            (above args.usecase (
              above
                (in_file file args.config usecase_key)
                (env (codes "TASKTURBINE_") usecase_key)))
            default_config.usecase)
      × (c.database_url
          ≡ or_else
              (above args.database_url
                (above (in_file file args.config url_key) (env (codes "TASKTURBINE_") url_key)))
              default_config.database_url)
unfolding create_config text_eq
create_config-order fig env file find m args c h =
    let f1 = fig.merge_env (codes "TASKTURBINE_") (fig.from default_config) in
    let f2 = with_file fig args.config f1 in
    let f3 = with_value fig url_key args.database_url f2 in
    let got = m.extracts _ c h in
    (
      given args.usecase _ _ _ _ (
          sym got.0
          ∙ (find-own fig env file find m usecase_key args.usecase f3
              ∙ ap (above args.usecase) (
                  find-other fig env file find m usecase_key url_key args.database_url f2 refl
                  ∙ below fig env file find m usecase_key args.config default_config.usecase
                      (m.from_usecase default_config)))),
      given args.database_url _ _ _ _ (
          sym got.1
          ∙ (find-other fig env file find m url_key usecase_key args.usecase f3 refl
              ∙ (find-own fig env file find m url_key args.database_url f2
                  ∙ ap (above args.database_url) (
                      below fig env file find m url_key args.config default_config.database_url
                        (m.from_url default_config))))),
    )
