-- ===== src/Plugins/Config.antt =====
-- backend/plugin/validator.py: the configuration of a plugin and its validation. A configuration is
-- what rtoml read from plugin.toml, with values of the types that the schemas declare; pydantic's
-- errors for other types are not modelled. A key that may be missing is an option. The regular
-- expressions of backend/utils/pattern_validate.py are matched by functions.
pub mod Version
use mc_bd.Prelude.{
  ℕ, ◌==◌, leb, Bool, true, false, not, ◌&&◌, ◌||◌, Option, none, some, List, [], ◌∷◌, length,
  if◌then◌else◌,
}
use mc_bd.Prelude.Text.{Text, codes}
use mc_bd.Errors.{Error, Result, ok, err, unexpected}
use mc_bd.Redis.{mem}
use mc_bd.Platform.{Platform}
use mc_bd.Password.{is_letter}

-- The section `plugin`. `name` and `enable` are put in when the plugin is loaded.
pub record PluginInfo : Type 0 where
  pub icon : Option Text
  pub summary : Text
  pub version : Text
  pub description : Text
  pub author : Text
  pub tags : List Text
  pub database : List Text
  pub name : Option Text
  pub enable : Option Text

-- The section `app` of a plugin of either level
pub record AppConfig : Type 0 where
  pub router : Option (List Text)
  pub extend : Option Text

pub record ApiConfig : Type 0 where
  pub prefix : Text
  pub tags : Text

-- `settings` with the texts of its values
pub record PluginConfig : Type 0 where
  pub info : PluginInfo
  pub app : AppConfig
  pub api : Option (List (Text × ApiConfig))
  pub settings : List (Text × Text)

pub data PluginLevelType : Type 0 where
  app_level extend_level : PluginLevelType

abbrev pub config_error : Error
config_error = unexpected "PluginConfigError"

unfoldable pub valid_tags : List Text
valid_tags =
    codes "ai"
    ∷ codes "mcp"
    ∷ codes "agent"
    ∷ codes "auth"
    ∷ codes "storage"
    ∷ codes "notification"
    ∷ codes "task"
    ∷ codes "payment"
    ∷ codes "other"
    ∷ codes "internal"
    ∷ []

unfoldable pub valid_databases : List Text
valid_databases = codes "mysql" ∷ codes "postgresql" ∷ []

-- `set(v) - valid` is empty.
unfoldable pub all_in : List Text → List Text → Bool
all_in valid [] = true
all_in valid (t ∷ ts) = mem t valid && all_in valid ts

-- min_length and max_length
abbrev pub within : ℕ → ℕ → Text → Bool
within least most t = leb least (length t) && leb (length t) most

-- The end of a text as `$` sees it: also before a last line break
unfoldable pub at_end : Text → Bool
at_end [] = true
at_end (c ∷ []) = c == b'\n'
at_end (c ∷ d ∷ t) = false

-- `[class]*$`: a run of the class, then the end
unfoldable pub run_to_end : (ℕ → Bool) → Text → Bool
unfolding at_end
run_to_end p [] = true
run_to_end p (c ∷ t) = if p c then run_to_end p t else at_end (c ∷ t)

-- What stands behind a longest run of the class
unfoldable pub skip : (ℕ → Bool) → Text → Text
skip p [] = []
skip p (c ∷ t) = if p c then skip p t else c ∷ t

-- `[class]+`, and what stands behind it
unfoldable pub run : (ℕ → Bool) → Text → Option Text
unfolding skip
run p [] = none
run p (c ∷ t) = if p c then some (skip p t) else none

-- One given character, and what stands behind it
unfoldable pub one : ℕ → Text → Option Text
one x [] = none
one x (c ∷ t) = if c == x then some t else none

abbrev pub next : Option Text → (Text → Option Text) → Option Text
next none f = none
next (some t) f = f t

abbrev pub ends : Option Text → Bool
ends none = false
ends (some t) = at_end t

-- ^\d+\.\d+\.\d+$
unfoldable pub match_version : (ℕ → Bool) → Text → Bool
unfolding run one at_end
match_version digit t =
    ends (next (next (next (next (run digit t) (one b'.')) (run digit)) (one b'.')) (run digit))

is_word : ℕ → Bool
is_word c = is_letter c || (leb b'0' c && leb c b'9') || (c == b'_')

-- ^[a-zA-Z_][a-zA-Z0-9_]*$
unfoldable pub match_api_name : Text → Bool
unfolding is_word run_to_end
match_api_name [] = false
match_api_name (c ∷ t) = (is_letter c || (c == b'_')) && run_to_end is_word t

-- ^/[a-zA-Z0-9_/-]*$
unfoldable pub match_prefix : Text → Bool
unfolding is_word run_to_end
match_prefix [] = false
match_prefix (c ∷ t) = (c == b'/') && run_to_end (λ d. is_word d || (d == b'/') || (d == b'-')) t

-- The values of the list that must not be empty, and the text that must not be
unfoldable pub validate_router : List Text → Bool
validate_router [] = true
validate_router (r ∷ rs) = leb 1 (length r) && validate_router rs

unfoldable pub validate_app : AppConfig → Bool
unfolding validate_router
validate_app a = elim a.router [
  | none ↦ false
  | some routers ↦ leb 1 (length routers) && validate_router routers
]

unfoldable pub validate_extend : AppConfig → Bool
validate_extend a = elim a.extend [ none ↦ false | some t ↦ leb 1 (length t) ]

unfoldable pub validate_apis : List (Text × ApiConfig) → Bool
unfolding match_api_name match_prefix
validate_apis [] = true
validate_apis ((name, c) ∷ apis) =
    match_api_name name && match_prefix c.prefix && leb 1 (length c.tags) && validate_apis apis

-- `key.isupper()` of every key
unfoldable pub validate_settings : (Text → Bool) → List (Text × Text) → Bool
validate_settings is_upper [] = true
validate_settings is_upper ((k, v) ∷ s) = is_upper k && validate_settings is_upper s

abbrev pub verdict : PluginLevelType → Bool → Result PluginLevelType
verdict level true = ok level
verdict level false = err config_error

module _ (P : Platform) (is_upper : Text → Bool) where
  -- PluginInfoSchema
  unfoldable pub validate_info : PluginInfo → Bool
  unfolding match_version all_in valid_tags valid_databases
  validate_info i =
      within 1 100 i.summary
      && match_version P.is_digit i.version
      && within 1 500 i.description
      && within 1 50 i.author
      && all_in valid_tags i.tags
      && all_in valid_databases i.database

  unfoldable pub validate_level :
      Option (List (Text × ApiConfig)) → PluginConfig → Result PluginLevelType
  unfolding validate_info validate_app validate_extend validate_apis validate_settings
  validate_level none c =
      verdict app_level
        (validate_info c.info && validate_app c.app && validate_settings is_upper c.settings)
  validate_level (some apis) c = verdict extend_level (
      validate_info c.info
      && validate_extend c.app
      && leb 1 (length apis)
      && validate_apis apis
      && validate_settings is_upper c.settings)

  -- The level, or the one error for all faults. The warnings about tags and databases are not
  -- modelled.
  unfoldable pub validate_plugin_config : PluginConfig → Result PluginLevelType
  unfolding validate_level
  validate_plugin_config c = validate_level c.api c
