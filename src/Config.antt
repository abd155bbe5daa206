-- ===== src/Config.antt =====
-- backend/utils/dynamic_config.py: the settings that the rows of sys_config replace.
pub mod Load
use mc_bd.Prelude.{ℕ, Option, none, some, List, [], ◌∷◌, Bool, true, false, if◌then◌else◌}
use mc_bd.Prelude.Text.{Text, codes, text_eq}
use mc_bd.Errors.{ok, unexpected}
use mc_bd.Redis.{Redis}
use mc_bd.Settings.{Settings}
use mc_bd.Platform.{Platform, ConfigType, user_security, login}
use mc_bd.Action.{World, Action, pure, raise, gets, ◌>>=◌, ◌>>◌}

-- `{dc['key']: dc['value'] for dc in rows}.get(key)`: the last row of a key counts.
unfoldable pub config_get : Text → List (Text × Text) → Option Text
config_get k [] = none
config_get k ((j, v) ∷ rows) = elim (config_get k rows) [
  | some x ↦ some x
  | none ↦ if text_eq j k then some v else none
]

-- _to_bool
unfoldable pub to_bool : Text → Bool
to_bool value = text_eq value (codes "true")

-- A setting's key, and the assignment of its converted value; none is a ValueError of `int`.
abbrev pub Assignment : Type 0
Assignment = Text × (Text → Settings → Option Settings)

-- `configs.get(status_key, '1') == '0'`
switched_off : Option Text → Bool
switched_off none = false
switched_off (some v) = text_eq v (codes "0")

module _ (R : Redis) (P : Platform) where
  assign : Option Settings → Action R P (Unit {0})
  assign none w = raise (unexpected "ValueError") w
  assign (some s) w = (ok tt, record w { settings = s })

  -- The loop over the mapping.
  unfoldable pub assign_all : List (Text × Text) → List Assignment → Action R P (Unit {0})
  unfolding assign
  assign_all rows [] = pure tt
  assign_all rows ((key, set) ∷ mapping) = elim (config_get key rows) [
    | none ↦ assign_all rows mapping
    | some v ↦ do
      settings ← gets (λ w. w.settings)
      assign (set v settings)
      assign_all rows mapping
  ]

  load_rows : Option (List (Text × Text)) → List Assignment → Text → Action R P (Unit {0})
  unfolding switched_off
  load_rows none mapping status_key = pure tt
  load_rows (some []) mapping status_key = pure tt
  load_rows (some (row ∷ rows)) mapping status_key =
      if switched_off (config_get status_key (row ∷ rows))
      then pure tt
      else assign_all (row ∷ rows) mapping

  -- _load_config
  unfoldable pub load_config : ConfigType → List Assignment → Text → Action R P (Unit {0})
  unfolding load_rows
  load_config config_type mapping status_key = do
    rows ← gets (λ w. P.config_rows w.db config_type)
    load_rows rows mapping status_key

  -- `int`; a text of a negative number, which int reads too, is refused here.
  as_int : (ℕ → Settings → Settings) → Text → Settings → Option Settings
  as_int set v s = elim (P.int_of v) [ none ↦ none | some n ↦ some (set n s) ]

  unfoldable pub user_security_mapping : List Assignment
  unfolding as_int
  user_security_mapping =
      (codes "USER_LOCK_THRESHOLD", as_int (λ n s. record s { user_lock_threshold = n }))
      ∷ (codes "USER_LOCK_SECONDS", as_int (λ n s. record s { user_lock_seconds = n }))
      ∷ (
        codes "USER_PASSWORD_EXPIRY_DAYS",
        as_int (λ n s. record s { user_password_expiry_days = n }),
      )
      ∷ (
        codes "USER_PASSWORD_REMINDER_DAYS",
        as_int (λ n s. record s { user_password_reminder_days = n }),
      )
      ∷ (
        codes "USER_PASSWORD_HISTORY_CHECK_COUNT",
        as_int (λ n s. record s { user_password_history_check_count = n }),
      )
      ∷ (
        codes "USER_PASSWORD_MIN_LENGTH",
        as_int (λ n s. record s { user_password_min_length = n }),
      )
      ∷ (
        codes "USER_PASSWORD_MAX_LENGTH",
        as_int (λ n s. record s { user_password_max_length = n }),
      )
      ∷ (
        codes "USER_PASSWORD_REQUIRE_SPECIAL_CHAR",
        λ v s. some (record s { user_password_require_special_char = to_bool v }),
      )
      ∷ []

  unfoldable pub load_user_security_config : Action R P (Unit {0})
  unfolding user_security_mapping
  load_user_security_config =
      load_config user_security user_security_mapping (codes "USER_SECURITY_CONFIG_STATUS")

  unfoldable pub load_login_config : Action R P (Unit {0})
  load_login_config =
      load_config login
        ((
          codes "LOGIN_CAPTCHA_ENABLED",
          λ v s. some (record s { login_captcha_enabled = to_bool v }),
        )
          ∷ [])
        (codes "LOGIN_CONFIG_STATUS")
