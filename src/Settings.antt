-- ===== src/Settings.antt =====
-- The settings of backend/core/conf.py that requests change or that the services compare with.
use mc_bd.Prelude.{ℕ, ◌*◌, Bool, true, false}

-- The settings that `load_user_security_config` and `load_login_config` may replace.
pub record Settings : Type 0 where
  pub user_lock_threshold : ℕ
  pub user_lock_seconds : ℕ
  pub user_password_expiry_days : ℕ
  pub user_password_reminder_days : ℕ
  pub user_password_history_check_count : ℕ
  pub user_password_min_length : ℕ
  pub user_password_max_length : ℕ
  pub user_password_require_special_char : Bool
  pub login_captcha_enabled : Bool

abbrev pub default_settings : Settings
default_settings = record {
  user_lock_threshold = 5;
  user_lock_seconds = 60 * 5;
  user_password_expiry_days = 365;
  user_password_reminder_days = 7;
  user_password_history_check_count = 3;
  user_password_min_length = 6;
  user_password_max_length = 32;
  user_password_require_special_char = false;
  login_captcha_enabled = true;
}

abbrev pub token_expire_seconds : ℕ
token_expire_seconds = 60 * 60 * 2

abbrev pub token_refresh_expire_seconds : ℕ
token_refresh_expire_seconds = 60 * 60 * 24
