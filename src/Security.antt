-- ===== src/Security.antt =====
-- backend/app/admin/service/user_password_history_service.py: the account lock and the expiry of
-- passwords.
pub mod Lock
pub mod Expiry
use mc_bd.Prelude.{
  ℕ, ◌+◌, ◌-◌, ◌*◌, ◌/◌, ◌==◌, ltb, leb, Option, none, some, Bool, true, false, if◌then◌else◌,
}
use mc_bd.Prelude.Text.{Text, decimal}
use mc_bd.Errors.{Error, ok, authorization, unexpected, plain, numbered}
use mc_bd.Redis.{Redis}
use mc_bd.Platform.{Platform, micro}
use mc_bd.Keys.{lock_key, failure_key}
use mc_bd.Action.{
  World, Action, pure, raise, raise_if, require, gets, ◌>>=◌, ◌>>◌, redis_get, redis_set,
  redis_delete, present,
}
use mc_bd.Config.{load_user_security_config}

abbrev pub minute : ℕ
minute = 60 * micro

abbrev pub day : ℕ
day = 24 * 60 * minute

abbrev pub account_locked : ℕ → Error
account_locked minutes = authorization (numbered "账号已被锁定，请在 " minutes " 分钟后重试")

abbrev pub password_expired : Error
password_expired = authorization (plain "密码已过期，请修改密码后重新登录")

module _ (R : Redis) (P : Platform) where
  unlock : ℕ → Action R P (Unit {0})
  unlock user_id = do redis_delete (lock_key user_id); redis_delete (failure_key user_id)

  check_lock : ℕ → Option Text → Action R P (Unit {0})
  unfolding unlock
  check_lock user_id none = pure tt
  check_lock user_id (some text) = do
    now ← gets (λ w. w.now)
    let locked_until = P.from_str text
    raise_if (ltb now locked_until) (account_locked ((locked_until - now + (minute - 1)) / minute))
    unlock user_id

  unfoldable pub check_status : ℕ → ℕ → Action R P (Unit {0})
  unfolding check_lock
  check_status user_id user_status = do
    raise_if (user_status == 0) (authorization (plain "用户已被锁定, 请联系统管理员"))
    locked_until_str ← redis_get (lock_key user_id)
    check_lock user_id (present locked_until_str)

  -- `int(failure_count) if failure_count else 0`
  count_of : Option Text → Action R P ℕ
  count_of none = pure 0
  count_of (some t) = require (P.int_of t) (unexpected "ValueError")

  lock_account : ℕ → Action R P (Unit {0})
  lock_account user_id = do
    now ← gets (λ w. w.now)
    seconds ← gets (λ w. w.settings.user_lock_seconds)
    redis_set (lock_key user_id) (P.to_str (now + seconds * micro))
    raise (authorization (plain "登录失败次数过多，账号已被锁定"))

  unfoldable pub count_failure : ℕ → ℕ → Action R P (Unit {0})
  unfolding count_of lock_account
  count_failure user_id threshold = do
    stored ← redis_get (failure_key user_id)
    before ← count_of (present stored)
    let failure_count = before + 1
    redis_set (failure_key user_id) (decimal failure_count)
    if leb threshold failure_count then lock_account user_id else pure tt

  unfoldable pub handle_login_failure : ℕ → Action R P (Unit {0})
  handle_login_failure user_id = do
    load_user_security_config R P
    threshold ← gets (λ w. w.settings.user_lock_threshold)
    if threshold == 0 then pure tt else count_failure user_id threshold

  -- `.days` of a difference is rounded down, so it is negative just when the difference is.
  remaining : ℕ → ℕ → Option ℕ → Action R P (Option ℕ)
  remaining expiry_days reminder_days none = raise password_expired
  remaining expiry_days reminder_days (some changed) = do
    now ← gets (λ w. w.now)
    let expiry_time = changed + expiry_days * day
    raise_if (ltb expiry_time now) password_expired
    let days_remaining = (expiry_time - now) / day
    if leb days_remaining reminder_days then pure (some days_remaining) else pure none

  unfoldable pub check_password_expiry_status : Option ℕ → Action R P (Option ℕ)
  unfolding remaining
  check_password_expiry_status password_changed_time = do
    load_user_security_config R P
    expiry_days ← gets (λ w. w.settings.user_password_expiry_days)
    reminder_days ← gets (λ w. w.settings.user_password_reminder_days)
    if expiry_days == 0
        then pure none
        else remaining expiry_days reminder_days password_changed_time

  unfoldable pub handle_login_success : ℕ → Action R P (Unit {0})
  unfolding unlock
  handle_login_success = unlock

  unfoldable pub save_password_history : ℕ → Text → Action R P (Unit {0})
  save_password_history user_id password w =
      (ok tt, record w { db = P.add_history w.db user_id password })
