-- ===== src/Security/Expiry.antt =====
-- What `check_password_expiry_status` of
-- backend/app/admin/service/user_password_history_service.py says of a password.
use mc_bd.Prelude.{
  ℕ, ◌+◌, ◌-◌, ◌*◌, ◌/◌, ◌≤◌, ◌<◌, ◌≡◌, refl, ◌==◌, ltb, leb, Option, none, some, false, Bool-cases,
  inl, inr, arith,
}
use mc_bd.Errors.{Result, ok, err}
use mc_bd.Redis.{Redis}
use mc_bd.Platform.{Platform, user_security}
use mc_bd.Action.{World}
use mc_bd.Config.Load.{load_nothing}
use mc_bd.Security.{check_password_expiry_status, remaining, day, password_expired}

module _ (R : Redis) (P : Platform) where
  -- What a result promises of a password that was changed at `changed`: the whole days that are
  -- left, if they are within the reminder, or that more are left, or that it has expired.
  abbrev pub IsHonest : World R P → ℕ → Result (Option ℕ) → Type 0
  IsHonest w changed (ok none) =
      w.now + (w.settings.user_password_reminder_days + 1) * day
      ≤ changed + w.settings.user_password_expiry_days * day
  IsHonest w changed (ok (some n)) =
      (n ≤ w.settings.user_password_reminder_days)
      × (w.now + n * day ≤ changed + w.settings.user_password_expiry_days * day)
      × (changed + w.settings.user_password_expiry_days * day < w.now + (n + 1) * day)
  IsHonest w changed (err e) =
      (e ≡ password_expired) × (changed + w.settings.user_password_expiry_days * day < w.now)

  remaining-IsHonest :
      (w : World R P) (changed : ℕ)
      → IsHonest w changed
          (remaining R P w.settings.user_password_expiry_days w.settings.user_password_reminder_days
            (some changed)
            w).0
  unfolding remaining
  remaining-IsHonest w changed =
      let end = changed + w.settings.user_password_expiry_days * day in
      elim (Bool-cases (ltb end w.now)) [
        | inl over ↦ rw over (refl, ground arith)
        | inr open_ ↦
            elim (Bool-cases (leb ((end - w.now) / day) w.settings.user_password_reminder_days)) [
              | inl soon ↦ rw open_ (rw soon (ground arith, ground arith, ground arith))
              | inr far ↦ rw open_ (rw far (ground arith))
            ]
      ]

  -- With the settings not overridden by sys_config and an expiry set, the answer is honest: an
  -- error only once the password has expired, a number only for the whole days that are left
  -- within the reminder, and no number only while more days are left.
  pub expiry_status-IsHonest :
      (w : World R P) (changed : ℕ)
      → P.config_rows w.db user_security ≡ none
      → 0 < w.settings.user_password_expiry_days
      → IsHonest w changed (check_password_expiry_status R P (some changed) w).0
  unfolding check_password_expiry_status
  expiry_status-IsHonest w changed config limited =
      let on : (w.settings.user_password_expiry_days == 0) ≡ false = ground arith in
      rw (load_nothing, config) (rw on (remaining-IsHonest w changed))
