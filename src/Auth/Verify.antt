-- ===== src/Auth/Verify.antt =====
-- Whom `user_verify` of backend/app/admin/service/auth_service.py lets in.
use mc_bd.Prelude.{
  ℕ, ◌≡◌, ◌≢◌, ◌<◌, ◌+◌, ◌-◌, ◌/◌, ◌∷◌, refl, Option-cases, inl, inr, Option, none, some, Bool,
  true, false, if◌then◌else◌, arith,
}
use mc_bd.Prelude.Text.{Text}
use mc_bd.Errors.{ok, err}
use mc_bd.Redis.{Redis}
use mc_bd.Platform.{Platform, User}
use mc_bd.Keys.{lock_key}
use mc_bd.Action.{World, pure, >>=-Returned}
use mc_bd.Security.Lock.{locked_refused}
use mc_bd.Security.{
  minute, account_locked, check_status, handle_login_failure, handle_login_success,
  check_password_expiry_status,
}
use mc_bd.Auth.{user_verify, admit, wrong_password, refuse_password}

module _ (R : Redis) (P : Platform) where
  -- What a returned pair of user and days stands for.
  pub record Verified (w : World R P) (username password : Text) (u : User) : Type 0 where
    pub found : P.find_username w.db username ≡ some u
    pub enabled : u.status ≢ 0
    pub hashed : Text
    pub stored : u.password ≡ some hashed
    pub matches : P.verify_password password hashed ≡ true

  status-ok : (u st : ℕ) (w w' : World R P) → check_status R P u st w ≡ (ok tt, w') → st ≢ 0
  unfolding check_status
  status-ok u st w w' h = ground arith

  guard-ok :
      (b : Bool) (u : ℕ) (w w' : World R P)
      → (if b then refuse_password R P u else pure tt) w ≡ (ok tt, w')
      → b ≡ false
  unfolding refuse_password
  guard-ok false u w w' h = refl
  guard-ok true u w w' h =
      let r = >>=-Returned (handle_login_failure R P u) _ w tt w' h in cc (r.then_)

  wrong_password-false :
      (p : Text) (o : Option Text)
      → wrong_password R P p o ≡ false
      → (h : Text) × (o ≡ some h) × (P.verify_password p h ≡ true)
  unfolding wrong_password
  wrong_password-false p none h = cc
  wrong_password-false p (some x) h = (x, refl, ground arith)

  admit_sound :
      (w w' : World R P) (password : Text) (v u : User) (days : Option ℕ)
      → admit R P password v w ≡ (ok (u, days), w')
      → (v ≡ u) × (v.status ≢ 0) × (wrong_password R P password v.password ≡ false)
  unfolding admit
  admit_sound w w' password v u days h =
      let a = >>=-Returned (check_status R P v.id v.status) _ w (u, days) w' h in
      let b =
        >>=-Returned
          (if wrong_password R P password v.password then refuse_password R P v.id else pure tt) _
          a.middle (u, days) w' a.then_ in
      let c =
        >>=-Returned (check_password_expiry_status R P v.last_password_changed_time) _ b.middle
          (u, days) w' b.then_ in
      let d = >>=-Returned (handle_login_success R P v.id) _ c.middle (u, days) w' c.then_ in
      (
        cc d.then_,
        status-ok v.id v.status w a.middle a.first,
        guard-ok (wrong_password R P password v.password) v.id a.middle b.middle b.first,
      )

  -- A user is let in only if the name is the user's, the account is enabled, and the password
  -- verifies against the stored hash.
  pub user_verify_sound :
      (w w' : World R P) (username password : Text) (u : User) (days : Option ℕ)
      → user_verify R P username password w ≡ (ok (u, days), w')
      → Verified w username password u
  unfolding user_verify
  user_verify_sound w w' username password u days h =
      elim (Option-cases (P.find_username w.db username)) [
        | inl missing ↦ cc (rw (missing) at h)
        | inr (v, found) ↦
            let (same, on, right) =
              admit_sound w w' password v u days (rw (found, user_verify) at h) in
            let (hashed, stored, matches) = wrong_password-false password v.password right in
            record {
              found = rw (← same) found;
              enabled = rw (← same) on;
              hashed = hashed;
              stored = rw (← same) stored;
              matches = matches;
            }
      ]

  -- A locked account is refused whatever the password is, before the password is compared, and
  -- nothing changes: no failure is counted either.
  pub locked_stays_out :
      (w : World R P) (username password : Text) (u : User) (c : ℕ) (t : Text)
      → P.find_username w.db username ≡ some u
      → u.status ≢ 0
      → R.get w.store (lock_key u.id) ≡ some (c ∷ t)
      → w.now < P.from_str (c ∷ t)
      → user_verify R P username password w
        ≡ (err (account_locked ((P.from_str (c ∷ t) - w.now + (minute - 1)) / minute)), w)
  unfolding user_verify
  locked_stays_out w username password u c t found on locked ahead =
      rw found (rw (locked_refused R P w u.id u.status c t on locked ahead))
