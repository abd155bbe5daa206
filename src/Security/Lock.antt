-- ===== src/Security/Lock.antt =====
-- The account lock of backend/app/admin/service/user_password_history_service.py.
use mc_bd.Prelude.{
  ℕ, suc, ◌+◌, ◌-◌, ◌*◌, ◌/◌, ◌≤◌, ◌<◌, ◌≡◌, ◌≢◌, refl, ◌∙◌, ap, none, some, List, [], ◌∷◌, ltb,
  leb, ◌==◌, true, false, length, arith,
}
use mc_bd.Prelude.Text.{Text, text_eq, text_eq_refl, decimal, decimal-cons}
use mc_bd.Errors.{Result, ok, err, authorization, plain}
use mc_bd.Redis.{Redis}
use mc_bd.Platform.{Platform, user_security, micro}
use mc_bd.Keys.{lock_key, failure_key}
use mc_bd.Action.{World, present, present-some}
use mc_bd.Config.Load.{load_nothing}
use mc_bd.Security.{
  minute, account_locked, count_of, check_status, count_failure, handle_login_failure,
}

lock-failure : (u v : ℕ) → text_eq (lock_key u) (failure_key v) ≡ false
unfolding text_eq lock_key failure_key
lock-failure u v = refl

failure-lock : (u v : ℕ) → text_eq (failure_key u) (lock_key v) ≡ false
unfolding text_eq lock_key failure_key
failure-lock u v = refl

module _ (R : Redis) (P : Platform) where
  open R use {get, put, remove, get-put, get-remove}

  -- While an enabled user's account is locked, every attempt is refused before the password is
  -- looked at, with the minutes that are left, rounded up; and nothing changes.
  pub locked_refused :
      (w : World R P) (u st c : ℕ) (t : Text)
      → st ≢ 0
      → get w.store (lock_key u) ≡ some (c ∷ t)
      → w.now < P.from_str (c ∷ t)
      → check_status R P u st w
        ≡ (err (account_locked ((P.from_str (c ∷ t) - w.now + (minute - 1)) / minute)), w)
  unfolding check_status
  locked_refused w u st c t on locked ahead =
      let enabled : (st == 0) ≡ false = ground arith in
      let early : ltb w.now (P.from_str (c ∷ t)) ≡ true = ground arith in
      rw enabled (rw (locked, early))

  -- Once the lock's time has come the account opens, and both the lock and the count are gone.
  pub expired_lock_opens :
      (w : World R P) (u st c : ℕ) (t : Text)
      → st ≢ 0
      → get w.store (lock_key u) ≡ some (c ∷ t)
      → P.from_str (c ∷ t) ≤ w.now
      → let (r, w') = check_status R P u st w in
        (r ≡ ok tt) × (get w'.store (lock_key u) ≡ none) × (get w'.store (failure_key u) ≡ none)
  unfolding check_status
  expired_lock_opens w u st c t on locked past =
      let enabled : (st == 0) ≡ false = ground arith in
      let late : ltb w.now (P.from_str (c ∷ t)) ≡ false = ground arith in
      rw enabled (
        rw (locked, late)
          (refl, simp (get-remove, failure-lock, text_eq_refl), simp (get-remove, text_eq_refl)))

  -- The count of failures that Redis holds for a user.
  abbrev Counted : World R P → ℕ → ℕ → Type 0
  Counted w u k =
      (v : World R P) → count_of R P (present (get w.store (failure_key u))) v ≡ (ok k, v)

  abbrev counted : World R P → ℕ → ℕ → World R P
  counted w u k = record w { store = put w.store (failure_key u) (decimal k) }

  counted-Counted : (w : World R P) (u k : ℕ) → Counted (counted w u k) u k
  unfolding count_of
  counted-Counted w u k v =
      let (c, t, e) = decimal-cons k in
      simp (get-put, text_eq_refl, present-some (decimal k) e, P.int-decimal)

  module _ (w : World R P) (u k : ℕ) (plain_config : P.config_rows w.db user_security ≡ none)
      (has : Counted w u k) where
    failure_counts :
        suc k < w.settings.user_lock_threshold
        → handle_login_failure R P u w ≡ (ok tt, counted w u (k + 1))
    unfolding handle_login_failure count_failure
    failure_counts below =
        let on : (w.settings.user_lock_threshold == 0) ≡ false = ground arith in
        let few : leb w.settings.user_lock_threshold (k + 1) ≡ false = ground arith in
        rw (load_nothing, plain_config) (rw on (rw (has w) (rw few)))

    failure_locks :
        0 < w.settings.user_lock_threshold
        → w.settings.user_lock_threshold ≤ suc k
        → handle_login_failure R P u w ≡ (
          err (authorization (plain "登录失败次数过多，账号已被锁定")),
          record w {
            store =
                put
                  (counted w u (k + 1)).store
                  (lock_key u)
                  (P.to_str (w.now + w.settings.user_lock_seconds * micro));
          },
        )
    unfolding handle_login_failure count_failure
    failure_locks some_threshold reached =
        let on : (w.settings.user_lock_threshold == 0) ≡ false = ground arith in
        let many : leb w.settings.user_lock_threshold (k + 1) ≡ true = ground arith in
        rw (load_nothing, plain_config) (rw on (rw (has w) (rw many)))

  -- Failed logins of one user, at the given times.
  abbrev pub fail_at : ℕ → World R P → ℕ → Result (Unit {0}) × World R P
  fail_at u w t = handle_login_failure R P u (record w { now = t })

  pub failing : ℕ → World R P → List ℕ → World R P
  failing u w [] = w
  failing u w (t ∷ times) = failing u (fail_at u w t).1 times

  record Failed (u k : ℕ) (w w' : World R P) : Type 0 where
    settings : w'.settings ≡ w.settings
    config : P.config_rows w'.db user_security ≡ none
    counts : Counted w' u k
    lock : get w'.store (lock_key u) ≡ get w.store (lock_key u)

  failing-Failed :
      (u k n : ℕ) (w : World R P) (times : List ℕ)
      → k + length times ≡ n
      → P.config_rows w.db user_security ≡ none
      → Counted w u k
      → n < w.settings.user_lock_threshold
      → Failed u n w (failing u w times)
  unfolding failing
  failing-Failed u k n w [] e config has below =
      let same : n ≡ k = omega arith in
      rw same (record { settings = refl; config = config; counts = has; lock = refl })
  failing-Failed u k n w (t ∷ times) e config has below =
      rw (failure_counts (record w { now = t }) u k config has (omega arith)) (
        let f =
          failing-Failed u (k + 1) n (counted (record w { now = t }) u (k + 1)) times (omega arith)
            config (counted-Counted w u (k + 1)) below in
        record {
          settings = f.settings;
          config = f.config;
          counts = f.counts;
          lock = f.lock ∙ simp (get-put, failure-lock);
        })

  -- With the settings not overridden by sys_config and no failure counted, the failed login that
  -- reaches the threshold raises, and locks the account until its own time plus the lock's length.
  pub threshold_locks :
      (u : ℕ) (w : World R P) (times : List ℕ) (last : ℕ)
      → P.config_rows w.db user_security ≡ none
      → get w.store (failure_key u) ≡ none
      → suc (length times) ≡ w.settings.user_lock_threshold
      → let (r, w') = fail_at u (failing u w times) last in
        (r ≡ err (authorization (plain "登录失败次数过多，账号已被锁定")))
        × (get w'.store (lock_key u)
            ≡ some (P.to_str (last + w.settings.user_lock_seconds * micro)))
  unfolding count_of
  threshold_locks u w times last config clean reached =
      let f =
        failing-Failed u 0 (length times) w times (omega arith) config (λ v. rw clean)
          (omega arith) in
      let t = ap (λ s. s.user_lock_threshold) f.settings in
      rw
        (
          failure_locks (record (failing u w times) { now = last }) u (length times) f.config
              f.counts (omega arith) (omega arith),
          f.settings,
        )
        (refl, simp (get-put, text_eq_refl))

  -- Below the threshold the failed logins raise nothing and lock nothing: the lock's key keeps the
  -- value that it had.
  pub below_threshold :
      (u : ℕ) (w : World R P) (times : List ℕ) (last : ℕ)
      → P.config_rows w.db user_security ≡ none
      → get w.store (failure_key u) ≡ none
      → suc (length times) < w.settings.user_lock_threshold
      → ((fail_at u (failing u w times) last).0 ≡ ok tt)
        × (get (failing u w times).store (lock_key u) ≡ get w.store (lock_key u))
  unfolding count_of
  below_threshold u w times last config clean below =
      let f =
        failing-Failed u 0 (length times) w times (omega arith) config (λ v. rw clean)
          (omega arith) in
      let t = ap (λ s. s.user_lock_threshold) f.settings in
      (
        rw (
            failure_counts (record (failing u w times) { now = last }) u (length times) f.config
              f.counts (omega arith)),
        f.lock,
      )
