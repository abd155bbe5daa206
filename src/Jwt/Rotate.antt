-- ===== src/Jwt/Rotate.antt =====
-- The exchange of a refresh token, `create_new_token` of backend/common/security/jwt.py.
use mc_bd.Prelude.{
  ℕ, ◌+◌, ◌*◌, ◌<◌, ◌≡◌, ◌≢◌, refl, sym, ◌∙◌, Option, none, some, Bool, true, false, arith,
}
use mc_bd.Prelude.Text.{Text, text_eq_refl}
use mc_bd.Errors.{ok, err}
use mc_bd.Redis.{Redis}
use mc_bd.Platform.{Platform, micro}
use mc_bd.Settings.{token_expire_seconds, token_refresh_expire_seconds}
use mc_bd.Keys.{access_key, refresh_key}
use mc_bd.Keys.Digits.{access_key_ne, refresh_key_ne, access_key-longer}
use mc_bd.Keys.Apart.{
  extra-access, extra-refresh, access-refresh, refresh-access, access-refresh_prefix,
  jwt_user-access, jwt_user-refresh,
}
use mc_bd.Action.{World, present}
use mc_bd.Jwt.{
  token_error, NewToken, create_access_token, create_refresh_token, create_new_token, jwt_encode,
  differs,
}
use mc_bd.Jwt.Sessions.{
  issued_token, get-create_access_token, get-created, get-create_refresh_token, extra_at_other,
  single_session,
}

module _ (R : Redis) (P : Platform) where
  open R use {get, remove, get-remove}

  -- A refresh token that is not the stored one, or that has none stored, is refused, and nothing
  -- changes.
  pub unknown_refresh_refused :
      (w : World R P) (t session : Text) (u : ℕ) (multi : Bool) (extra : Option Text) (fresh : Text)
      → differs R P (present (get w.store (refresh_key u session))) t ≡ true
      → create_new_token R P t session u multi extra fresh w
        ≡ (err (token_error "error.refresh_token_expired"), w)
  unfolding create_new_token
  unknown_refresh_refused w t session u multi extra fresh h = rw h

  -- The world between the two deletions and the new tokens.
  abbrev forgotten : World R P → ℕ → Text → World R P
  forgotten w u session = record w {
    store = remove (remove w.store (refresh_key u session)) (access_key u session);
  }

  abbrev after : World R P → ℕ → Bool → Option Text → Text → World R P
  after w u multi extra fresh =
      (create_refresh_token R P fresh u multi (create_access_token R P u multi extra fresh w).1).1

  -- What a successful exchange returns.
  abbrev pub exchanged : World R P → ℕ → Text → NewToken
  exchanged w u fresh = record {
    new_access_token = issued_token R P w u fresh;
    new_access_token_expire_time = w.now + token_expire_seconds * micro;
    new_refresh_token = jwt_encode R P fresh (w.now + token_refresh_expire_seconds * micro) u;
    new_refresh_token_expire_time = w.now + token_refresh_expire_seconds * micro;
    session_uuid = fresh;
  }

  create_new_token_world :
      (w : World R P) (t session : Text) (u : ℕ) (multi : Bool) (extra : Option Text) (fresh : Text)
      → differs R P (present (get w.store (refresh_key u session))) t ≡ false
      → create_new_token R P t session u multi extra fresh w
        ≡ (ok (exchanged w u fresh), after (forgotten w u session) u multi extra fresh)
  unfolding create_new_token create_access_token create_refresh_token issued_token
  create_new_token_world w t session u true none fresh h = rw h
  create_new_token_world w t session u true (some x) fresh h = rw h
  create_new_token_world w t session u false none fresh h = rw h
  create_new_token_world w t session u false (some x) fresh h = rw h

  now-create_access_token :
      (w : World R P) (u : ℕ) (multi : Bool) (extra : Option Text) (fresh : Text)
      → (create_access_token R P u multi extra fresh w).1.now ≡ w.now
  unfolding create_access_token
  now-create_access_token w u true none fresh = refl
  now-create_access_token w u true (some x) fresh = refl
  now-create_access_token w u false none fresh = refl
  now-create_access_token w u false (some x) fresh = refl

  -- The session keys after the new tokens are stored.
  module _ (w : World R P) (u : ℕ) (multi : Bool) (extra : Option Text) (session fresh : Text)
      (new : session ≢ fresh) where
    abbrev final : World R P
    final = after (forgotten w u session) u multi extra fresh

    refresh_gone : get final.store (refresh_key u session) ≡ none
    refresh_gone =
        simp
          (
            get-create_refresh_token R P,
            get-create_access_token R P,
            refresh_key_ne u u fresh session (λ e. new (sym e)),
            extra_at_other u fresh extra (refresh_key u session) _
                (extra-refresh u u fresh session),
            access-refresh u u fresh session,
            jwt_user-refresh u u fresh session,
            get-remove,
            text_eq_refl,
          )
          (ground arith)

    access_gone : get final.store (access_key u session) ≡ none
    access_gone =
        simp
          (
            get-create_refresh_token R P,
            get-create_access_token R P,
            refresh-access u u fresh session,
            access-refresh_prefix u u fresh session,
            extra_at_other u fresh extra (access_key u session) _ (extra-access u u fresh session),
            access_key_ne u u fresh session (λ e. new (sym e)),
            jwt_user-access u u fresh session,
            get-remove,
            text_eq_refl,
          )
          (ground arith)

    access_stored : get final.store (access_key u fresh) ≡ some (issued_token R P w u fresh)
    unfolding issued_token
    access_stored =
        get-create_refresh_token R P _ u multi fresh (access_key u fresh)
        ∙ rw (refresh-access u u fresh fresh, access-refresh_prefix u u fresh fresh)
            (simp (get-created R P) (ground arith))

    refresh_stored :
        get final.store (refresh_key u fresh)
        ≡ some (jwt_encode R P fresh (w.now + token_refresh_expire_seconds * micro) u)
    refresh_stored =
        get-create_refresh_token R P _ u multi fresh (refresh_key u fresh)
        ∙ rw (text_eq_refl (refresh_key u fresh), now-create_access_token)

  -- A refresh token that is the stored one is exchanged once: both keys of the old session are
  -- gone, the new session's keys hold the two tokens that the exchange returns, and the same
  -- exchange made again is refused and changes nothing.
  pub exchange_rotates :
      (w : World R P) (t session : Text) (u : ℕ) (multi : Bool) (extra : Option Text)
      (fresh again : Text)
      → differs R P (present (get w.store (refresh_key u session))) t ≡ false
      → session ≢ fresh
      → let w' = (create_new_token R P t session u multi extra fresh w).1 in
        ((create_new_token R P t session u multi extra fresh w).0 ≡ ok (exchanged w u fresh))
        × (get w'.store (refresh_key u session) ≡ none)
        × (get w'.store (access_key u session) ≡ none)
        × (get w'.store (access_key u fresh) ≡ some (exchanged w u fresh).new_access_token)
        × (get w'.store (refresh_key u fresh) ≡ some (exchanged w u fresh).new_refresh_token)
        × (create_new_token R P t session u multi extra again w'
            ≡ (err (token_error "error.refresh_token_expired"), w'))
  exchange_rotates w t session u multi extra fresh again known new =
      rw (create_new_token_world w t session u multi extra fresh known) (
        refl,
        refresh_gone w u multi extra session fresh new,
        access_gone w u multi extra session fresh new,
        access_stored w u multi extra session fresh new,
        refresh_stored w u multi extra session fresh new,
        unknown_refresh_refused _ t session u multi extra again
            (rw (refresh_gone w u multi extra session fresh new)),
      )

  -- A login without `multi_login` of user u also ends every session of the users whose number
  -- continues u by one digit, except one under the name of the new session itself.
  pub login_ends_longer :
      (w : World R P) (u d : ℕ) (extra : Option Text) (session other : Text)
      → 0 < u
      → d < 10
      → session ≢ other
      → get
          (create_access_token R P u false extra session w).1.store
          (access_key (u * 10 + d) other)
        ≡ none
  login_ends_longer w u d extra session other h k ne =
      single_session R P w u extra session (access_key (u * 10 + d) other)
        (access_key-longer u d other h k)
      ∙ rw (access_key_ne u (u * 10 + d) session other ne)
