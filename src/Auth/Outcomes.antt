-- ===== src/Auth/Outcomes.antt =====
-- What logout, refresh and the captcha of backend/app/admin/service/auth_service.py leave.
use mc_bd.Prelude.{
  ℕ, ◌≡◌, ◌≢◌, refl, ◌∙◌, Option, none, some, List, [], ◌∷◌, ◌++◌, true, false, ◌==◌, arith,
}
use mc_bd.Prelude.Text.{Text, text_eq, text_eq_refl}
use mc_bd.Errors.{ok, err, forbidden, bad_request, plain}
use mc_bd.Redis.{Redis, mem, get_prefix}
use mc_bd.Platform.{Platform, User}
use mc_bd.Keys.{access_prefix, access_key, extra_key, refresh_key, captcha_key}
use mc_bd.Keys.Digits.{access_key-exact}
use mc_bd.Keys.Apart.{extra-access, refresh-access, refresh-extra}
use mc_bd.Action.{World, present, present-some}
use mc_bd.Jwt.{TokenPayload, jwt_decode, get_token, jwt_authentication, token_error}
use mc_bd.Jwt.Accept.{no_session_refused}
use mc_bd.Auth.{compare_captcha, some_key, refresh_token, logout, end_session}

some_key_of_mem : (k : Text) (ks : List Text) → mem k ks ≡ true → some_key ks ≡ true
unfolding some_key mem
some_key_of_mem k [] h = cc
some_key_of_mem k (j ∷ ks) h = refl

module _ (R : Redis) (P : Platform) where
  open R use {get, get-remove, mem-scan}

  module _ (s : R.Store) (u : ℕ) (session : Text) where
    abbrev closed : R.Store
    closed =
        R.remove (R.remove (R.remove s (access_key u session)) (extra_key u session))
          (refresh_key u session)

    access_closed : get closed (access_key u session) ≡ none
    access_closed = simp (
      get-remove,
      refresh-access u u session session,
      extra-access u u session session,
      text_eq_refl,
    )

    extra_closed : get closed (extra_key u session) ≡ none
    extra_closed = simp (get-remove, refresh-extra u u session session, text_eq_refl)

    refresh_closed : get closed (refresh_key u session) ≡ none
    refresh_closed = simp (get-remove, text_eq_refl)

  -- After a logout with a token of the session and the refresh cookie, the session's three keys
  -- are gone, and its token is refused.
  pub logout_ends_session :
      (w : World R P) (header cookie : Option Text) (t c : Text) (p : TokenPayload)
      → get_token R P header ≡ ok t
      → jwt_decode R P w.now t ≡ ok p
      → present cookie ≡ some c
      → let (r, w') = logout R P header cookie w in
        (r ≡ ok tt)
        × (get w'.store (access_key p.id p.session_uuid) ≡ none)
        × (get w'.store (extra_key p.id p.session_uuid) ≡ none)
        × (get w'.store (refresh_key p.id p.session_uuid) ≡ none)
        × (jwt_authentication R P t w' ≡ (err (token_error "error.token_expired"), w'))
  unfolding logout end_session
  logout_ends_session w header cookie t c p bearer decoded kept = rw bearer (
      rw decoded (
        rw kept (
          refl,
          access_closed w.store p.id p.session_uuid,
          extra_closed w.store p.id p.session_uuid,
          refresh_closed w.store p.id p.session_uuid,
          no_session_refused R P _ t p decoded (access_closed w.store p.id p.session_uuid),
        )))

  live_key :
      (w : World R P) (u : ℕ) (session v : Text)
      → get w.store (access_key u session) ≡ some v
      → some_key (get_prefix R (access_prefix u ++ b':' ∷ []) w.store) ≡ true
  unfolding get_prefix
  live_key w u session v live = some_key_of_mem (access_key u session) _ (
      mem-scan w.store (access_prefix u ++ b':' ∷ []) (access_key u session)
      ∙ rw (access_key-exact u session, live))

  -- A user without `multi_login` cannot refresh while any access token of theirs is live, their
  -- own session's included; nothing changes.
  pub refresh_blocked_while_live :
      (w : World R P) (extra : User → Text) (fresh : Text) (cookie : Option Text)
      (r session v : Text) (p : TokenPayload) (user : User)
      → present cookie ≡ some r
      → jwt_decode R P w.now r ≡ ok p
      → P.find_user w.db p.id ≡ some user
      → user.status ≢ 0
      → user.is_multi_login ≡ false
      → get w.store (access_key user.id session) ≡ some v
      → refresh_token R P extra fresh cookie w
        ≡ (err (forbidden (plain "error.user_remote_login")), w)
  unfolding refresh_token
  refresh_blocked_while_live w extra fresh cookie r session v p user given decoded found on single
        live =
      let enabled : (user.status == 0) ≡ false = ground arith in
      rw given
        (rw decoded (rw found (rw enabled (simp (single, live_key w user.id session v live)))))

  -- A right captcha works once: it is accepted up to case, and any captcha that is then sent for
  -- the same picture is refused as expired, with nothing changed.
  pub captcha_single_use :
      (w : World R P) (uuid captcha again stored : Text) {c : ℕ} {rest : Text}
      → stored ≡ c ∷ rest
      → get w.store (captcha_key uuid) ≡ some stored
      → text_eq (P.lower stored) (P.lower captcha) ≡ true
      → let (r, w') = compare_captcha R P uuid captcha w in
        (r ≡ ok tt)
        × (compare_captcha R P uuid again w' ≡ (err (bad_request "error.captcha.expired"), w'))
  unfolding compare_captcha
  captcha_single_use w uuid captcha again stored shape there right =
      rw (there, present-some stored shape)
        (rw right (
          refl,
          rw (get-remove w.store (captcha_key uuid) (captcha_key uuid))
              (rw (text_eq_refl (captcha_key uuid))),
        ))
