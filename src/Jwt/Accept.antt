-- ===== src/Jwt/Accept.antt =====
-- Which tokens `jwt_authentication` of backend/common/security/jwt.py accepts.
use mc_bd.Prelude.{
  ℕ, ◌+◌, ◌*◌, ◌/◌, ◌≤◌, ◌≡◌, ◌≢◌, refl, sym, ◌∙◌, Option, none, some, ◌∷◌, Bool, true, false,
  arith,
}
use mc_bd.Prelude.Text.{Text, decimal, decimal-cons, text_eq_refl}
use mc_bd.Errors.{ok, err}
use mc_bd.Redis.{Redis}
use mc_bd.Platform.{Platform, micro}
use mc_bd.Settings.{token_expire_seconds}
use mc_bd.Keys.{access_key}
use mc_bd.Keys.Digits.{access_key-own, access_key_ne}
use mc_bd.Keys.Apart.{extra-access}
use mc_bd.Action.{World, present, present-some}
use mc_bd.Jwt.{
  TokenPayload, positive, token_error, create_access_token, jwt_encode, jwt_decode, payload_of,
  jwt_authentication, get_jwt_user, revoke_token,
}
use mc_bd.Jwt.Sessions.{issued_token, get-created, single_session}

decimal-present : (n : ℕ) → present (some (decimal n)) ≡ some (decimal n)
decimal-present n = let (c, t, e) = decimal-cons n in present-some (decimal n) e

positive-some : (n : ℕ) → n ≢ 0 → positive (some n) ≡ some n
positive-some n h = ground arith

module _ (R : Redis) (P : Platform) where
  open R use {get, get-remove}

  -- A token that `jwt_encode` made is decoded to its parts until it expires.
  pub jwt_decode-encode :
      (now u expire : ℕ) (c : ℕ) (session : Text)
      → now / micro ≤ expire / micro
      → expire ≢ 0
      → jwt_decode R P now (jwt_encode R P (c ∷ session) expire u)
        ≡ ok (record { id = u; session_uuid = c ∷ session; expire_time = expire })
  unfolding jwt_decode jwt_encode
  jwt_decode-encode now u expire c session h k = rw (
    P.decode-encode now (c ∷ session) (decimal u) expire h,
    jwt_decode,
    decimal-present u,
    positive-some expire k,
    payload_of,
    P.int-decimal u,
  )

  now-create_access_token :
      (w : World R P) (u : ℕ) (multi : Bool) (extra : Option Text) (session : Text)
      → (create_access_token R P u multi extra session w).1.now ≡ w.now
  unfolding create_access_token
  now-create_access_token w u true none session = refl
  now-create_access_token w u true (some extra) session = refl
  now-create_access_token w u false none session = refl
  now-create_access_token w u false (some extra) session = refl

  -- A token that decodes and is the one stored for its session is accepted.
  stored_accepted :
      (w : World R P) (t : Text) (p : TokenPayload)
      → jwt_decode R P w.now t ≡ ok p
      → present (some t) ≡ some t
      → get w.store (access_key p.id p.session_uuid) ≡ some t
      → jwt_authentication R P t w ≡ get_jwt_user R P p.id w
  unfolding jwt_authentication
  stored_accepted w t p decoded full there = rw decoded (rw (there, full, text_eq_refl))

  -- The access token that create_access_token stores passes every check of jwt_authentication at
  -- once, so that what is left is get_jwt_user of its own user, which may still refuse the user, as
  -- long as the session's name is not empty.
  pub created_accepted :
      (w : World R P) (u : ℕ) (multi : Bool) (extra : Option Text) (c : ℕ) (session : Text)
      → jwt_authentication R P
          (issued_token R P w u (c ∷ session))
          (create_access_token R P u multi extra (c ∷ session) w).1
        ≡ get_jwt_user R P u (create_access_token R P u multi extra (c ∷ session) w).1
  unfolding issued_token jwt_encode
  created_accepted w u multi extra c session =
      stored_accepted (create_access_token R P u multi extra (c ∷ session) w).1
        (issued_token R P w u (c ∷ session))
        (record {
          id = u;
          session_uuid = c ∷ session;
          expire_time = w.now + token_expire_seconds * micro;
        })
        (rw now-create_access_token (
          jwt_decode-encode w.now u (w.now + token_expire_seconds * micro) c session (omega arith)
            (omega arith)))
        (let (e, t, shape) = P.encode-present _ in present-some _ shape)
        (get-created R P w u multi extra (c ∷ session))

  -- A token whose session has no key in Redis is refused as expired, and nothing changes.
  pub no_session_refused :
      (w : World R P) (t : Text) (p : TokenPayload)
      → jwt_decode R P w.now t ≡ ok p
      → get w.store (access_key p.id p.session_uuid) ≡ none
      → jwt_authentication R P t w ≡ (err (token_error "error.token_expired"), w)
  unfolding jwt_authentication
  no_session_refused w t p decoded gone = rw decoded (rw gone)

  -- A login without `multi_login` makes every token of the user's other sessions worthless:
  -- authentication refuses it as expired.
  pub other_sessions_refused :
      (w : World R P) (u : ℕ) (extra : Option Text) (session t : Text) (p : TokenPayload)
      → jwt_decode R P w.now t ≡ ok p
      → p.id ≡ u
      → p.session_uuid ≢ session
      → let w' = (create_access_token R P u false extra session w).1 in
        jwt_authentication R P t w' ≡ (err (token_error "error.token_expired"), w')
  other_sessions_refused w u extra session t p decoded own other =
      no_session_refused _ t p (rw now-create_access_token decoded) (
        rw own (
          single_session R P w u extra session (access_key u p.session_uuid)
            (access_key-own u u p.session_uuid session)
          ∙ rw (access_key_ne u u session p.session_uuid (λ e. other (sym e)))))

  -- After `revoke_token` no token of that session is accepted.
  pub revoked_refused :
      (w : World R P) (t : Text) (p : TokenPayload)
      → jwt_decode R P w.now t ≡ ok p
      → let w' = (revoke_token R P p.id p.session_uuid w).1 in
        jwt_authentication R P t w' ≡ (err (token_error "error.token_expired"), w')
  unfolding revoke_token
  revoked_refused w t p decoded =
      no_session_refused _ t p decoded
        (simp (get-remove, extra-access p.id p.id p.session_uuid p.session_uuid, text_eq_refl))
