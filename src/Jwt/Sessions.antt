-- ===== src/Jwt/Sessions.antt =====
-- What the token functions of backend/common/security/jwt.py leave in Redis.
use mc_bd.Prelude.{
  ℕ, ◌+◌, ◌*◌, ◌≡◌, refl, Option, none, some, Bool, true, false, not, ◌&&◌, if◌then◌else◌, arith,
}
use mc_bd.Prelude.Text.{Text, text_eq, starts_with, text_eq_refl, text_eq_of_prefix}
use mc_bd.Redis.{Redis, mem}
use mc_bd.Redis.Prefix.{get-delete_prefix}
use mc_bd.Platform.{Platform, micro}
use mc_bd.Settings.{token_expire_seconds, token_refresh_expire_seconds}
use mc_bd.Keys.{access_key, extra_key, refresh_key, jwt_user_key, access_prefix, refresh_prefix}
use mc_bd.Keys.Apart.{extra-access_prefix, extra-access}
use mc_bd.Action.{World}
use mc_bd.Jwt.{create_access_token, create_refresh_token, jwt_encode}

module _ (R : Redis) where
  open R use {Store, get, setex, get-setex}

  get-setex_access :
      (s : Store) (k v j : Text)
      → get (setex s k token_expire_seconds v) j ≡ (if text_eq k j then some v else get s j)
  get-setex_access s k v j = get-setex s k token_expire_seconds v j (omega arith)

  get-setex_refresh :
      (s : Store) (k v j : Text)
      → get (setex s k token_refresh_expire_seconds v) j ≡ (if text_eq k j then some v else get s j)
  get-setex_refresh s k v j = get-setex s k token_refresh_expire_seconds v j (omega arith)

-- The value under `j` once `store_extra` is through.
abbrev pub extra_at : ℕ → Text → Option Text → Text → Option Text → Option Text
extra_at u session none j old = old
extra_at u session (some extra) j old = if text_eq (extra_key u session) j then some extra else old

pub extra_at_other :
    (u : ℕ) (session : Text) (extra : Option Text) (j : Text) (old : Option Text)
    → text_eq (extra_key u session) j ≡ false
    → extra_at u session extra j old ≡ old
extra_at_other u session none j old h = refl
extra_at_other u session (some e) j old h = rw h

module _ (R : Redis) (P : Platform) where
  open R use {get, remove, setex, get-remove}

  -- The access token that `create_access_token` makes at the world's time.
  unfoldable pub issued_token : World R P → ℕ → Text → Text
  issued_token w user_id session_uuid =
      jwt_encode R P session_uuid (w.now + token_expire_seconds * micro) user_id

  -- What Redis holds under `j` after `create_access_token`.
  pub get-create_access_token :
      (w : World R P) (u : ℕ) (multi : Bool) (extra : Option Text) (session j : Text)
      → get (create_access_token R P u multi extra session w).1.store j
        ≡ extra_at u session extra j (
            if text_eq (access_key u session) j
            then some (issued_token w u session)
            else if text_eq (jwt_user_key u) j
            then none
            else if not multi && starts_with (access_prefix u) j
            then none
            else get w.store j)
  unfolding create_access_token issued_token mem
  get-create_access_token w u true none session j = simp (get-setex_access R, get-remove)
  get-create_access_token w u true (some extra) session j = simp (get-setex_access R, get-remove)
  get-create_access_token w u false none session j =
      simp (get-setex_access R, get-remove, get-delete_prefix R) (ground arith)
  get-create_access_token w u false (some extra) session j =
      simp (get-setex_access R, get-remove, get-delete_prefix R) (ground arith)

  -- A login without `multi_login` ends every other session: afterwards the new session's key is
  -- the only key under the user's prefix that has a value, and it has the new token.
  pub single_session :
      (w : World R P) (u : ℕ) (extra : Option Text) (session j : Text)
      → starts_with (access_prefix u) j ≡ true
      → get (create_access_token R P u false extra session w).1.store j
        ≡ (if text_eq (access_key u session) j then some (issued_token w u session) else none)
  single_session w u extra session j h =
      rw
        (
          get-create_access_token,
          extra_at_other u session extra j _ (
              text_eq_of_prefix (access_prefix u) (extra_key u session) j h
                (extra-access_prefix u u session session)),
          h,
        )
        (ground arith)

  pub get-created :
      (w : World R P) (u : ℕ) (multi : Bool) (extra : Option Text) (session : Text)
      → get (create_access_token R P u multi extra session w).1.store (access_key u session)
        ≡ some (issued_token w u session)
  get-created w u multi extra session = rw (
    get-create_access_token,
    extra_at_other u session extra (access_key u session) _ (extra-access u u session session),
    text_eq_refl (access_key u session),
  )

  -- What Redis holds under `j` after `create_refresh_token`.
  pub get-create_refresh_token :
      (w : World R P) (u : ℕ) (multi : Bool) (session j : Text)
      → get (create_refresh_token R P session u multi w).1.store j ≡ (
          if text_eq (refresh_key u session) j
          then some (jwt_encode R P session (w.now + token_refresh_expire_seconds * micro) u)
          else if not multi && starts_with (refresh_prefix u) j
          then none
          else get w.store j)
  unfolding create_refresh_token mem
  get-create_refresh_token w u true session j = simp (get-setex_refresh R)
  get-create_refresh_token w u false session j =
      simp (get-setex_refresh R, get-delete_prefix R) (ground arith)
