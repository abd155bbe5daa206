-- ===== src/Jwt.antt =====
-- backend/common/security/jwt.py: the tokens of a session and their keys in Redis.
pub mod Keeps
pub mod Sessions
pub mod Accept
pub mod Rotate
use Prim.Native.String.{String}
use mc_bd.Prelude.{
  ℕ, ◌+◌, ◌*◌, Option, none, some, List, [], ◌∷◌, Bool, true, false, not, ◌==◌, ◌&&◌, ◌||◌,
  if◌then◌else◌,
}
use mc_bd.Prelude.Text.{Text, codes, text_eq, decimal}
use mc_bd.Errors.{Error, Result, ok, err, token, authorization, unexpected, plain}
use mc_bd.Redis.{Redis}
use mc_bd.Platform.{Platform, User, Role, Claims, Decoded, valid, expired, malformed, micro}
use mc_bd.Settings.{token_expire_seconds, token_refresh_expire_seconds}
use mc_bd.Keys.{access_key, extra_key, refresh_key, jwt_user_key, access_prefix, refresh_prefix}
use mc_bd.Action.{
  World, Action, pure, raise, raise_if, require, lift, gets, ◌>>=◌, ◌>>◌, redis_get, redis_set,
  redis_setex, redis_delete, redis_delete_prefix, present,
}

-- backend/common/dataclasses.py
pub record AccessToken : Type 0 where
  pub access_token : Text
  pub access_token_expire_time : ℕ
  pub session_uuid : Text

pub record RefreshToken : Type 0 where
  pub refresh_token : Text
  pub refresh_token_expire_time : ℕ

pub record NewToken : Type 0 where
  pub new_access_token : Text
  pub new_access_token_expire_time : ℕ
  pub new_refresh_token : Text
  pub new_refresh_token_expire_time : ℕ
  pub session_uuid : Text

pub record TokenPayload : Type 0 where
  pub id : ℕ
  pub session_uuid : Text
  pub expire_time : ℕ

abbrev pub token_error : String → Error
token_error m = token (plain m)

abbrev pub positive : Option ℕ → Option ℕ
positive none = none
positive (some n) = if n == 0 then none else some n

module _ (R : Redis) (P : Platform) where
  -- What `jwt_decode` does with the claims: `int(user_id)` stands outside the `try`.
  unfoldable pub payload_of : Option Text → Option Text → Option ℕ → Result TokenPayload
  payload_of (some session_uuid) (some user_id) (some expire) = elim (P.int_of user_id) [
    | some id ↦ ok (record { id = id; session_uuid = session_uuid; expire_time = expire })
    | none ↦ err (unexpected "ValueError")
  ]
  payload_of _ _ _ = err (token_error "error.token_invalid")

  unfoldable pub jwt_decode : ℕ → Text → Result TokenPayload
  unfolding payload_of
  jwt_decode now t = elim (P.decode now t) [
    | valid c ↦ payload_of (present c.session_uuid) (present c.sub) (positive c.exp)
    | expired ↦ err (token_error "error.token_expired")
    | malformed ↦ err (token_error "error.token_invalid")
  ]

  unfoldable pub jwt_encode : Text → ℕ → ℕ → Text
  jwt_encode session_uuid expire user_id =
      P.encode (record {
        session_uuid = some session_uuid;
        sub = some (decimal user_id);
        exp = some expire;
      })

  store_extra : ℕ → Text → Option Text → Action R P (Unit {0})
  store_extra user_id session_uuid none = pure tt
  store_extra user_id session_uuid (some extra) =
      redis_setex (extra_key user_id session_uuid) token_expire_seconds extra

  -- `session_uuid` is the value of uuid4, `extra` the JSON of the keyword arguments, if any.
  unfoldable pub create_access_token : ℕ → Bool → Option Text → Text → Action R P AccessToken
  unfolding store_extra jwt_encode
  create_access_token user_id multi_login extra session_uuid = do
    now ← gets (λ w. w.now)
    let expire = now + token_expire_seconds * micro
    let access_token = jwt_encode session_uuid expire user_id
    if multi_login then pure tt else redis_delete_prefix (access_prefix user_id) []
    redis_delete (jwt_user_key user_id)
    redis_setex (access_key user_id session_uuid) token_expire_seconds access_token
    store_extra user_id session_uuid extra
    pure (record {
      access_token = access_token;
      access_token_expire_time = expire;
      session_uuid = session_uuid;
    })

  unfoldable pub create_refresh_token : Text → ℕ → Bool → Action R P RefreshToken
  unfolding jwt_encode
  create_refresh_token session_uuid user_id multi_login = do
    now ← gets (λ w. w.now)
    let expire = now + token_refresh_expire_seconds * micro
    let refresh_token = jwt_encode session_uuid expire user_id
    if multi_login then pure tt else redis_delete_prefix (refresh_prefix user_id) []
    redis_setex (refresh_key user_id session_uuid) token_refresh_expire_seconds refresh_token
    pure (record { refresh_token = refresh_token; refresh_token_expire_time = expire })

  -- `not stored or stored != refresh_token`
  abbrev pub differs : Option Text → Text → Bool
  differs none t = true
  differs (some s) t = not (text_eq s t)

  unfoldable pub create_new_token :
      Text → Text → ℕ → Bool → Option Text → Text → Action R P NewToken
  create_new_token refresh_token session_uuid user_id multi_login extra fresh_uuid = do
    stored ← redis_get (refresh_key user_id session_uuid)
    raise_if (differs (present stored) refresh_token) (token_error "error.refresh_token_expired")
    redis_delete (refresh_key user_id session_uuid)
    redis_delete (access_key user_id session_uuid)
    new_access ← create_access_token user_id multi_login extra fresh_uuid
    new_refresh ← create_refresh_token new_access.session_uuid user_id multi_login
    pure (record {
      new_access_token = new_access.access_token;
      new_access_token_expire_time = new_access.access_token_expire_time;
      new_refresh_token = new_refresh.refresh_token;
      new_refresh_token_expire_time = new_refresh.refresh_token_expire_time;
      session_uuid = new_access.session_uuid;
    })

  unfoldable pub revoke_token : ℕ → Text → Action R P (Unit {0})
  revoke_token user_id session_uuid = do
    redis_delete (access_key user_id session_uuid)
    redis_delete (extra_key user_id session_uuid)

  bearer : Text × Text → Result Text
  bearer (scheme, t) =
      if text_eq (P.lower scheme) (codes "bearer")
      then ok t
      else err (token_error "error.token_invalid")

  -- `header` is the Authorization header of the request.
  unfoldable pub get_token : Option Text → Result Text
  unfolding bearer
  get_token header = elim (present header) [
    | none ↦ err (token_error "error.token_invalid")
    | some a ↦ bearer (P.scheme_param a)
  ]

  -- `if user.roles` and all of them disabled
  unfoldable pub all_disabled : List Role → Bool
  all_disabled [] = true
  all_disabled (r ∷ rs) = r.status == 0 && all_disabled rs

  role_locked : List Role → Bool
  role_locked [] = false
  role_locked (r ∷ rs) = all_disabled (r ∷ rs)

  unfoldable pub get_current_user : ℕ → Action R P User
  unfolding role_locked all_disabled
  get_current_user pk = do
    found ← gets (λ w. P.find_user w.db pk)
    user ← require found (token_error "error.token_invalid")
    raise_if (user.status == 0) (authorization (plain "error.user_locked"))
    raise_if (role_locked user.roles) (authorization (plain "error.role_locked"))
    pure user

  cached : ℕ → Option Text → Action R P User
  cached user_id (some json) = pure (P.load_user json)
  cached user_id none = do
    user ← get_current_user user_id
    redis_setex (jwt_user_key user_id) token_expire_seconds (P.dump_user user)
    pure user

  unfoldable pub get_jwt_user : ℕ → Action R P User
  unfolding cached
  get_jwt_user user_id = do
    cache_user ← redis_get (jwt_user_key user_id)
    cached user_id (present cache_user)

  unfoldable pub superuser_verify : User → Result Bool
  superuser_verify user =
      if not user.is_superuser || not user.is_staff
      then err (authorization (plain "Permission Denied"))
      else ok user.is_superuser

  unfoldable pub jwt_authentication : Text → Action R P User
  jwt_authentication t = do
    now ← gets (λ w. w.now)
    payload ← lift (jwt_decode now t)
    redis_token ← redis_get (access_key payload.id payload.session_uuid)
    stored ← require (present redis_token) (token_error "error.token_expired")
    raise_if (not (text_eq t stored)) (token_error "error.token_invalidated")
    get_jwt_user payload.id
