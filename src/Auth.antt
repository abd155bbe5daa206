-- ===== src/Auth.antt =====
-- backend/app/admin/service/auth_service.py: login, refresh and logout. The request's context (ip,
-- device) and the keyword arguments that are stored as JSON come in as one function of the user,
-- and uuid4 as an argument. An error keeps its message's i18n key, which `t` translates.
pub mod Verify
pub mod Outcomes
use Prim.Native.String.{String}
use mc_bd.Prelude.{
  ℕ, ◌==◌, ◌∷◌, [], ◌++◌, Option, none, some, List, Bool, true, false, not, ◌&&◌, if◌then◌else◌,
}
use mc_bd.Prelude.Text.{Text, text_eq}
use mc_bd.Errors.{
  Error, Message, Result, ok, err, http_401, bad_request, request, custom, authorization, not_found,
  forbidden, server, gateway, token, conflict, unexpected, plain, numbered,
}
use mc_bd.Redis.{Redis, get_prefix}
use mc_bd.Platform.{Platform, User, last_login_time}
use mc_bd.Keys.{access_prefix, access_key, extra_key, refresh_key, captcha_key}
use mc_bd.Action.{
  World, Action, pure, raise, raise_if, require, lift, gets, ◌>>=◌, ◌>>◌, redis_get, redis_delete,
  present,
}
use mc_bd.Config.{load_login_config}
use mc_bd.Security.{
  check_status, handle_login_failure, check_password_expiry_status, handle_login_success,
}
use mc_bd.Jwt.{
  TokenPayload, NewToken, create_access_token, create_refresh_token, create_new_token, jwt_decode,
  get_token, token_error,
}

-- AuthLoginParam
pub record LoginParam : Type 0 where
  pub username : Text
  pub password : Text
  pub uuid : Option Text
  pub captcha : Option Text

-- GetLoginToken, with the refresh token that the response's cookie carries
pub record LoginData : Type 0 where
  pub access_token : Text
  pub access_token_expire_time : ℕ
  pub session_uuid : Text
  pub password_expire_days_remaining : Option ℕ
  pub user : User
  pub refresh_cookie : Text

-- The background task of login_log_service.create: the user's own uuid, if there is a user, the
-- name, whether the login succeeded, and the message.
pub record LoginLog : Type 0 where
  pub user_uuid : Option Text
  pub username : Text
  pub succeeded : Bool
  pub msg : Message

-- The truth of a list of keys
some_key : List Text → Bool
some_key [] = false
some_key (k ∷ ks) = true

module _ (R : Redis) (P : Platform) where
  -- `user.password is None or not password_verify(password, user.password)`
  unfoldable pub wrong_password : Text → Option Text → Bool
  wrong_password password none = true
  wrong_password password (some hashed) = not (P.verify_password password hashed)

  refuse_password : ℕ → Action R P (Unit {0})
  refuse_password user_id = do
    handle_login_failure R P user_id
    raise (authorization (plain "error.username_or_password_wrong"))

  -- `user_verify` once the user is found
  unfoldable pub admit : Text → User → Action R P (User × Option ℕ)
  unfolding refuse_password
  admit password user = do
    check_status R P user.id user.status
    if wrong_password password user.password then refuse_password user.id else pure tt
    days_remaining ← check_password_expiry_status R P user.last_password_changed_time
    handle_login_success R P user.id
    pure (user, days_remaining)

  unfoldable pub user_verify : Text → Text → Action R P (User × Option ℕ)
  unfolding admit
  user_verify username password = do
    found ← gets (λ w. P.find_username w.db username)
    user ← require found (request http_401 (plain "error.username_not_found"))
    admit password user

  unfoldable pub compare_captcha : Text → Text → Action R P (Unit {0})
  compare_captcha uuid captcha = do
    stored ← redis_get (captcha_key uuid)
    captcha_code ← require (present stored) (bad_request "error.captcha.expired")
    raise_if (not (text_eq (P.lower captcha_code) (P.lower captcha))) custom
    redis_delete (captcha_key uuid)

  unfoldable pub check_captcha : Option Text → Option Text → Action R P (Unit {0})
  unfolding compare_captcha
  check_captcha none captcha = raise (bad_request "error.captcha.invalid")
  check_captcha (some uuid) none = raise (bad_request "error.captcha.invalid")
  check_captcha (some uuid) (some captcha) = compare_captcha uuid captcha

  update_login_time : Text → Action R P (Unit {0})
  update_login_time username w =
      (ok tt, record w { db = P.update_username w.db username (last_login_time w.now) })

  -- The rest of the `try` of `login`, once the user is verified.
  unfoldable pub open_session :
      (User → Text) → Text → LoginParam → User × Option ℕ → Action R P LoginData
  unfolding update_login_time
  open_session extra fresh_uuid obj (verified, days_remaining) = do
    load_login_config R P
    captcha_enabled ← gets (λ w. w.settings.login_captcha_enabled)
    if captcha_enabled then check_captcha (present obj.uuid) (present obj.captcha) else pure tt
    update_login_time obj.username
    refreshed ← gets (λ w. P.find_user w.db verified.id)
    user ← require refreshed (unexpected "InvalidRequestError")
    access ← create_access_token R P user.id user.is_multi_login (some (extra user)) fresh_uuid
    refresh ← create_refresh_token R P access.session_uuid user.id user.is_multi_login
    pure (record {
      access_token = access.access_token;
      access_token_expire_time = access.access_token_expire_time;
      session_uuid = access.session_uuid;
      password_expire_days_remaining = days_remaining;
      user = user;
      refresh_cookie = refresh.refresh_token;
    })

  -- `except (RequestError, CustomError, AuthorizationError)`: the message to display.
  unfoldable pub caught : Error → Option Message
  caught (request c m) = some m
  caught custom = some (plain "error.captcha.error")
  caught (authorization m) = some m
  caught (forbidden m) = none
  caught (not_found m) = none
  caught (server m) = none
  caught (gateway m) = none
  caught (token m) = none
  caught (conflict m) = none
  caught (unexpected m) = none

  uuid_of : Option User → Option Text
  uuid_of none = none
  uuid_of (some u) = some u.uuid

  -- The `except` clauses: a caught error becomes 401 with its message and a log of the failure; any
  -- other is raised again.
  unfoldable pub failed : Option User → Text → Error → Result LoginData × Option LoginLog
  unfolding uuid_of
  failed user username e = elim (caught e) [
    | none ↦ (err e, none)
    | some m ↦ (
      err (request http_401 m),
      some (record { user_uuid = uuid_of user; username = username; succeeded = false; msg = m }),
    )
  ]

  unfoldable pub conclude :
      LoginParam → User → Result LoginData → Result LoginData × Option LoginLog
  conclude obj user (ok data') = (
    ok data',
    some (record {
      user_uuid = some data'.user.uuid;
      username = obj.username;
      succeeded = true;
      msg = plain "success.login.success";
    }),
  )
  conclude obj user (err e) = failed (some user) obj.username e

  unfoldable pub after_verify :
      (User → Text)
      → Text
      → LoginParam
      → Result (User × Option ℕ)
      → World R P
      → (Result LoginData × Option LoginLog) × World R P
  after_verify extra fresh_uuid obj (err e) w = (failed none obj.username e, w)
  after_verify extra fresh_uuid obj (ok (user, days)) w =
      let (r, w') = open_session extra fresh_uuid obj (user, days) w in (conclude obj user r, w')

  unfoldable pub login :
      (User → Text)
      → Text
      → LoginParam
      → World R P
      → (Result LoginData × Option LoginLog) × World R P
  unfolding after_verify conclude failed caught
  login extra fresh_uuid obj w =
      let (r, w') = user_verify obj.username obj.password w in
      after_verify extra fresh_uuid obj r w'

  unfoldable pub swagger_login : Text → Text → Text → Text → Action R P (Text × User)
  unfolding update_login_time
  swagger_login extra fresh_uuid username password = do
    (user, days) ← user_verify username password
    update_login_time username
    access ← create_access_token R P user.id user.is_multi_login (some extra) fresh_uuid
    pure (access.access_token, user)

  -- `cookie` is the request's refresh token cookie.
  unfoldable pub refresh_token : (User → Text) → Text → Option Text → Action R P NewToken
  unfolding some_key
  refresh_token extra fresh_uuid cookie = do
    refresh ← require (present cookie) (bad_request "error.refresh_token_expired")
    now ← gets (λ w. w.now)
    payload ← lift (jwt_decode R P now refresh)
    found ← gets (λ w. P.find_user w.db payload.id)
    user ← require found (not_found (plain "error.user_not_found"))
    raise_if (user.status == 0) (authorization (plain "error.user_locked_contact_admin"))
    live ← gets (λ w. get_prefix R (access_prefix user.id ++ b':' ∷ []) w.store)
    raise_if (not user.is_multi_login && some_key live)
        (forbidden (plain "error.user_remote_login"))
    create_new_token R P refresh payload.session_uuid user.id user.is_multi_login
        (some (extra user)) fresh_uuid

  forget_refresh : ℕ → Text → Option Text → Action R P (Unit {0})
  forget_refresh user_id session_uuid none = pure tt
  forget_refresh user_id session_uuid (some refresh) =
      redis_delete (refresh_key user_id session_uuid)

  unfoldable pub end_session : Option Text → Result TokenPayload → Action R P (Unit {0})
  unfolding forget_refresh
  end_session cookie (err (token m)) = pure tt
  end_session cookie (err e) = raise e
  end_session cookie (ok payload) = do
    redis_delete (access_key payload.id payload.session_uuid)
    redis_delete (extra_key payload.id payload.session_uuid)
    forget_refresh payload.id payload.session_uuid (present cookie)

  decode_header : ℕ → Result Text → Result TokenPayload
  decode_header now (err e) = err e
  decode_header now (ok t) = jwt_decode R P now t

  -- The response also deletes the cookie, whatever happens (`finally`).
  unfoldable pub logout : Option Text → Option Text → Action R P (Unit {0})
  unfolding decode_header
  logout header cookie = do
    now ← gets (λ w. w.now)
    end_session cookie (decode_header now (get_token R P header))
