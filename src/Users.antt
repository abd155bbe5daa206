-- ===== src/Users.antt =====
-- backend/app/admin/service/user_service.py, the operations on one account, and the updates of
-- backend/app/admin/crud/crud_user.py that they make.
pub mod Ending
pub mod Permission
pub mod Reset
use Prim.Native.String.{String}
use mc_bd.Prelude.{
  ℕ, ◌==◌, Option, none, some, List, [], ◌∷◌, ◌++◌, Bool, true, false, not, if◌then◌else◌,
}
use mc_bd.Prelude.Text.{Text, text_eq}
use mc_bd.Errors.{
  Error, Result, ok, err, not_found, forbidden, custom, bad_request, unexpected, plain,
}
use mc_bd.Redis.{Redis}
use mc_bd.Platform.{
  Platform, User, Role, Patch, is_superuser, is_staff, is_multi_login, status, password, nickname,
  email, last_password_changed_time,
}
use mc_bd.Keys.{access_prefix, access_key, refresh_prefix, jwt_user_key, uuid_key}
use mc_bd.Action.{
  World, Action, pure, raise, raise_if, require, lift, gets, ◌>>=◌, ◌>>◌, redis_get, redis_delete,
  redis_delete_prefix, present,
}
use mc_bd.Security.{save_password_history}
use mc_bd.Password.{validate_new_password}
use mc_bd.Jwt.{TokenPayload, get_token, jwt_decode}

-- UserPermissionType
pub data PermissionType : Type 0 where
  superuser staff account_status multi_login : PermissionType

-- The request of an endpoint: its Authorization header and the authenticated user.
pub record Caller : Type 0 where
  pub header : Option Text
  pub user : User

-- ResetPasswordParam
pub record ResetParam : Type 0 where
  pub old_password : Text
  pub new_password : Text
  pub confirm_password : Text

abbrev pub user_missing : Error
user_missing = not_found (plain "error.user_not_found")

abbrev pub self_modification : Error
self_modification = forbidden (plain "error.forbidden_modify_self_permission")

module _ (R : Redis) (P : Platform) where
  -- update_model by primary key, which returns the number of rows it changed
  abbrev pub update_model : ℕ → Patch → Action R P ℕ
  update_model user_id patch w =
      (ok (P.rows w.db user_id), record w { db = P.update_user w.db user_id patch })

  abbrev set_super : ℕ → Bool → Action R P ℕ
  set_super user_id b = update_model user_id (is_superuser b)

  abbrev set_staff : ℕ → Bool → Action R P ℕ
  set_staff user_id b = update_model user_id (is_staff b)

  abbrev set_status : ℕ → ℕ → Action R P ℕ
  set_status user_id n = update_model user_id (status n)

  abbrev set_multi_login : ℕ → Bool → Action R P ℕ
  set_multi_login user_id b = update_model user_id (is_multi_login b)

  -- CRUDUser.reset_password
  set_password : ℕ → Text → Action R P ℕ
  set_password pk new_password w = (
    ok (P.rows w.db pk),
    record w { db = P.update_user w.db pk (password (P.hash_password w.db new_password)) },
  )

  update_password_changed_time : ℕ → Action R P ℕ
  update_password_changed_time user_id w = update_model user_id (last_password_changed_time w.now) w

  unfoldable pub found_user : ℕ → Action R P User
  found_user pk = do found ← gets (λ w. P.find_user w.db pk); require found user_missing

  -- The user that a permission of `request.user` may be changed of.
  other_user : Caller → ℕ → Action R P User
  unfolding found_user
  other_user request pk = do
    user ← found_user pk
    raise_if (pk == request.user.id) self_modification
    pure user

  -- The deletions when `multi_login` is switched: `own` is the session of the request's token.
  unfoldable pub end_others : User → ℕ → Bool → Text → Action R P (Unit {0})
  end_others user pk new_multi_login own =
      if new_multi_login
      then pure tt
      else if pk == user.id
      then redis_delete_prefix (access_prefix user.id) (access_key user.id own ∷ [])
      else redis_delete_prefix (access_prefix user.id) []

  unfoldable pub switch_multi_login : Caller → ℕ → Action R P (User × ℕ)
  unfolding found_user end_others
  switch_multi_login request pk = do
    user ← found_user pk
    let multi_login = if pk == user.id then request.user.is_multi_login else user.is_multi_login
    let new_multi_login = not multi_login
    count ← set_multi_login pk new_multi_login
    t ← lift (get_token R P request.header)
    now ← gets (λ w. w.now)
    token_payload ← lift (jwt_decode R P now t)
    end_others user pk new_multi_login token_payload.session_uuid
    pure (user, count)

  -- The cases of the `match`.
  change_permission : Caller → ℕ → PermissionType → Action R P (User × ℕ)
  unfolding other_user switch_multi_login
  change_permission request pk superuser = do
    user ← other_user request pk
    count ← set_super pk (not user.is_superuser)
    pure (user, count)
  change_permission request pk staff = do
    user ← other_user request pk
    count ← set_staff pk (not user.is_staff)
    pure (user, count)
  change_permission request pk account_status = do
    user ← other_user request pk
    count ← set_status pk (if user.status == 1 then 0 else 1)
    pure (user, count)
  change_permission request pk multi_login = switch_multi_login request pk

  unfoldable pub update_permission : Caller → ℕ → PermissionType → Action R P ℕ
  unfolding change_permission
  update_permission request pk type = do
    changed ← change_permission request pk type
    redis_delete (jwt_user_key changed.0.id)
    pure changed.1

  -- CreateUserPasswordHistoryParam takes no None; the password is read after the update.
  keep_password : User → Action R P (Unit {0})
  unfolding save_password_history
  keep_password user = do
    shown ← gets (λ w. P.shown w.db user)
    old ← require shown.password (unexpected "ValidationError")
    save_password_history R P user.id old

  -- The statements that reset_password and update_password share: the check, the new password,
  -- the history and the time of the change.
  put_password : User → ℕ → Text → Action R P ℕ
  unfolding keep_password set_password update_password_changed_time
  put_password user user_id new_password = do
    count ← set_password user_id new_password
    keep_password user
    changed ← update_password_changed_time user.id
    pure count

  unfoldable pub replace_password : User → ℕ → Text → Action R P ℕ
  unfolding put_password
  replace_password user user_id new_password = do
    validate_new_password R P user_id new_password
    put_password user user_id new_password

  -- The `for` loop of reset_password over bare keys.
  unfoldable pub delete_keys : ℕ → Action R P (Unit {0})
  delete_keys user_id = do
    redis_delete (access_prefix user_id)
    redis_delete (refresh_prefix user_id)
    redis_delete (jwt_user_key user_id)

  unfoldable pub reset_password : ℕ → Text → Action R P ℕ
  unfolding found_user
  reset_password pk new_password = do
    user ← found_user pk
    count ← replace_password user user.id new_password
    delete_keys user.id
    pure count

  -- The `for` loop of delete over prefixes, and the first two rounds of the one of update_password.
  unfoldable pub delete_sessions : ℕ → Action R P (Unit {0})
  delete_sessions user_id = do
    redis_delete_prefix (access_prefix user_id) []
    redis_delete_prefix (refresh_prefix user_id) []

  -- `user.password and not password_verify(...)`
  wrong_old_password : Text → Option Text → Bool
  wrong_old_password old none = false
  wrong_old_password old (some hashed) = not (P.verify_password old hashed)

  -- The tests of update_password before the new password's own.
  unfoldable pub confirm_old : ℕ → ResetParam → Action R P User
  unfolding wrong_old_password
  confirm_old user_id obj = do
    found ← gets (λ w. P.find_user w.db user_id)
    user ← require found (unexpected "AttributeError")
    raise_if (wrong_old_password obj.old_password (present user.password))
        (bad_request "error.old_password_wrong")
    raise_if (not (text_eq obj.new_password obj.confirm_password))
        (bad_request "error.password_mismatch")
    pure user

  unfoldable pub update_password : ℕ → ResetParam → Action R P ℕ
  unfolding delete_sessions
  update_password user_id obj = do
    user ← confirm_old user_id obj
    count ← replace_password user user_id obj.new_password
    delete_sessions user_id
    redis_delete_prefix (jwt_user_key user_id) []
    pure count

  unfoldable pub update_nickname : ℕ → Text → Action R P ℕ
  update_nickname user_id name = do
    count ← update_model user_id (nickname name)
    redis_delete (jwt_user_key user_id)
    pure count

  -- `prefix` is EMAIL_CAPTCHA_REDIS_PREFIX of the email plugin, `ip` the address of the request.
  unfoldable pub update_email : Text → Text → ℕ → Text → Text → Action R P ℕ
  update_email prefix ip user_id captcha address = do
    stored ← redis_get (uuid_key prefix ip)
    captcha_code ← require (present stored) (bad_request "error.captcha_expired")
    raise_if (not (text_eq captcha captcha_code)) custom
    redis_delete (uuid_key prefix ip)
    count ← update_model user_id (email address)
    redis_delete (jwt_user_key user_id)
    pure count

  unfoldable pub delete : ℕ → Action R P ℕ
  unfolding found_user delete_sessions
  delete pk = do
    user ← found_user pk
    count ← gets (λ w. P.rows w.db user.id)
    (λ w. (ok tt, record w { db = P.delete_user w.db user.id }))
    delete_sessions user.id
    pure count

  unfoldable pub get_roles : ℕ → Action R P (List Role)
  unfolding found_user
  get_roles pk = do user ← found_user pk; pure user.roles
