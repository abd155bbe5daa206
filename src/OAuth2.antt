-- ===== src/OAuth2.antt =====
-- backend/plugin/oauth2: the login and the binding of an account at another service. What the
-- provider answers about the user is an argument, with the fields that both providers always send as
-- texts; uuid4 and the random texts of fast_captcha are arguments too. The table of bindings, the
-- lookup by e-mail and the JSON of the state are a parameter beside the platform's session.
pub mod Keeps
pub mod States
pub mod Bindings
pub mod Concrete
use mc_bd.Prelude.{
  ℕ, ◌∷◌, [], ◌++◌, ◌==◌, Option, none, some, List, Bool, true, false, not, ◌&&◌, ◌<◌, ◌≡◌,
  if◌then◌else◌, map,
}
use mc_bd.Prelude.Text.{Text, codes, text_eq}
use mc_bd.Errors.{Error, Result, ok, err, forbidden, bad_request, not_found, unexpected, plain}
use mc_bd.Redis.{Redis, is_some}
use mc_bd.Platform.{Platform, User, Role, avatar, last_login_time}
use mc_bd.Keys.{state_key, captcha_key}
use mc_bd.Action.{
  World, Action, pure, raise, raise_if, require, lift, gets, ◌>>=◌, ◌>>◌, redis_get, redis_setex,
  redis_delete, present,
}
use mc_bd.Jwt.{AccessToken, RefreshToken, create_access_token, create_refresh_token}

-- UserSocialType
pub data UserSocialType : Type 0 where
  github google : UserSocialType

unfoldable pub same_source : UserSocialType → UserSocialType → Bool
same_source github github = true
same_source github google = false
same_source google github = false
same_source google google = true

-- The JSON of a state: its `type` and its `user_id`
pub record StateInfo : Type 0 where
  pub type : Option Text
  pub user_id : Option ℕ

-- UserSocialAuthType
abbrev pub login_type : Text
login_type = codes "login"

abbrev pub binding_type : Text
binding_type = codes "binding"

-- The user at the other service
pub record Profile : Type 0 where
  pub id : Text
  pub login : Text
  pub name : Text
  pub given_name : Text
  pub email : Option Text
  pub avatar_url : Option Text
  pub picture : Option Text

-- AddOAuth2UserParam, whose password is None
pub record NewUser : Type 0 where
  pub username : Text
  pub nickname : Text
  pub email : Option Text
  pub avatar : Option Text

pub record SocialTable (P : Platform) : Type 0 where
  -- the rows of sys_user_social by user and source, and by sid and source, with their users
  pub check_binding : P.Session → ℕ → UserSocialType → Bool
  pub get_by_sid : P.Session → Text → UserSocialType → Option ℕ
  pub create : P.Session → Text → UserSocialType → ℕ → P.Session
  pub delete : P.Session → ℕ → UserSocialType → P.Session × ℕ
  pub find_email : P.Session → Text → Option User
  -- an insertion of a user that is staff, and its number; the first role; a row of user_role
  pub insert_user : P.Session → NewUser → ℕ × P.Session
  pub first_role : P.Session → Option Role
  pub insert_user_role : P.Session → ℕ → ℕ → P.Session
  -- json.dumps of a state, and json.loads: none is its exception, some none a value that is no object
  pub dump_state : StateInfo → Text
  pub load_state : Text → Option (Option StateInfo)
  pub dump_state-present : (i : StateInfo) → (c : ℕ) × (t : Text) × (dump_state i ≡ c ∷ t)
  pub load-dump_state : (i : StateInfo) → load_state (dump_state i) ≡ some (some i)
  pub sid-create :
      (db : P.Session) (s t : Text) (a b : UserSocialType) (u : ℕ)
      → get_by_sid db s a ≡ none
      → get_by_sid (create db s a u) t b
        ≡ (if text_eq s t && same_source a b then some u else get_by_sid db t b)
  pub binding-create :
      (db : P.Session) (s : Text) (a b : UserSocialType) (u v : ℕ)
      → check_binding (create db s a u) v b
        ≡ (if (u == v) && same_source a b then true else check_binding db v b)

abbrev pub oauth2_state_expire_seconds : ℕ
oauth2_state_expire_seconds = 180

-- The messages without the name of the source that they hold
abbrev pub already_bound : Error
already_bound = bad_request "用户已绑定账号"

abbrev pub bound_by_other : Error
bound_by_other = bad_request "该账号已被其他用户绑定"

abbrev pub state_missing : Error
state_missing = forbidden (plain "OAuth2 状态信息缺失")

abbrev pub state_unknown : Error
state_unknown = forbidden (plain "OAuth2 状态信息无效或缺失")

abbrev pub state_illegal : Error
state_illegal = forbidden (plain "非法操作，OAuth2 状态信息无效")

abbrev pub state_invalid : Error
state_invalid = forbidden (plain "OAuth2 状态信息无效")

-- GetLoginToken, with the refresh token that the response's cookie carries
pub record LoginData : Type 0 where
  pub access_token : Text
  pub access_token_expire_time : ℕ
  pub session_uuid : Text
  pub user : User
  pub refresh_cookie : Text

-- What `login_or_binding` takes from the provider's answer
pub record Account : Type 0 where
  pub sid : Text
  pub username : Text
  pub nickname : Text
  pub email : Option Text
  pub avatar : Option Text

unfoldable pub account_of : UserSocialType → Profile → Account
account_of github u = record {
  sid = u.id;
  username = u.login;
  nickname = u.name;
  email = u.email;
  avatar = u.avatar_url;
}
account_of google u = record {
  sid = u.id;
  username = u.name;
  nickname = u.given_name;
  email = u.email;
  avatar = u.picture;
}

module _ (R : Redis) (P : Platform) (S : SocialTable P) where
  -- UserSocialService.binding_with_oauth2
  unfoldable pub binding_with_oauth2 : ℕ → Text → UserSocialType → Action R P (Unit {0})
  binding_with_oauth2 user_id sid source = do
    bound ← gets (λ w. S.check_binding w.db user_id source)
    raise_if bound already_bound
    other ← gets (λ w. S.get_by_sid w.db sid source)
    raise_if (is_some other) bound_by_other
    λ w. (ok tt, record w { db = S.create w.db sid source user_id })

  -- UserSocialService.unbinding
  unfoldable pub unbinding : ℕ → UserSocialType → Action R P ℕ
  unbinding user_id source = do
    bound ← gets (λ w. S.check_binding w.db user_id source)
    raise_if (not bound) (not_found (plain "用户未绑定账号"))
    λ w. let (db, n) = S.delete w.db user_id source in (ok n, record w { db = db })

  -- The state that get_binding_auth_url stores, and the one of the two login routes; the address is
  -- the provider's library's.
  unfoldable pub get_binding_auth_url : ℕ → Text → Action R P (Unit {0})
  get_binding_auth_url user_id state =
      redis_setex (state_key state) oauth2_state_expire_seconds
        (S.dump_state (record { type = some binding_type; user_id = some user_id }))

  unfoldable pub get_login_url : Text → Action R P (Unit {0})
  get_login_url state =
      redis_setex (state_key state) oauth2_state_expire_seconds
        (S.dump_state (record { type = some login_type; user_id = none }))

  give_role : ℕ → Option Role → Action R P (Unit {0})
  give_role user_id none w = (err (unexpected "AttributeError"), w)
  give_role user_id (some role) w =
      (ok tt, record w { db = S.insert_user_role w.db user_id role.id })

  -- CRUDUser.add_by_oauth2; a missing role is an AttributeError.
  add_by_oauth2 : NewUser → Action R P (Unit {0})
  unfolding give_role
  add_by_oauth2 obj w =
      let (user_id, db) = S.insert_user w.db obj in
      give_role user_id (S.first_role db) (record w { db = db })

  -- The loop that makes a name unique, over the random texts that it draws; none is a loop that
  -- goes on.
  unfoldable pub unique_name : P.Session → List Text → Text → Option Text
  unique_name db [] name = if is_some (P.find_username db name) then none else some name
  unique_name db (c ∷ captchas) name =
      let rest = unique_name db captchas (name ++ b'_' ∷ c) in
      if is_some (P.find_username db name) then rest else some name

  by_email : Option Text → Action R P (Option User)
  by_email none = pure none
  by_email (some []) = pure none
  by_email (some (c ∷ t)) = gets (λ w. S.find_email w.db (c ∷ t))

  read_user : Text → Action R P User
  read_user username = do
    found ← gets (λ w. P.find_username w.db username)
    require found (unexpected "AttributeError")

  add_under : Account → Text → Action R P User
  unfolding add_by_oauth2 read_user
  add_under a username =
      add_by_oauth2
        (record { username = username; nickname = a.nickname; email = a.email; avatar = a.avatar })
      >> read_user username

  find_or_add : List Text → Account → Option User → Action R P User
  unfolding add_under
  find_or_add captchas a (some user) = pure user
  find_or_add captchas a none = do
    chosen ← gets (λ w. unique_name w.db captchas a.username)
    username ← require chosen (unexpected "endless")
    add_under a username

  put_avatar : User → Option Text → Option Text → Action R P (Unit {0})
  put_avatar user none (some url) w =
      (ok tt, record w { db = P.update_user w.db user.id (avatar url) })
  put_avatar user none none w = (ok tt, w)
  put_avatar user (some t) url w = (ok tt, w)

  unfoldable pub with_avatar : Option Text → User → Action R P User
  unfolding put_avatar
  with_avatar url user = do put_avatar user (present user.avatar) url; pure user

  bind_user : UserSocialType → Text → User → Action R P User
  bind_user source sid user w = (ok user, record w { db = S.create w.db sid source user.id })

  -- The user of the account: the one that is bound, or one by e-mail or a new one, which is bound.
  unfoldable pub user_of : UserSocialType → List Text → Account → Option ℕ → Action R P User
  unfolding by_email find_or_add with_avatar bind_user
  user_of source captchas a (some user_id) = do
    found ← gets (λ w. P.find_user w.db user_id)
    sys_user ← require found (unexpected "AttributeError")
    with_avatar a.avatar sys_user
  user_of source captchas a none =
      (by_email a.email >>= find_or_add captchas a) >>= bind_user source a.sid

  finished : Text → AccessToken → RefreshToken → Option User → Action R P LoginData
  finished ip access refresh none = raise (unexpected "InvalidRequestError")
  finished ip access refresh (some sys_user) =
      redis_delete (captcha_key ip)
      >> pure (record {
        access_token = access.access_token;
        access_token_expire_time = access.access_token_expire_time;
        session_uuid = access.session_uuid;
        user = sys_user;
        refresh_cookie = refresh.refresh_token;
      })

  -- update_login_time, `refresh`, and the rest of `login`
  finish : Text → User → AccessToken → RefreshToken → Action R P LoginData
  unfolding finished
  finish ip user access refresh w =
      let db = P.update_username w.db user.username (last_login_time w.now) in
      finished ip access refresh (P.find_user db user.id) (record w { db = db })

  refresh_and_finish : Text → User → AccessToken → Action R P LoginData
  unfolding finish
  refresh_and_finish ip user access =
      create_refresh_token R P access.session_uuid user.id user.is_multi_login
      >>= finish ip user access

  -- OAuth2Service.login once the user is there
  unfoldable pub open_session : (User → Text) → Text → Text → User → Action R P LoginData
  unfolding refresh_and_finish
  open_session extra fresh_uuid ip user =
      create_access_token R P user.id user.is_multi_login (some (extra user)) fresh_uuid
      >>= refresh_and_finish ip user

  unfoldable pub login :
      (User → Text) → Text → Text → List Text → UserSocialType → Account → Action R P LoginData
  login extra fresh_uuid ip captchas source a w =
      (user_of source captchas a (S.get_by_sid w.db a.sid source)
          >>= open_session extra fresh_uuid ip)
        w

  positive : Option ℕ → Option ℕ
  positive none = none
  positive (some n) = if n == 0 then none else some n

  is_type : Option Text → Text → Bool
  is_type none t = false
  is_type (some s) t = text_eq s t

  bind : UserSocialType → Account → StateInfo → Action R P (Option LoginData)
  unfolding positive
  bind source a info =
      (require (positive info.user_id) state_illegal >>= λ user_id.
      binding_with_oauth2 user_id a.sid source)
      >> pure none

  signed_in : LoginData → Action R P (Option LoginData)
  signed_in d = pure (some d)

  -- The two flows after the state
  unfoldable pub follow :
      Action R P LoginData → UserSocialType → Account → StateInfo → Action R P (Option LoginData)
  unfolding bind is_type signed_in
  follow log_in source a info =
      if is_type info.type binding_type
      then bind source a info
      else if not (is_type info.type login_type)
      then raise state_invalid
      else (log_in >>= signed_in)

  -- `state_info.get` needs an object.
  unfoldable pub follow_loaded :
      Action R P LoginData
      → UserSocialType
      → Account
      → Option StateInfo
      → Action R P (Option LoginData)
  unfolding follow
  follow_loaded log_in source a none = raise (unexpected "AttributeError")
  follow_loaded log_in source a (some info) = follow log_in source a info

  -- The state is deleted once json.loads has returned.
  unfoldable pub after_load :
      Action R P LoginData
      → UserSocialType
      → Account
      → Text
      → Option (Option StateInfo)
      → Action R P (Option LoginData)
  unfolding follow_loaded
  after_load log_in source a state none = raise (unexpected "JSONDecodeError")
  after_load log_in source a state (some value) =
      redis_delete (state_key state) >> follow_loaded log_in source a value

  unfoldable pub consume :
      (User → Text)
      → Text
      → Text
      → List Text
      → UserSocialType
      → Account
      → Text
      → Option Text
      → Action R P (Option LoginData)
  unfolding after_load
  consume extra fresh_uuid ip captchas source a state none = raise state_unknown
  consume extra fresh_uuid ip captchas source a state (some state_data) =
      after_load (login extra fresh_uuid ip captchas source a) source a state
        (S.load_state state_data)

  -- OAuth2Service.login_or_binding; the provider is one of the two that it knows.
  unfoldable pub login_or_binding :
      (User → Text)
      → Text
      → Text
      → List Text
      → UserSocialType
      → Profile
      → Option Text
      → Action R P (Option LoginData)
  unfolding consume
  login_or_binding extra fresh_uuid ip captchas source profile state = do
    key ← require (present state) state_missing
    stored ← redis_get (state_key key)
    consume extra fresh_uuid ip captchas source (account_of source profile) key (present stored)
