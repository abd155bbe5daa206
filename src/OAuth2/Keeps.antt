-- ===== src/OAuth2/Keeps.antt =====
-- What a request of backend/plugin/oauth2/service/oauth2_service.py does after it has taken its state
-- never touches the key of a state.
use mc_bd.Prelude.{
  ℕ, ◌∷◌, [], ◌≡◌, refl, Option, none, some, List, Bool, true, false, inl, inr, Bool-cases,
  if◌then◌else◌,
}
use mc_bd.Prelude.Text.{Text, text_eq, starts_with}
use mc_bd.Errors.{unexpected}
use mc_bd.Redis.{Redis, is_some}
use mc_bd.Platform.{Platform, User, Role, last_login_time}
use mc_bd.Keys.{
  state_key, captcha_key, access_key, access_prefix, extra_key, refresh_key, refresh_prefix,
  jwt_user_key,
}
use mc_bd.Action.{World, Action, pure, raise, require, ◌>>=◌, present}
use mc_bd.Action.Keeps.{KeepsKey, >>=-KeepsKey, require-KeepsKey, delete-KeepsKey, silent-KeepsKey}
use mc_bd.Jwt.{AccessToken, RefreshToken, create_access_token, create_refresh_token}
use mc_bd.Jwt.Keeps.{IsForeign, create_access_token-KeepsKey, create_refresh_token-KeepsKey}
use mc_bd.OAuth2.{
  UserSocialType, StateInfo, SocialTable, LoginData, Account, state_illegal, state_invalid, follow,
  follow_loaded, bind, login, open_session, user_of, by_email, find_or_add, add_by_oauth2,
  give_role, read_user, add_under, with_avatar, bind_user, put_avatar, finished, finish,
  refresh_and_finish, signed_in, binding_with_oauth2, positive, unique_name, NewUser,
}

state_key-IsForeign : (state : Text) → IsForeign (state_key state)
unfolding state_key access_key extra_key refresh_key jwt_user_key access_prefix refresh_prefix
    text_eq starts_with
state_key-IsForeign state = record {
  no_access = λ u s. refl;
  no_extra = λ u s. refl;
  no_refresh = λ u s. refl;
  no_user = λ u. refl;
  no_access_prefix = λ u. refl;
  no_refresh_prefix = λ u. refl;
}

captcha-state : (ip state : Text) → text_eq (captcha_key ip) (state_key state) ≡ false
unfolding captcha_key state_key text_eq
captcha-state ip state = refl

module _ (R : Redis) (P : Platform) (S : SocialTable P) (state : Text) where
  abbrev pub Keeps : {A : Type 0} → Action R P A → Type 0
  Keeps m = KeepsKey R P (state_key state) m

  silent : {A : Type 0} (m : Action R P A) → ((w : World R P) → (m w).1.store ≡ w.store) → Keeps m
  silent m h = silent-KeepsKey R P (state_key state) m h

  by_email-Keeps : (e : Option Text) → Keeps (by_email R P S e)
  unfolding by_email
  by_email-Keeps none = silent _ (λ w. refl)
  by_email-Keeps (some []) = silent _ (λ w. refl)
  by_email-Keeps (some (c ∷ t)) = silent _ (λ w. refl)

  put_avatar-Keeps : (u : User) (o url : Option Text) → Keeps (put_avatar R P S u o url)
  unfolding put_avatar
  put_avatar-Keeps u none (some url) = silent _ (λ w. refl)
  put_avatar-Keeps u none none = silent _ (λ w. refl)
  put_avatar-Keeps u (some t) url = silent _ (λ w. refl)

  bind-Keeps :
      {A B : Type 0} (m : Action R P A) (f : A → Action R P B)
      → Keeps m
      → ((a : A) → Keeps (f a))
      → Keeps (m >>= f)
  bind-Keeps m f h g = >>=-KeepsKey R P (state_key state) m f h g

  give_role-Keeps : (i : ℕ) (o : Option Role) → Keeps (give_role R P S i o)
  unfolding give_role
  give_role-Keeps i none = silent _ (λ w. refl)
  give_role-Keeps i (some r) = silent _ (λ w. refl)

  add_by_oauth2-Keeps : (obj : NewUser) → Keeps (add_by_oauth2 R P S obj)
  unfolding add_by_oauth2 KeepsKey
  add_by_oauth2-Keeps obj w =
      let (i, db) = S.insert_user w.db obj in
      give_role-Keeps i (S.first_role db) (record w { db = db })

  read_user-Keeps : (name : Text) → Keeps (read_user R P S name)
  unfolding read_user KeepsKey
  read_user-Keeps name w =
      require-KeepsKey R P (state_key state) (P.find_username w.db name)
        (unexpected "AttributeError") w

  add_under-Keeps : (a : Account) (name : Text) → Keeps (add_under R P S a name)
  unfolding add_under
  add_under-Keeps a name =
      bind-Keeps (add_by_oauth2 R P S _) (λ u. read_user R P S name) (add_by_oauth2-Keeps _)
        (λ u. read_user-Keeps name)

  find_or_add-Keeps :
      (captchas : List Text) (a : Account) (o : Option User)
      → Keeps (find_or_add R P S captchas a o)
  unfolding find_or_add KeepsKey
  find_or_add-Keeps captchas a (some user) w = refl
  find_or_add-Keeps captchas a none w =
      bind-Keeps (require (unique_name R P S w.db captchas a.username) (unexpected "endless"))
        (add_under R P S a) (require-KeepsKey R P (state_key state) _ _) (add_under-Keeps a) w

  with_avatar-Keeps : (url : Option Text) (u : User) → Keeps (with_avatar R P S url u)
  unfolding with_avatar
  with_avatar-Keeps url u =
      bind-Keeps (put_avatar R P S u (present u.avatar) url) (λ x. pure u)
        (put_avatar-Keeps u (present u.avatar) url) (λ x. silent _ (λ w. refl))

  user_of-Keeps :
      (source : UserSocialType) (captchas : List Text) (a : Account) (o : Option ℕ)
      → Keeps (user_of R P S source captchas a o)
  unfolding user_of bind_user KeepsKey
  user_of-Keeps source captchas a (some i) w =
      bind-Keeps (require (P.find_user w.db i) (unexpected "AttributeError"))
        (with_avatar R P S a.avatar) (require-KeepsKey R P (state_key state) _ _)
        (with_avatar-Keeps a.avatar) w
  user_of-Keeps source captchas a none w =
      bind-Keeps (by_email R P S a.email >>= find_or_add R P S captchas a)
        (bind_user R P S source a.sid)
        (bind-Keeps (by_email R P S a.email) (find_or_add R P S captchas a) (by_email-Keeps a.email)
          (find_or_add-Keeps captchas a))
        (λ u. silent (bind_user R P S source a.sid u) (λ v. refl)) w

  finished-Keeps :
      (ip : Text) (x : AccessToken) (y : RefreshToken) (o : Option User)
      → Keeps (finished R P S ip x y o)
  unfolding finished KeepsKey
  finished-Keeps ip x y none w = refl
  finished-Keeps ip x y (some u) w =
      delete-KeepsKey R P (state_key state) (captcha_key ip) (captcha-state ip state) w

  finish-Keeps :
      (ip : Text) (u : User) (x : AccessToken) (y : RefreshToken) → Keeps (finish R P S ip u x y)
  unfolding finish KeepsKey
  finish-Keeps ip u x y w =
      let db = P.update_username w.db u.username (last_login_time w.now) in
      finished-Keeps ip x y (P.find_user db u.id) (record w { db = db })

  refresh_and_finish-Keeps :
      (ip : Text) (u : User) (x : AccessToken) → Keeps (refresh_and_finish R P S ip u x)
  unfolding refresh_and_finish
  refresh_and_finish-Keeps ip u x =
      bind-Keeps (create_refresh_token R P x.session_uuid u.id u.is_multi_login)
        (finish R P S ip u x)
        (create_refresh_token-KeepsKey R P (state_key state) (state_key-IsForeign state) _ _ _)
        (finish-Keeps ip u x)

  open_session-Keeps :
      (extra : User → Text) (fresh ip : Text) (u : User)
      → Keeps (open_session R P S extra fresh ip u)
  unfolding open_session
  open_session-Keeps extra fresh ip u =
      bind-Keeps (create_access_token R P u.id u.is_multi_login (some (extra u)) fresh)
        (refresh_and_finish R P S ip u)
        (create_access_token-KeepsKey R P (state_key state) (state_key-IsForeign state) _ _ _ _)
        (refresh_and_finish-Keeps ip u)

  pub login-Keeps :
      (extra : User → Text) (fresh ip : Text) (captchas : List Text) (source : UserSocialType)
      (a : Account)
      → Keeps (login R P S extra fresh ip captchas source a)
  unfolding login KeepsKey
  login-Keeps extra fresh ip captchas source a w =
      bind-Keeps (user_of R P S source captchas a (S.get_by_sid w.db a.sid source))
        (open_session R P S extra fresh ip) (user_of-Keeps source captchas a _)
        (open_session-Keeps extra fresh ip) w

  binding-Keeps :
      (u : ℕ) (sid : Text) (source : UserSocialType)
      → Keeps (binding_with_oauth2 R P S u sid source)
  unfolding binding_with_oauth2 KeepsKey
  binding-Keeps u sid source w = elim (Bool-cases (S.check_binding w.db u source)) [
    | inl bound ↦ rw bound refl
    | inr free ↦ elim (Bool-cases (is_some (S.get_by_sid w.db sid source))) [
      | inl taken ↦ rw (free, taken) refl
      | inr open_ ↦ rw (free, open_) refl
    ]
  ]

  bind_flow-Keeps :
      (source : UserSocialType) (a : Account) (info : StateInfo) → Keeps (bind R P S source a info)
  unfolding bind
  bind_flow-Keeps source a info =
      bind-Keeps
        (require (positive R P S info.user_id) state_illegal >>= λ user_id.
          binding_with_oauth2 R P S user_id a.sid source)
        (λ x. pure none)
        (bind-Keeps (require (positive R P S info.user_id) state_illegal)
          (λ user_id. binding_with_oauth2 R P S user_id a.sid source)
          (require-KeepsKey R P (state_key state) _ _) (λ u. binding-Keeps u a.sid source))
        (λ x. silent _ (λ w. refl))

  either-Keeps :
      {A : Type 0} (b : Bool) (m n : Action R P A) → Keeps m → Keeps n → Keeps (if b then m else n)
  either-Keeps true m n h g = h
  either-Keeps false m n h g = g

  pub follow-Keeps :
      (log_in : Action R P LoginData) (source : UserSocialType) (a : Account) (info : StateInfo)
      → Keeps log_in
      → Keeps (follow R P S log_in source a info)
  unfolding follow signed_in
  follow-Keeps log_in source a info h = either-Keeps _ _ _ (bind_flow-Keeps source a info) (
      either-Keeps _ _ _ (silent (raise state_invalid) (λ w. refl))
        (bind-Keeps log_in (signed_in R P S) h (λ d. silent _ (λ w. refl))))

  pub follow_loaded-Keeps :
      (log_in : Action R P LoginData) (source : UserSocialType) (a : Account)
      (value : Option StateInfo)
      → Keeps log_in
      → Keeps (follow_loaded R P S log_in source a value)
  unfolding follow_loaded
  follow_loaded-Keeps log_in source a none h = silent _ (λ w. refl)
  follow_loaded-Keeps log_in source a (some info) h = follow-Keeps log_in source a info h
