-- ===== src/Tests/Requests.antt =====
-- Instances of the theorems on requests: logout, refresh, the captcha, permissions and routes.
use mc_bd.Prelude.{
  ◌≡◌, ◌≢◌, refl, ◌++◌, Option, none, some, [], ◌∷◌, true, false, not, ◌&&◌, ◌||◌, if◌then◌else◌,
}
use mc_bd.Prelude.Text.{Text, codes, text_eq, starts_with, read_digits, decimal}
use mc_bd.Errors.{ok, err, authorization, token, plain}
use mc_bd.Redis.Memory.{memory, find}
use mc_bd.Platform.{is_multi_login}
use mc_bd.Platform.Concrete.{concrete, find_in, decode_plain, cut, claims_of, at_space}
use mc_bd.Keys.{
  access_key, extra_key, refresh_key, access_prefix, jwt_user_key, captcha_key, uuid_key,
  login_captcha_prefix, session_key, token_prefix,
}
use mc_bd.Action.{World}
use mc_bd.Jwt.{TokenPayload, get_token, jwt_decode, payload_of, jwt_authentication, token_error}
use mc_bd.Auth.{logout, compare_captcha}
use mc_bd.Auth.Outcomes.{logout_ends_session}
use mc_bd.Rbac.{Policy, Request, MethodType, rbac_verify}
use mc_bd.Rbac.Access.{rbac_verify_iff, excluded, has_role}
use mc_bd.Users.{Caller, superuser, multi_login, update_permission}
use mc_bd.Users.Permission.{multi_login_from_caller}
use mc_bd.Tests.Data.{first, alice, bob, users, world, token_of}

abbrev session : World memory concrete
session = world ((access_key 2 first, some (token_of 2 first)) ∷ [])

abbrev header : Option Text
header = some (codes "Bearer " ++ token_of 2 first)

abbrev payload : TokenPayload
payload = record { id = 2; session_uuid = first; expire_time = 7200000000 }

bearer_token : get_token memory concrete header ≡ ok (token_of 2 first)
unfolding get_token text_eq at_space
bearer_token = refl

decoded_token : jwt_decode memory concrete 0 (token_of 2 first) ≡ ok payload
unfolding jwt_decode payload_of decode_plain cut claims_of read_digits
decoded_token = refl

abbrev logged_out : World memory concrete
logged_out = (logout memory concrete header (some (codes "cookie")) session).1

logout_ends_session_example :
    ((logout memory concrete header (some (codes "cookie")) session).0 ≡ ok tt)
    × (memory.get logged_out.store (access_key 2 first) ≡ none)
    × (memory.get logged_out.store (extra_key 2 first) ≡ none)
    × (memory.get logged_out.store (refresh_key 2 first) ≡ none)
    × (jwt_authentication memory concrete (token_of 2 first) logged_out
        ≡ (err (token_error "error.token_expired"), logged_out))
logout_ends_session_example =
    logout_ends_session memory concrete session header (some (codes "cookie")) (token_of 2 first)
      (codes "cookie") payload bearer_token decoded_token refl

live : memory.get session.store (access_key 2 first) ≡ some (token_of 2 first)
unfolding find text_eq access_key session_key token_prefix decimal
live = refl

bob_there : concrete.find_user users 2 ≡ some bob
unfolding find_in
bob_there = refl

abbrev pictured : World memory concrete
pictured = world ((captcha_key first, some (codes "XyZw")) ∷ [])

picture_stored : memory.get pictured.store (captcha_key first) ≡ some (codes "XyZw")
unfolding find text_eq captcha_key uuid_key login_captcha_prefix
picture_stored = refl

same_letters : text_eq (concrete.lower (codes "XyZw")) (concrete.lower (codes "xyzw")) ≡ true
unfolding text_eq
same_letters = refl

abbrev solved : World memory concrete
solved = (compare_captcha memory concrete first (codes "xyzw") pictured).1

-- Alice, who may log in several times, asks with a token of user 2.
abbrev caller : Caller
caller = record { header = header; user = alice }

alice_there : concrete.find_user users 1 ≡ some alice
unfolding find_in
alice_there = refl

superuser_ne : superuser ≢ multi_login
superuser_ne e = cc

abbrev switched : World memory concrete
switched = (update_permission memory concrete caller 2 multi_login session).1

multi_login_from_caller_example :
    ((update_permission memory concrete caller 2 multi_login session).0
      ≡ ok (concrete.rows users 2))
    × (switched.db ≡ concrete.update_user users 2 (is_multi_login (not alice.is_multi_login)))
    × (memory.get switched.store (access_key 2 first) ≡ (
        if text_eq (jwt_user_key 2) (access_key 2 first)
        then none
        else if alice.is_multi_login
            && (starts_with (access_prefix 2) (access_key 2 first)
                && not (text_eq (access_key 2 first) (access_key 2 first)))
        then none
        else memory.get session.store (access_key 2 first)))
multi_login_from_caller_example =
    multi_login_from_caller memory concrete session caller 2 bob (token_of 2 first) payload
      (access_key 2 first) bob_there refl bearer_token decoded_token

abbrev policy : Policy
policy = record {
  path_exclude = [];
  path_pattern = λ p. false;
  role_menu_mode = true;
  role_menu_exclude = [];
  casbin_verify = none;
}

abbrev asked : Request
asked = record {
  path = codes "/users";
  method = MethodType.get;
  authorization = header;
  authenticated = true;
  user = bob;
  permission = none;
}

rbac_verify_iff_example : rbac_verify policy asked ≡ (
    if excluded policy asked || (true && (bob.is_superuser || (has_role bob.roles && bob.is_staff)))
    then ok tt
    else if not true
    then err (token (plain "Not Authenticated"))
    else if has_role bob.roles
    then err (authorization (plain "error.user_backend_forbidden"))
    else err (authorization (plain "error.user_no_role")))
rbac_verify_iff_example = rbac_verify_iff policy asked refl
