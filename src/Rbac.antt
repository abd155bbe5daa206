-- ===== src/Rbac.antt =====
-- Who may call a route: backend/common/security/rbac.py and the token of a request in
-- backend/middleware/jwt_auth_middleware.py. The path patterns of the settings, which `re`
-- matches, and the casbin plugin, which is not in the repository, are parameters.
pub mod Access
use Prim.Native.String.{String}
use mc_bd.Prelude.{
  ℕ, ◌==◌, ◌∷◌, [], Option, none, some, List, Bool, true, false, not, ◌&&◌, ◌||◌, if◌then◌else◌,
}
use mc_bd.Prelude.Text.{Text, codes, text_eq}
use mc_bd.Errors.{
  Error, Message, Result, ok, err, server, authorization, token, plain, code, message,
}
use mc_bd.Redis.{Redis, mem}
use mc_bd.Platform.{Platform, User, Role}
use mc_bd.Action.{World, present}
use mc_bd.Jwt.{jwt_authentication}

-- MethodType
pub data MethodType : Type 0 where
  get post put delete patch options : MethodType

is_get : MethodType → Bool
is_get get = true
is_get _ = false

is_options : MethodType → Bool
is_options options = true
is_options _ = false

-- The request, and the permission that a route puts into the context.
pub record Request : Type 0 where
  pub path : Text
  pub method : MethodType
  pub authorization : Option Text
  pub authenticated : Bool
  pub user : User
  pub permission : Option Text

-- The settings of the check.
pub record Policy : Type 0 where
  pub path_exclude : List Text
  pub path_pattern : Text → Bool
  pub role_menu_mode : Bool
  pub role_menu_exclude : List Text
  pub casbin_verify : Option (Request → Result (Unit {0}))

-- `status == 0` for an element of `request.user.roles`: a role object, which equals no number.
equals_zero : Role → Bool
equals_zero r = false

all_zero : List Role → Bool
unfolding equals_zero
all_zero [] = true
all_zero (r ∷ rs) = equals_zero r && all_zero rs

no_role : List Role → Bool
unfolding all_zero
no_role [] = true
no_role (r ∷ rs) = all_zero (r ∷ rs)

run_casbin : Option (Request → Result (Unit {0})) → Request → Result (Unit {0})
run_casbin none r = err (server (plain "error.permission_check_failed"))
run_casbin (some verify) r = verify r

-- The menu permission: every branch of the code lets the request through.
check_menu : Policy → Option Text → Result (Unit {0})
check_menu p none = ok tt
check_menu p (some perm) = if mem perm p.role_menu_exclude then ok tt else ok tt

unfoldable pub rbac_verify : Policy → Request → Result (Unit {0})
unfolding is_get is_options no_role run_casbin check_menu
rbac_verify p r =
    if mem r.path p.path_exclude || p.path_pattern r.path
    then ok tt
    else if not r.authenticated
    then err (token (plain "Not Authenticated"))
    else if r.user.is_superuser
    then ok tt
    else if no_role r.user.roles
    then err (authorization (plain "error.user_no_role"))
    else if (not (is_get r.method) || not (is_options r.method)) && not r.user.is_staff
    then err (authorization (plain "error.user_backend_forbidden"))
    else if p.role_menu_mode
    then check_menu p (present r.permission)
    else run_casbin p.casbin_verify r

module _ (R : Redis) (P : Platform) where
  bearer : Text × Text → Option Text
  bearer (scheme, t) = if text_eq (P.lower scheme) (codes "bearer") then some t else none

  token_of : Policy → Text → Option Text → Option Text
  unfolding bearer
  token_of p path none = none
  token_of p path (some header) =
      if mem path p.path_exclude || p.path_pattern path
      then none
      else bearer (P.scheme_param header)

  -- JwtAuthMiddleware.extract_token
  unfoldable pub extract_token : Policy → Request → Option Text
  unfolding token_of
  extract_token p r = token_of p r.path (present r.authorization)

  -- What the backend of AuthenticationMiddleware gets: nobody, a user with the scope
  -- `authenticated`, or an AuthenticationError with a code and a message.
  pub data Outcome : Type 0 where
    anonymous : Outcome
    signed_in : User → Outcome
    refused : ℕ → Message → Outcome

  unfoldable pub outcome_of : Result User → Outcome
  outcome_of (ok user) = signed_in user
  outcome_of (err e) = refused (code e) (message e)

  -- JwtAuthMiddleware.authenticate
  unfoldable pub authenticate : Policy → Request → World R P → Outcome × World R P
  unfolding outcome_of code message
  authenticate p r w = elim (extract_token p r) [
    | none ↦ (anonymous, w)
    | some t ↦ let (result, w') = jwt_authentication R P t w in (outcome_of result, w')
  ]
