-- ===== src/Rbac/Access.antt =====
-- Whom `rbac_verify` of backend/common/security/rbac.py lets through.
use mc_bd.Prelude.{
  ◌≡◌, refl, List, [], ◌∷◌, Bool, true, false, not, ◌&&◌, ◌||◌, if◌then◌else◌, arith,
}
use mc_bd.Errors.{ok, err, authorization, token, plain}
use mc_bd.Redis.{mem}
use mc_bd.Platform.{Role}
use mc_bd.Rbac.{Policy, Request, MethodType, no_role, rbac_verify, is_get, is_options}

abbrev pub excluded : Policy → Request → Bool
excluded p r = mem r.path p.path_exclude || p.path_pattern r.path

abbrev pub has_role : List Role → Bool
has_role [] = false
has_role (r ∷ rs) = true

no_role-has_role : (rs : List Role) → no_role rs ≡ not (has_role rs)
unfolding no_role
no_role-has_role [] = refl
no_role-has_role (r ∷ rs) = refl

always_staff : (m : MethodType) → (not (is_get m) || not (is_options m)) ≡ true
unfolding is_get is_options
always_staff MethodType.get = refl
always_staff MethodType.options = refl
always_staff _ = refl

-- The checks in menu mode, as they come out: on a path that is not excluded a request passes
-- exactly if it is authenticated and its user is a superuser or is staff and has some role, whatever
-- the method, the permission and the status of the roles are.
pub rbac_verify_iff :
    (p : Policy) (r : Request)
    → p.role_menu_mode ≡ true
    → rbac_verify p r ≡ (
        if excluded p r
          || (r.authenticated
              && (r.user.is_superuser || (has_role r.user.roles && r.user.is_staff)))
        then ok tt
        else if not r.authenticated
        then err (token (plain "Not Authenticated"))
        else if has_role r.user.roles
        then err (authorization (plain "error.user_backend_forbidden"))
        else err (authorization (plain "error.user_no_role")))
unfolding rbac_verify
rbac_verify_iff p r mode = ground (arith, no_role-has_role r.user.roles, always_staff r.method)
