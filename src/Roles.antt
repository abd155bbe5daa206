-- ===== src/Roles.antt =====
-- backend/app/admin/service/role_service.py with backend/app/admin/crud/crud_role.py, and the cache of
-- users of backend/app/admin/utils/cache.py. The tables of roles and of user_role are a parameter
-- beside the platform's session, whose part they are.
pub mod Cache
use mc_bd.Prelude.{
  ℕ, Option, none, some, List, [], ◌∷◌, map, Bool, true, false, not, ◌&&◌, if◌then◌else◌,
}
use mc_bd.Prelude.Text.{Text, text_eq}
use mc_bd.Errors.{Error, Result, ok, err, not_found, conflict, plain}
use mc_bd.Redis.{Redis, is_some}
use mc_bd.Redis
use mc_bd.Platform.{Platform}
use mc_bd.Keys.{jwt_user_key}
use mc_bd.Action.{World, Action, pure, raise_if, require, gets, ◌>>=◌, ◌>>◌}

-- RoleSchemaBase
pub record RoleParam : Type 0 where
  pub name : Text
  pub status : ℕ
  pub remark : Option Text

-- A row of sys_role
pub record RoleRow : Type 0 where
  pub id : ℕ
  pub values : RoleParam

-- sqlalchemy_crud_plus on sys_role, and the query on user_role
pub record RoleTable (P : Platform) : Type 0 where
  pub find_role : P.Session → ℕ → Option RoleRow
  pub find_name : P.Session → Text → Option RoleRow
  pub create_role : P.Session → RoleParam → P.Session
  pub update_role : P.Session → ℕ → RoleParam → P.Session × ℕ
  pub delete_roles : P.Session → List ℕ → P.Session × ℕ
  -- the distinct users of the rows with one of the roles
  pub users_of : P.Session → List ℕ → List ℕ

abbrev pub role_missing : Error
role_missing = not_found (plain "角色不存在")

abbrev pub role_exists : Error
role_exists = conflict (plain "角色已存在")

module _ (R : Redis) (P : Platform) (T : RoleTable P) where
  -- UserCacheManager.clear: without users, Redis is not called.
  cleared : List ℕ → R.Store → R.Store
  cleared [] s = s
  cleared (u ∷ us) s = Redis.delete R s (map jwt_user_key (u ∷ us))

  unfoldable pub clear : List ℕ → Action R P (Unit {0})
  unfolding cleared
  clear user_ids w = (ok tt, record w { store = cleared user_ids w.store })

  unfoldable pub clear_by_role_id : List ℕ → Action R P (Unit {0})
  clear_by_role_id role_ids = do user_ids ← gets (λ w. T.users_of w.db role_ids); clear user_ids

  unfoldable pub get : ℕ → Action R P RoleRow
  get pk = do found ← gets (λ w. T.find_role w.db pk); require found role_missing

  unfoldable pub create : RoleParam → Action R P (Unit {0})
  create obj = do
    taken ← gets (λ w. is_some (T.find_name w.db obj.name))
    raise_if taken role_exists
    (λ w. (ok tt, record w { db = T.create_role w.db obj }))

  store_update : ℕ → RoleParam → Action R P ℕ
  store_update pk obj w =
      let (db, count) = T.update_role w.db pk obj in (ok count, record w { db = db })

  unfoldable pub update : ℕ → RoleParam → Action R P ℕ
  unfolding store_update
  update pk obj = do
    role ← get pk
    taken ← gets (λ w. is_some (T.find_name w.db obj.name))
    raise_if (not (text_eq role.values.name obj.name) && taken) role_exists
    count ← store_update pk obj
    clear_by_role_id (pk ∷ [])
    pure count

  store_delete : List ℕ → Action R P ℕ
  store_delete pks w = let (db, count) = T.delete_roles w.db pks in (ok count, record w { db = db })

  unfoldable pub delete : List ℕ → Action R P ℕ
  unfolding store_delete
  delete pks = do count ← store_delete pks; clear_by_role_id pks; pure count
