-- ===== src/Roles/Cache.antt =====
-- Which cached users the changes of roles in backend/app/admin/service/role_service.py clear.
use mc_bd.Prelude.{ℕ, ◌≡◌, refl, none, some, List, [], ◌∷◌, map, false, not, ◌&&◌, if◌then◌else◌}
use mc_bd.Prelude.Text.{Text, text_eq}
use mc_bd.Errors.{ok}
use mc_bd.Redis.{Redis, mem, is_some}
use mc_bd.Redis.Prefix.{get-delete}
use mc_bd.Platform.{Platform}
use mc_bd.Keys.{jwt_user_key}
use mc_bd.Action.{World}
use mc_bd.Roles.{
  cleared, RoleTable, RoleParam, RoleRow, clear, clear_by_role_id, get, update, delete,
}

module _ (R : Redis) (P : Platform) (T : RoleTable P) where
  get-cleared :
      (us : List ℕ) (s : R.Store) (j : Text)
      → R.get (cleared R P T us s) j ≡ (if mem j (map jwt_user_key us) then none else R.get s j)
  unfolding cleared mem
  get-cleared [] s j = refl
  get-cleared (u ∷ us) s j = get-delete R s (map jwt_user_key (u ∷ us)) j

  -- A change of a role that keeps its name, or takes a free one, clears the cached users that have
  -- the role after the change, and no other key.
  pub update-clears_cache :
      (w : World R P) (pk : ℕ) (obj : RoleParam) (row : RoleRow) (j : Text)
      → T.find_role w.db pk ≡ some row
      → (not (text_eq row.values.name obj.name) && is_some (T.find_name w.db obj.name)) ≡ false
      → let (r, w') = update R P T pk obj w in
        (r ≡ ok (T.update_role w.db pk obj).1)
        × (R.get w'.store j ≡ (
            if mem j (map jwt_user_key (T.users_of (T.update_role w.db pk obj).0 (pk ∷ [])))
            then none
            else R.get w.store j))
  unfolding update clear_by_role_id get clear
  update-clears_cache w pk obj row j found free =
      rw found
        (rw free (refl, get-cleared (T.users_of (T.update_role w.db pk obj).0 (pk ∷ [])) w.store j))

  -- Where a deletion of roles leaves the rows of user_role as they are, it clears the cached users
  -- that had one of the roles, and no other key.
  pub delete-clears_cache :
      (w : World R P) (pks : List ℕ) (j : Text)
      → T.users_of (T.delete_roles w.db pks).0 pks ≡ T.users_of w.db pks
      → let (r, w') = delete R P T pks w in
        (r ≡ ok (T.delete_roles w.db pks).1)
        × (R.get w'.store j
            ≡ (if mem j (map jwt_user_key (T.users_of w.db pks)) then none else R.get w.store j))
  unfolding delete clear_by_role_id clear
  delete-clears_cache w pks j kept = (refl, rw kept (get-cleared (T.users_of w.db pks) w.store j))
