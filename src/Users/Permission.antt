-- ===== src/Users/Permission.antt =====
-- Changes of permissions, `update_permission` of backend/app/admin/service/user_service.py.
use mc_bd.Prelude.{
  Bool-cases, inl, inr, ℕ, ◌==◌, ◌≡◌, ◌≢◌, refl, none, some, true, not, ◌&&◌, if◌then◌else◌, arith,
}
use mc_bd.Prelude.Text.{Text, text_eq, starts_with}
use mc_bd.Errors.{ok, err}
use mc_bd.Redis.{Redis, mem}
use mc_bd.Redis.Prefix.{get-delete_prefix}
use mc_bd.Platform.{Platform, User, is_multi_login}
use mc_bd.Keys.{access_prefix, access_key, jwt_user_key}
use mc_bd.Action.{World}
use mc_bd.Jwt.{TokenPayload, get_token, jwt_decode}
use mc_bd.Users.{
  PermissionType, superuser, staff, account_status, multi_login, Caller, self_modification,
  update_permission,
}

module _ (R : Redis) (P : Platform) where
  open R use {get, get-remove}

  -- Nobody changes whether they themselves are superuser, staff or enabled: the request is refused
  -- and nothing changes.
  pub own_permission_refused :
      (w : World R P) (request : Caller) (pk : ℕ) (type : PermissionType) (u : User)
      → type ≢ multi_login
      → P.find_user w.db pk ≡ some u
      → pk ≡ request.user.id
      → update_permission R P request pk type w ≡ (err self_modification, w)
  unfolding update_permission
  own_permission_refused w request pk superuser u h found own = rw found (ground arith)
  own_permission_refused w request pk staff u h found own = rw found (ground arith)
  own_permission_refused w request pk account_status u h found own = rw found (ground arith)
  own_permission_refused w request pk multi_login u h found own = absurd (h refl)

  -- If the token is good and the user that is found by `pk` has this number, the switch
  -- of any account takes the flag of the caller: the account gets its negation, the cached
  -- user is removed, and if the flag was set, of the keys under the account's prefix only the one
  -- with the caller's session is kept.
  pub multi_login_from_caller :
      (w : World R P) (request : Caller) (pk : ℕ) (u : User) (t : Text) (p : TokenPayload)
      (j : Text)
      → P.find_user w.db pk ≡ some u
      → u.id ≡ pk
      → get_token R P request.header ≡ ok t
      → jwt_decode R P w.now t ≡ ok p
      → let (r, w') = update_permission R P request pk multi_login w in
        (r ≡ ok (P.rows w.db pk))
        × (w'.db ≡ P.update_user w.db pk (is_multi_login (not request.user.is_multi_login)))
        × (get w'.store j ≡ (
            if text_eq (jwt_user_key pk) j
            then none
            else if request.user.is_multi_login
                && (starts_with (access_prefix pk) j
                    && not (text_eq (access_key pk p.session_uuid) j))
            then none
            else get w.store j))
  unfolding update_permission mem
  multi_login_from_caller w request pk u t p j found same bearer decoded =
      let self : (pk == u.id) ≡ true = ground arith in
      elim (Bool-cases request.user.is_multi_login) [
        | inl on ↦ rw found (
            rw (self, on)
              (rw bearer (
                rw decoded
                  (rw same (refl, refl, simp (get-remove, get-delete_prefix R) (ground arith))))))
        | inr off ↦
            rw found (rw (self, off) (rw bearer (rw decoded (rw same (refl, refl, rw get-remove)))))
      ]
