-- ===== src/Users/Reset.antt =====
-- What `reset_password` of backend/app/admin/service/user_service.py leaves of the sessions.
use mc_bd.Prelude.{Option-cases, inl, inr, ℕ, ◌≡◌, refl, ap, ◌∙◌, false}
use mc_bd.Prelude.Text.{Text, text_eq}
use mc_bd.Errors.{Result, ok, err}
use mc_bd.Redis.{Redis}
use mc_bd.Platform.{password, Platform, User}
use mc_bd.Keys.{access_prefix, access_key, refresh_prefix, refresh_key, jwt_user_key}
use mc_bd.Keys.Digits.{access_key_bare, refresh_key_bare}
use mc_bd.Keys.Apart.{access-refresh_bare, refresh-access_bare, jwt_user-access, jwt_user-refresh}
use mc_bd.Action.{
  continue-KeepsStore, continue, World, Action, KeepsStore, >>=-KeepsStore, require-KeepsStore,
  raise_if-KeepsStore, ◌>>=◌,
}
use mc_bd.Config.{load_user_security_config}
use mc_bd.Config.Load.{load_user_security_config-KeepsStore}
use mc_bd.Password.{validate_new_password, judge, check_shape}
use mc_bd.Security.{save_password_history}
use mc_bd.Users.{
  put_password, reset_password, delete_keys, replace_password, set_password, keep_password,
  found_user, update_password_changed_time, user_missing,
}

module _ (R : Redis) (P : Platform) where
  open R use {get, get-remove}

  judge-KeepsStore : (u : ℕ) (t : Text) → KeepsStore (judge R P u t)
  unfolding judge
  judge-KeepsStore u t w =
      continue-KeepsStore (check_shape R P w.settings t) w _ (λ _ v. raise_if-KeepsStore _ _ v)

  validate-KeepsStore : (u : ℕ) (t : Text) → KeepsStore (validate_new_password R P u t)
  unfolding validate_new_password
  validate-KeepsStore u t =
      >>=-KeepsStore (load_user_security_config R P) _ (load_user_security_config-KeepsStore R P)
        (λ _. judge-KeepsStore u t)

  put_password-KeepsStore :
      (user : User) (u : ℕ) (t : Text) → KeepsStore (put_password R P user u t)
  unfolding put_password keep_password set_password update_password_changed_time
      save_password_history
  put_password-KeepsStore user u t w =
      elim (Option-cases
        (P.shown (P.update_user w.db u (password (P.hash_password w.db t))) user).password) [
          | inl missing ↦ rw missing refl
          | inr (old, there) ↦ rw there refl
        ]

  replace_password-KeepsStore :
      (user : User) (u : ℕ) (t : Text) → KeepsStore (replace_password R P user u t)
  unfolding replace_password
  replace_password-KeepsStore user u t =
      >>=-KeepsStore (validate_new_password R P u t) (λ _. put_password R P user u t)
        (validate-KeepsStore u t) (λ _. put_password-KeepsStore user u t)

  -- The action keeps the value of `j`.
  abbrev KeepsKey : Text → {A : Type 0} → Action R P A → Type 0
  KeepsKey j m = (w : World R P) → get (m w).1.store j ≡ get w.store j

  -- `j` is none of the keys that are deleted.
  abbrev NotBare : Text → Type 0
  NotBare j =
      (u : ℕ)
      → (text_eq (access_prefix u) j ≡ false)
        × (text_eq (refresh_prefix u) j ≡ false)
        × (text_eq (jwt_user_key u) j ≡ false)

  continue-KeepsKey :
      {A B : Type 0} (j : Text) (r : Result A) (w' : World R P) (f : A → Action R P B)
      → ((a : A) → KeepsKey j (f a))
      → get (continue r w' f).1.store j ≡ get w'.store j
  continue-KeepsKey j (ok a) w' f k = k a w'
  continue-KeepsKey j (err e) w' f k = refl

  >>=-KeepsKey :
      {A B : Type 0} (j : Text) (m : Action R P A) (f : A → Action R P B)
      → KeepsStore m
      → ((a : A) → KeepsKey j (f a))
      → KeepsKey j (m >>= f)
  >>=-KeepsKey j m f h k w = continue-KeepsKey j (m w).0 (m w).1 f k ∙ ap (λ s. get s j) (h w)

  found_user-KeepsStore : (pk : ℕ) → KeepsStore (found_user R P pk)
  unfolding found_user
  found_user-KeepsStore pk w = require-KeepsStore (P.find_user w.db pk) user_missing w

  reset-KeepsKey : (pk : ℕ) (t j : Text) → NotBare j → KeepsKey j (reset_password R P pk t)
  unfolding reset_password delete_keys
  reset-KeepsKey pk t j bare =
      >>=-KeepsKey j (found_user R P pk) _ (found_user-KeepsStore pk) (λ user.
        >>=-KeepsKey j (replace_password R P user user.id t) _
          (replace_password-KeepsStore user user.id t)
          (λ count w. let (a, b, c) = bare user.id in simp (get-remove, a, b, c)))

  -- A reset of a password by an administrator ends no session: whatever comes of it, every session
  -- key of every user keeps its value.
  pub reset_password_keeps_sessions :
      (w : World R P) (pk v : ℕ) (t s : Text)
      → let w' = (reset_password R P pk t w).1 in
        (get w'.store (access_key v s) ≡ get w.store (access_key v s))
        × (get w'.store (refresh_key v s) ≡ get w.store (refresh_key v s))
  reset_password_keeps_sessions w pk v t s = (
    reset-KeepsKey pk t (access_key v s)
        (λ u. (access_key_bare u v s, access-refresh_bare u v s s, jwt_user-access u v s s)) w,
    reset-KeepsKey pk t (refresh_key v s)
        (λ u. (refresh-access_bare u v s s, refresh_key_bare u v s, jwt_user-refresh u v s s)) w,
  )
