-- ===== src/Users/Ending.antt =====
-- Which sessions the operations of backend/app/admin/service/user_service.py end.
use mc_bd.Prelude.{ℕ, ◌≡◌, ◌⊎◌, inl, inr, refl, ap, none, some, [], ◌∷◌, true, arith}
use mc_bd.Prelude.Text.{Text, text_eq, starts_with}
use mc_bd.Errors.{ok}
use mc_bd.Redis.{Redis, mem, delete_prefix}
use mc_bd.Redis.Prefix.{get-delete_prefix}
use mc_bd.Platform.{Platform, User}
use mc_bd.Keys.{access_prefix, access_key, refresh_prefix, refresh_key, jwt_user_key}
use mc_bd.Keys.Digits.{access_key-own, refresh_key-own}
use mc_bd.Action.{World, Action, >>=-Returned, ◌>>=◌}
use mc_bd.Users.{
  confirm_old, replace_password, found_user, ResetParam, update_password, delete, delete_sessions,
}

starts_with_refl : (p : Text) → starts_with p p ≡ true
unfolding starts_with text_eq
starts_with_refl [] = refl
starts_with_refl (c ∷ p) = ground (arith, starts_with_refl p)

-- `Q` holds of the world whenever the action returns.
module _ {R : Redis} {P : Platform} where
  abbrev Ends : {A : Type 0} → Action R P A → (World R P → Type 0) → Type 0
  Ends {A} m Q = (w : World R P) (a : A) (w'' : World R P) → m w ≡ (ok a, w'') → Q w''

  ends->>= :
      {A B : Type 0} (m : Action R P A) (f : A → Action R P B) (Q : World R P → Type 0)
      → ((a : A) → Ends (f a) Q)
      → Ends (m >>= f) Q
  ends->>= m f Q h w b w'' e =
      let r = >>=-Returned m f w b w'' e in h r.value r.middle b w'' r.then_

module _ (R : Redis) (P : Platform) where
  open R use {get}

  -- No session key of the user has a value.
  abbrev pub NoSession : ℕ → World R P → Type 0
  NoSession u w =
      (s : Text) → (get w.store (access_key u s) ≡ none) × (get w.store (refresh_key u s) ≡ none)

  delete_sessions-NoSession :
      (u : ℕ) (s : R.Store) (j : Text)
      → (starts_with (access_prefix u) j ≡ true) ⊎ (starts_with (refresh_prefix u) j ≡ true)
      → get
          (delete_prefix R (jwt_user_key u) [] 1000 (
            delete_prefix R
              (refresh_prefix u)
              []
              1000
              (delete_prefix R (access_prefix u) [] 1000 s)))
          j
        ≡ none
  unfolding mem
  delete_sessions-NoSession u s j h = simp (get-delete_prefix R) (ground arith)

  abbrev pub Ended : ℕ → World R P → Type 0
  Ended u w = NoSession u w × (get w.store (jwt_user_key u) ≡ none)

  Ended-store :
      (u : ℕ) (s : R.Store) (w : World R P)
      → delete_prefix R
          (jwt_user_key u)
          []
          1000
          (delete_prefix R (refresh_prefix u) [] 1000 (delete_prefix R (access_prefix u) [] 1000 s))
        ≡ w.store
      → Ended u w
  unfolding mem
  Ended-store u s w e = rw (← e) (
    λ t. (
      delete_sessions-NoSession u s (access_key u t) (inl (access_key-own u u t t)),
      delete_sessions-NoSession u s (refresh_key u t) (inr (refresh_key-own u u t t)),
    ),
    rw (get-delete_prefix R, starts_with_refl (jwt_user_key u)),
  )

  -- A change of one's own password that returns has ended every session of the account, the one
  -- that asked for the change included, and the cached user is gone.
  pub update_password_ends_sessions :
      (u : ℕ) (obj : ResetParam) (w : World R P) (n : ℕ) (w'' : World R P)
      → update_password R P u obj w ≡ (ok n, w'')
      → Ended u w''
  unfolding update_password delete_sessions
  update_password_ends_sessions u obj = ends->>= (confirm_old R P u obj) _ (Ended u) (λ user.
      ends->>= (replace_password R P user u obj.new_password) _ (Ended u)
        (λ count w n w'' e. Ended-store u w.store w'' (ap (λ t. t.1.store) e)))

  -- A deletion of an account that returns has ended every session of it; `u` is the found user.
  pub delete_ends_sessions :
      (pk : ℕ) (u : User) (w : World R P)
      → P.find_user w.db pk ≡ some u
      → NoSession u.id (delete R P pk w).1
  unfolding delete delete_sessions found_user mem
  delete_ends_sessions pk u w found = rw found (λ t. (
    simp (get-delete_prefix R, access_key-own u.id u.id t t) (ground arith),
    simp (get-delete_prefix R, refresh_key-own u.id u.id t t) (ground arith),
  ))
