-- ===== src/Action/Keeps.antt =====
-- Steps of a request that leave one key of Redis alone.
use mc_bd.Prelude.{ℕ, ◌≡◌, refl, ◌∙◌, ◌<◌, Option, none, some, Bool, true, false, []}
use mc_bd.Prelude.Text.{Text, text_eq, starts_with}
use mc_bd.Errors.{Error, Result, ok, err}
use mc_bd.Redis.{Redis}
use mc_bd.Redis.Prefix.{get-delete_prefix}
use mc_bd.Platform.{Platform}
use mc_bd.Action.{
  World, Action, require, raise_if, continue, ◌>>=◌, redis_setex, redis_delete, redis_delete_prefix,
}

module _ (R : Redis) (P : Platform) (k : Text) where
  -- The action leaves the key alone, whether it returns or raises.
  unfoldable pub KeepsKey : {A : Type 0} → Action R P A → Type 0
  KeepsKey m = (w : World R P) → R.get (m w).1.store k ≡ R.get w.store k

  continue-KeepsKey :
      {A B : Type 0} (r : Result A) (w : World R P) (f : A → Action R P B)
      → ((a : A) → KeepsKey (f a))
      → R.get (continue r w f).1.store k ≡ R.get w.store k
  unfolding KeepsKey
  continue-KeepsKey (ok a) w f h = h a w
  continue-KeepsKey (err e) w f h = refl

  pub >>=-KeepsKey :
      {A B : Type 0} (m : Action R P A) (f : A → Action R P B)
      → KeepsKey m
      → ((a : A) → KeepsKey (f a))
      → KeepsKey (m >>= f)
  unfolding KeepsKey
  >>=-KeepsKey m f h g w = continue-KeepsKey (m w).0 (m w).1 f g ∙ h w

  pub require-KeepsKey : {A : Type 0} (o : Option A) (e : Error) → KeepsKey (require o e)
  unfolding KeepsKey
  require-KeepsKey none e w = refl
  require-KeepsKey (some a) e w = refl

  pub raise_if-KeepsKey : (b : Bool) (e : Error) → KeepsKey (raise_if b e)
  unfolding KeepsKey
  raise_if-KeepsKey true e w = refl
  raise_if-KeepsKey false e w = refl

  pub setex-KeepsKey :
      (j : Text) (n : ℕ) (v : Text) → 0 < n → text_eq j k ≡ false → KeepsKey (redis_setex j n v)
  unfolding KeepsKey
  setex-KeepsKey j n v h e w = simp (R.get-setex w.store j n v k h, e)

  pub delete-KeepsKey : (j : Text) → text_eq j k ≡ false → KeepsKey (redis_delete j)
  unfolding KeepsKey
  delete-KeepsKey j e w = simp (R.get-remove, e)

  pub delete_prefix-KeepsKey :
      (p : Text) → starts_with p k ≡ false → KeepsKey (redis_delete_prefix p [])
  unfolding KeepsKey
  delete_prefix-KeepsKey p e w = simp (get-delete_prefix R p [] 1000 w.store k, e)

  -- A step that leaves Redis alone
  pub silent-KeepsKey :
      {A : Type 0} (m : Action R P A) → ((w : World R P) → (m w).1.store ≡ w.store) → KeepsKey m
  unfolding KeepsKey
  silent-KeepsKey m h w = rw (h w)
