-- ===== src/Action.antt =====
-- A request's steps: a function of the world that may raise an exception. What was written before
-- an exception stays written, so the world comes back beside the error too. A request runs without
-- other requests in between, at one instant, and no key of Redis expires while it runs.
pub mod Keeps
use mc_bd.Prelude.{ℕ, Option, none, some, List, [], ◌∷◌, Bool, true, false, ◌≡◌, refl, ap, ◌∙◌}
use mc_bd.Prelude.Text.{Text}
use mc_bd.Errors.{Error, Result, ok, err}
use mc_bd.Redis
use mc_bd.Redis.{Redis}
use mc_bd.Platform.{Platform}
use mc_bd.Settings.{Settings}

-- `now` in microseconds; `settings` is the module's mutable object.
pub record World (R : Redis) (P : Platform) : Type 0 where
  pub store : R.Store
  pub db : P.Session
  pub settings : Settings
  pub now : ℕ

abbrev pub Action : Redis → Platform → Type 0 → Type 0
Action R P A = World R P → Result A × World R P

module _ {R : Redis} {P : Platform} where
  abbrev pub pure : {A : Type 0} → A → Action R P A
  pure a w = (ok a, w)

  abbrev pub raise : {A : Type 0} → Error → Action R P A
  raise e w = (err e, w)

  abbrev pub lift : {A : Type 0} → Result A → Action R P A
  lift r w = (r, w)

  abbrev pub gets : {A : Type 0} → (World R P → A) → Action R P A
  gets f w = (ok (f w), w)

  abbrev pub continue :
      {A B : Type 0} → Result A → World R P → (A → Action R P B) → Result B × World R P
  continue (ok a) w f = f a w
  continue (err e) w f = (err e, w)

  infixl 5 ◌>>=◌ ◌>>◌
  abbrev pub ◌>>=◌ : {A B : Type 0} → Action R P A → (A → Action R P B) → Action R P B
  ◌>>=◌ m f w = let (r, w') = m w in continue r w' f

  abbrev pub ◌>>◌ : {B : Type 0} → Action R P (Unit {0}) → Action R P B → Action R P B
  m >> k = m >>= λ _. k

  -- `if test: raise e`
  abbrev pub raise_if : Bool → Error → Action R P (Unit {0})
  raise_if true e w = (err e, w)
  raise_if false e w = (ok tt, w)

  -- `if not x: raise e`, with the value else
  abbrev pub require : {A : Type 0} → Option A → Error → Action R P A
  require none e w = (err e, w)
  require (some a) e w = (ok a, w)

  -- The calls of redis_client
  abbrev pub redis_get : Text → Action R P (Option Text)
  redis_get k w = (ok (R.get w.store k), w)

  abbrev pub redis_set : Text → Text → Action R P (Unit {0})
  redis_set k v w = (ok tt, record w { store = R.put w.store k v })

  abbrev pub redis_setex : Text → ℕ → Text → Action R P (Unit {0})
  redis_setex k n v w = (ok tt, record w { store = R.setex w.store k n v })

  abbrev pub redis_delete : Text → Action R P (Unit {0})
  redis_delete k w = (ok tt, record w { store = R.remove w.store k })

  abbrev pub redis_delete_prefix : Text → List Text → Action R P (Unit {0})
  redis_delete_prefix p exclude w =
      (ok tt, record w { store = Redis.delete_prefix R p exclude 1000 w.store })

-- A value that is None or empty is false in Python.
abbrev pub present : Option Text → Option Text
present none = none
present (some []) = none
present (some (c ∷ t)) = some (c ∷ t)

pub present-some : (t : Text) {c : ℕ} {r : Text} → t ≡ c ∷ r → present (some t) ≡ some t
present-some t e = rw e

-- Inversion of a bind that returned.
pub record Returned {R : Redis} {P : Platform} {A B : Type 0} (m : Action R P A)
    (f : A → Action R P B) (w : World R P) (b : B) (w'' : World R P) : Type 0 where
  pub value : A
  pub middle : World R P
  pub first : m w ≡ (ok value, middle)
  pub then_ : f value middle ≡ (ok b, w'')

module _ {R : Redis} {P : Platform} where
  continue-Returned :
      {A B : Type 0} (m : Action R P A) (f : A → Action R P B) (w : World R P) (b : B)
      (w'' : World R P) (r : Result A) (w' : World R P)
      → m w ≡ (r, w')
      → continue r w' f ≡ (ok b, w'')
      → Returned m f w b w''
  continue-Returned m f w b w'' (ok a) w' e h = record {
    value = a;
    middle = w';
    first = e;
    then_ = h;
  }
  continue-Returned m f w b w'' (err x) w' e h = absurd (ok_ne_err (ap (λ t. t.0) h))
    where
      ok_ne_err : err x ≡ ok b → ⊥
      ok_ne_err k = cc

  pub >>=-Returned :
      {A B : Type 0} (m : Action R P A) (f : A → Action R P B) (w : World R P) (b : B)
      (w'' : World R P)
      → (m >>= f) w ≡ (ok b, w'')
      → Returned m f w b w''
  >>=-Returned m f w b w'' h = continue-Returned m f w b w'' (m w).0 (m w).1 refl h

  -- The action leaves Redis alone, whether it returns or raises.
  abbrev pub KeepsStore : {A : Type 0} → Action R P A → Type 0
  KeepsStore m = (w : World R P) → (m w).1.store ≡ w.store

  pub continue-KeepsStore :
      {A B : Type 0} (r : Result A) (w' : World R P) (f : A → Action R P B)
      → ((a : A) → KeepsStore (f a))
      → (continue r w' f).1.store ≡ w'.store
  continue-KeepsStore (ok a) w' f k = k a w'
  continue-KeepsStore (err e) w' f k = refl

  pub >>=-KeepsStore :
      {A B : Type 0} (m : Action R P A) (f : A → Action R P B)
      → KeepsStore m
      → ((a : A) → KeepsStore (f a))
      → KeepsStore (m >>= f)
  >>=-KeepsStore m f h k w = continue-KeepsStore (m w).0 (m w).1 f k ∙ h w

  pub lift-KeepsStore : {A : Type 0} (r : Result A) → KeepsStore (lift r)
  lift-KeepsStore r w = refl

  pub require-KeepsStore : {A : Type 0} (o : Option A) (e : Error) → KeepsStore (require o e)
  require-KeepsStore none e w = refl
  require-KeepsStore (some a) e w = refl

  pub raise_if-KeepsStore : (b : Bool) (e : Error) → KeepsStore (raise_if b e)
  raise_if-KeepsStore true e w = refl
  raise_if-KeepsStore false e w = refl
