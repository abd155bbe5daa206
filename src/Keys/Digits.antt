-- ===== src/Keys/Digits.antt =====
-- Which keys of backend/common/security/jwt.py share a prefix, and that keys are injective.
use mc_bd.Prelude.{ℕ, ◌+◌, ◌*◌, ◌<◌, ◌≡◌, refl, ◌≢◌, true, false, List, [], ◌∷◌, ◌++◌}
use mathlib.Core.Path.{subst}
use mathlib.Core.List.{append_assoc}
use mc_bd.Prelude.Text.{
  NoColon, Text, decimal, starts_with, starts_with-append, decimal_digit, decimal-injective,
  decimal-NoColon, split_at_colon, text_eq, text_eq_of_ne,
}
use mc_bd.Keys.{
  user_key, session_key, access_prefix, access_key, refresh_prefix, refresh_key, token_prefix,
  token_refresh_prefix,
}

append_cancel {ℓ} : {A : Type ℓ} (p s t : List A) → p ++ s ≡ p ++ t → s ≡ t
append_cancel [] s t e = e
append_cancel (x ∷ p) s t e = append_cancel p s t (cc)

module _ (p : Text) where
  -- Two session keys of one prefix are equal only for the same user and session.
  pub session_key-injective :
      (u v : ℕ) (s t : Text) → session_key p u s ≡ session_key p v t → (u ≡ v) × (s ≡ t)
  unfolding session_key
  session_key-injective u v s t e =
      let k = append_cancel p _ _ e in
      let (a, b) =
        split_at_colon (decimal u) (decimal v) s t (decimal-NoColon u) (decimal-NoColon v) (cc) in
      (decimal-injective u v a, b)

  -- The keys of a user's sessions begin with the user's prefix.
  pub session_key-own : (u : ℕ) (s : Text) → starts_with (user_key p u) (session_key p u s) ≡ true
  unfolding user_key session_key
  session_key-own u s = rw (← append_assoc p (b':' ∷ decimal u) (b':' ∷ s)) (starts_with-append _ _)

  -- So do those of every user whose number continues it by a digit.
  pub session_key-longer :
      (u d : ℕ) (s : Text)
      → 0 < u
      → d < 10
      → starts_with (user_key p u) (session_key p (u * 10 + d) s) ≡ true
  unfolding user_key session_key
  session_key-longer u d s h k =
      rw
        (
          decimal_digit u d h k,
          append_assoc (decimal u) ((48 + d) ∷ []) (b':' ∷ s),
          ← append_assoc p (b':' ∷ decimal u) ((48 + d) ∷ b':' ∷ s),
        )
        (starts_with-append (p ++ b':' ∷ decimal u) ((48 + d) ∷ b':' ∷ s))

session_key_ne :
    (p : Text) (u v : ℕ) (s t : Text)
    → s ≢ t
    → text_eq (session_key p u s) (session_key p v t) ≡ false
session_key_ne p u v s t h =
    text_eq_of_ne (session_key p u s) (session_key p v t)
      (λ e. h (session_key-injective p u v s t e).1)

module _ (u v : ℕ) (s t : Text) where
  pub access_key-own : starts_with (access_prefix u) (access_key u s) ≡ true
  unfolding access_prefix access_key
  access_key-own = session_key-own token_prefix u s

  pub refresh_key-own : starts_with (refresh_prefix u) (refresh_key u s) ≡ true
  unfolding refresh_prefix refresh_key
  refresh_key-own = session_key-own token_refresh_prefix u s

  pub access_key_ne : s ≢ t → text_eq (access_key u s) (access_key v t) ≡ false
  unfolding access_key
  access_key_ne = session_key_ne token_prefix u v s t

  pub refresh_key_ne : s ≢ t → text_eq (refresh_key u s) (refresh_key v t) ≡ false
  unfolding refresh_key
  refresh_key_ne = session_key_ne token_refresh_prefix u v s t

-- The pattern with the separator matches the sessions of one user.
pub access_key-exact :
    (u : ℕ) (s : Text) → starts_with (access_prefix u ++ b':' ∷ []) (access_key u s) ≡ true
unfolding access_prefix access_key
access_key-exact u s =
    rw (← append_assoc (decimal u) (b':' ∷ []) s)
      (starts_with-append (token_prefix ++ b':' ∷ (decimal u ++ b':' ∷ [])) s)

pub access_key-longer :
    (u d : ℕ) (s : Text)
    → 0 < u
    → d < 10
    → starts_with (access_prefix u) (access_key (u * 10 + d) s) ≡ true
unfolding access_prefix access_key
access_key-longer = session_key-longer token_prefix

NoColon-inside : (xs ys : Text) → NoColon (xs ++ b':' ∷ ys) → ⊥
NoColon-inside [] ys h = h.0 refl
NoColon-inside (x ∷ xs) ys h = NoColon-inside xs ys h.1

user_key_ne : (p : Text) (u v : ℕ) (s : Text) → text_eq (user_key p u) (session_key p v s) ≡ false
unfolding user_key session_key
user_key_ne p u v s = text_eq_of_ne (user_key p u) (session_key p v s) (λ e.
    let k = append_cancel p _ _ e in
    let tail : decimal u ≡ decimal v ++ b':' ∷ s = cc in
    NoColon-inside (decimal v) s (subst NoColon tail (decimal-NoColon u)))

-- A user's bare key is never a session's.
pub access_key_bare : (u v : ℕ) (s : Text) → text_eq (access_prefix u) (access_key v s) ≡ false
unfolding access_prefix access_key
access_key_bare = user_key_ne token_prefix

pub refresh_key_bare : (u v : ℕ) (s : Text) → text_eq (refresh_prefix u) (refresh_key v s) ≡ false
unfolding refresh_prefix refresh_key
refresh_key_bare = user_key_ne token_refresh_prefix
