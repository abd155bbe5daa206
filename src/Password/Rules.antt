-- ===== src/Password/Rules.antt =====
-- What a new password that passes is.
use mc_bd.Prelude.{
  ℕ, leb, ◌≡◌, ◌⊎◌, refl, List, [], ◌∷◌, length, take, Bool, true, false, not, ◌&&◌, ◌||◌, All,
  arith, inl, inr,
}
use mc_bd.Prelude.Text.{Text}
use mc_bd.Errors.{Error, Result, ok, err}
use mc_bd.Redis.{Redis}
use mc_bd.Platform.{Platform}
use mc_bd.Settings.{Settings}
use mc_bd.Action.{World, >>=-Returned, lift, raise_if}
use mc_bd.Config.{load_user_security_config}
use mc_bd.Password.{
  search, is_letter, is_special, check_shape, used_before, judge, validate_new_password,
}

Result-cases : (r : Result (Unit {0})) → (r ≡ ok tt) ⊎ ((e : Error) × (r ≡ err e))
Result-cases (ok tt) = inl refl
Result-cases (err e) = inr (e, refl)

module _ (R : Redis) (P : Platform) where
  -- The length is within the two limits, and there are a digit, a letter and, where the setting
  -- asks for one, a special character.
  abbrev pub fits : Settings → Text → Bool
  fits s t =
      leb s.user_password_min_length (length t)
      && (leb (length t) s.user_password_max_length
          && (search P.is_digit t
              && (search is_letter t
                  && (not s.user_password_require_special_char || search is_special t))))

  check_shape_sound : (s : Settings) (t : Text) → check_shape R P s t ≡ ok tt → fits s t ≡ true
  unfolding check_shape
  check_shape_sound s t h = ground arith

  check_shape_complete : (s : Settings) (t : Text) → fits s t ≡ true → check_shape R P s t ≡ ok tt
  unfolding check_shape
  check_shape_complete s t h = ground arith

  unused :
      (t : Text) (hs : List Text)
      → used_before R P t hs ≡ false
      → All (λ old. P.verify_password t old ≡ false) hs
  unfolding used_before
  unused t [] h = tt
  unused t (x ∷ hs) h = (ground arith, unused t hs (ground arith))

  raise_if_passed :
      (b : Bool) (e : Error) (w w'' : World R P)
      → raise_if b e w ≡ (ok tt, w'')
      → (b ≡ false) × (w ≡ w'')
  raise_if_passed false e w w'' h = (refl, cc)
  raise_if_passed true e w w'' h = cc

  passes_no_error : (e : Error) (w w'' : World R P) → lift (err e) w ≡ (ok tt, w'') → ⊥
  passes_no_error e w w'' h = cc

  judge_sound :
      (w w'' : World R P) (u : ℕ) (t : Text)
      → judge R P u t w ≡ (ok tt, w'')
      → (fits w.settings t ≡ true)
        × All
            (λ old. P.verify_password t old ≡ false)
            (take w.settings.user_password_history_check_count (P.histories w.db u))
        × (w ≡ w'')
  unfolding judge
  judge_sound w w'' u t h = elim (Result-cases (check_shape R P w.settings t)) [
    | inr (e, bad) ↦ absurd (passes_no_error e w w'' (rw (bad, judge) at h))
    | inl good ↦
        let (fresh, same) = raise_if_passed _ _ w w'' (rw (good, judge) at h) in
        (check_shape_sound w.settings t good, unused t _ fresh, same)
  ]

  -- A new password that is accepted fits the settings then in force, and is none of the user's
  -- newest passwords, as many as the settings say.
  pub validate_sound :
      (w w'' : World R P) (u : ℕ) (t : Text)
      → validate_new_password R P u t w ≡ (ok tt, w'')
      → (fits w''.settings t ≡ true)
        × All
            (λ old. P.verify_password t old ≡ false)
            (take w''.settings.user_password_history_check_count (P.histories w''.db u))
  unfolding validate_new_password
  validate_sound w w'' u t h =
      let a = >>=-Returned (load_user_security_config R P) (λ _. judge R P u t) w tt w'' h in
      let (fit, unused_, same) = judge_sound a.middle w'' u t a.then_ in rw (← same) (fit, unused_)
