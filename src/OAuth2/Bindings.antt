-- ===== src/OAuth2/Bindings.antt =====
-- The bindings that backend/plugin/oauth2 makes, and whom they sign in.
use mc_bd.Prelude.{
  ℕ, ◌∷◌, ◌≡◌, ◌≢◌, ◌↔◌, refl, ap, ◌∙◌, ◌==◌, ◌&&◌, Option, none, some, List, true, false, arith,
  inl, inr, Bool-cases, Option-cases, if◌then◌else◌,
}
use mc_bd.Prelude.Text.{Text, text_eq, text_eq_refl}
use mc_bd.Errors.{ok, err_ne_ok}
use mc_bd.Redis.{Redis}
use mc_bd.Platform.{Platform, User}
use mc_bd.Keys.{state_key}
use mc_bd.Action.{World, Action, ◌>>=◌, present, present-some}
use mc_bd.OAuth2.{
  UserSocialType, github, google, same_source, StateInfo, Profile, SocialTable, LoginData, Account,
  account_of, already_bound, bound_by_other, binding_type, oauth2_state_expire_seconds,
  binding_with_oauth2, get_binding_auth_url, login_or_binding, consume, after_load, follow_loaded,
  follow, bind, is_type, positive, login, user_of, with_avatar, open_session,
}

same_source_refl : (a : UserSocialType) → same_source a a ≡ true
unfolding same_source
same_source_refl github = refl
same_source_refl google = refl

module _ (R : Redis) (P : Platform) (S : SocialTable P) where
  -- The account is free, and the user has none of this service.
  abbrev pub IsUnbound : World R P → ℕ → Text → UserSocialType → Type 0
  IsUnbound w u sid source =
      (S.check_binding w.db u source ≡ false) × (S.get_by_sid w.db sid source ≡ none)

  abbrev bound : World R P → ℕ → Text → UserSocialType → World R P
  bound w u sid source = record w { db = S.create w.db sid source u }

  binds :
      (w : World R P) (u : ℕ) (sid : Text) (source : UserSocialType)
      → IsUnbound w u sid source
      → binding_with_oauth2 R P S u sid source w ≡ (ok tt, bound w u sid source)
  unfolding binding_with_oauth2
  binds w u sid source h = rw (h.0, h.1) refl

  unbound :
      (w : World R P) (u : ℕ) (sid : Text) (source : UserSocialType)
      → (binding_with_oauth2 R P S u sid source w).0 ≡ ok tt
      → IsUnbound w u sid source
  unfolding binding_with_oauth2
  unbound w u sid source h = elim (Bool-cases (S.check_binding w.db u source)) [
    | inl has ↦ absurd (err_ne_ok already_bound tt (rw has at h))
    | inr free ↦ elim (Option-cases (S.get_by_sid w.db sid source)) [
      | inl open_ ↦ (free, open_)
      | inr (v, taken) ↦ absurd (err_ne_ok bound_by_other tt (rw (free, taken) at h))
    ]
  ]

  -- A binding is made exactly if the user has no account of this service and the account is no
  -- other user's; then the account is the user's, and every other account is whose it was.
  pub binding_iff :
      (w : World R P) (u : ℕ) (sid : Text) (source : UserSocialType)
      → let (r, w') = binding_with_oauth2 R P S u sid source w in
        ((r ≡ ok tt) ↔ IsUnbound w u sid source)
        × (r ≡ ok tt
            → (t : Text) (b : UserSocialType)
            → S.get_by_sid w'.db t b
              ≡ (if text_eq sid t && same_source source b then some u else S.get_by_sid w.db t b))
  binding_iff w u sid source = (
    (unbound w u sid source, λ h. ap (λ r. r.0) (binds w u sid source h)),
    λ h t b.
        let free = unbound w u sid source h in
        rw (binds w u sid source free) (S.sid-create w.db sid t source b u free.1),
  )

  -- Whoever signs in with a bound account gets a session of the user that it is bound to, whatever
  -- name and e-mail the provider sends.
  pub bound_signs_in :
      (extra : User → Text) (fresh ip : Text) (captchas : List Text) (source : UserSocialType)
      (a : Account) (w : World R P) (u : ℕ) (user : User)
      → S.get_by_sid w.db a.sid source ≡ some u
      → P.find_user w.db u ≡ some user
      → login R P S extra fresh ip captchas source a w
        ≡ (with_avatar R P S a.avatar user >>= open_session R P S extra fresh ip) w
  unfolding login user_of
  bound_signs_in extra fresh ip captchas source a w u user known found = rw known (rw found refl)

  bind_runs :
      (source : UserSocialType) (a : Account) (u : ℕ) (w : World R P)
      → u ≢ 0
      → IsUnbound w u a.sid source
      → bind R P S source a (record { type = some binding_type; user_id = some u }) w
        ≡ (ok none, bound w u a.sid source)
  unfolding bind positive
  bind_runs source a u w some_user h =
      let real : (u == 0) ≡ false = ground arith in rw real (rw (binds w u a.sid source h) refl)

  follow_binding :
      (log_in : Action R P LoginData) (source : UserSocialType) (a : Account) (u : ℕ)
      (w : World R P)
      → u ≢ 0
      → IsUnbound w u a.sid source
      → follow R P S log_in source a (record { type = some binding_type; user_id = some u }) w
        ≡ (ok none, bound w u a.sid source)
  unfolding follow is_type text_eq
  follow_binding log_in source a u w some_user h = bind_runs source a u w some_user h

  -- The flow of a binding: the state that a user draws, sent back with the account, binds the account
  -- to this user, if it was free and the user has none of this service.
  pub binding_flow :
      (extra : User → Text) (fresh ip : Text) (captchas : List Text) (source : UserSocialType)
      (profile : Profile) (w : World R P) (u c : ℕ) (t : Text)
      → u ≢ 0
      → IsUnbound w u (account_of source profile).sid source
      → let w1 = (get_binding_auth_url R P S u (c ∷ t) w).1 in
        let (r, w2) =
          login_or_binding R P S extra fresh ip captchas source profile (some (c ∷ t)) w1 in
        (r ≡ ok none)
        × (S.get_by_sid w2.db (account_of source profile).sid source ≡ some u)
        × (S.check_binding w2.db u source ≡ true)
  unfolding login_or_binding get_binding_auth_url consume after_load follow_loaded
  binding_flow extra fresh ip captchas source profile w u c t some_user h =
      let info : StateInfo = record { type = some binding_type; user_id = some u } in
      let (d, v, e) = S.dump_state-present info in
      let stored : present (
            R.get
              (R.setex w.store (state_key (c ∷ t)) oauth2_state_expire_seconds (S.dump_state info))
              (state_key (c ∷ t)))
          ≡ some (S.dump_state info) =
        simp (
          R.get-setex _ _ oauth2_state_expire_seconds _ _ (omega arith),
          text_eq_refl,
          present-some (S.dump_state info) e,
        ) in
      let a = account_of source profile in
      let w1 = (get_binding_auth_url R P S u (c ∷ t) w).1 in
      let log_in = login R P S extra fresh ip captchas source a in
      let gone = record w1 { store = R.remove w1.store (state_key (c ∷ t)) } in
      let path : login_or_binding R P S extra fresh ip captchas source profile (some (c ∷ t)) w1
          ≡ (ok none, bound gone u a.sid source) =
        ap (λ (o : Option Text). consume R P S extra fresh ip captchas source a (c ∷ t) o w1) stored
        ∙ ap (λ o. after_load R P S log_in source a (c ∷ t) o w1) (S.load-dump_state info)
        ∙ follow_binding log_in source a u gone some_user h in
      let here : (u == u) ≡ true = ground arith in
      rw path (
        refl,
        S.sid-create w.db a.sid a.sid source source u h.1
            ∙ rw (text_eq_refl, same_source_refl) refl,
        S.binding-create w.db a.sid source source u u ∙ rw (here, same_source_refl) refl,
      )
