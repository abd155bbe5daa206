-- ===== src/OAuth2/States.antt =====
-- The states of backend/plugin/oauth2/service/oauth2_service.py: that each works once.
use mc_bd.Prelude.{ℕ, ◌∷◌, ◌≡◌, ap, ◌∙◌, Option, none, some, List}
use mc_bd.Prelude.Text.{Text, text_eq_refl}
use mc_bd.Errors.{Result, err}
use mc_bd.Redis.{Redis}
use mc_bd.Platform.{Platform, User}
use mc_bd.Keys.{state_key}
use mc_bd.Action.{World, require, ◌>>=◌, redis_get, present, present-some}
use mc_bd.Action.Keeps.{KeepsKey}
use mc_bd.OAuth2.{
  UserSocialType, StateInfo, Profile, SocialTable, LoginData, Account, account_of, state_unknown,
  state_missing, login_or_binding, login, consume, after_load,
}
use mc_bd.OAuth2.Keeps.{login-Keeps, follow_loaded-Keeps}

module _ (R : Redis) (P : Platform) (S : SocialTable P) (state : Text) where
  consume-Gone :
      (extra : User → Text) (fresh ip : Text) (captchas : List Text) (source : UserSocialType)
      (a : Account) (data_ : Text) (value : Option StateInfo) (w : World R P)
      → S.load_state data_ ≡ some value
      → R.get
          (consume R P S extra fresh ip captchas source a state (some data_) w).1.store
          (state_key state)
        ≡ none
  unfolding consume after_load KeepsKey
  consume-Gone extra fresh ip captchas source a data_ value w loads =
      ap
        (λ o.
          R.get
            (after_load R P S (login R P S extra fresh ip captchas source a) source a state o
              w).1.store
            (state_key state))
        loads
      ∙ follow_loaded-Keeps R P S state (login R P S extra fresh ip captchas source a) source a
          value (login-Keeps R P S state extra fresh ip captchas source a)
          (record w { store = R.remove w.store (state_key state) })
      ∙ simp (R.get-remove, text_eq_refl)

  -- The rest of a request: who calls, and the provider's answer
  module _ (extra : User → Text) (ip : Text) (captchas : List Text) (source : UserSocialType)
      (profile : Profile) where
    abbrev pub request : Text → World R P → Result (Option LoginData) × World R P
    request fresh = login_or_binding R P S extra fresh ip captchas source profile (some state)

  module _ (extra : User → Text) (ip : Text) (captchas : List Text) (source : UserSocialType)
      (profile : Profile) (fresh : Text) (w : World R P) where
    abbrev pub consumed : Option Text → Result (Option LoginData) × World R P
    consumed o = consume R P S extra fresh ip captchas source (account_of source profile) state o w

    pub request_runs :
        {c : ℕ} {t : Text}
        → state ≡ c ∷ t
        → request extra ip captchas source profile fresh w
          ≡ consumed (present (R.get w.store (state_key state)))
    unfolding login_or_binding
    request_runs e =
        ap
          (λ (o : Option Text).
            (require o state_missing >>= λ key. redis_get (state_key key) >>= λ stored.
            consume R P S extra fresh ip captchas source (account_of source profile) key
              (present stored))
              w)
          (present-some state e)

  -- A state whose stored value is JSON works once: once a request has found it, whatever comes of
  -- that request, a request with this state that meets Redis as the first one left it is refused,
  -- and changes nothing.
  pub state_once :
      (extra extra2 : User → Text) (fresh again ip ip2 : Text) (captchas captchas2 : List Text)
      (source other : UserSocialType) (profile impostor : Profile) (w later : World R P) (c d : ℕ)
      (t v : Text) (value : Option StateInfo)
      → state ≡ c ∷ t
      → R.get w.store (state_key state) ≡ some (d ∷ v)
      → S.load_state (d ∷ v) ≡ some value
      → later.store ≡ (request extra ip captchas source profile fresh w).1.store
      → request extra2 ip2 captchas2 other impostor again later ≡ (err state_unknown, later)
  unfolding consume
  state_once extra extra2 fresh again ip ip2 captchas captchas2 source other profile impostor w
        later c d t v value e stored loads same =
      let s1 = request_runs extra ip captchas source profile fresh w e in
      let s2 = ap (consumed extra ip captchas source profile fresh w) (ap present stored) in
      let gone =
        ap (λ (x : R.Store). R.get x (state_key state)) same
        ∙ ap (λ (r : Result (Option LoginData) × World R P). R.get r.1.store (state_key state))
            (s1 ∙ s2)
        ∙ consume-Gone extra fresh ip captchas source (account_of source profile) (d ∷ v) value w
            loads in
      request_runs extra2 ip2 captchas2 other impostor again later e
      ∙ ap (consumed extra2 ip2 captchas2 other impostor again later) (ap present gone)
