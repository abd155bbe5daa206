-- ===== src/Jwt/Keeps.antt =====
-- The keys that backend/common/security/jwt.py leaves alone when it creates tokens.
use mc_bd.Prelude.{ℕ, ◌≡◌, ◌<◌, Bool, true, false, Option, none, some, arith}
use mc_bd.Prelude.Text.{Text, text_eq, starts_with}
use mc_bd.Redis.{Redis}
use mc_bd.Redis.Prefix.{get-delete_prefix}
use mc_bd.Platform.{Platform}
use mc_bd.Settings.{token_expire_seconds, token_refresh_expire_seconds}
use mc_bd.Keys.{access_key, access_prefix, extra_key, refresh_key, refresh_prefix, jwt_user_key}
use mc_bd.Action.Keeps.{KeepsKey}
use mc_bd.Jwt.{create_access_token, create_refresh_token, store_extra}

-- A key that belongs to no session and no user
pub record IsForeign (k : Text) : Type 0 where
  pub no_access : (u : ℕ) (s : Text) → text_eq (access_key u s) k ≡ false
  pub no_extra : (u : ℕ) (s : Text) → text_eq (extra_key u s) k ≡ false
  pub no_refresh : (u : ℕ) (s : Text) → text_eq (refresh_key u s) k ≡ false
  pub no_user : (u : ℕ) → text_eq (jwt_user_key u) k ≡ false
  pub no_access_prefix : (u : ℕ) → starts_with (access_prefix u) k ≡ false
  pub no_refresh_prefix : (u : ℕ) → starts_with (refresh_prefix u) k ≡ false

in_time : 0 < token_expire_seconds
in_time = omega arith

in_time_refresh : 0 < token_refresh_expire_seconds
in_time_refresh = omega arith

module _ (R : Redis) (P : Platform) (k : Text) (foreign : IsForeign k) where
  pub create_access_token-KeepsKey :
      (u : ℕ) (b : Bool) (extra : Option Text) (s : Text)
      → KeepsKey R P k (create_access_token R P u b extra s)
  unfolding create_access_token KeepsKey store_extra
  create_access_token-KeepsKey u true none s w =
      simp (R.get-setex _ _ _ _ _ in_time, R.get-remove, foreign.no_access, foreign.no_user)
  create_access_token-KeepsKey u true (some e) s w = simp (
    R.get-setex _ _ _ _ _ in_time,
    R.get-remove,
    foreign.no_access,
    foreign.no_extra,
    foreign.no_user,
  )
  create_access_token-KeepsKey u false none s w = simp (
    R.get-setex _ _ _ _ _ in_time,
    R.get-remove,
    get-delete_prefix R,
    foreign.no_access,
    foreign.no_user,
    foreign.no_access_prefix,
  )
  create_access_token-KeepsKey u false (some e) s w = simp (
    R.get-setex _ _ _ _ _ in_time,
    R.get-remove,
    get-delete_prefix R,
    foreign.no_access,
    foreign.no_extra,
    foreign.no_user,
    foreign.no_access_prefix,
  )

  pub create_refresh_token-KeepsKey :
      (s : Text) (u : ℕ) (b : Bool) → KeepsKey R P k (create_refresh_token R P s u b)
  unfolding create_refresh_token KeepsKey
  create_refresh_token-KeepsKey s u true w =
      simp (R.get-setex _ _ _ _ _ in_time_refresh, foreign.no_refresh)
  create_refresh_token-KeepsKey s u false w = simp (
    R.get-setex _ _ _ _ _ in_time_refresh,
    get-delete_prefix R,
    foreign.no_refresh,
    foreign.no_refresh_prefix,
  )
