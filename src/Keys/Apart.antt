-- ===== src/Keys/Apart.antt =====
-- Keys of different kinds are different texts.
use mc_bd.Prelude.{ℕ, ◌≡◌, refl, false}
use mc_bd.Prelude.Text.{Text, text_eq, starts_with}
use mc_bd.Keys.{access_key, extra_key, refresh_key, jwt_user_key, access_prefix, refresh_prefix}

module _ (u v : ℕ) (s t : Text) where
  pub access-refresh : text_eq (access_key u s) (refresh_key v t) ≡ false
  unfolding text_eq access_key refresh_key
  access-refresh = refl

  pub access-extra : text_eq (access_key u s) (extra_key v t) ≡ false
  unfolding text_eq access_key extra_key
  access-extra = refl

  pub extra-access : text_eq (extra_key u s) (access_key v t) ≡ false
  unfolding text_eq access_key extra_key
  extra-access = refl

  pub extra-refresh : text_eq (extra_key u s) (refresh_key v t) ≡ false
  unfolding text_eq extra_key refresh_key
  extra-refresh = refl

  pub refresh-access : text_eq (refresh_key u s) (access_key v t) ≡ false
  unfolding text_eq access_key refresh_key
  refresh-access = refl

  pub extra-access_prefix : starts_with (access_prefix u) (extra_key v t) ≡ false
  unfolding starts_with access_prefix extra_key
  extra-access_prefix = refl

  pub refresh-access_prefix : starts_with (access_prefix u) (refresh_key v t) ≡ false
  unfolding starts_with access_prefix refresh_key
  refresh-access_prefix = refl

  pub access-refresh_prefix : starts_with (refresh_prefix u) (access_key v t) ≡ false
  unfolding starts_with refresh_prefix access_key
  access-refresh_prefix = refl

  pub extra-refresh_prefix : starts_with (refresh_prefix u) (extra_key v t) ≡ false
  unfolding starts_with refresh_prefix extra_key
  extra-refresh_prefix = refl

  pub jwt_user-access : text_eq (jwt_user_key u) (access_key v t) ≡ false
  unfolding text_eq jwt_user_key access_key
  jwt_user-access = refl

  pub jwt_user-refresh : text_eq (jwt_user_key u) (refresh_key v t) ≡ false
  unfolding text_eq jwt_user_key refresh_key
  jwt_user-refresh = refl

  pub access-jwt_user : text_eq (access_key v t) (jwt_user_key u) ≡ false
  unfolding text_eq jwt_user_key access_key
  access-jwt_user = refl

  pub extra-jwt_user : text_eq (extra_key v t) (jwt_user_key u) ≡ false
  unfolding text_eq jwt_user_key extra_key
  extra-jwt_user = refl

  pub refresh-jwt_user : text_eq (refresh_key v t) (jwt_user_key u) ≡ false
  unfolding text_eq jwt_user_key refresh_key
  refresh-jwt_user = refl

  pub access-refresh_bare : text_eq (refresh_prefix u) (access_key v t) ≡ false
  unfolding text_eq refresh_prefix access_key
  access-refresh_bare = refl

  pub refresh-access_bare : text_eq (access_prefix u) (refresh_key v t) ≡ false
  unfolding text_eq access_prefix refresh_key
  refresh-access_bare = refl

  pub refresh-extra : text_eq (refresh_key u s) (extra_key v t) ≡ false
  unfolding text_eq refresh_key extra_key
  refresh-extra = refl

pub ruleset keys_apart = (
  access-refresh, access-extra, extra-access, extra-refresh, refresh-access, extra-access_prefix,
  refresh-access_prefix, access-refresh_prefix, extra-refresh_prefix, jwt_user-access,
  jwt_user-refresh, access-jwt_user, extra-jwt_user, refresh-jwt_user, refresh-extra,
)
