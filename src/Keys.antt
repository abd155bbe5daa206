-- ===== src/Keys.antt =====
-- The Redis keys that the services build with f-strings, f'{prefix}:{user_id}' and
-- f'{prefix}:{user_id}:{session_uuid}', with the prefixes of backend/core/conf.py and,
-- for OAuth2, of backend/plugin/oauth2/plugin.toml.
pub mod Apart
pub mod Digits
use Prim.Native.String.{String}
use mc_bd.Prelude.{ℕ, ◌∷◌, ◌++◌}
use mc_bd.Prelude.Text.{Text, codes, decimal}

unfoldable pub token_prefix : Text
token_prefix = codes "mc:token"

unfoldable pub token_extra_info_prefix : Text
token_extra_info_prefix = codes "mc:token_extra_info"

unfoldable pub token_refresh_prefix : Text
token_refresh_prefix = codes "mc:refresh_token"

unfoldable pub user_lock_prefix : Text
user_lock_prefix = codes "mc:user:lock"

unfoldable pub login_captcha_prefix : Text
login_captcha_prefix = codes "mc:login:captcha"

unfoldable pub login_failure_prefix : Text
login_failure_prefix = codes "mc:login:failure"

unfoldable pub oauth2_state_prefix : Text
oauth2_state_prefix = codes "mc:oauth2:state"

unfoldable pub jwt_user_prefix : Text
jwt_user_prefix = codes "mc:user"

-- f'{prefix}:{user_id}'
unfoldable pub user_key : Text → ℕ → Text
user_key prefix user_id = prefix ++ b':' ∷ decimal user_id

-- f'{prefix}:{user_id}:{session_uuid}'
unfoldable pub session_key : Text → ℕ → Text → Text
session_key prefix user_id session_uuid = prefix ++ b':' ∷ (decimal user_id ++ b':' ∷ session_uuid)

-- f'{prefix}:{uuid}'
unfoldable pub uuid_key : Text → Text → Text
uuid_key prefix uuid = prefix ++ b':' ∷ uuid

unfoldable pub access_key : ℕ → Text → Text
unfolding session_key token_prefix
access_key = session_key token_prefix

unfoldable pub extra_key : ℕ → Text → Text
unfolding session_key token_extra_info_prefix
extra_key = session_key token_extra_info_prefix

unfoldable pub refresh_key : ℕ → Text → Text
unfolding session_key token_refresh_prefix
refresh_key = session_key token_refresh_prefix

unfoldable pub access_prefix : ℕ → Text
unfolding user_key token_prefix
access_prefix = user_key token_prefix

unfoldable pub refresh_prefix : ℕ → Text
unfolding user_key token_refresh_prefix
refresh_prefix = user_key token_refresh_prefix

unfoldable pub jwt_user_key : ℕ → Text
unfolding user_key jwt_user_prefix
jwt_user_key = user_key jwt_user_prefix

unfoldable pub lock_key : ℕ → Text
unfolding user_key user_lock_prefix
lock_key = user_key user_lock_prefix

unfoldable pub failure_key : ℕ → Text
unfolding user_key login_failure_prefix
failure_key = user_key login_failure_prefix

unfoldable pub captcha_key : Text → Text
unfolding uuid_key login_captcha_prefix
captcha_key = uuid_key login_captcha_prefix

unfoldable pub state_key : Text → Text
unfolding uuid_key oauth2_state_prefix
state_key = uuid_key oauth2_state_prefix
