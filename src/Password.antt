-- ===== src/Password.antt =====
-- backend/app/admin/utils/password_security.py: the rules of a new password.
pub mod Rules
use Prim.Native.String.{String}
use mc_bd.Prelude.{
  ℕ, ◌+◌, ltb, leb, Option, none, some, List, [], ◌∷◌, length, take, Bool, true, false, not, ◌&&◌,
  ◌||◌, if◌then◌else◌,
}
use mc_bd.Prelude.Text.{Text, codes}
use mc_bd.Errors.{Error, request, http_400, bad_request, numbered}
use mc_bd.Redis.{Redis}
use mc_bd.Platform.{Platform}
use mc_bd.Settings.{Settings}
use mc_bd.Action.{World, Action, pure, raise_if, lift, gets, ◌>>=◌, ◌>>◌}
use mc_bd.Errors.{Result, ok, err}
use mc_bd.Config.{load_user_security_config}

-- `re.search` of a character class
unfoldable pub search : (ℕ → Bool) → Text → Bool
search p [] = false
search p (c ∷ t) = p c || search p t

-- [a-zA-Z]
abbrev pub is_letter : ℕ → Bool
is_letter c = (leb b'a' c && leb c b'z') || (leb b'A' c && leb c b'Z')

one_of : Text → ℕ → Bool
one_of [] c = false
one_of (d ∷ ds) c = (leb c d && leb d c) || one_of ds c

unfoldable pub is_special : ℕ → Bool
unfolding one_of
is_special = one_of (codes "!@#$%^&*()_+-=[]{};:'\",.<>?/\\|`~")

abbrev pub bad_request_number : String → ℕ → String → Error
bad_request_number a n b = request http_400 (numbered a n b)

module _ (R : Redis) (P : Platform) where
  -- The tests on the text alone, in their order.
  unfoldable pub check_shape : Settings → Text → Result (Unit {0})
  check_shape s t =
      if ltb (length t) s.user_password_min_length
      then err (bad_request_number "密码长度不能少于 " s.user_password_min_length " 个字符")
      else if ltb s.user_password_max_length (length t)
      then err (bad_request_number "密码长度不能超过 " s.user_password_max_length " 个字符")
      else if not (search P.is_digit t)
      then err (bad_request "密码必须包含数字")
      else if not (search is_letter t)
      then err (bad_request "密码必须包含字母")
      else if s.user_password_require_special_char && not (search is_special t)
      then err (bad_request "密码必须包含特殊字符（如：!@#$%）")
      else ok tt

  -- The loop over the newest histories.
  unfoldable pub used_before : Text → List Text → Bool
  used_before t [] = false
  used_before t (h ∷ hs) = P.verify_password t h || used_before t hs

  -- What `validate_new_password` does once the settings are loaded.
  unfoldable pub judge : ℕ → Text → Action R P (Unit {0})
  judge user_id new_password = do
    settings ← gets (λ w. w.settings)
    lift (check_shape settings new_password)
    password_history ← gets (λ w. P.histories w.db user_id)
    raise_if
        (used_before new_password
          (take settings.user_password_history_check_count password_history))
        (bad_request_number "新密码不能与最近 " settings.user_password_history_check_count " 次使用的密码相同")

  unfoldable pub validate_new_password : ℕ → Text → Action R P (Unit {0})
  validate_new_password user_id new_password = do
    load_user_security_config R P
    judge user_id new_password
