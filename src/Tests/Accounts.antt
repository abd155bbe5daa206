-- ===== src/Tests/Accounts.antt =====
-- Instances of the theorems on accounts: their locks, logins, passwords and permissions.
use mc_bd.Prelude.{
  ◌+◌, ◌*◌, ◌≡◌, ◌≤◌, ◌<◌, refl, none, some, [], ◌∷◌, true, false, arith, All, take,
}
use mc_bd.Prelude.Text.{codes, text_eq, read_digits, decimal}
use mc_bd.Errors.{ok, err, authorization, plain}
use mc_bd.Redis.Memory.{memory, find}
use mc_bd.Platform.{micro}
use mc_bd.Platform.Concrete.{update_in, entries_of, concrete, find_in, find_name}
use mc_bd.Keys.{access_key, refresh_key, lock_key, failure_key, user_key, user_lock_prefix}
use mc_bd.Action.{World}
use mc_bd.Security.{day, check_password_expiry_status, handle_login_success, check_status}
use mc_bd.Security.Lock.{failing, fail_at, threshold_locks}
use mc_bd.Auth.{wrong_password, user_verify}
use mc_bd.Auth.Verify.{Verified, user_verify_sound}
use mc_bd.Config.{load_user_security_config, load_config}
use mc_bd.Password.{validate_new_password, judge, check_shape, used_before, search}
use mc_bd.Password.Rules.{fits, validate_sound}
use mc_bd.Users.{
  ResetParam, reset_password, update_password, confirm_old, replace_password, delete_sessions,
}
use mc_bd.Users.Reset.{reset_password_keeps_sessions}
use mc_bd.Users.Ending.{Ended, update_password_ends_sessions}
use mc_bd.Tests.Data.{first, token_of, bob, users, world, secret}

-- The account of user 2 is locked until microsecond 90000000.
abbrev locked : World memory concrete
locked = world ((lock_key 2, some (codes "90000000")) ∷ [])

lock_stored : memory.get locked.store (lock_key 2) ≡ some (codes "90000000")
unfolding find text_eq lock_key user_key user_lock_prefix decimal
lock_stored = refl

lock_ahead : locked.now < concrete.from_str (codes "90000000")
unfolding read_digits
lock_ahead = omega arith

bob_named : concrete.find_username users (codes "bob") ≡ some bob
unfolding find_name text_eq
bob_named = refl

abbrev late : World memory concrete
late = record locked { now = 95000000 }

lock_past : concrete.from_str (codes "90000000") ≤ late.now
unfolding read_digits
lock_past = omega arith

abbrev opened : World memory concrete
opened = (check_status memory concrete 2 1 late).1

no_failures : memory.get (world []).store (failure_key 2) ≡ none
unfolding find
no_failures = refl

threshold_locks_example :
    ((fail_at memory concrete 2 (failing memory concrete 2 (world []) (0 ∷ 1 ∷ 2 ∷ 3 ∷ [])) 4).0
      ≡ err (authorization (plain "登录失败次数过多，账号已被锁定")))
    × (memory.get
          (fail_at memory concrete 2
            (failing memory concrete 2 (world []) (0 ∷ 1 ∷ 2 ∷ 3 ∷ []))
            4).1.store
          (lock_key 2)
        ≡ some (concrete.to_str (4 + 300 * micro)))
threshold_locks_example =
    threshold_locks memory concrete 2 (world []) (0 ∷ 1 ∷ 2 ∷ 3 ∷ []) 4 refl no_failures refl

abbrev logged_in : World memory concrete
logged_in = world ((access_key 2 first, some (token_of 2 first)) ∷ [])

bob_found : concrete.find_user users 2 ≡ some bob
unfolding find_in
bob_found = refl

abbrev welcomed : World memory concrete
welcomed = (user_verify memory concrete (codes "bob") secret (world [])).1

bob_verified :
    user_verify memory concrete (codes "bob") secret (world []) ≡ (ok (bob, none), welcomed)
unfolding user_verify wrong_password check_status check_password_expiry_status handle_login_success
    load_user_security_config load_config find find_name text_eq
bob_verified = refl

user_verify_sound_example : Verified memory concrete (world []) (codes "bob") secret bob
user_verify_sound_example =
    user_verify_sound memory concrete (world []) welcomed (codes "bob") secret bob none bob_verified

reset_password_keeps_sessions_example :
    let w' = (reset_password memory concrete 2 (codes "newer2") logged_in).1 in
    (memory.get w'.store (access_key 2 first) ≡ memory.get logged_in.store (access_key 2 first))
    × (memory.get w'.store (refresh_key 2 first) ≡ memory.get logged_in.store (refresh_key 2 first))
reset_password_keeps_sessions_example =
    reset_password_keeps_sessions memory concrete logged_in 2 2 (codes "newer2") first

abbrev change : ResetParam
change = record {
  old_password = secret;
  new_password = codes "newer2";
  confirm_password = codes "newer2";
}

changed :
    update_password memory concrete 2 change logged_in
    ≡ (ok 1, (update_password memory concrete 2 change logged_in).1)
unfolding update_password confirm_old replace_password delete_sessions validate_new_password judge
    check_shape used_before search load_user_security_config load_config find_in text_eq entries_of
    update_in
changed = refl

update_password_ends_sessions_example :
    Ended memory concrete 2 (update_password memory concrete 2 change logged_in).1
update_password_ends_sessions_example =
    update_password_ends_sessions memory concrete 2 change logged_in 1
      (update_password memory concrete 2 change logged_in).1 changed

accepted : validate_new_password memory concrete 2 (codes "newer2") logged_in ≡ (ok tt, logged_in)
unfolding validate_new_password judge check_shape used_before search load_user_security_config
    load_config find_in text_eq entries_of
accepted = refl

validate_sound_example :
    (fits memory concrete logged_in.settings (codes "newer2") ≡ true)
    × All
        (λ old. concrete.verify_password (codes "newer2") old ≡ false)
        (take logged_in.settings.user_password_history_check_count
          (concrete.histories logged_in.db 2))
validate_sound_example =
    validate_sound memory concrete logged_in logged_in 2 (codes "newer2") accepted

-- The password of user 2 was changed at the start, and 360 days have passed.
abbrev year_end : World memory concrete
year_end = record logged_in { now = 360 * day }
