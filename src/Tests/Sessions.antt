-- ===== src/Tests/Sessions.antt =====
-- Instances of the theorems on tokens and their keys.
use mc_bd.Prelude.{not, ◌&&◌, ℕ, ◌≡◌, ◌≢◌, refl, none, some, [], ◌∷◌, true, false, if◌then◌else◌}
use mc_bd.Prelude.Text.{ne_of_text_eq, read_digits, Text, codes, text_eq, starts_with, decimal}
use mc_bd.Errors.{ok, err}
use mc_bd.Redis.{mem, delete_prefix}
use mc_bd.Redis.Memory.{memory, find}
use mc_bd.Platform.Concrete.{concrete, decode_plain, cut, claims_of}
use mc_bd.Keys.{access_key, refresh_key, access_prefix, session_key, token_refresh_prefix}
use mc_bd.Action.{World, present}
use mc_bd.Jwt.{
  TokenPayload, jwt_decode, payload_of, jwt_authentication, get_jwt_user, revoke_token,
  create_new_token, token_error, differs, create_access_token,
}
use mc_bd.Jwt.Rotate.{exchange_rotates, exchanged}
use mc_bd.Jwt.Sessions.{issued_token, single_session}
use mc_bd.Jwt.Accept.{created_accepted}
use mc_bd.Keys.Digits.{access_key-own}
use mc_bd.Redis.Prefix.{get-delete_prefix}
use mc_bd.Tests.Data.{token_of, first, second, third, world}

abbrev old_refresh : Text
old_refresh = codes "old"

abbrev refreshing : World memory concrete
refreshing = world ((refresh_key 2 first, some old_refresh) ∷ [])

known_refresh :
    differs memory concrete
      (present (memory.get refreshing.store (refresh_key 2 first)))
      old_refresh
    ≡ false
unfolding find text_eq refresh_key session_key token_refresh_prefix decimal
known_refresh = refl

first_ne_second : first ≢ second
unfolding text_eq
first_ne_second = ne_of_text_eq first second refl

abbrev refreshed : World memory concrete
refreshed = (create_new_token memory concrete old_refresh first 2 false none second refreshing).1

exchange_rotates_example :
    ((create_new_token memory concrete old_refresh first 2 false none second refreshing).0
      ≡ ok (exchanged memory concrete refreshing 2 second))
    × (memory.get refreshed.store (refresh_key 2 first) ≡ none)
    × (memory.get refreshed.store (access_key 2 first) ≡ none)
    × (memory.get refreshed.store (access_key 2 second)
        ≡ some (exchanged memory concrete refreshing 2 second).new_access_token)
    × (memory.get refreshed.store (refresh_key 2 second)
        ≡ some (exchanged memory concrete refreshing 2 second).new_refresh_token)
    × (create_new_token memory concrete old_refresh first 2 false none third refreshed
        ≡ (err (token_error "error.refresh_token_expired"), refreshed))
exchange_rotates_example =
    exchange_rotates memory concrete refreshing old_refresh first 2 false none second third
      known_refresh first_ne_second

second_ne_third : second ≢ third
unfolding text_eq
second_ne_third = ne_of_text_eq second third refl

other_refresh :
    differs memory concrete (present (memory.get refreshing.store (refresh_key 2 first))) third
    ≡ true
unfolding find text_eq refresh_key session_key token_refresh_prefix decimal
other_refresh = refl

abbrev payload : ℕ → Text → TokenPayload
payload u s = record { id = u; session_uuid = s; expire_time = 7200000000 }

decoded_first : jwt_decode memory concrete 0 (token_of 2 first) ≡ ok (payload 2 first)
unfolding jwt_decode payload_of decode_plain cut claims_of read_digits
decoded_first = refl

-- User 2 has a session, and so has user 21.
abbrev logged_in : World memory concrete
logged_in = world (
    (access_key 2 first, some (token_of 2 first))
    ∷ (access_key 21 third, some (token_of 21 third))
    ∷ [])

abbrev logged_again : World memory concrete
logged_again = (create_access_token memory concrete 2 false none second logged_in).1

single_session_example : memory.get logged_again.store (access_key 2 first) ≡ (
    if text_eq (access_key 2 second) (access_key 2 first)
    then some (issued_token memory concrete logged_in 2 second)
    else none)
single_session_example =
    single_session memory concrete logged_in 2 none second (access_key 2 first)
      (access_key-own 2 2 first first)

created_accepted_example :
    jwt_authentication memory concrete
      (issued_token memory concrete logged_in 2 second)
      logged_again
    ≡ get_jwt_user memory concrete 2 logged_again
created_accepted_example = created_accepted memory concrete logged_in 2 false none b'b' (codes "2")

abbrev revoked : World memory concrete
revoked = (revoke_token memory concrete 2 first logged_in).1

get-delete_prefix_example :
    memory.get
      (delete_prefix memory (access_prefix 2) (access_key 2 first ∷ []) 1 logged_in.store)
      (access_key 21 third)
    ≡ (if starts_with (access_prefix 2) (access_key 21 third)
          && not (mem (access_key 21 third) (access_key 2 first ∷ []))
        then none
        else memory.get logged_in.store (access_key 21 third))
get-delete_prefix_example =
    get-delete_prefix memory (access_prefix 2) (access_key 2 first ∷ []) 1 logged_in.store
      (access_key 21 third)
