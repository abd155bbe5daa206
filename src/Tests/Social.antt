-- ===== src/Tests/Social.antt =====
-- Instances of the theorems on the accounts of other services.
use mc_bd.Prelude.{◌≡◌, refl, none, some, [], ◌∷◌, true, arith}
use mc_bd.Prelude.Text.{Text, codes, text_eq, starts_with}
use mc_bd.Errors.{ok, err}
use mc_bd.Redis.Memory.{memory, find}
use mc_bd.Platform.{User}
use mc_bd.Platform.Concrete.{concrete, find_in}
use mc_bd.Keys.{state_key}
use mc_bd.Action.{World}
use mc_bd.OAuth2.{
  github, google, login_type, Profile, Account, account_of, state_unknown, get_binding_auth_url,
  login_or_binding,
}
use mc_bd.OAuth2.Concrete.{bindings, owner, has, write_id, read_state}
use mc_bd.OAuth2.States.{state_once}
use mc_bd.OAuth2.Bindings.{IsUnbound, binding_flow}
use mc_bd.Tests.Data.{bob, users, world, first, second}

abbrev octocat : Profile
octocat = record {
  id = codes "583231";
  login = codes "octocat";
  name = codes "Octo";
  given_name = codes "Octo";
  email = none;
  avatar_url = none;
  picture = none;
}

abbrev no_extra : User → Text
no_extra u = []

-- The state that a login stores
abbrev login_state : Text
login_state = bindings.dump_state (record { type = some login_type; user_id = none })

abbrev drawn : World memory concrete
drawn = world ((state_key (codes "s"), some (login_state)) ∷ [])

drawn_stored : memory.get drawn.store (state_key (codes "s")) ≡ some (1 ∷ 0 ∷ codes "login")
unfolding find text_eq state_key write_id
drawn_stored = refl

login_state_loads :
    bindings.load_state (1 ∷ 0 ∷ codes "login")
    ≡ some (some (record { type = some login_type; user_id = none }))
unfolding read_state
login_state_loads = refl

state_once_example :
    let w' =
      (login_or_binding memory concrete bindings no_extra first
        (codes "ip")
        []
        github
        octocat
        (some (codes "s"))
        drawn).1 in
    login_or_binding memory concrete bindings no_extra second
      (codes "ip")
      []
      google
      octocat
      (some (codes "s"))
      w'
    ≡ (err state_unknown, w')
state_once_example =
    state_once memory concrete bindings (codes "s") no_extra no_extra first second (codes "ip")
      (codes "ip") [] [] github google octocat octocat drawn
      (login_or_binding memory concrete bindings no_extra first (codes "ip") [] github octocat
        (some (codes "s")) drawn).1
      b's' 1 [] (0 ∷ codes "login") (some (record { type = some login_type; user_id = none })) refl
      drawn_stored login_state_loads refl

nothing_bound : IsUnbound memory concrete bindings (world []) 2 (codes "583231") github
unfolding owner has text_eq starts_with
nothing_bound = (refl, refl)

binding_flow_example :
    let w1 = (get_binding_auth_url memory concrete bindings 2 (codes "s") (world [])).1 in
    let (r, w2) =
      login_or_binding memory concrete bindings no_extra first
        (codes "ip")
        []
        github
        octocat
        (some (codes "s"))
        w1 in
    (r ≡ ok none)
    × (bindings.get_by_sid w2.db (account_of github octocat).sid github ≡ some 2)
    × (bindings.check_binding w2.db 2 github ≡ true)
unfolding account_of
binding_flow_example =
    binding_flow memory concrete bindings no_extra first (codes "ip") [] github octocat (world []) 2
      b's' [] (omega arith) nothing_bound

-- The account of the provider belongs to user 2.
abbrev with_binding : World memory concrete
with_binding = record (world []) { db = (users.0, (2, 0 ∷ 1 ∷ codes "583231") ∷ []) }

account_known : bindings.get_by_sid with_binding.db (codes "583231") github ≡ some 2
unfolding owner text_eq
account_known = refl

bob_found : concrete.find_user with_binding.db 2 ≡ some bob
unfolding find_in
bob_found = refl

abbrev renamed : Account
renamed = record {
  sid = codes "583231";
  username = codes "alice";
  nickname = codes "alice";
  email = none;
  avatar = none;
}
