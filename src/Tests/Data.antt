-- ===== src/Tests/Data.antt =====
-- The users, sessions and worlds of the instances.
use mc_bd.Prelude.{
  ◌++◌, length, ltb, if◌then◌else◌, ◌+◌, ◌/◌, ◌%◌, ℕ, none, some, [], ◌∷◌, true, false,
}
use mc_bd.Prelude.Text.{Text, codes}
use mc_bd.Redis.Memory.{memory, Entries}
use mc_bd.Platform.{User}
use mc_bd.Platform.Concrete.{concrete, Db}
use mc_bd.Settings.{default_settings}
use mc_bd.Action.{World}

abbrev pub first : Text
first = codes "a1"

abbrev pub second : Text
second = codes "b2"

abbrev pub third : Text
third = codes "c3"

-- The digits of a number below 100
abbrev pub digits : ℕ → Text
digits n = if ltb n 10 then (48 + n) ∷ [] else (48 + n / 10) ∷ (48 + n % 10) ∷ []

abbrev pub secret : Text
secret = codes "pass1"

abbrev pub alice : User
alice = record {
  id = 1;
  uuid = codes "ua";
  username = codes "alice";
  nickname = codes "alice";
  password = some secret;
  email = none;
  avatar = none;
  status = 1;
  is_superuser = true;
  is_staff = true;
  is_multi_login = true;
  last_login_time = none;
  last_password_changed_time = some 0;
  roles = [];
}

abbrev pub bob : User
bob = record {
  id = 2;
  uuid = codes "ub";
  username = codes "bob";
  nickname = codes "bob";
  password = some secret;
  email = none;
  avatar = none;
  status = 1;
  is_superuser = false;
  is_staff = true;
  is_multi_login = false;
  last_login_time = none;
  last_password_changed_time = some 0;
  roles = [];
}

abbrev pub users : Db
users = (alice ∷ bob ∷ [], (2, codes "older1") ∷ [])

abbrev pub world : Entries → World memory concrete
world entries = record { store = entries; db = users; settings = default_settings; now = 0 }

-- A token of session `s` of user u < 100 that expires after two hours
abbrev pub token_of : ℕ → Text → Text
token_of u s = 7200000000 ∷ length s ∷ (s ++ digits u)
