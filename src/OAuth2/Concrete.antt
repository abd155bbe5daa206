-- ===== src/OAuth2/Concrete.antt =====
-- Bindings in memory, which show that the hypotheses on their table can hold: a binding is kept among
-- the texts of its user, behind a mark and the number of its source.
use mc_bd.Prelude.{
  ℕ, ◌∷◌, [], ◌≡◌, refl, ◌==◌, ◌&&◌, ◌||◌, Option, none, some, List, Bool, true, false, arith,
  if◌then◌else◌,
}
use mc_bd.Prelude.Text.{Text, text_eq, starts_with}
use mc_bd.Platform.Concrete.{concrete}
use mc_bd.OAuth2.{UserSocialType, github, google, same_source, StateInfo, SocialTable}

abbrev pub number : UserSocialType → ℕ
number github = 1
number google = 2

unfoldable pub owner : List (ℕ × Text) → Text → Option ℕ
owner [] t = none
owner ((u, s) ∷ rows) t = let rest = owner rows t in if text_eq s t then some u else rest

unfoldable pub has : List (ℕ × Text) → ℕ → Text → Bool
has [] u p = false
has ((v, s) ∷ rows) u p =
    let rest = has rows u p in if (v == u) && starts_with p s then true else rest

pub owner-create :
    (rows : List (ℕ × Text)) (s t : Text) (a b : UserSocialType) (u : ℕ)
    → owner ((u, 0 ∷ number a ∷ s) ∷ rows) (0 ∷ number b ∷ t)
      ≡ (if text_eq s t && same_source a b then some u else owner rows (0 ∷ number b ∷ t))
unfolding owner text_eq same_source
owner-create rows s t github github u = ground arith
owner-create rows s t github google u = ground arith
owner-create rows s t google github u = ground arith
owner-create rows s t google google u = ground arith

pub has-create :
    (rows : List (ℕ × Text)) (s : Text) (a b : UserSocialType) (u v : ℕ)
    → has ((u, 0 ∷ number a ∷ s) ∷ rows) v (0 ∷ number b ∷ [])
      ≡ (if (u == v) && same_source a b then true else has rows v (0 ∷ number b ∷ []))
unfolding has starts_with same_source
has-create rows s github github u v = ground arith
has-create rows s github google u v = ground arith
has-create rows s google github u v = ground arith
has-create rows s google google u v = ground arith

unfoldable pub write_id : Option ℕ → Option Text → Text
write_id none none = 0 ∷ 0 ∷ []
write_id none (some t) = 1 ∷ 0 ∷ t
write_id (some n) none = 2 ∷ n ∷ []
write_id (some n) (some t) = 3 ∷ n ∷ t

unfoldable pub read_state : Text → Option (Option StateInfo)
read_state (k ∷ n ∷ t) = some (
    some (record {
      type = if (k == 1) || (k == 3) then some t else none;
      user_id = if (k == 2) || (k == 3) then some n else none;
    }))
read_state t = none

pub read-write :
    (n : Option ℕ) (t : Option Text)
    → read_state (write_id n t) ≡ some (some (record { type = t; user_id = n }))
unfolding read_state write_id
read-write none none = refl
read-write none (some t) = refl
read-write (some n) none = refl
read-write (some n) (some t) = refl

pub write_present : (n : Option ℕ) (t : Option Text) → (c : ℕ) × (r : Text) × (write_id n t ≡ c ∷ r)
unfolding write_id
write_present none none = (_, _, refl)
write_present none (some t) = (_, _, refl)
write_present (some n) none = (_, _, refl)
write_present (some n) (some t) = (_, _, refl)

abbrev pub bindings : SocialTable concrete
bindings = record {
  check_binding = λ db u b. has db.1 u (0 ∷ number b ∷ []);
  get_by_sid = λ db s b. owner db.1 (0 ∷ number b ∷ s);
  create = λ db s b u. (db.0, (u, 0 ∷ number b ∷ s) ∷ db.1);
  delete = λ db u b. (db, 0);
  find_email = λ db t. none;
  insert_user = λ db obj. (0, db);
  first_role = λ db. none;
  insert_user_role = λ db u r. db;
  dump_state = λ i. write_id i.user_id i.type;
  load_state = read_state;
  dump_state-present = λ i. write_present i.user_id i.type;
  load-dump_state = λ i. read-write i.user_id i.type;
  sid-create = λ db s t a b u h. owner-create db.1 s t a b u;
  binding-create = λ db s a b u v. has-create db.1 s a b u v;
}
