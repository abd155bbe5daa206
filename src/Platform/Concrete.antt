-- ===== src/Platform/Concrete.antt =====
-- A platform in memory, which shows that the hypotheses on the database and the libraries can hold:
-- the session is a list of users, a token is its claims in plain, and a password is its own hash.
use mc_bd.Prelude.{
  ◌+◌, map, ℕ, zero, suc, ◌/◌, ◌≤◌, ◌≡◌, refl, false, ◌&&◌, leb, ◌==◌, Option, none, some, List, [],
  ◌∷◌, ◌++◌, length, arith, if◌then◌else◌,
}
use mc_bd.Prelude.Text.{Text, codes, text_eq, decimal, read_digits, read_digits-decimal}
use mc_bd.Platform.{
  Platform, User, Patch, is_superuser, is_staff, is_multi_login, status, password, nickname, avatar,
  email, last_login_time, last_password_changed_time, apply, updated, Claims, Decoded, valid,
  expired, malformed, micro,
}

unfoldable pub find_in : List User → ℕ → Option User
find_in [] i = none
find_in (u ∷ us) i = let rest = find_in us i in if u.id == i then some u else rest

unfoldable pub find_name : List User → Text → Option User
find_name [] t = none
find_name (u ∷ us) t = let rest = find_name us t in if text_eq u.username t then some u else rest

unfoldable pub update_in : List User → ℕ → Patch → List User
update_in [] i p = []
update_in (u ∷ us) i p = (if u.id == i then apply p u else u) ∷ update_in us i p

unfoldable pub update_name : List User → Text → Patch → List User
update_name [] t p = []
update_name (u ∷ us) t p = (if text_eq u.username t then apply p u else u) ∷ update_name us t p

unfoldable pub remove_in : List User → ℕ → List User
remove_in [] i = []
remove_in (u ∷ us) i = let rest = remove_in us i in if u.id == i then rest else u ∷ rest

id-apply : (p : Patch) (u : User) → (apply p u).id ≡ u.id
id-apply (is_superuser b) u = refl
id-apply (is_staff b) u = refl
id-apply (is_multi_login b) u = refl
id-apply (status n) u = refl
id-apply (password t) u = refl
id-apply (nickname t) u = refl
id-apply (avatar t) u = refl
id-apply (email t) u = refl
id-apply (last_login_time n) u = refl
id-apply (last_password_changed_time n) u = refl

pub find-update_in :
    (us : List User) (i j : ℕ) (p : Patch)
    → find_in (update_in us i p) j ≡ (if i == j then updated (find_in us i) p else find_in us j)
unfolding find_in update_in
find-update_in [] i j p = ground arith
find-update_in (u ∷ us) i j p = ground (arith, find-update_in us i j p, id-apply p u)

-- The first `n` characters, and the others
unfoldable pub cut : ℕ → Text → Text × Text
cut zero t = ([], t)
cut (suc n) [] = ([], [])
cut (suc n) (c ∷ t) = let (a, b) = cut n t in (c ∷ a, b)

cut-append : (s t : Text) → cut (length s) (s ++ t) ≡ (s, t)
unfolding cut
cut-append [] t = refl
cut-append (c ∷ s) t = rw (cut-append s t)

unfoldable pub encode_plain : Option Text → Option Text → Option ℕ → Text
encode_plain (some session) (some sub) (some exp) = exp ∷ length session ∷ (session ++ sub)
encode_plain session sub exp = 0 ∷ []

unfoldable pub claims_of : ℕ → Text × Text → Claims
claims_of exp (session, sub) = record {
  session_uuid = some session;
  sub = some sub;
  exp = some exp;
}

unfoldable pub decode_plain : ℕ → Text → Decoded
unfolding claims_of
decode_plain now (exp ∷ n ∷ t) =
    if leb (now / micro) (exp / micro) then valid (claims_of exp (cut n t)) else expired
decode_plain now t = malformed

pub decode-encode_plain :
    (now : ℕ) (session sub : Text) (exp : ℕ)
    → now / micro ≤ exp / micro
    → decode_plain now (encode_plain (some session) (some sub) (some exp))
      ≡ valid (record { session_uuid = some session; sub = some sub; exp = some exp })
unfolding decode_plain encode_plain claims_of
decode-encode_plain now session sub exp h = rw (cut-append session sub) (ground (arith, claims_of))

pub encode_plain-present :
    (a b : Option Text) (c : Option ℕ) → (e : ℕ) × (t : Text) × (encode_plain a b c ≡ e ∷ t)
unfolding encode_plain
encode_plain-present (some a) (some b) (some c) = (_, _, refl)
encode_plain-present (some a) (some b) none = (_, _, refl)
encode_plain-present (some a) none c = (_, _, refl)
encode_plain-present none b c = (_, _, refl)

unfoldable pub entries_of : ℕ → List (ℕ × Text) → List Text
entries_of i [] = []
entries_of i ((j, t) ∷ rows) = let rest = entries_of i rows in if i == j then t ∷ rest else rest

-- The text before the first space, and the text after it
unfoldable pub at_space : Text → Text × Text
at_space [] = ([], [])
at_space (c ∷ t) = let (a, b) = at_space t in if c == b' ' then ([], t) else (c ∷ a, b)

abbrev lower_letter : ℕ → ℕ
lower_letter c = if leb b'A' c && leb c b'Z' then c + 32 else c

unfoldable pub nobody : ℕ → User
nobody i = record {
  id = i;
  uuid = codes "u";
  username = codes "nobody";
  nickname = codes "nobody";
  password = none;
  email = none;
  avatar = none;
  status = 1;
  is_superuser = false;
  is_staff = false;
  is_multi_login = false;
  last_login_time = none;
  last_password_changed_time = none;
  roles = [];
}

-- The users and the password history
abbrev pub Db : Type 0
Db = List User × List (ℕ × Text)

abbrev pub concrete : Platform
concrete = record {
  Session = Db;
  find_user = λ db i. find_in db.0 i;
  find_username = λ db t. find_name db.0 t;
  update_user = λ db i p. (update_in db.0 i p, db.1);
  rows = λ db i. elim (find_in db.0 i) [ none ↦ 0 | some u ↦ 1 ];
  shown = λ db u. elim (find_in db.0 u.id) [ none ↦ u | some v ↦ v ];
  update_username = λ db t p. (update_name db.0 t p, db.1);
  delete_user = λ db i. (remove_in db.0 i, db.1);
  histories = λ db i. entries_of i db.1;
  add_history = λ db i t. (db.0, (i, t) ∷ db.1);
  config_rows = λ db kind. none;
  encode = λ c. encode_plain c.session_uuid c.sub c.exp;
  decode = decode_plain;
  hash_password = λ db t. t;
  verify_password = text_eq;
  int_of = λ t. some (read_digits 0 t);
  is_digit = λ c. leb b'0' c && leb c b'9';
  to_str = decimal;
  from_str = read_digits 0;
  scheme_param = at_space;
  lower = map lower_letter;
  dump_user = λ u. decimal u.id;
  load_user = λ t. nobody (read_digits 0 t);
  find-update = λ db i j p. find-update_in db.0 i j p;
  find-add_history = λ db i j t. refl;
  decode-encode = decode-encode_plain;
  encode-present = λ c. encode_plain-present c.session_uuid c.sub c.exp;
  int-decimal = λ n. rw (read_digits-decimal n);
}
