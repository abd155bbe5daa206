-- ===== src/Platform.antt =====
-- What the services use and this repository does not contain, as one parameter: the database
-- session behind sqlalchemy_crud_plus, the token codec of jose, the password hasher of pwdlib, the
-- datetime formatting and `int` of Python, and pydantic's JSON of a user. The models of
-- backend/app/admin/model/user.py and role.py stand here, since the session returns them.
pub mod Concrete
use mc_bd.Prelude.{
  ℕ, ◌/◌, ◌≤◌, ◌≡◌, Bool, true, Option, none, some, List, [], ◌∷◌, ◌==◌, if◌then◌else◌,
}
use mc_bd.Prelude.Text.{Text, text_eq, decimal}

-- Role, as far as the services read it
pub record Role : Type 0 where
  pub id : ℕ
  pub status : ℕ

-- User. Times are microseconds.
pub record User : Type 0 where
  pub id : ℕ
  pub uuid : Text
  pub username : Text
  pub nickname : Text
  pub password : Option Text
  pub email : Option Text
  pub avatar : Option Text
  pub status : ℕ
  pub is_superuser : Bool
  pub is_staff : Bool
  pub is_multi_login : Bool
  pub last_login_time : Option ℕ
  pub last_password_changed_time : Option ℕ
  pub roles : List Role

-- The columns that one `update_model` of CRUDUser assigns.
pub data Patch : Type 0 where
  is_superuser is_staff is_multi_login : Bool → Patch
  status : ℕ → Patch
  password nickname avatar email : Text → Patch
  last_login_time last_password_changed_time : ℕ → Patch

abbrev pub apply : Patch → User → User
apply (is_superuser b) u = record u { is_superuser = b }
apply (is_staff b) u = record u { is_staff = b }
apply (is_multi_login b) u = record u { is_multi_login = b }
apply (status n) u = record u { status = n }
apply (password t) u = record u { password = some t }
apply (nickname t) u = record u { nickname = t }
apply (avatar t) u = record u { avatar = some t }
apply (email t) u = record u { email = some t }
apply (last_login_time n) u = record u { last_login_time = some n }
apply (last_password_changed_time n) u = record u { last_password_changed_time = some n }

-- The payload of a token: `exp` in microseconds.
pub record Claims : Type 0 where
  pub session_uuid : Option Text
  pub sub : Option Text
  pub exp : Option ℕ

-- The outcomes of `jwt.decode`: the claims, ExpiredSignatureError, and any other JWTError.
pub data Decoded : Type 0 where
  valid : Claims → Decoded
  expired malformed : Decoded

abbrev pub micro : ℕ
micro = 1000000

abbrev pub updated : Option User → Patch → Option User
updated none p = none
updated (some u) p = some (apply p u)

-- The kinds of the rows of sys_config.
pub data ConfigType : Type 0 where
  user_security login : ConfigType

pub record Platform : Type 1 where
  pub Session : Type 0
  -- select_model by primary key, and select_model_by_column by the unique user name
  pub find_user : Session → ℕ → Option User
  pub find_username : Session → Text → Option User
  -- update_model by primary key, and how many rows it changed
  pub update_user : Session → ℕ → Patch → Session
  pub rows : Session → ℕ → ℕ
  -- what the attributes of a user that was loaded before show after further statements
  pub shown : Session → User → User
  -- update_model_by_column by the user name
  pub update_username : Session → Text → Patch → Session
  pub delete_user : Session → ℕ → Session
  -- the rows of user_password_history of one user, newest first
  pub histories : Session → ℕ → List Text
  pub add_history : Session → ℕ → Text → Session
  -- the keys and values of sys_config of one kind; none if the config plugin or its table is missing
  pub config_rows : Session → ConfigType → Option (List (Text × Text))
  pub encode : Claims → Text
  pub decode : ℕ → Text → Decoded
  pub hash_password : Session → Text → Text
  pub verify_password : Text → Text → Bool
  -- `int` of a text that stands for a number that is not negative; none is ValueError
  pub int_of : Text → Option ℕ
  -- `\d` of re, which also matches the digits of other scripts
  pub is_digit : ℕ → Bool
  -- strftime and strptime with DATETIME_FORMAT in the configured time zone
  pub to_str : ℕ → Text
  pub from_str : Text → ℕ
  -- fastapi's split of an Authorization header into scheme and parameter, and `str.lower`
  pub scheme_param : Text → Text × Text
  pub lower : Text → Text
  -- pydantic's JSON of a user, and back
  pub dump_user : User → Text
  pub load_user : Text → User
  pub find-update :
      (db : Session) (i j : ℕ) (p : Patch)
      → find_user (update_user db i p) j
        ≡ (if i == j then updated (find_user db i) p else find_user db j)
  pub find-add_history :
      (db : Session) (i j : ℕ) (t : Text) → find_user (add_history db i t) j ≡ find_user db j
  pub decode-encode :
      (now : ℕ) (session sub : Text) (exp : ℕ)
      → now / micro ≤ exp / micro
      → decode now (encode (record { session_uuid = some session; sub = some sub; exp = some exp }))
        ≡ valid (record { session_uuid = some session; sub = some sub; exp = some exp })
  pub encode-present : (c : Claims) → (e : ℕ) × (t : Text) × (encode c ≡ e ∷ t)
  pub int-decimal : (n : ℕ) → int_of (decimal n) ≡ some n
