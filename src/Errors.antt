-- ===== src/Errors.antt =====
-- backend/common/exception/errors.py: the exceptions that services raise, and the results of
-- operations that may raise them. `custom` is CustomError with its only code, CAPTCHA_ERROR of
-- backend/common/response/response_code.py. `unexpected` is any exception of another class, with
-- its name: a Python built-in or one of a library.
use Prim.Native.String.{String}
use mc_bd.Prelude.{ℕ, ◌≢◌}
use mc_bd.Prelude.Text.{Text}

-- The text of an error, with the number or the name that an f-string puts into it.
pub data Message : Type 0 where
  plain : String → Message
  named : String → Text → String → Message
  numbered : String → ℕ → String → Message

pub data Error : Type 0 where
  request : ℕ → Message → Error
  custom : Error
  forbidden not_found server gateway authorization token conflict : Message → Error
  unexpected : String → Error

-- The attribute `code` of each class; an exception of another class has none, and the handlers
-- answer 500 for it.
unfoldable pub code : Error → ℕ
code (request c m) = c
code custom = 40001
code (forbidden m) = 403
code (not_found m) = 404
code (server m) = 500
code (gateway m) = 502
code (authorization m) = 403
code (token m) = 401
code (conflict m) = 409
code (unexpected m) = 500

-- The attribute `msg` (`detail` of a TokenError), or what the middleware puts in its place.
unfoldable pub message : Error → Message
message (request c m) = m
message custom = plain "error.captcha.error"
message (forbidden m) = m
message (not_found m) = m
message (server m) = m
message (gateway m) = m
message (authorization m) = m
message (token m) = m
message (conflict m) = m
message (unexpected m) = plain "Internal Server Error"

-- StandardResponseCode, as far as the services name it
abbrev pub http_400 : ℕ
http_400 = 400

abbrev pub http_401 : ℕ
http_401 = 401

-- RequestError(msg=…), with the default code
abbrev pub bad_request : String → Error
bad_request m = request http_400 (plain m)

pub data Result {ℓ} (A : Type ℓ) : Type ℓ where
  ok : A → Result A
  err : Error → Result A

pub err_ne_ok {ℓ} : {A : Type ℓ} (x : Error) (a : A) → err x ≢ ok a
err_ne_ok x a h = cc
