-- ===== src/Handlers.antt =====
-- backend/common/exception/exception_handler.py: the answers to exceptions. `t` is the translation of
-- backend/common/i18n.py into the language of the request, `known` says which status codes uvicorn has
-- a phrase for, `format` is str.format, where none is its exception. An exception of an endpoint meets
-- the handler of its class; one that has none, that a handler raises, or that a middleware around them
-- raises meets the handler for unknown exceptions, whose place the one for CORS takes. Not modelled:
-- what the handlers leave for the middleware, the trace id, and the headers of CORS. demo_site of
-- backend/utils/demo_mode.py stands here too.
pub mod Hidden
use mc_bd.Prelude.{
  ℕ, Bool, true, false, not, ◌&&◌, ◌==◌, ◌++◌, Option, none, some, List, [], ◌∷◌, if◌then◌else◌,
}
use mc_bd.Prelude.Text.{Text, codes, text_eq}
use mc_bd.Errors.{Result, ok, err, forbidden, plain, http_400}

-- What an error of pydantic has under `ctx`: nothing, a dictionary without `error`, or one with it, where
-- `problem` is the text of `error` if that is an exception.
pub data ErrorContext : Type 0 where
  no_context other_context : ErrorContext
  with_error : Option Text → List (Text × Text) → ErrorContext

-- An item of exc.errors(): the last part of `loc` as a text, if there is one, and the text of `input`
pub record Invalid : Type 0 where
  pub type : Text
  pub loc : Option Text
  pub msg : Text
  pub input : Text
  pub ctx : ErrorContext

-- The exceptions by the handler that takes them: HTTPException with its status and detail,
-- the two errors of validation with their items, AssertionError with the text of its arguments or its
-- doc, BaseExceptionError with its code, message and data, any other with its text.
pub data Raised : Type 0 where
  http : ℕ → Option Text → Raised
  validation : List Invalid → Raised
  assertion : Text → Raised
  custom : ℕ → Text → Option Text → Raised
  other : Text → Raised

pub record Content : Type 0 where
  pub code : ℕ
  pub msg : Text
  pub data_of : Option Text

pub record Response : Type 0 where
  pub status : ℕ
  pub content : Content

abbrev pub http_500 : ℕ
http_500 = 500

abbrev pub http_422 : ℕ
http_422 = 422

abbrev pub or_text : Text → Text → Text
or_text [] s = s
or_text (c ∷ t) s = c ∷ t

-- `exc.data or None`
abbrev pub or_none : Option Text → Option Text
or_none none = none
or_none (some []) = none
or_none (some (c ∷ t)) = some (c ∷ t)

-- _get_exception_code
unfoldable pub get_exception_code : (ℕ → Bool) → ℕ → ℕ
get_exception_code known code = if known code then code else http_400

-- demo_site, with the pairs of method and path that are excluded
unfoldable pub is_excluded : Text → Text → List (Text × Text) → Bool
is_excluded method path [] = false
is_excluded method path ((m, p) ∷ l) =
    if text_eq m method && text_eq p path then true else is_excluded method path l

unfoldable pub demo_site : Bool → List (Text × Text) → Text → Text → Result (Unit {0})
unfolding is_excluded text_eq
demo_site demo_mode exclude method path =
    if demo_mode
      && not (text_eq method (codes "GET"))
      && not (text_eq method (codes "OPTIONS"))
      && not (is_excluded method path exclude)
    then err (forbidden (plain "演示环境下禁止执行此操作"))
    else ok tt

module _ (known : ℕ → Bool) (t : Text → Text) where
  -- The text of a message that may be empty
  abbrev pub translated : Text → Text
  translated [] = []
  translated (c ∷ m) = t (c ∷ m)

  abbrev pub detail_text : Option Text → Text
  detail_text none = []
  detail_text (some d) = d

  -- response_base.fail(res=CustomResponseCode.HTTP_500)
  unfoldable pub server_error : Content
  server_error = record { code = http_500; msg = t (codes "response.server_error"); data_of = none }

  unfoldable pub http_exception_handler : Bool → ℕ → Option Text → Response
  unfolding get_exception_code
  http_exception_handler is_dev status detail = record {
    status = get_exception_code known status;
    content = record {
      code = status;
      msg =
          if is_dev
          then translated (detail_text detail)
          else or_text (translated (detail_text detail)) (t (codes "response.error"));
      data_of = none;
    };
  }

  -- The content for an exception whose text is shown in development only
  unfoldable pub hidden : Bool → Text → Response
  unfolding server_error
  hidden is_dev text = record {
    status = http_500;
    content =
        if is_dev then record { code = http_500; msg = text; data_of = none } else server_error;
  }

  unfoldable pub assertion_error_handler : Bool → Text → Response
  unfolding hidden
  assertion_error_handler = hidden

  unfoldable pub all_unknown_exception_handler : Bool → Text → Response
  unfolding hidden
  all_unknown_exception_handler = hidden

  unfoldable pub custom_exception_handler : ℕ → Text → Option Text → Response
  unfolding get_exception_code
  custom_exception_handler code msg extra = record {
    status = get_exception_code known code;
    content = record { code = code; msg = translated msg; data_of = or_none extra };
  }

  -- `.replace("'", '"')`
  quoted : Text → Text
  quoted [] = []
  quoted (c ∷ m) = (if c == b'\'' then b'"' else c) ∷ quoted m

  quoted_problem : Option Text → Option Text
  unfolding quoted
  quoted_problem none = none
  quoted_problem (some m) = some (quoted m)

  module _ (format : Text → List (Text × Text) → Option Text)
      (t_with : Text → List (Text × Text) → Text) (show_errors : List Invalid → Text)
      (text_of : Raised → Text) where
    formatted : Option Text → List (Text × Text) → Invalid → Option Text → Option Invalid
    unfolding quoted_problem
    formatted problem fields e none = none
    formatted problem fields e (some msg) =
        some (record e { msg = msg; ctx = with_error (quoted_problem problem) fields })

    put_message : Text → Invalid → ErrorContext → Option Invalid
    unfolding formatted
    put_message m e no_context = some (record e { msg = m })
    put_message m e other_context = some e
    put_message m e (with_error problem fields) = formatted problem fields e (format m fields)

    -- The body of the loop, for a language but en-US, by the custom message
    with_message : Text → Invalid → Option Invalid
    unfolding put_message
    with_message [] e = some e
    with_message (c ∷ m) e = put_message (c ∷ m) e e.ctx

    localized : Bool → Invalid → Option Invalid
    unfolding with_message
    localized english e =
        if english then some e else with_message (t (codes "pydantic." ++ e.type)) e

    abbrev pub both_items : Option Invalid → Option (List Invalid) → Option (List Invalid)
    both_items none es = none
    both_items (some e) none = none
    both_items (some e) (some es) = some (e ∷ es)

    all_localized : Bool → List Invalid → Option (List Invalid)
    unfolding localized
    all_localized english [] = some []
    all_localized english (e ∷ es) = both_items (localized english e) (all_localized english es)

    -- `error['loc'][-1]` needs a part.
    field_message : Bool → Invalid → Option Text → Option Text
    field_message is_dev e none = none
    field_message is_dev e (some field) = some (
        if is_dev
        then t_with (codes "request.validation_field_error")
            ((codes "field", field) ∷ (codes "msg", e.msg) ∷ (codes "input", e.input) ∷ [])
        else e.msg)

    error_message : Bool → Invalid → Option Text
    unfolding field_message
    error_message is_dev e =
        if text_eq e.type (codes "json_invalid")
        then some (t (codes "request.json_parse_failed"))
        else field_message is_dev e e.loc

    refused : Bool → List Invalid → Option Text → Option Response
    refused is_dev errors none = none
    refused is_dev errors (some message) = some (record {
      status = http_422;
      content = record {
        code = http_422;
        msg = t_with (codes "request.invalid_params") ((codes "message", message) ∷ []);
        data_of = if is_dev then some (show_errors errors) else none;
      };
    })

    first_error : Bool → Option (List Invalid) → Option Response
    unfolding refused error_message
    first_error is_dev none = none
    first_error is_dev (some []) = none
    first_error is_dev (some (e ∷ es)) = refused is_dev (e ∷ es) (error_message is_dev e)

    -- _validation_exception_handler, where none is an exception of its own
    unfoldable pub validation_exception_handler : Bool → Bool → List Invalid → Option Response
    unfolding first_error all_localized
    validation_exception_handler english is_dev errors =
        first_error is_dev (all_localized english errors)

    -- cors_custom_code_500_exception_handler
    unfoldable pub cors_exception_handler : Bool → Raised → Response
    unfolding hidden
    cors_exception_handler is_dev (custom code msg extra) = record {
      status = code;
      content = record { code = code; msg = translated msg; data_of = extra };
    }
    cors_exception_handler is_dev (http status detail) =
        hidden is_dev (text_of (http status detail))
    cors_exception_handler is_dev (validation errors) = hidden is_dev (text_of (validation errors))
    cors_exception_handler is_dev (assertion text) = hidden is_dev (text_of (assertion text))
    cors_exception_handler is_dev (other text) = hidden is_dev text

    -- An exception that no handler of a class has taken: with MIDDLEWARE_CORS or without
    unfoldable pub handle_unknown : Bool → Bool → Raised → Response
    unfolding all_unknown_exception_handler cors_exception_handler
    handle_unknown true is_dev r = cors_exception_handler is_dev r
    handle_unknown false is_dev r = all_unknown_exception_handler is_dev (text_of r)

    -- What the handler of validation errors returns, or the answer to its own exception
    abbrev pub or_unknown : Bool → Bool → Option Response → Response
    or_unknown cors is_dev none = handle_unknown cors is_dev (other [])
    or_unknown cors is_dev (some r) = r

    -- The handlers that register_exception has for the exceptions of endpoints
    unfoldable pub handle : Bool → Bool → Bool → Raised → Response
    unfolding http_exception_handler assertion_error_handler custom_exception_handler handle_unknown
        validation_exception_handler
    handle cors english is_dev (http status detail) = http_exception_handler is_dev status detail
    handle cors english is_dev (validation errors) =
        or_unknown cors is_dev (validation_exception_handler english is_dev errors)
    handle cors english is_dev (assertion text) = assertion_error_handler is_dev text
    handle cors english is_dev (custom code msg extra) = custom_exception_handler code msg extra
    handle cors english is_dev (other text) = handle_unknown cors is_dev (other text)
