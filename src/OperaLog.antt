-- ===== src/OperaLog.antt =====
-- The operation log: backend/middleware/opera_log_middleware.py and backend/common/queue.py. What
-- starlette reads from a request is an argument: the parameters, the decoded body, its JSON and the
-- form. json.dumps, with its result in characters and its size in bytes, is a parameter.
pub mod Redacted
pub mod Batches
use mc_bd.Prelude.{
  ℕ, zero, suc, ltb, take, length, Bool, true, false, not, ◌&&◌, ◌||◌, Option, none, some, List, [],
  ◌∷◌, if◌then◌else◌,
}
use mc_bd.Prelude.Text.{Text, codes, starts_with}
use mc_bd.Redis.{mem}
use mc_bd.Errors.{Error, Result, ok, err, Message, plain, code, message}

-- A value of a parameter: a text, any other JSON value by its text, or an uploaded file by its name,
-- its content type and its size
pub data Value : Type 0 where
  text json_value : Text → Value
  file : Option Text → Option Text → Option ℕ → Value

abbrev pub Dict : Type 0
Dict = List (Text × Value)

-- The body's JSON: an object, or the `str` of another value
pub data Json : Type 0 where
  object : Dict → Json
  other_json : Text → Json

-- What the middleware reads from a request; an empty body is none.
pub record Request : Type 0 where
  pub path : Text
  pub query_params : Dict
  pub path_params : Dict
  pub content_type : List Text
  pub body : Option Text
  pub json : Json
  pub form : Dict

-- The dictionary of arguments, by its keys
pub record Args : Type 0 where
  pub query_params : Option Dict
  pub path_params : Option Dict
  pub body_data : Option Text
  pub json : Option Dict
  pub urlencoded : Option Dict
  pub form_data : Option Dict

-- What is recorded: the arguments, or their size and the beginning of their JSON
pub data Recorded : Type 0 where
  whole : Args → Recorded
  truncated : ℕ → Text → Recorded

-- OPERA_LOG_REDACT_KEYS
abbrev pub redact_keys : List Text
redact_keys =
    codes "password" ∷ codes "old_password" ∷ codes "new_password" ∷ codes "confirm_password" ∷ []

abbrev pub redacted : Value
redacted = text (codes "[REDACTED]")

unfoldable pub desensitization : Dict → Dict
desensitization [] = []
desensitization ((k, v) ∷ args) =
    (k, if mem k redact_keys then redacted else v) ∷ desensitization args

-- An empty dictionary is left out.
unfoldable pub kept : Dict → Option Dict
kept [] = none
kept (p ∷ args) = some (desensitization (p ∷ args))

abbrev pub is_json : List Text → Bool
is_json content_type = mem (codes "application/json") content_type

json_dict : Json → Option Dict
json_dict (object d) = some (desensitization d)
json_dict (other_json t) = none

json_text : Json → Option Text
json_text (object d) = none
json_text (other_json t) = some t

raw_body : List Text → Option Text → Json → Option Text
unfolding json_text
raw_body content_type none json = none
raw_body content_type (some b) json = if not (is_json content_type) then some b else json_text json

json_body : List Text → Option Text → Json → Option Dict
unfolding json_dict
json_body content_type none json = none
json_body content_type (some b) json = if not (is_json content_type) then none else json_dict json

abbrev pub is_multipart : List Text → Bool
is_multipart content_type = mem (codes "multipart/form-data") content_type

-- get_request_args before `truncate`
unfoldable pub collect : Request → Args
unfolding kept raw_body json_body
collect r = record {
  query_params = kept r.query_params;
  path_params = kept r.path_params;
  body_data = raw_body r.content_type r.body r.json;
  json = json_body r.content_type r.body r.json;
  urlencoded = if not (is_multipart r.content_type) then kept r.form else none;
  form_data = if not (is_multipart r.content_type) then none else kept r.form;
}

is_empty : {A : Type 0} → Option A → Bool
is_empty none = true
is_empty (some a) = false

nothing_given : Args → Bool
unfolding is_empty
nothing_given a =
    is_empty a.query_params
    && is_empty a.path_params
    && is_empty a.body_data
    && is_empty a.json
    && is_empty a.urlencoded
    && is_empty a.form_data

abbrev pub max_size : ℕ
max_size = 10240

module _ (dumps : Args → Text × ℕ) where
  unfoldable pub truncate : Args → Recorded
  truncate args =
      let (args_str, args_size) = dumps args in
      if ltb max_size args_size then truncated args_size (take max_size args_str) else whole args

  unfoldable pub get_request_args : Request → Option Recorded
  unfolding nothing_given
  get_request_args r =
      let args = collect r in if nothing_given args then none else some (truncate args)

-- What call_next leaves: a response, with the code and the message of an exception that a handler
-- has turned into it, if any; or an exception that it raises.
pub data Called : Type 0 where
  answered : Option (ℕ × Message) → Called
  raised : Error → Called

-- CreateOperaLogParam, as far as dispatch decides it
pub record OperaLog : Type 0 where
  pub args : Option Recorded
  pub status : Bool
  pub code : ℕ
  pub msg : Message

logged : Option Recorded → Called → OperaLog
logged args (answered none) = record {
  args = args;
  status = true;
  code = 200;
  msg = plain "Success";
}
logged args (answered (some (c, m))) = record { args = args; status = true; code = c; msg = m }
logged args (raised e) = record { args = args; status = false; code = code e; msg = message e }

-- dispatch: the entry that it queues; the path settings are arguments.
unfoldable pub dispatch :
    (dumps : Args → Text × ℕ) (path_exclude : List Text) (api_path : Text)
    → Request
    → Called
    → Option OperaLog
unfolding logged
dispatch dumps path_exclude api_path r called =
    if mem r.path path_exclude || not (starts_with api_path r.path)
    then none
    else some (logged (get_request_args dumps r) called)

-- batch_dequeue on a queue that holds the items, and no other until the timeout: what it returns, and
-- what is left.
unfoldable pub batch_dequeue : {A : Type 0} → ℕ → List A → List A × List A
batch_dequeue zero queue = ([], queue)
batch_dequeue (suc n) [] = ([], [])
batch_dequeue (suc n) (x ∷ queue) = let (items, rest) = batch_dequeue n queue in (x ∷ items, rest)
