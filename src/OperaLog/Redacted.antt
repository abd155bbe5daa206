-- ===== src/OperaLog/Redacted.antt =====
-- What backend/middleware/opera_log_middleware.py hides of the passwords, and what it does not.
use mc_bd.Prelude.{
  ◌≡◌, refl, ap, ◌∙◌, Bool, true, false, not, Option, none, some, List, [], ◌∷◌, All, if◌then◌else◌,
}
use mc_bd.Prelude.Text.{Text}
use mc_bd.Redis.{mem}
use mc_bd.OperaLog.{
  Dict, Request, redact_keys, redacted, desensitization, kept, is_json, is_multipart, collect,
  json_body, json_dict, raw_body, json_text, object, other_json, Json,
}

-- No key of the settings is left with its value.
abbrev pub IsRedacted : Dict → Type 0
IsRedacted = All (λ p. mem p.0 redact_keys ≡ true → p.1 ≡ redacted)

abbrev pub IsRedactedIf : Option Dict → Type 0
IsRedactedIf none = Unit
IsRedactedIf (some d) = IsRedacted d

desensitization-IsRedacted : (d : Dict) → IsRedacted (desensitization d)
unfolding desensitization
desensitization-IsRedacted [] = tt
desensitization-IsRedacted ((k, v) ∷ d) = (λ h. rw h refl, desensitization-IsRedacted d)

kept-IsRedacted : (d : Dict) → IsRedactedIf (kept d)
unfolding kept
kept-IsRedacted [] = tt
kept-IsRedacted (p ∷ d) = desensitization-IsRedacted (p ∷ d)

unless-IsRedacted :
    (b : Bool) (o : Option Dict) → IsRedactedIf o → IsRedactedIf (if b then o else none)
unless-IsRedacted true o h = h
unless-IsRedacted false o h = tt

if-IsRedacted : (b : Bool) (o : Option Dict) → IsRedactedIf o → IsRedactedIf (if b then none else o)
if-IsRedacted true o h = tt
if-IsRedacted false o h = h

json_body-IsRedacted : (c : List Text) (b : Option Text) (j : Json) → IsRedactedIf (json_body c b j)
unfolding json_body json_dict
json_body-IsRedacted c none j = tt
json_body-IsRedacted c (some b) (object d) =
    if-IsRedacted (not (is_json c)) (some (desensitization d)) (desensitization-IsRedacted d)
json_body-IsRedacted c (some b) (other_json t) = if-IsRedacted (not (is_json c)) none tt

-- In every dictionary that is recorded the values of the secret keys at its top level are hidden: the
-- query, the path, the JSON object and the form.
pub collect-IsRedacted :
    (r : Request)
    → let a = collect r in
      IsRedactedIf a.query_params
      × IsRedactedIf a.path_params
      × IsRedactedIf a.json
      × IsRedactedIf a.urlencoded
      × IsRedactedIf a.form_data
unfolding collect
collect-IsRedacted r = (
  kept-IsRedacted r.query_params,
  kept-IsRedacted r.path_params,
  json_body-IsRedacted r.content_type r.body r.json,
  unless-IsRedacted (not (is_multipart r.content_type)) (kept r.form) (kept-IsRedacted r.form),
  if-IsRedacted (not (is_multipart r.content_type)) (kept r.form) (kept-IsRedacted r.form),
)

-- Of a request whose content type is neither JSON nor multipart the whole body is recorded as it came,
-- the secrets of a form included, beside the form that hides them.
pub body_recorded :
    (r : Request) (b : Text)
    → r.body ≡ some b
    → is_json r.content_type ≡ false
    → is_multipart r.content_type ≡ false
    → let a = collect r in (a.body_data ≡ some b) × (a.json ≡ none) × (a.urlencoded ≡ kept r.form)
unfolding collect raw_body json_body
body_recorded r b given plain_type single = (
  ap (λ (o : Option Text). raw_body r.content_type o r.json) given
      ∙ ap (λ (x : Bool). if not x then some b else json_text r.json) plain_type,
  ap (λ (o : Option Text). json_body r.content_type o r.json) given
      ∙ ap (λ (x : Bool). if not x then none else json_dict r.json) plain_type,
  ap (λ (x : Bool). if not x then kept r.form else none) single,
)
