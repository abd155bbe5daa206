-- ===== src/Tests/Logs.antt =====
-- Instances of the theorems on the operation log.
use mc_bd.Prelude.{◌≡◌, refl, some, [], ◌∷◌, false}
use mc_bd.Prelude.Text.{codes, text_eq}
use mc_bd.Redis.{mem}
use mc_bd.OperaLog.{Request, text, other_json, collect, is_json, is_multipart}
use mc_bd.OperaLog.Redacted.{IsRedactedIf, collect-IsRedacted}

-- A form with a password
abbrev form_post : Request
form_post = record {
  path = codes "/api/v1/x";
  query_params = [];
  path_params = [];
  content_type = codes "application/x-www-form-urlencoded" ∷ [];
  body = some (codes "password=abc");
  json = other_json [];
  form = (codes "password", text (codes "abc")) ∷ [];
}

collect-IsRedacted_example :
    let a = collect form_post in
    IsRedactedIf a.query_params
    × IsRedactedIf a.path_params
    × IsRedactedIf a.json
    × IsRedactedIf a.urlencoded
    × IsRedactedIf a.form_data
collect-IsRedacted_example = collect-IsRedacted form_post

no_json : is_json form_post.content_type ≡ false
unfolding mem text_eq
no_json = refl

no_parts : is_multipart form_post.content_type ≡ false
unfolding mem text_eq
no_parts = refl
