-- ===== src/Handlers/Hidden.antt =====
-- What the answers to exceptions show.
use mc_bd.Prelude.{ℕ, ◌≡◌, Bool, true, false, Option, List}
use mc_bd.Prelude.Text.{Text}
use mc_bd.Handlers.{
  Invalid, Raised, Response, http, validation, assertion, custom, other, handle_unknown, handle,
  http_422, http_500,
}
use mc_bd.Errors.{http_400}

-- A fault of the program: an exception of no class that the handlers know, or a failed assertion
abbrev pub IsFault : Raised → Type 0
IsFault (http status detail) = ⊥
IsFault (validation errors) = ⊥
IsFault (assertion text) = Unit
IsFault (custom code msg extra) = ⊥
IsFault (other text) = Unit

module _ (known : ℕ → Bool) (t : Text → Text) (format : Text → List (Text × Text) → Option Text)
    (t_with : Text → List (Text × Text) → Text) (show_errors : List Invalid → Text)
    (text_of : Raised → Text) where
  -- The answer to an exception of an endpoint, or of a middleware around the handlers
  abbrev pub answer : Bool → Bool → Bool → Bool → Raised → Response
  answer true cors english is_dev r =
      handle known t format t_with show_errors text_of cors english is_dev r
  answer false cors english is_dev r =
      handle_unknown known t format t_with show_errors text_of cors is_dev r

  -- uvicorn knows the three codes that the handlers write themselves.
  pub record KnowsOwn : Type 0 where
    pub request_ : known http_400 ≡ true
    pub content_ : known http_422 ≡ true
    pub server_ : known http_500 ≡ true
