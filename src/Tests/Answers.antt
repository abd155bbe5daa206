-- ===== src/Tests/Answers.antt =====
-- Instances of the theorems on languages and on the answers to exceptions.
use mc_bd.Prelude.{ℕ, ◌==◌, ◌||◌, Bool, some, List, [], ◌∷◌}
use mc_bd.Prelude.Text.{Text, codes}
use mc_bd.I18n.{Locales, leaf, table, finish, field}
use mc_bd.Handlers.{Invalid, no_context, Raised, Response}
use mc_bd.Handlers.Hidden.{answer}

-- A file of American English, with one text
abbrev american : Locales
american = (codes "en-US", table (field (codes "hello") (leaf (codes "Hello")) finish)) ∷ []

-- Messages are their own translations, and nothing is put into them.
abbrev as_is : Text → List (Text × Text) → Text
as_is m l = m

abbrev codes_known : ℕ → Bool
codes_known c = (c == 400) || (c == 422) || (c == 500)

abbrev bad_field : Invalid
bad_field = record {
  type = codes "missing";
  loc = some (codes "name");
  msg = codes "required";
  input = [];
  ctx = no_context;
}

abbrev answered : Bool → Bool → Bool → Bool → Raised → Response
answered = answer codes_known (λ m. m) (λ m l. some m) as_is (λ l. []) (λ r. [])
