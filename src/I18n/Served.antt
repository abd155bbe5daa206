-- ===== src/I18n/Served.antt =====
-- Which files of languages backend/common/i18n.py needs to answer in every language.
use mc_bd.Prelude.{Bool, false, ◌||◌, Option, [], ◌∷◌}
use mc_bd.Prelude.Text.{Text, codes, text_eq, starts_with}
use mc_bd.Errors.{Result, ok, err}
use mc_bd.I18n.{Entry, Locales}

-- A file of English is there, or one of a variant of it.
unfoldable pub has_english : Locales → Bool
has_english [] = false
has_english ((k, e) ∷ ls) =
    (text_eq k (codes "en") || starts_with (codes "en-") k) || has_english ls

-- The result is a text, a dictionary or nothing, and no exception.
abbrev pub Returns : Result (Option Entry) → Type 0
Returns (ok o) = Unit
Returns (err e) = ⊥
