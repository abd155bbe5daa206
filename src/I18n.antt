-- ===== src/I18n.antt =====
-- backend/common/i18n.py and backend/middleware/i18n_middleware.py: the language of a request and the
-- texts in it. The files of the languages are arguments, parsed; str.strip and str.lower are functions.
pub mod Served
use mc_bd.Prelude.{
  ℕ, ◌==◌, Bool, true, false, not, ◌&&◌, ◌||◌, Option, none, some, List, [], ◌∷◌, ◌++◌,
  if◌then◌else◌,
}
use mc_bd.Prelude.Text.{Text, codes, text_eq, starts_with}
use mc_bd.Errors.{Result, ok, err, unexpected}
use mc_bd.Plugins.Install.{before_first}

-- What a file of a language holds: a text, or a dictionary
mutual
  pub data Entry : Type 0 where
    leaf : Text → Entry
    table : Entries → Entry

  pub data Entries : Type 0 where
    finish : Entries
    field : Text → Entry → Entries → Entries

abbrev pub Locales : Type 0
Locales = List (Text × Entry)

unfoldable pub i18n_default_language : Text
i18n_default_language = codes "en"

unfoldable pub field_of : Text → Entries → Option Entry
field_of k finish = none
field_of k (field j e rest) = if text_eq j k then some e else field_of k rest

unfoldable pub locale_of : Text → Locales → Option Entry
locale_of l [] = none
locale_of l ((k, e) ∷ ls) = if text_eq k l then some e else locale_of l ls

-- `text.split(sep)`
unfoldable pub split_at : ℕ → Text → List Text
split_at sep [] = [] ∷ []
split_at sep (c ∷ t) = split_step sep c (split_at sep t)
  where
    split_step : ℕ → ℕ → List Text → List Text
    split_step sep c [] = []
    split_step sep c (p ∷ ps) = if c == sep then [] ∷ p ∷ ps else (c ∷ p) ∷ ps

abbrev pub then_entry : Option Entry → (Entry → Option Entry) → Option Entry
then_entry none f = none
then_entry (some e) f = f e

-- The loop over the keys
unfoldable pub walk : List Text → Entry → Option Entry
unfolding field_of
walk [] e = some e
walk (k ∷ ks) (leaf t) = none
walk (k ∷ ks) (table es) = then_entry (field_of k es) (walk ks)

-- What stands for a key that is not found: nothing for a key of pydantic, and the key itself else
unfoldable pub missing : Text → List Text → Option Entry
unfolding text_eq
missing key [] = some (leaf key)
missing key (k ∷ ks) = if text_eq k (codes "pydantic") then none else some (leaf key)

abbrev pub or_missing : Text → List Text → Option Entry → Option Entry
or_missing key keys none = missing key keys
or_missing key keys (some e) = some e

-- The formatted text, or what str.format raises, and `or default`
unfoldable pub nonempty : Option Entry → Result Text → Result (Option Entry)
nonempty default (err e) = err e
nonempty default (ok []) = ok default
nonempty default (ok (d ∷ s)) = ok (some (leaf (d ∷ s)))

-- `translation.format(**kwargs)` if there are arguments, then `translation or default`; a dictionary
-- has no such method.
unfoldable pub filled :
    Option (Text → Result Text) → Option Entry → Option Entry → Result (Option Entry)
unfolding nonempty
filled fill default none = ok default
filled fill default (some (leaf [])) = ok default
filled none default (some (leaf (c ∷ t))) = ok (some (leaf (c ∷ t)))
filled (some f) default (some (leaf (c ∷ t))) = nonempty default (f (c ∷ t))
filled fill default (some (table finish)) = ok default
filled none default (some (table (field k e es))) = ok (some (table (field k e es)))
filled (some f) default (some (table (field k e es))) = err (unexpected "AttributeError")

abbrev pub not_found_keys : List Text
not_found_keys = codes "error" ∷ codes "language_not_found" ∷ []

unfoldable pub shown :
    Text → Option (Text → Result Text) → Option Entry → List Text → Entry → Result (Option Entry)
unfolding filled missing walk
shown key fill default keys e = filled fill default (or_missing key keys (walk keys e))

unfoldable pub or_default_locale :
    Locales
    → Text
    → Option (Text → Result Text)
    → Option Entry
    → Option Entry
    → Result (Option Entry)
unfolding shown split_at locale_of i18n_default_language
or_default_locale ls key fill default (some e) = shown key fill default (split_at b'.' key) e
or_default_locale ls key fill default none = in_default (locale_of i18n_default_language ls)
  where
    in_default : Option Entry → Result (Option Entry)
    in_default none = err (unexpected "KeyError")
    in_default (some e) = shown key fill default not_found_keys e

-- I18n.t in a language
unfoldable pub t :
    Locales → Text → Text → Option (Text → Result Text) → Option Entry → Result (Option Entry)
unfolding or_default_locale locale_of
t ls language key fill default = or_default_locale ls key fill default (locale_of language ls)

-- The end of load_locales: the first language that begins with the default one and a dash stands in
-- for it.
unfoldable pub first_variant : Locales → Option Entry
unfolding i18n_default_language starts_with
first_variant [] = none
first_variant ((k, e) ∷ ls) =
    if starts_with (i18n_default_language ++ b'-' ∷ []) k then some e else first_variant ls

abbrev pub with_default : Locales → Option Entry → Option Entry → Locales
with_default ls (some e) variant = ls
with_default ls none none = ls
with_default ls none (some e) = ls ++ (i18n_default_language, e) ∷ []

unfoldable pub with_fallback : Locales → Locales
unfolding locale_of first_variant i18n_default_language
with_fallback ls = with_default ls (locale_of i18n_default_language ls) (first_variant ls)

unfoldable pub lang_mapping : Text → Text
unfolding text_eq
lang_mapping l =
    if text_eq l (codes "zh") || text_eq l (codes "zh-cn") || text_eq l (codes "zh-hans")
    then codes "zh-CN"
    else if text_eq l (codes "en") || text_eq l (codes "en-us")
    then codes "en-US"
    else l

module _ (strip lower : Text → Text) where
  -- get_current_language of the header
  unfoldable pub get_current_language : Text → Text
  unfolding lang_mapping before_first i18n_default_language
  get_current_language [] = i18n_default_language
  get_current_language (c ∷ h) =
      lang_mapping (strip (lower (before_first b';' (before_first b',' (c ∷ h)))))

  abbrev pub set_language : Text → Text
  set_language [] = i18n_default_language
  set_language (c ∷ l) = c ∷ l

  -- The language in which I18nMiddleware.dispatch calls the rest: an empty one is not set, and a
  -- request without a language has the default one.
  unfoldable pub language_of_request : Text → Text
  unfolding get_current_language i18n_default_language
  language_of_request header = set_language (get_current_language header)
