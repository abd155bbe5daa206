-- ===== src/Plugins/Remote.antt =====
-- backend/app/admin/service/plugin_service.py: the addresses of plugin lists elsewhere, and the
-- merged list of what they answer. An item of a list is known by the two names that the code reads,
-- with the text that stands for it; an answer under `plugins` is taken to be a list.
pub mod Merged
pub mod Urls
use mc_bd.Prelude.{
  Bool, true, false, not, ◌&&◌, Option, none, some, List, [], ◌∷◌, ◌++◌, ◌⊎◌, inl, inr,
  if◌then◌else◌,
}
use mc_bd.Prelude.Text.{Text, codes}
use mc_bd.Errors.{Result, ok, err, unexpected}
use mc_bd.Redis.{Redis, mem}
use mc_bd.Plugins.Host.{Host, Json, config, items, object, text, scalar}
use mc_bd.Plugins.Registry.{plugin_key, then_ok}

unfoldable pub url_name : Text
url_name = codes "remote_list_url"

unfoldable pub urls_name : Text
urls_name = codes "remote_list_urls"

unfoldable pub remote_list_url_key : Text
unfolding plugin_key url_name
remote_list_url_key = plugin_key url_name

unfoldable pub remote_list_urls_key : Text
unfolding plugin_key urls_name
remote_list_urls_key = plugin_key urls_name

-- A text that is not empty
abbrev pub filled : Text → Bool
filled [] = false
filled (c ∷ t) = true

-- The value of `name`: absent, a text, or something else that is true in Python
pub data Name : Type 0 where
  absent : Name
  called : Text → Name
  other : Name

-- `entry` is a dictionary with the name in its `plugin` and its own name; any other item raises.
pub data Item : Type 0 where
  entry : Name → Name → Text → Item
  malformed : Item

pub data Response : Type 0 where
  list_of plugins_of data_of : List Item → Response
  unknown : Response

-- _parse_remote_response
unfoldable pub parse_remote_response : Response → List Item
parse_remote_response (list_of l) = l
parse_remote_response (plugins_of l) = l
parse_remote_response (data_of l) = l
parse_remote_response unknown = []

-- `a or b or ''` as a name that counts: a text that is not empty
unfoldable pub own_name : Name → Option Text
own_name absent = none
own_name (called []) = none
own_name (called (c ∷ t)) = some (c ∷ t)
own_name other = none

unfoldable pub counted_name : Name → Name → Option Text
unfolding own_name
counted_name absent n = own_name n
counted_name (called []) n = own_name n
counted_name (called (c ∷ t)) n = some (c ∷ t)
counted_name other n = none

-- `seen` and `result`, the newest first and last
pub record Merge : Type 0 where
  pub seen : List Text
  pub result : List Item

unfoldable pub add_named : Item → Option Text → Merge → Merge
unfolding mem
add_named i none m = m
add_named i (some n) m =
    if mem n m.seen then m else record { seen = n ∷ m.seen; result = m.result ++ i ∷ [] }

unfoldable pub add_items : List Item → Merge → Result Merge
unfolding add_named counted_name
add_items [] m = ok m
add_items (malformed ∷ l) m = err (unexpected "AttributeError")
add_items (entry p n t ∷ l) m = add_items l (add_named (entry p n t) (counted_name p n) m)

-- One address: none is a request that failed.
unfoldable pub add_response : Option Response → Merge → Result Merge
unfolding add_items parse_remote_response
add_response none m = ok m
add_response (some r) m = add_items (parse_remote_response r) m

unfoldable pub add_all : (Text → Option Response) → List Text → Merge → Result Merge
unfolding add_response
add_all client [] m = ok m
add_all client (u ∷ us) m = then_ok (add_response (client u) m) (add_all client us)

module _ (H : Host) where
  open H use {loads, dumps_list, keys, strip}

  unfoldable pub nonblank : List Text → List Text
  nonblank [] = []
  nonblank (u ∷ us) = let rest = nonblank us in if filled (strip u) then u ∷ rest else rest

  -- The items that are texts
  unfoldable pub texts : List (Option Text) → List Text
  texts [] = []
  texts (none ∷ l) = texts l
  texts (some t ∷ l) = t ∷ texts l

  abbrev pub letters : Text → List Text
  letters [] = []
  letters (c ∷ t) = (c ∷ []) ∷ letters t

  -- What iterating over a parsed value gives
  unfoldable pub urls_of : Option Json → List Text
  unfolding nonblank texts
  urls_of none = []
  urls_of (some (config c)) = nonblank (keys c)
  urls_of (some (items l)) = nonblank (texts l)
  urls_of (some (object ks)) = nonblank ks
  urls_of (some (text t)) = nonblank (letters t)
  urls_of (some scalar) = []

  unfoldable pub single_url : Option Text → List Text
  single_url none = []
  single_url (some t) = if filled t && filled (strip t) then strip t ∷ [] else []

  unfoldable pub urls_or : Option Text → Option Text → List Text
  unfolding single_url urls_of
  urls_or none single = single_url single
  urls_or (some []) single = single_url single
  urls_or (some (c ∷ t)) single = urls_of (loads (c ∷ t))

  -- The list that set_remote_list_urls stores
  unfoldable pub cleaned : List Text → List Text
  cleaned [] = []
  cleaned (u ∷ us) =
      let rest = cleaned us in if filled u && filled (strip u) then strip u ∷ rest else rest

  -- fetch_remote_list from its addresses on
  unfoldable pub fetch_remote_list : (Text → Option Response) → List Text → Result (List Item)
  unfolding add_all
  fetch_remote_list client urls =
      then_ok (add_all (λ u. client (strip u)) urls (record { seen = []; result = [] }))
        (λ m. ok m.result)

  module _ (R : Redis) where
    open R use {Store, get, put}

    unfoldable pub get_remote_list_url : Store → Option Text
    unfolding remote_list_url_key
    get_remote_list_url s = get s remote_list_url_key

    unfoldable pub get_remote_list_urls : Store → List Text
    unfolding urls_or remote_list_url_key remote_list_urls_key
    get_remote_list_urls s = urls_or (get s remote_list_urls_key) (get s remote_list_url_key)

    unfoldable pub set_remote_list_url : Text → Store → Store
    unfolding remote_list_url_key remote_list_urls_key
    set_remote_list_url url s =
        put (put s remote_list_url_key (strip url)) remote_list_urls_key
          (dumps_list (strip url ∷ []))

    unfoldable pub put_first : List Text → Store → Store
    unfolding remote_list_url_key
    put_first [] s = s
    put_first (u ∷ us) s = put s remote_list_url_key u

    unfoldable pub set_remote_list_urls : List Text → Store → Store
    unfolding cleaned put_first remote_list_urls_key
    set_remote_list_urls urls s =
        put_first (cleaned urls) (put s remote_list_urls_key (dumps_list (cleaned urls)))
