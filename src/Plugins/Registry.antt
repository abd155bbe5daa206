-- ===== src/Plugins/Registry.antt =====
-- backend/plugin/core.py and the state of the plugins in app/admin/service/plugin_service.py: which
-- folders are plugins, their configurations in Redis, and the switch of each plugin. The routers and
-- the closing of the Redis client are not modelled, nor the values that `lru_cache` remembers.
pub mod Restart
pub mod Switch
use Prim.Native.String.{String}
use mc_bd.Prelude.{
  ℕ, ◌==◌, Bool, true, false, not, ◌&&◌, ◌||◌, Option, none, some, List, [], ◌∷◌, ◌++◌, map,
  if◌then◌else◌,
}
use mc_bd.Prelude.Text.{Text, codes, text_eq, starts_with, decimal}
use mc_bd.Errors.{Error, Result, ok, err, not_found, server, unexpected, plain, named}
use mc_bd.Redis
use mc_bd.Redis.{Redis, mem}
use mc_bd.Platform.{Platform}
use mc_bd.Plugins.Config.{
  PluginConfig, PluginInfo, PluginLevelType, app_level, extend_level, validate_plugin_config,
}
use mc_bd.Plugins.Host.{Host, Json, PluginWorld, config, items, object, text, scalar}

unfoldable pub plugin_prefix : Text
plugin_prefix = codes "mc:plugin"

-- f'{settings.PLUGIN_REDIS_PREFIX}:{plugin}'
unfoldable pub plugin_key : Text → Text
unfolding plugin_prefix
plugin_key plugin = plugin_prefix ++ b':' ∷ plugin

unfoldable pub changed_name : Text
changed_name = codes "changed"

unfoldable pub changed_key : Text
unfolding plugin_key changed_name
changed_key = plugin_key changed_name

-- `p in t` for texts
unfoldable pub contains : Text → Text → Bool
contains p [] = starts_with p []
contains p (c ∷ t) = starts_with p (c ∷ t) || contains p t

unfoldable pub backup_mark : Text
backup_mark = codes ".backup"

-- StatusType, as texts
abbrev pub enabled : Text
enabled = b'1' ∷ []

abbrev pub disabled : Text
disabled = b'0' ∷ []

abbrev pub inject_error : Error
inject_error = unexpected "PluginInjectError"

abbrev pub plugin_not_found : Error
plugin_not_found = not_found (plain "error.plugin_not_found")

abbrev pub plugin_disabled : Text → Error
plugin_disabled plugin = server (named "插件 " plugin " 未启用，请联系系统管理员")

unfoldable pub with_enable : Text → PluginConfig → PluginConfig
with_enable e c = record c { info = record c.info { enable = some e } }

-- What is put into `data['plugin']`
unfoldable pub completed : Text → Text → PluginConfig → PluginConfig
completed plugin e c = record c { info = record c.info { name = some plugin; enable = some e } }

-- `plugin_info['plugin']['enable']` of a parsed value
unfoldable pub enable_field : Option Text → Result Text
enable_field none = err (unexpected "KeyError")
enable_field (some e) = ok e

unfoldable pub enable_of : Option Json → Result Text
unfolding enable_field
enable_of none = err (unexpected "JSONDecodeError")
enable_of (some (config c)) = enable_field c.info.enable
enable_of (some (items l)) = err (unexpected "TypeError")
enable_of (some (object keys)) = err (unexpected "KeyError")
enable_of (some (text t)) = err (unexpected "TypeError")
enable_of (some scalar) = err (unexpected "TypeError")

unfoldable pub toggled : Text → Text
toggled e = if text_eq e disabled then enabled else disabled

-- A test on the number that `enable` stands for; none is ValueError.
unfoldable pub require_enabled : Text → Option ℕ → Result (Unit {0})
require_enabled plugin none = err (unexpected "ValueError")
require_enabled plugin (some n) = if n == 0 then err (plugin_disabled plugin) else ok tt

abbrev pub Collected : Type 0
Collected = List PluginConfig × List PluginConfig

abbrev pub Levelled : Type 0
Levelled = PluginLevelType × PluginConfig

-- The lists of extending and of application plugins, with one plugin more in front
unfoldable pub collect : PluginLevelType → PluginConfig → Result Collected → Result Collected
collect level c (err e) = err e
collect extend_level c (ok (extend, app)) = ok (c ∷ extend, app)
collect app_level c (ok (extend, app)) = ok (extend, c ∷ app)

abbrev pub then_ok : {A B : Type 0} → Result A → (A → Result B) → Result B
then_ok (ok a) f = f a
then_ok (err e) f = err e

module _ (H : Host) where
  open H use {Disk, cached_plugins, listdir, folder, read, load_toml, loads}

  -- The tests on one entry of the plugin folder, whose entries are given if it is a folder
  unfoldable pub is_plugin : Text → Option (List Text) → Bool
  unfolding mem contains backup_mark text_eq
  is_plugin name none = false
  is_plugin name (some files) =
      not (text_eq name (codes "__pycache__"))
      && not (contains backup_mark name)
      && mem (codes "__init__.py") files

  unfoldable pub plugins_among : Disk → List Text → List Text
  plugins_among d [] = []
  plugins_among d (name ∷ names) =
      let rest = plugins_among d names in
      if is_plugin name (folder d name) then name ∷ rest else rest

  -- The body of get_plugins, which the first call of a process runs
  unfoldable pub read_plugins : Disk → List Text
  unfolding plugins_among
  read_plugins d = plugins_among d (listdir d)

  abbrev pub cached_or : Option (List Text) → List Text → List Text
  cached_or none fresh = fresh
  cached_or (some l) fresh = l

  -- get_plugins under lru_cache
  unfoldable pub get_plugins : Disk → List Text
  unfolding read_plugins
  get_plugins d = cached_or cached_plugins (read_plugins d)

  loaded : Option Text → Result PluginConfig
  loaded none = err inject_error
  loaded (some t) = load_toml t

  unfoldable pub load_plugin_config : Disk → Text → Result PluginConfig
  unfolding loaded
  load_plugin_config d plugin = loaded (read d plugin (codes "plugin.toml"))

  -- The switch of a plugin: that of the value in Redis, or on
  unfoldable pub kept_enable : Option Text → Result Text
  unfolding enable_of
  kept_enable none = ok enabled
  kept_enable (some []) = ok enabled
  kept_enable (some (c ∷ t)) = enable_of (loads (c ∷ t))

module _ (R : Redis) (P : Platform) (H : Host) where
  open R use {Store, get, put, remove}
  open H use {Disk, loads, dumps, is_upper}

  -- The end of one round of the loop in parse_plugin_config
  unfoldable pub cache_plugin :
      Text → PluginConfig → Result Text → Store → Result PluginConfig × Store
  unfolding completed plugin_key
  cache_plugin plugin c (err e) s = (err e, s)
  cache_plugin plugin c (ok e) s =
      (ok (completed plugin e c), put s (plugin_key plugin) (dumps (completed plugin e c)))

  -- A round: the configuration is loaded, validated and cached.
  unfoldable pub checked :
      Text → PluginConfig → Store → Result PluginLevelType → Result Levelled × Store
  unfolding cache_plugin kept_enable
  checked plugin c s (err e) = (err e, s)
  checked plugin c s (ok level) =
      let (r, s') = cache_plugin plugin c (kept_enable H (get s (plugin_key plugin))) s in
      (then_ok r (λ c'. ok (level, c')), s')

  unfoldable pub parsed : Text → Store → Result PluginConfig → Result Levelled × Store
  unfolding checked validate_plugin_config
  parsed plugin s (err e) = (err e, s)
  parsed plugin s (ok c) = checked plugin c s (validate_plugin_config P is_upper c)

  unfoldable pub parse_one : Disk → Text → Store → Result Levelled × Store
  unfolding parsed load_plugin_config
  parse_one d plugin s = parsed plugin s (load_plugin_config H d plugin)

  -- What the rest of the loop gives, after a round that returned or raised
  abbrev pub go_on :
      Result Levelled × Store → (Store → Result Collected × Store) → Result Collected × Store
  go_on (err e, s) rest = (err e, s)
  go_on (ok (level, c), s) rest = let (r, s') = rest s in (collect level c r, s')

  unfoldable pub parse_all : Disk → List Text → Store → Result Collected × Store
  unfolding parse_one collect
  parse_all d [] s = (ok ([], []), s)
  parse_all d (plugin ∷ plugins) s = go_on (parse_one d plugin s) (parse_all d plugins)

  -- The flag is reset if the loop ends without an exception.
  unfoldable pub reset_changed : Result Collected × Store → Result Collected × Store
  unfolding changed_key
  reset_changed (err e, s) = (err e, s)
  reset_changed (ok r, s) = (ok r, remove s changed_key)

  -- parse_plugin_config for the plugins that get_plugins found
  unfoldable pub parse_plugin_config : Disk → List Text → Store → Result Collected × Store
  unfolding parse_all reset_changed plugin_key plugin_prefix
  parse_plugin_config d plugins s =
      reset_changed
        (parse_all d plugins (Redis.delete_prefix R plugin_prefix (map plugin_key plugins) 1000 s))

  -- _plugin_status_checker_impl
  unfoldable pub check_info : Text → Option Text → Result (Unit {0})
  unfolding enable_of require_enabled
  check_info plugin none = err inject_error
  check_info plugin (some []) = err inject_error
  check_info plugin (some (c ∷ t)) =
      then_ok (enable_of (loads (c ∷ t))) (λ e. require_enabled plugin (P.int_of e))

  unfoldable pub plugin_status_checker : Text → Store → Result (Unit {0})
  unfolding check_info plugin_key
  plugin_status_checker plugin s = check_info plugin (get s (plugin_key plugin))

  -- The parsed value with the other switch; only a configuration with a switch has one.
  unfoldable pub toggle : Option Json → Result PluginConfig
  unfolding enable_of with_enable toggled
  toggle (some (config c)) =
      then_ok (enable_of (some (config c))) (λ e. ok (with_enable (toggled e) c))
  toggle none = err (unexpected "JSONDecodeError")
  toggle (some (items l)) = err (unexpected "TypeError")
  toggle (some (object keys)) = err (unexpected "KeyError")
  toggle (some (text t)) = err (unexpected "TypeError")
  toggle (some scalar) = err (unexpected "TypeError")

  abbrev pub write_back : Text → Store → Result PluginConfig → Result (Unit {0}) × Store
  write_back plugin s (err e) = (err e, s)
  write_back plugin s (ok c) = (ok tt, put s (plugin_key plugin) (dumps c))

  unfoldable pub switch : Text → Store → Option Text → Result (Unit {0}) × Store
  unfolding toggle plugin_key
  switch plugin s none = (err plugin_not_found, s)
  switch plugin s (some []) = (err plugin_not_found, s)
  switch plugin s (some (c ∷ t)) = write_back plugin s (toggle (loads (c ∷ t)))

  -- PluginService.update_status
  unfoldable pub update_status : Text → Store → Result (Unit {0}) × Store
  unfolding switch plugin_key
  update_status plugin s = switch plugin s (get s (plugin_key plugin))

  -- PluginService.changed
  unfoldable pub changed : Store → Option Text
  unfolding changed_key
  changed s = get s changed_key

  abbrev pub parsed_into : List Json → Option Json → List Json
  parsed_into rest none = rest
  parsed_into rest (some j) = j ∷ rest

  unfoldable pub info_of : List Json → Option Text → List Json
  info_of rest none = rest
  info_of rest (some []) = rest
  info_of rest (some (c ∷ t)) = parsed_into rest (loads (c ∷ t))

  -- The values of the keys but the flag's: absent, empty or broken ones are passed over.
  unfoldable pub infos : Store → List Text → List Json
  unfolding changed_key info_of
  infos s [] = []
  infos s (k ∷ ks) =
      let rest = infos s ks in if text_eq k changed_key then rest else info_of rest (get s k)

  -- PluginService.get_all
  unfoldable pub get_all : Store → List Json
  unfolding infos plugin_prefix
  get_all s = infos s (R.scan s (plugin_prefix ++ b':' ∷ []))
