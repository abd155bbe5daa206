-- ===== src/Plugins/Host.antt =====
-- What the plugin code uses of the file system, of the JSON and TOML libraries and of Python's texts.
-- The plugin folder is a state; paths below it are the name of an entry and the name of a file.
use mc_bd.Prelude.{ℕ, ◌≡◌, Bool, Option, some, List, ◌∷◌, map}
use mc_bd.Prelude.Text.{Text}
use mc_bd.Errors.{Result}
use mc_bd.Redis.{Redis}
use mc_bd.Plugins.Config.{PluginConfig}

-- A value that `json.loads` returns, as far as the code tells values apart. The items of a list are
-- texts or something else; an object without the section `plugin` is known by its keys.
pub data Json : Type 0 where
  config : PluginConfig → Json
  items : List (Option Text) → Json
  object : List Text → Json
  text : Text → Json
  scalar : Json

pub record Host : Type 1 where
  -- the plugin folder with the environment of Python, and the main .env file
  pub Disk : Type 0
  -- what lru_cache keeps of get_plugins: the list of its first call in this process, if there was one
  pub cached_plugins : Option (List Text)
  -- os.listdir(PLUGIN_DIR), and of an entry of it that is a folder
  pub listdir : Disk → List Text
  pub folder : Disk → Text → Option (List Text)
  -- whether a path exists, and the text of a file
  pub exists : Disk → Text → Bool
  pub read : Disk → Text → Text → Option Text
  pub read_env : Disk → Option Text
  pub write_env : Disk → Text → Disk
  pub mkdir : Disk → Text → Disk
  pub move : Disk → Text → Text → Disk
  -- ZipFile.extractall of members under their new names, and dulwich's clone
  pub extract : Disk → Text → List (Text × Text) → Disk
  pub clone : Disk → Text → Text → Bool × Disk
  -- rtoml.load, which raises what it raises
  pub load_toml : Text → Result PluginConfig
  -- json.dumps of a configuration and of a list of texts, and json.loads
  pub dumps : PluginConfig → Text
  pub dumps_list : List Text → Text
  pub loads : Text → Option Json
  -- the keys of a configuration
  pub keys : PluginConfig → List Text
  -- str.strip and str.isupper
  pub strip : Text → Text
  pub is_upper : Text → Bool
  pub loads-dumps : (c : PluginConfig) → loads (dumps c) ≡ some (config c)
  pub loads-dumps_list : (l : List Text) → loads (dumps_list l) ≡ some (items (map some l))
  pub dumps-present : (c : PluginConfig) → (e : ℕ) × (t : Text) × (dumps c ≡ e ∷ t)
  pub dumps_list-present : (l : List Text) → (e : ℕ) × (t : Text) × (dumps_list l ≡ e ∷ t)
  pub strip-strip : (t : Text) → strip (strip t) ≡ strip t

pub record PluginWorld (R : Redis) (H : Host) : Type 0 where
  pub store : R.Store
  pub disk : H.Disk
