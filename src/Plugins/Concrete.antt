-- ===== src/Plugins/Concrete.antt =====
-- A plugin folder in memory, and Python with uv, which show that the hypotheses on them can hold.
use mc_bd.Prelude.{
  ℕ, zero, suc, ◌≡◌, refl, ap, ◌==◌, leb, ◌&&◌, Bool, true, false, Option, none, some, List, [],
  ◌∷◌, map, if◌then◌else◌, Bool-cases, inl, inr,
}
use mc_bd.Prelude.Text.{Text, codes, text_eq, text_eq_refl}
use mc_bd.Errors.{Result, ok, err, unexpected}
use mc_bd.Redis.{is_some}
use mc_bd.Plugins.Config.{PluginInfo, AppConfig, ApiConfig, PluginConfig, skip}
use mc_bd.Plugins.Host.{Host, Json, config, items}
use mc_bd.Plugins.Codec.{Codec, text_codec, option_codec, list_codec, pair_codec, as_codec}
use mc_bd.Plugins.Requirements.{succeeded, Python}
use mc_bd.Plugins.Install.Again.{KeepsFolders}
use mc_bd.Plugins.Install.Removal.{LeavesPlace}

abbrev pub InfoParts : Type 0
InfoParts =
    Option Text
    × (Text × (Text × (Text × (Text × (List Text × (List Text × (Option Text × Option Text)))))))

abbrev pub info_parts : PluginInfo → InfoParts
info_parts i = (
  i.icon,
  (i.summary, (i.version, (i.description, (i.author, (i.tags, (i.database, (i.name, i.enable))))))),
)

abbrev pub parts_info : InfoParts → PluginInfo
parts_info p = record {
  icon = p.0;
  summary = p.1.0;
  version = p.1.1.0;
  description = p.1.1.1.0;
  author = p.1.1.1.1.0;
  tags = p.1.1.1.1.1.0;
  database = p.1.1.1.1.1.1.0;
  name = p.1.1.1.1.1.1.1.0;
  enable = p.1.1.1.1.1.1.1.1;
}

abbrev pub optional : Codec (Option Text)
optional = option_codec text_codec

abbrev pub texts : Codec (List Text)
texts = list_codec text_codec

abbrev pub info_codec : Codec PluginInfo
info_codec =
    as_codec
      (pair_codec optional (
        pair_codec text_codec (
          pair_codec text_codec (
            pair_codec text_codec (
              pair_codec text_codec
                (pair_codec texts (pair_codec texts (pair_codec optional optional))))))))
      info_parts parts_info (λ i. refl)

abbrev pub api_codec : Codec ApiConfig
api_codec =
    as_codec (pair_codec text_codec text_codec) (λ (a : ApiConfig). (a.prefix, a.tags))
      (λ p. record { prefix = p.0; tags = p.1 }) (λ a. refl)

abbrev pub app_codec : Codec AppConfig
app_codec =
    as_codec (pair_codec (option_codec texts) optional) (λ (a : AppConfig). (a.router, a.extend))
      (λ p. record { router = p.0; extend = p.1 }) (λ a. refl)

abbrev pub config_codec : Codec PluginConfig
config_codec =
    as_codec
      (pair_codec info_codec (
        pair_codec app_codec (
          pair_codec (option_codec (list_codec (pair_codec text_codec api_codec)))
            (list_codec (pair_codec text_codec text_codec)))))
      (λ (c : PluginConfig). (c.info, (c.app, (c.api, c.settings))))
      (λ p. record { info = p.0; app = p.1.0; api = p.1.1.0; settings = p.1.1.1 }) (λ c. refl)

abbrev pub dump_config : PluginConfig → Text
dump_config c = 0 ∷ config_codec.write c []

abbrev pub dump_list : List Text → Text
dump_list l = 1 ∷ texts.write l []

abbrev pub as_config : Option (PluginConfig × Text) → Option Json
as_config none = none
as_config (some (c, r)) = some (config c)

abbrev pub as_items : Option (List Text × Text) → Option Json
as_items none = none
as_items (some (l, r)) = some (items (map some l))

unfoldable pub load_json : Text → Option Json
load_json [] = none
load_json (zero ∷ s) = as_config (config_codec.read s)
load_json (suc n ∷ s) = as_items (texts.read s)

pub load-dump : (c : PluginConfig) → load_json (dump_config c) ≡ some (config c)
unfolding load_json
load-dump c = ap as_config (config_codec.read-write c [])

pub load-dump_list : (l : List Text) → load_json (dump_list l) ≡ some (items (map some l))
unfolding load_json
load-dump_list l = ap as_items (texts.read-write l [])

abbrev pub toml_result : Option (PluginConfig × Text) → Result PluginConfig
toml_result none = err (unexpected "TomlParsingError")
toml_result (some (c, r)) = ok c

-- plugin.toml is written like the JSON of a configuration.
unfoldable pub read_toml : Text → Result PluginConfig
read_toml [] = err (unexpected "TomlParsingError")
read_toml (n ∷ s) = toml_result (config_codec.read s)

-- The first entry of a name counts; none is a folder that is gone.
abbrev pub Folders : Type 0
Folders = List (Text × Option (List (Text × Text)))

unfoldable pub open_folder : Folders → Text → Option (List (Text × Text))
open_folder [] p = none
open_folder ((q, o) ∷ d) p = if text_eq q p then o else open_folder d p

unfoldable pub file_text : List (Text × Text) → Text → Option Text
file_text [] f = none
file_text ((g, t) ∷ fs) f = if text_eq g f then some t else file_text fs f

abbrev pub file_names : Option (List (Text × Text)) → Option (List Text)
file_names none = none
file_names (some fs) = some (map (λ x. x.0) fs)

abbrev pub read_file : Option (List (Text × Text)) → Text → Option Text
read_file none f = none
read_file (some fs) f = file_text fs f

abbrev pub spaces : ℕ → Bool
spaces c = c == b' '

pub skip-skip : (t : Text) → skip spaces (skip spaces t) ≡ skip spaces t
unfolding skip
skip-skip [] = refl
skip-skip (c ∷ t) = elim (Bool-cases (spaces c)) [
  | inl blank ↦ rw blank (skip-skip t)
  | inr ink ↦ rw ink (rw ink)
]

unfoldable pub all_upper : Text → Bool
all_upper [] = true
all_upper (c ∷ t) = (leb b'A' c && leb c b'Z') && all_upper t

abbrev pub env_name : Text
env_name = 0 ∷ []

abbrev pub memory_host : Host
memory_host = record {
  Disk = Folders;
  cached_plugins = some (codes "dict" ∷ []);
  listdir = λ d. map (λ x. x.0) d;
  folder = λ d p. file_names (open_folder d p);
  exists = λ d p. is_some (open_folder d p);
  read = λ d p f. read_file (open_folder d p) f;
  read_env = λ d. read_file (open_folder d env_name) env_name;
  write_env = λ d t. (env_name, some ((env_name, t) ∷ [])) ∷ d;
  mkdir = λ d p. (p, some []) ∷ d;
  move = λ d a b. (a, none) ∷ (b, open_folder d a) ∷ d;
  extract = λ d p l. (p, some (map (λ x. (x.0, [])) l)) ∷ d;
  clone = λ d url p. (true, (p, some []) ∷ d);
  load_toml = read_toml;
  dumps = dump_config;
  dumps_list = dump_list;
  loads = load_json;
  keys = λ c. [];
  strip = skip spaces;
  is_upper = all_upper;
  loads-dumps = load-dump;
  loads-dumps_list = load-dump_list;
  dumps-present = λ c. (0, config_codec.write c [], refl);
  dumps_list-present = λ l. (1, texts.write l [], refl);
  strip-strip = skip-skip;
}

-- Every package is missing, and every installation succeeds.
abbrev pub uv : Python memory_host
uv = record {
  Requirement = Text;
  requirement = some;
  name = λ q. q;
  has_specifier = λ q. false;
  accepts = λ q v. true;
  distribution = λ d q. none;
  find_spec = λ d q. false;
  which_uv = some (codes "uv");
  local_uv = none;
  cargo_uv = none;
  in_virtualenv = true;
  executable = codes "python";
  pip_china = true;
  pip_index_url = codes "url";
  lines = λ t. t ∷ [];
  requirements_path = λ p. p;
  check_call = λ d cmd. (succeeded, d);
}

-- Another entry with a folder takes no folder away.
pub entry_there :
    (d : Folders) (p q : Text) (fs : List (Text × Text))
    → is_some (open_folder d p) ≡ true
    → is_some (open_folder ((q, some fs) ∷ d) p) ≡ true
unfolding open_folder
entry_there d p q fs h = elim (Bool-cases (text_eq q p)) [
  | inl same ↦ rw same
  | inr other ↦ rw other h
]

pub new_entry :
    (d : Folders) (p : Text) (o : Option (List (Text × Text))) → open_folder ((p, o) ∷ d) p ≡ o
unfolding open_folder
new_entry d p o = rw (text_eq_refl p)

abbrev pub memory_keeps : KeepsFolders memory_host uv
memory_keeps = record {
  made = λ d p. ap is_some (new_entry d p (some []));
  extracted = λ d p q l h. entry_there d p q (map (λ x. (x.0, [])) l) h;
  env_written = λ d p t h. entry_there d p env_name ((env_name, t) ∷ []) h;
  called = λ d p cmd h. h;
}

abbrev pub memory_leaves : LeavesPlace memory_host
memory_leaves = record {
  left = λ d a b e. ap file_names (new_entry ((b, open_folder d a) ∷ d) a none);
}
