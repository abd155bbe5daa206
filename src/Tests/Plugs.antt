-- ===== src/Tests/Plugs.antt =====
-- Instances of the theorems on the plugins.
use mc_bd.Prelude.{
  ℕ, ◌≡◌, ◌↔◌, ◌<◌, refl, Option, none, some, List, [], ◌∷◌, inl, true, false, arith, if◌then◌else◌,
}
use mc_bd.Prelude.Text.{Text, codes, text_eq, starts_with}
use mc_bd.Errors.{ok, err, bad_request}
use mc_bd.Redis.{mem, delete_prefix, sweep, delete}
use mc_bd.Redis.Memory.{memory, Entries, find, matching}
use mc_bd.Platform.Concrete.{concrete}
use mc_bd.Plugins.Config.{
  all_in, match_api_name, match_prefix, run_to_end, valid_databases, valid_tags, validate_apis,
  validate_app, validate_extend, validate_info, validate_level, validate_plugin_config,
  validate_router, validate_settings, PluginInfo, PluginConfig, match_version, run, skip, one,
  at_end,
}
use mc_bd.Plugins.Config.Version.{IsVersion, match_version-IsVersion}
use mc_bd.Plugins.Codec.{
  read_as, read_pair, read_option, write_pair, write_option, read_text, read_list, write_items,
  read_items, split,
}
use mc_bd.Plugins.Host.{PluginWorld}
use mc_bd.Plugins.Registry.{
  plugin_key, plugin_prefix, changed_name, changed_key, enabled, disabled, plugin_disabled,
  completed, cache_plugin, checked, collect, enable_field, enable_of, kept_enable,
  load_plugin_config, parse_all, parse_one, parsed, reset_changed, switch, toggle, toggled,
  with_enable, Collected, plugin_status_checker, update_status, parse_plugin_config,
}
use mc_bd.Plugins.Registry.Restart.{Distinct}
use mc_bd.Plugins.Registry.Switch.{HasSwitch, update_status-checker}
use mc_bd.Plugins.Remote.{
  Item, entry, called, absent, Response, list_of, get_remote_list_urls, set_remote_list_urls,
  cleaned, fetch_remote_list, add_all, add_response, add_items, add_named, counted_name, own_name,
  parse_remote_response, url_name, urls_name,
}
use mc_bd.Plugins.Remote.Urls.{get-set_remote_list_urls, restart_forgets_urls}
use mc_bd.Plugins.Remote.Merged.{names, all_answered, fetch_remote_list-names}
use mc_bd.Plugins.Requirements.{uninstall_requirements, attempts}
use mc_bd.Plugins.Requirements.Retries.{SucceedsAt, attempts_iff}
use mc_bd.Plugins.Install.{
  ZipFile, upload, zip, install, install_type, install_members, install_zip_plugin,
  installed_already, uninstall, plugin_name_of, file_stem, before_first, word_start,
}
use mc_bd.Plugins.Install.Repeat.{install_refused}
use mc_bd.Plugins.Install.Again.{IsAcceptable, install_again}
use mc_bd.Plugins.Install.Removal.{Removed, uninstall-Removed}
use mc_bd.Plugins.Concrete.{
  memory_host, uv, memory_keeps, memory_leaves, Folders, dump_config, open_folder, file_text,
  load_json, read_toml,
}

abbrev dict_info : PluginInfo
dict_info = record {
  icon = none;
  summary = codes "dict";
  version = codes "0.0.1";
  description = codes "dictionaries";
  author = codes "team";
  tags = codes "other" ∷ [];
  database = [];
  name = none;
  enable = none;
}

abbrev dict_config : PluginConfig
dict_config = record {
  info = dict_info;
  app = record { router = some (codes "v1" ∷ []); extend = none };
  api = none;
  settings = [];
}

abbrev dict : Text
dict = codes "dict"

-- The plugin in Redis, switched on
abbrev cached : PluginConfig
cached = record dict_config { info = record dict_info { name = some dict; enable = some enabled } }

abbrev registry : Entries
registry = (plugin_key dict, some (dump_config cached)) ∷ []

abbrev folders : Folders
folders =
    (dict, some ((codes "__init__.py", []) ∷ (codes "plugin.toml", dump_config dict_config) ∷ []))
    ∷ []

dict_on : HasSwitch memory concrete memory_host registry dict enabled
unfolding find text_eq plugin_key plugin_prefix
dict_on = record { info = cached; stored = refl; switch_is = refl }

abbrev loaded : Collected
loaded = (
  [],
  record dict_config { info = record dict_info { name = some dict; enable = some disabled } } ∷ [],
)

dict_loads :
    (parse_plugin_config memory concrete memory_host folders
      (dict ∷ [])
      (update_status memory concrete memory_host dict registry).1).0
    ≡ ok loaded
unfolding parse_plugin_config open_folder text_eq file_text read_toml read_as read_pair read_option
    write_pair write_option read_text read_list write_items mem find delete_prefix sweep read_items
    split all_in at_end match_api_name match_prefix match_version one run run_to_end skip
    valid_databases valid_tags validate_apis validate_app validate_extend validate_info
    validate_level validate_plugin_config validate_router validate_settings cache_plugin changed_key
    changed_name checked collect completed enable_field enable_of kept_enable load_plugin_config
    parse_all parse_one parsed plugin_key plugin_prefix reset_changed delete matching starts_with
    update_status switch toggle toggled load_json with_enable
dict_loads = refl

dict_different : Distinct (dict ∷ [])
unfolding mem
dict_different = (refl, tt)

dict_among : mem dict (dict ∷ []) ≡ true
unfolding mem text_eq
dict_among = refl

dict_no_flag : text_eq changed_name dict ≡ false
unfolding text_eq changed_name
dict_no_flag = refl

abbrev switched : Entries
switched = (update_status memory concrete memory_host dict registry).1

update_status-checker_example :
    ((update_status memory concrete memory_host dict registry).0 ≡ ok tt)
    × (plugin_status_checker memory concrete memory_host dict switched
        ≡ (if text_eq enabled disabled then ok tt else err (plugin_disabled dict)))
    × (plugin_status_checker memory concrete memory_host dict
          (parse_plugin_config memory concrete memory_host folders (dict ∷ []) switched).1
        ≡ (if text_eq enabled disabled then ok tt else err (plugin_disabled dict)))
    × ((j : Text)
        → text_eq (plugin_key dict) j ≡ false
        → memory.get switched j ≡ memory.get registry j)
update_status-checker_example =
    update_status-checker memory concrete memory_host folders registry dict enabled (dict ∷ [])
      loaded dict_on (inl refl) dict_different dict_among dict_no_flag dict_loads

abbrev two_urls : List Text
two_urls = codes "http://a" ∷ codes " " ∷ codes " http://b" ∷ []

get-set_remote_list_urls_example :
    get_remote_list_urls memory_host memory
      (set_remote_list_urls memory_host memory two_urls registry)
    ≡ cleaned memory_host two_urls
get-set_remote_list_urls_example = get-set_remote_list_urls memory_host memory two_urls registry

two_urls-cleaned : cleaned memory_host two_urls ≡ codes "http://a" ∷ codes "http://b" ∷ []
unfolding cleaned skip
two_urls-cleaned = refl

no_such_plugin : (mem url_name (dict ∷ []) ≡ false) × (mem urls_name (dict ∷ []) ≡ false)
unfolding mem text_eq url_name urls_name
no_such_plugin = (refl, refl)

restart_forgets_urls_example :
    get_remote_list_urls memory_host memory
      (parse_plugin_config memory concrete memory_host folders
        (dict ∷ [])
        (set_remote_list_urls memory_host memory two_urls registry)).1
    ≡ []
restart_forgets_urls_example =
    restart_forgets_urls memory_host memory concrete folders (dict ∷ [])
      (set_remote_list_urls memory_host memory two_urls registry) no_such_plugin.0 no_such_plugin.1

-- Both addresses answer with a plugin of the same name; the second has one more.
abbrev answers : Text → Option Response
answers u =
    if text_eq u (codes "http://a")
    then some (list_of (entry absent (called dict) (codes "1") ∷ []))
    else some (
        list_of (
          entry (called dict) absent (codes "2")
          ∷ entry absent (called (codes "oauth2")) (codes "3")
          ∷ []))

abbrev merged : List Item
merged =
    entry absent (called dict) (codes "1") ∷ entry absent (called (codes "oauth2")) (codes "3") ∷ []

merged_fetched :
    fetch_remote_list memory_host answers (codes "http://a" ∷ codes "http://b" ∷ []) ≡ ok merged
unfolding fetch_remote_list add_all add_response add_items add_named counted_name own_name
    parse_remote_response text_eq mem skip
merged_fetched = refl

fetch_remote_list-names_example :
    Distinct (names merged)
    × ((k : Text)
        → mem k (names merged)
          ≡ mem k (
              all_answered
                (λ u. answers (memory_host.strip u))
                (codes "http://a" ∷ codes "http://b" ∷ [])))
fetch_remote_list-names_example =
    fetch_remote_list-names memory_host answers (codes "http://a" ∷ codes "http://b" ∷ []) merged
      merged_fetched

attempts_iff_example :
    ((attempts memory_host uv 3 (codes "uv" ∷ []) folders).0 ≡ ok tt)
    ↔ ((k : ℕ) × (k < 3) × SucceedsAt memory_host uv (codes "uv" ∷ []) k folders)
attempts_iff_example = attempts_iff memory_host uv (codes "uv" ∷ []) 3 folders (omega arith)

abbrev start : PluginWorld memory memory_host
start = record { store = registry; disk = folders }

-- An archive without its plugin.toml
abbrev short_zip : ZipFile
short_zip = record { source = upload (codes "mail.zip"); members = some (codes "mail/" ∷ []) }

install_refused_example :
    (install memory memory_host uv true 3 (zip (some short_zip)) start).1 ≡ start
unfolding install install_type install_zip_plugin install_members
install_refused_example =
    install_refused memory_host uv memory true 3 (zip (some short_zip)) start
      (bad_request "插件压缩包内缺少必要文件") refl refl

abbrev mail_zip : ZipFile
mail_zip = record {
  source = upload (codes "mail.zip");
  members = some (
      codes "mail/"
      ∷ codes "mail/plugin.toml"
      ∷ codes "mail/README.md"
      ∷ codes "mail/__init__.py"
      ∷ []);
}

mail-IsAcceptable : IsAcceptable memory memory_host uv memory_keeps (codes "mail") mail_zip
unfolding before_first mem text_eq plugin_name_of word_start file_stem skip
mail-IsAcceptable = record {
  head = codes "mail/";
  tail = codes "mail/plugin.toml" ∷ codes "mail/README.md" ∷ codes "mail/__init__.py" ∷ [];
  members_are = refl;
  complete = refl;
  gives_name = refl;
}

mail_is_new : memory_host.exists folders (codes "mail") ≡ false
unfolding open_folder text_eq
mail_is_new = refl

install_again_example :
    let w' = (install_zip_plugin memory memory_host uv 3 mail_zip start).1 in
    install_zip_plugin memory memory_host uv 3 mail_zip w' ≡ (err installed_already, w')
install_again_example =
    install_again memory memory_host uv memory_keeps (codes "mail") 3 3 mail_zip mail_zip start
      mail-IsAcceptable mail-IsAcceptable mail_is_new

dict_uninstalls : (uninstall memory memory_host uv true (codes "1") dict start).0 ≡ ok tt
unfolding uninstall open_folder text_eq file_text uninstall_requirements
dict_uninstalls = refl

uninstall-Removed_example :
    Removed memory concrete memory_host uv memory_leaves
      (codes "1")
      dict
      (dict ∷ [])
      (uninstall memory memory_host uv true (codes "1") dict start).1
uninstall-Removed_example =
    uninstall-Removed memory concrete memory_host uv memory_leaves true (codes "1") dict (dict ∷ [])
      start refl dict_no_flag dict_uninstalls

match_version-IsVersion_example :
    (match_version concrete.is_digit (codes "1.10.0\n") ≡ true)
    ↔ IsVersion concrete.is_digit (codes "1.10.0\n")
match_version-IsVersion_example =
    match_version-IsVersion concrete.is_digit (codes "1.10.0\n") refl refl

line_break_accepted : match_version concrete.is_digit (codes "1.10.0\n") ≡ true
unfolding match_version run skip one at_end
line_break_accepted = refl
