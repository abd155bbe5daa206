-- ===== src/Plugins/Install.antt =====
-- backend/plugin/installer.py and the installation, removal and packing of plugins in
-- backend/app/admin/service/plugin_service.py. Not modelled: the lock around an installation, and the
-- bytes of archives; an archive is the names of its members in their order.
pub mod Repeat
pub mod Again
pub mod Removal
use mc_bd.Prelude.{
  ℕ, zero, suc, ◌-◌, ◌==◌, leb, Bool, true, false, not, ◌&&◌, ◌||◌, Option, none, some, List, [],
  ◌∷◌, ◌++◌, length, if◌then◌else◌,
}
use mc_bd.Prelude.Text.{Text, codes, text_eq, starts_with}
use mc_bd.Errors.{Error, Result, ok, err, bad_request, conflict, server, unexpected, plain, named}
use mc_bd.Redis.{Redis, mem}
use mc_bd.Password.{is_letter}
use mc_bd.Plugins.Config.{at_end}
use mc_bd.Plugins.Host.{Host, PluginWorld}
use mc_bd.Plugins.Registry.{plugin_key, changed_key, plugin_not_found}
use mc_bd.Plugins.Requirements.{Python, install_requirements, uninstall_requirements}

-- `t.split(sep)[0]`
unfoldable pub before_first : ℕ → Text → Text
before_first sep [] = []
before_first sep (c ∷ t) = if c == sep then [] else c ∷ before_first sep t

-- `t.split(sep)[-1]`, with the part so far
unfoldable pub after_last : ℕ → Text → Text → Text
after_last sep part [] = part
after_last sep part (c ∷ t) = after_last sep (if c == sep then [] else part ++ c ∷ []) t

-- `t.replace(p, '')` for a text p that is not empty; the number counts what is still left out.
unfoldable pub without : ℕ → Text → Text → Text
without k p [] = []
without (suc k) p (c ∷ t) = without k p t
without zero p (c ∷ t) = elim (starts_with p (c ∷ t)) [
  | true ↦ without (length p - 1) p t
  | false ↦ c ∷ without 0 p t
]

unfoldable pub replaced : Text → Text → Text
unfolding without
replaced [] t = t
replaced (c ∷ p) t = without 0 (c ∷ p) t

-- The start that matches [a-zA-Z0-9_]*
unfoldable pub word_start : Text → Text
word_start [] = []
word_start (c ∷ t) =
    if is_letter c || (leb b'0' c && leb c b'9') || (c == b'_') then c ∷ word_start t else []

-- re.match(r'^([a-zA-Z0-9_]+)', t).group(); without a match None has no such method.
abbrev pub matched : Text → Result Text
matched [] = err (unexpected "AttributeError")
matched (c ∷ t) = ok (c ∷ t)

unfoldable pub plugin_name_of : Text → Result Text
unfolding word_start
plugin_name_of t = matched (word_start t)

-- An archive that is named by its path or by the client that sends it. `members` is none for a file
-- that is no archive.
pub data ZipSource : Type 0 where
  path upload : Text → ZipSource

pub record ZipFile : Type 0 where
  pub source : ZipSource
  pub members : Option (List Text)

-- The part of the name that the name of the plugin is read from
unfoldable pub file_stem : ZipSource → Text
unfolding before_first after_last
file_stem (path t) = before_first b'.' (after_last b'/' [] t)
file_stem (upload t) = before_first b'.' t

-- The members that are extracted, under their new and old names
unfoldable pub renamed : Text → List Text → List (Text × Text)
unfolding replaced
renamed dir [] = []
renamed dir (m ∷ ms) =
    let rest = renamed dir ms in if starts_with dir m then keep (replaced dir m) rest else rest
  where
    keep : Text → List (Text × Text) → List (Text × Text)
    keep [] rest = rest
    keep (c ∷ t) rest = (c ∷ t, m) ∷ rest

abbrev pub lacks_files : Text → List Text → Bool
lacks_files dir names =
    leb (length names) 3
    || not (mem (dir ++ codes "/plugin.toml") names)
    || not (mem (dir ++ codes "/README.md") names)

abbrev pub installed_already : Error
installed_already = conflict (plain "此插件已安装")

-- `(?:\.git)?$`
abbrev pub is_tail : Text → Bool
is_tail t =
    text_eq t [] || text_eq t (codes "\n") || text_eq t (codes ".git") || text_eq t (codes ".git\n")

-- `(?P<repo>[^/]+?)(?:\.git)?$` on a text without slashes
unfoldable pub repo_of : Text → Option Text
unfolding text_eq
repo_of [] = none
repo_of (c ∷ t) = if is_tail t then some (c ∷ []) else longer c (repo_of t)
  where
    longer : ℕ → Option Text → Option Text
    longer c none = none
    longer c (some r) = some (c ∷ r)

-- What stands behind the last slash, if there is one
unfoldable pub last_part : Text → Option Text
unfolding after_last
last_part t = if mem_char t then some (after_last b'/' [] t) else none
  where
    mem_char : Text → Bool
    mem_char [] = false
    mem_char (c ∷ s) = (c == b'/') || mem_char s

abbrev pub then_some : Option Text → (Text → Option Text) → Option Text
then_some none f = none
then_some (some t) f = f t

-- What stands behind a prefix
unfoldable pub behind : Text → Text → Option Text
behind [] t = some t
behind (x ∷ p) [] = none
behind (x ∷ p) (c ∷ t) = if c == x then behind p t else none

abbrev pub or_else : Option Text → Option Text → Option Text
or_else (some t) o = some t
or_else none o = o

-- is_git_url of backend/utils/pattern_validate.py, with the group `repo`
unfoldable pub git_repo : Text → Option Text
unfolding behind last_part repo_of
git_repo url =
    then_some (or_else (behind (codes "http://") url) (behind (codes "https://") url))
      (λ t. then_some (last_part t) repo_of)

-- The text that is appended to a file that may not exist
unfoldable pub with_example : Option Text → Text → Text
with_example none example = example
with_example (some []) example = example
with_example (some (c ∷ t)) example =
    (c ∷ t) ++ ((if text_eq (after_last b'\n' [] (c ∷ t)) [] then [] else b'\n' ∷ []) ++ example)

-- The name of the copy that is kept
unfoldable pub backup_name : Text → Text → Text
backup_name plugin timestamp = plugin ++ (b'.' ∷ (timestamp ++ codes ".backup"))

-- The arguments of PluginService.install: `type` with the file or the address that goes with it
pub data PluginType : Type 0 where
  zip : Option ZipFile → PluginType
  git : Option Text → PluginType

module _ (R : Redis) (H : Host) (Y : Python H) where
  open R use {put}
  open H use {Disk, exists, read, read_env, write_env, mkdir, extract, strip}

  abbrev pub World : Type 0
  World = PluginWorld R H

  abbrev pub on_disk : Disk → World → World
  on_disk d w = record w { disk = d }

  -- _append_env_example, by the text of .env.example and its text without blanks
  unfoldable pub append_example : Disk → Option Text → Disk
  unfolding with_example after_last text_eq
  append_example d none = d
  append_example d (some t) =
      if text_eq (strip t) [] then d else write_env d (with_example (read_env d) t)

  unfoldable pub append_env_example : Disk → Text → Disk
  unfolding append_example
  append_env_example d plugin = append_example d (read d plugin (codes ".env.example"))

  -- The end of both installations: the packages, then the flag
  abbrev pub flagged : Text → World → Result (Unit {0}) × Disk → Result Text × World
  flagged name w (err e, d) = (err e, on_disk d w)
  flagged name w (ok u, d) =
      (ok name, record { store = put w.store changed_key (codes "ture"); disk = d })

  unfoldable pub finish_install : ℕ → Text → Text → World → Disk → Result Text × World
  unfolding append_env_example install_requirements changed_key
  finish_install retries name required w d =
      flagged name w (install_requirements H Y retries (some required) (append_env_example d name))

  unfoldable pub unpack : ℕ → Text → List Text → World → Result Text → Result Text × World
  unfolding finish_install renamed
  unpack retries dir names w (err e) = (err e, w)
  unpack retries dir names w (ok name) =
      if exists w.disk name
      then (err installed_already, w)
      else finish_install retries name dir w (extract (mkdir w.disk name) name (renamed dir names))

  -- install_zip_plugin
  unfoldable pub install_members : ℕ → ZipSource → Option (List Text) → World → Result Text × World
  unfolding before_first unpack plugin_name_of file_stem mem
  install_members retries f none w = (err (bad_request "插件压缩包格式非法"), w)
  install_members retries f (some []) w = (err (unexpected "IndexError"), w)
  install_members retries f (some (m ∷ ms)) w =
      if lacks_files (before_first b'/' m) (m ∷ ms)
      then (err (bad_request "插件压缩包内缺少必要文件"), w)
      else unpack retries (before_first b'/' m) (m ∷ ms) w (plugin_name_of (strip (file_stem f)))

  unfoldable pub install_zip_plugin : ℕ → ZipFile → World → Result Text × World
  unfolding install_members
  install_zip_plugin retries f w = install_members retries f.source f.members w

  -- The clone, which may fail, and what follows it
  abbrev pub cloned : ℕ → Text → World → Bool × Disk → Result Text × World
  cloned retries repo w (false, d) = (err (server (plain "插件安装失败，请稍后重试")), on_disk d w)
  cloned retries repo w (true, d) = finish_install retries repo repo w d

  unfoldable pub install_repo : ℕ → Text → Option Text → World → Result Text × World
  unfolding finish_install
  install_repo retries url none w = (err (bad_request "Git 仓库地址格式非法，仅支持 HTTP/HTTPS 协议"), w)
  install_repo retries url (some repo) w =
      if exists w.disk repo
      then (err (conflict (named "" repo " 插件已安装")), w)
      else cloned retries repo w (H.clone w.disk url repo)

  -- install_git_plugin
  unfoldable pub install_git_plugin : ℕ → Text → World → Result Text × World
  unfolding install_repo git_repo
  install_git_plugin retries url w = install_repo retries url (git_repo url) w

  unfoldable pub install_type : ℕ → PluginType → World → Result Text × World
  unfolding install_zip_plugin install_git_plugin
  install_type retries (zip none) w = (err (bad_request "error.plugin_zip_empty"), w)
  install_type retries (zip (some f)) w = install_zip_plugin retries f w
  install_type retries (git none) w = (err (bad_request "error.plugin_git_url_required"), w)
  install_type retries (git (some [])) w = (err (bad_request "error.plugin_git_url_required"), w)
  install_type retries (git (some (c ∷ t))) w = install_git_plugin retries (c ∷ t) w

  -- PluginService.install
  unfoldable pub install : Bool → ℕ → PluginType → World → Result Text × World
  unfolding install_type
  install is_dev retries t w =
      if is_dev
      then install_type retries t w
      else (err (bad_request "error.plugin_install_dev_only"), w)

  abbrev pub moved_away : Text → Text → World → Result (Unit {0}) × Disk → Result (Unit {0}) × World
  moved_away plugin timestamp w (err e, d) = (err e, on_disk d w)
  moved_away plugin timestamp w (ok u, d) = (
    ok tt,
    record {
      store = put (R.remove w.store (plugin_key plugin)) changed_key (codes "ture");
      disk = H.move d plugin (backup_name plugin timestamp);
    },
  )

  -- PluginService.uninstall
  unfoldable pub uninstall : Bool → Text → Text → World → Result (Unit {0}) × World
  unfolding uninstall_requirements backup_name plugin_key changed_key
  uninstall is_dev timestamp plugin w =
      if is_dev
      then (if exists w.disk plugin
          then moved_away plugin timestamp w (uninstall_requirements H Y plugin w.disk)
          else (err plugin_not_found, w))
      else (err (bad_request "error.plugin_uninstall_dev_only"), w)
