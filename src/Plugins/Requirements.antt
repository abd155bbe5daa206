-- ===== src/Plugins/Requirements.antt =====
-- backend/plugin/requirements.py: the installation of the packages that plugins require. The
-- packaging library, the interpreter's environment and the commands that are run are a parameter.
pub mod Retries
use mc_bd.Prelude.{
  ℕ, zero, suc, ◌==◌, Bool, true, false, not, ◌||◌, Option, none, some, List, [], ◌∷◌, ◌++◌, map,
  if◌then◌else◌,
}
use mc_bd.Prelude.Text.{Text, codes, starts_with}
use mc_bd.Errors.{Error, Result, ok, err, unexpected}
use mc_bd.Plugins.Host.{Host}
use mc_bd.Plugins.Registry.{get_plugins, then_ok}

-- How a command ends: CalledProcessError, TimeoutExpired, and any other exception.
pub data Exit : Type 0 where
  succeeded failed timed_out broken : Exit

pub record Python (H : Host) : Type 1 where
  pub Requirement : Type 0
  -- packaging's Requirement(line); none is its exception
  pub requirement : Text → Option Requirement
  pub name : Requirement → Text
  -- whether there is a specifier, and SpecifierSet.contains with pre-releases
  pub has_specifier : Requirement → Bool
  pub accepts : Requirement → Text → Bool
  -- the version of an installed distribution, and whether a module is found
  pub distribution : H.Disk → Text → Option Text
  pub find_spec : H.Disk → Text → Bool
  -- uv on the path, and at the two places below the home folder
  pub which_uv : Option Text
  pub local_uv : Option Text
  pub cargo_uv : Option Text
  pub in_virtualenv : Bool
  pub executable : Text
  -- settings.PLUGIN_PIP_CHINA and PLUGIN_PIP_INDEX_URL
  pub pip_china : Bool
  pub pip_index_url : Text
  -- the lines of a text, and the path of a plugin's requirements.txt
  pub lines : Text → List Text
  pub requirements_path : Text → Text
  -- subprocess.check_call
  pub check_call : H.Disk → List Text → Exit × H.Disk

abbrev pub install_error : Error
install_error = unexpected "PluginInstallError"

-- str.replace of one character by another
abbrev pub swapped : ℕ → ℕ → Text → Text
swapped a b t = map (λ c. if c == a then b else c) t

abbrev pub first_of : Option Text → Option Text → Option Text
first_of (some t) o = some t
first_of none o = o

module _ (H : Host) (Y : Python H) where
  open H use {Disk, read, strip}
  open Y use {
    Requirement, requirement, name, has_specifier, accepts, distribution, find_spec, which_uv,
    local_uv, cargo_uv, in_virtualenv, executable, pip_china, pip_index_url, lines,
    requirements_path, check_call,
  }

  unfoldable pub version_fits : Requirement → Option Text → Bool
  version_fits q none = false
  version_fits q (some v) = not (has_specifier q) || accepts q v

  -- _requirement_is_installed. The candidates are a set, whose order does not count.
  unfoldable pub requirement_is_installed : Disk → Requirement → Bool
  unfolding version_fits
  requirement_is_installed d q =
      version_fits q (distribution d (name q))
      || version_fits q (distribution d (swapped b'-' b'_' (name q)))
      || version_fits q (distribution d (swapped b'_' b'-' (name q)))
      || find_spec d (swapped b'-' b'_' (name q))

  abbrev pub add_missing : Text → Bool → Result (List Text) → Result (List Text)
  add_missing line true rest = rest
  add_missing line false (ok l) = ok (line ∷ l)
  add_missing line false (err e) = err e

  unfoldable pub read_requirement :
      Disk → Text → Option Requirement → Result (List Text) → Result (List Text)
  unfolding requirement_is_installed
  read_requirement d line none rest = err install_error
  read_requirement d line (some q) rest = add_missing line (requirement_is_installed d q) rest

  -- A line without its blanks: an empty one and a comment say nothing.
  unfoldable pub read_line : Disk → Text → Result (List Text) → Result (List Text)
  unfolding read_requirement
  read_line d [] rest = rest
  read_line d (c ∷ t) rest =
      if c == b'#' then rest else read_requirement d (c ∷ t) (requirement (c ∷ t)) rest

  -- _missing_requirements over the lines of the file
  unfoldable pub missing_requirements : Disk → List Text → Result (List Text)
  unfolding read_line
  missing_requirements d [] = ok []
  missing_requirements d (l ∷ ls) = read_line d (strip l) (missing_requirements d ls)

  -- _resolve_uv_executable
  abbrev pub uv_executable : Option Text
  uv_executable = first_of which_uv (first_of local_uv cargo_uv)

  unfoldable pub pip_words : Disk → Text → Text → List Text → Option Text → Result (List Text)
  pip_words d verb file words (some uv) = ok (
      (uv ∷ codes "pip" ∷ verb ∷ codes "-r" ∷ file ∷ words)
      ++ (if in_virtualenv then [] else codes "--system" ∷ []))
  pip_words d verb file words none =
      if find_spec d (codes "pip")
      then ok (executable ∷ codes "-m" ∷ codes "pip" ∷ verb ∷ codes "-r" ∷ file ∷ words)
      else err install_error

  -- The command for a verb and the words behind the file
  unfoldable pub pip_command : Disk → Text → Text → List Text → Result (List Text)
  unfolding pip_words
  pip_command d verb file words = pip_words d verb file words uv_executable

  abbrev pub index_words : List Text
  index_words = if pip_china then codes "-i" ∷ pip_index_url ∷ [] else []

  -- _plugin_pip_install_cmd
  unfoldable pub plugin_pip_install_cmd : Disk → Text → Result (List Text)
  unfolding pip_command
  plugin_pip_install_cmd d file =
      then_ok (pip_command d (codes "install") file []) (λ cmd. ok (cmd ++ index_words))

  -- _plugin_pip_uninstall_cmd
  unfoldable pub plugin_pip_uninstall_cmd : Disk → Text → Result (List Text)
  unfolding pip_command
  plugin_pip_uninstall_cmd d file = pip_command d (codes "uninstall") file (codes "-y" ∷ [])

  -- The end of one attempt, with the number of those left and what they do
  unfoldable pub after_call :
      Exit × Disk → ℕ → (Disk → Result (Unit {0}) × Disk) → Result (Unit {0}) × Disk
  after_call (succeeded, d) left rest = (ok tt, d)
  after_call (failed, d) zero rest = (err install_error, d)
  after_call (failed, d) (suc left) rest = rest d
  after_call (timed_out, d) zero rest = (err install_error, d)
  after_call (timed_out, d) (suc left) rest = rest d
  after_call (broken, d) left rest = (err (unexpected "OSError"), d)

  -- `for attempt in range(max_retries)`
  unfoldable pub attempts : ℕ → List Text → Disk → Result (Unit {0}) × Disk
  unfolding after_call
  attempts zero cmd d = (ok tt, d)
  attempts (suc left) cmd d = after_call (check_call d cmd) left (attempts left cmd)

  abbrev pub run_install : ℕ → Disk → Result (List Text) → Result (Unit {0}) × Disk
  run_install retries d (err e) = (err e, d)
  run_install retries d (ok cmd) = attempts retries cmd d

  abbrev pub install_missing : ℕ → Text → Disk → Result (List Text) → Result (Unit {0}) × Disk
  install_missing retries plugin d (err e) = (err e, d)
  install_missing retries plugin d (ok []) = (ok tt, d)
  install_missing retries plugin d (ok (l ∷ ls)) =
      run_install retries d (plugin_pip_install_cmd d (requirements_path plugin))

  -- One plugin, by the text of its requirements.txt
  unfoldable pub install_file : ℕ → Text → Disk → Option Text → Result (Unit {0}) × Disk
  unfolding attempts missing_requirements plugin_pip_install_cmd
  install_file retries plugin d none = (ok tt, d)
  install_file retries plugin d (some t) =
      install_missing retries plugin d (missing_requirements d (lines t))

  abbrev pub after_plugin :
      Result (Unit {0}) × Disk → (Disk → Result (Unit {0}) × Disk) → Result (Unit {0}) × Disk
  after_plugin (err e, d) rest = (err e, d)
  after_plugin (ok u, d) rest = rest d

  unfoldable pub install_all : ℕ → List Text → Disk → Result (Unit {0}) × Disk
  unfolding install_file
  install_all retries [] d = (ok tt, d)
  install_all retries (p ∷ ps) d =
      after_plugin (install_file retries p d (read d p (codes "requirements.txt")))
        (install_all retries ps)

  -- install_requirements: of one plugin, or of all for None and for an empty name
  unfoldable pub install_requirements : ℕ → Option Text → Disk → Result (Unit {0}) × Disk
  unfolding install_all
  install_requirements retries none d = install_all retries (get_plugins H d) d
  install_requirements retries (some []) d = install_all retries (get_plugins H d) d
  install_requirements retries (some (c ∷ t)) d = install_all retries ((c ∷ t) ∷ []) d

  abbrev pub uninstalled : Exit × Disk → Result (Unit {0}) × Disk
  uninstalled (succeeded, d) = (ok tt, d)
  uninstalled (failed, d) = (err install_error, d)
  uninstalled (timed_out, d) = (err (unexpected "TimeoutExpired"), d)
  uninstalled (broken, d) = (err (unexpected "OSError"), d)

  abbrev pub run_uninstall : Disk → Result (List Text) → Result (Unit {0}) × Disk
  run_uninstall d (err e) = (err e, d)
  run_uninstall d (ok cmd) = uninstalled (check_call d cmd)

  abbrev pub uninstall_file : Text → Disk → Option Text → Result (Unit {0}) × Disk
  uninstall_file plugin d none = (ok tt, d)
  uninstall_file plugin d (some t) =
      run_uninstall d (plugin_pip_uninstall_cmd d (requirements_path plugin))

  -- uninstall_requirements
  unfoldable pub uninstall_requirements : Text → Disk → Result (Unit {0}) × Disk
  unfolding plugin_pip_uninstall_cmd
  uninstall_requirements plugin d =
      uninstall_file plugin d (read d plugin (codes "requirements.txt"))
