-- ===== src/Plugins/Install/Again.antt =====
-- An archive that is installed a second time.
use mc_bd.Prelude.{
  ℕ, ◌≡◌, ap, ◌∙◌, true, false, Option, none, some, List, [], ◌∷◌, inl, inr, Bool-cases, zero, suc,
}
use mc_bd.Prelude.Text.{Text, text_eq}
use mc_bd.Errors.{Result, ok, err}
use mc_bd.Redis.{Redis}
use mc_bd.Plugins.Host.{Host, PluginWorld}
use mc_bd.Plugins.Requirements.{
  Exit, succeeded, failed, timed_out, broken, Python, after_call, attempts, run_install,
  install_missing, install_file, after_plugin, install_all, install_requirements,
}
use mc_bd.Plugins.Install.{
  ZipFile, before_first, plugin_name_of, file_stem, lacks_files, installed_already, append_example,
  append_env_example, flagged, finish_install, unpack, install_members, install_zip_plugin,
}

-- Making a folder makes it, and neither files in it, nor the main .env file, nor a command that
-- installs packages takes a plugin's folder away.
pub record KeepsFolders (H : Host) (Y : Python H) : Type 0 where
  pub made : (d : H.Disk) (p : Text) → H.exists (H.mkdir d p) p ≡ true
  pub extracted :
      (d : H.Disk) (p q : Text) (l : List (Text × Text))
      → H.exists d p ≡ true
      → H.exists (H.extract d q l) p ≡ true
  pub env_written :
      (d : H.Disk) (p t : Text) → H.exists d p ≡ true → H.exists (H.write_env d t) p ≡ true
  pub called :
      (d : H.Disk) (p : Text) (cmd : List Text)
      → H.exists d p ≡ true
      → H.exists (Y.check_call d cmd).1 p ≡ true

module _ (R : Redis) (H : Host) (Y : Python H) (keeps : KeepsFolders H Y) (p : Text) where
  open H use {Disk, exists}
  open Y use {check_call}

  -- The folder is there.
  abbrev There : Disk → Type 0
  There d = exists d p ≡ true

  after_call-There :
      (x : Exit × Disk) (left : ℕ) (rest : Disk → Result (Unit {0}) × Disk)
      → There x.1
      → ((d : Disk) → There d → There (rest d).1)
      → There (after_call H Y x left rest).1
  unfolding after_call
  after_call-There (succeeded, d) left rest h k = h
  after_call-There (failed, d) zero rest h k = h
  after_call-There (failed, d) (suc left) rest h k = k d h
  after_call-There (timed_out, d) zero rest h k = h
  after_call-There (timed_out, d) (suc left) rest h k = k d h
  after_call-There (broken, d) left rest h k = h

  attempts-There : (n : ℕ) (cmd : List Text) (d : Disk) → There d → There (attempts H Y n cmd d).1
  unfolding attempts
  attempts-There zero cmd d h = h
  attempts-There (suc n) cmd d h =
      after_call-There (check_call d cmd) n (attempts H Y n cmd) (keeps.called d p cmd h)
        (attempts-There n cmd)

  run_install-There :
      (n : ℕ) (d : Disk) (r : Result (List Text)) → There d → There (run_install H Y n d r).1
  run_install-There n d (err e) h = h
  run_install-There n d (ok cmd) h = attempts-There n cmd d h

  install_missing-There :
      (n : ℕ) (q : Text) (d : Disk) (r : Result (List Text))
      → There d
      → There (install_missing H Y n q d r).1
  install_missing-There n q d (err e) h = h
  install_missing-There n q d (ok []) h = h
  install_missing-There n q d (ok (l ∷ ls)) h = run_install-There n d _ h

  install_file-There :
      (n : ℕ) (q : Text) (d : Disk) (o : Option Text) → There d → There (install_file H Y n q d o).1
  unfolding install_file
  install_file-There n q d none h = h
  install_file-There n q d (some t) h = install_missing-There n q d _ h

  after_plugin-There :
      (x : Result (Unit {0}) × Disk) (rest : Disk → Result (Unit {0}) × Disk)
      → There x.1
      → ((d : Disk) → There d → There (rest d).1)
      → There (after_plugin H Y x rest).1
  after_plugin-There (err e, d) rest h k = h
  after_plugin-There (ok u, d) rest h k = k d h

  install_all-There :
      (n : ℕ) (ps : List Text) (d : Disk) → There d → There (install_all H Y n ps d).1
  unfolding install_all
  install_all-There n [] d h = h
  install_all-There n (q ∷ ps) d h =
      after_plugin-There _ (install_all H Y n ps) (install_file-There n q d _ h)
        (install_all-There n ps)

  requirements-There :
      (n : ℕ) (o : Option Text) (d : Disk) → There d → There (install_requirements H Y n o d).1
  unfolding install_requirements
  requirements-There n none d h = install_all-There n _ d h
  requirements-There n (some []) d h = install_all-There n _ d h
  requirements-There n (some (c ∷ t)) d h = install_all-There n ((c ∷ t) ∷ []) d h

  example-There : (d : Disk) (o : Option Text) → There d → There (append_example R H Y d o)
  unfolding append_example
  example-There d none h = h
  example-There d (some t) h = elim (Bool-cases (text_eq (H.strip t) [])) [
    | inl blank ↦ rw blank h
    | inr written ↦ rw written (keeps.env_written d p _ h)
  ]

  flagged-There :
      (name : Text) (w : PluginWorld R H) (x : Result (Unit {0}) × Disk)
      → There x.1
      → There (flagged R H Y name w x).1.disk
  flagged-There name w (err e, d) h = h
  flagged-There name w (ok u, d) h = h

  finish_install-There :
      (n : ℕ) (name required : Text) (w : PluginWorld R H) (d : Disk)
      → There d
      → There (finish_install R H Y n name required w d).1.disk
  unfolding finish_install append_env_example
  finish_install-There n name required w d h =
      flagged-There name w _ (requirements-There n (some required) _ (example-There d _ h))

  -- The archive has the files that are asked for, and gives the name of the plugin.
  pub record IsAcceptable (f : ZipFile) : Type 0 where
    pub head : Text
    pub tail : List Text
    pub members_are : f.members ≡ some (head ∷ tail)
    pub complete : lacks_files (before_first b'/' head) (head ∷ tail) ≡ false
    pub gives_name : plugin_name_of (H.strip (file_stem f.source)) ≡ ok p

  zip_unpacks :
      (n : ℕ) (f : ZipFile) (a : IsAcceptable f) (w : PluginWorld R H)
      → install_zip_plugin R H Y n f w
        ≡ unpack R H Y n (before_first b'/' a.head) (a.head ∷ a.tail) w (ok p)
  unfolding install_zip_plugin install_members
  zip_unpacks n f a w =
      ap (λ o. install_members R H Y n f.source o w) a.members_are ∙ rw (a.complete, a.gives_name)

  unpacked-There :
      (n : ℕ) (dir : Text) (names : List Text) (w : PluginWorld R H)
      → exists w.disk p ≡ false
      → There (unpack R H Y n dir names w (ok p)).1.disk
  unfolding unpack
  unpacked-There n dir names w h =
      rw h (finish_install-There n p dir w _ (keeps.extracted _ p p _ (keeps.made w.disk p)))

  unpack_refused :
      (n : ℕ) (dir : Text) (names : List Text) (w : PluginWorld R H)
      → There w.disk
      → unpack R H Y n dir names w (ok p) ≡ (err installed_already, w)
  unfolding unpack
  unpack_refused n dir names w h = rw h

  -- After the installation of an acceptable archive whose plugin was not there, whether it succeeded or
  -- failed at the packages, each further installation of an acceptable archive with the same plugin is
  -- refused as installed already, and changes nothing.
  pub install_again :
      (m n : ℕ) (f g : ZipFile) (w : PluginWorld R H)
      → IsAcceptable f
      → IsAcceptable g
      → exists w.disk p ≡ false
      → let w' = (install_zip_plugin R H Y m f w).1 in
        install_zip_plugin R H Y n g w' ≡ (err installed_already, w')
  install_again m n f g w a b h =
      let w' = (install_zip_plugin R H Y m f w).1 in
      zip_unpacks n g b w'
      ∙ unpack_refused n (before_first b'/' b.head) (b.head ∷ b.tail) w' (
          ap (λ x. exists x.1.disk p) (zip_unpacks m f a w)
          ∙ unpacked-There m (before_first b'/' a.head) (a.head ∷ a.tail) w h)
