-- ===== src/Plugins/Install/Repeat.antt =====
-- Installations that are refused, and installations that are made twice.
use mc_bd.Prelude.{
  ℕ, zero, suc, ◌≡◌, refl, ap, sym, ◌∙◌, Bool, true, false, Option, none, some, List, [], ◌∷◌, inl,
  inr, Bool-cases, ◌==◌,
}
use mc_bd.Prelude.Text.{Text, codes}
use mc_bd.Errors.{
  Error, Result, ok, err, err_ne_ok, request, custom, forbidden, not_found, server, gateway,
  authorization, token, conflict, unexpected,
}
use mc_bd.Redis.{Redis}
use mc_bd.Plugins.Host.{Host, PluginWorld}
use mc_bd.Plugins.Registry.{then_ok}
use mc_bd.Plugins.Requirements.{
  Exit, succeeded, failed, timed_out, broken, Python, read_requirement, read_line,
  missing_requirements, add_missing, pip_words, pip_command, plugin_pip_install_cmd, after_call,
  attempts, run_install, install_missing, install_file, after_plugin, install_all,
  install_requirements,
}
use mc_bd.Plugins.Install.{
  ZipSource, before_first, lacks_files, installed_already, append_env_example, flagged,
  finish_install, unpack, install_members, install_zip_plugin, cloned, install_repo,
  install_git_plugin, git_repo, PluginType, zip, git, install_type, install,
}

-- RequestError and ConflictError
abbrev pub is_refusal : Error → Bool
is_refusal (request c m) = true
is_refusal custom = false
is_refusal (forbidden m) = false
is_refusal (not_found m) = false
is_refusal (server m) = false
is_refusal (gateway m) = false
is_refusal (authorization m) = false
is_refusal (token m) = false
is_refusal (conflict m) = true
is_refusal (unexpected m) = false

-- The result is no refusal.
abbrev Goes {ℓ} : {A : Type ℓ} → Result A → Type 0
Goes (ok a) = Unit
Goes (err e) = is_refusal e ≡ false

module _ (H : Host) (Y : Python H) where
  open H use {Disk, exists}
  open Y use {check_call}

  add_missing-Goes :
      (l : Text) (b : Bool) (rest : Result (List Text))
      → Goes rest
      → Goes (add_missing H Y l b rest)
  add_missing-Goes l true rest h = h
  add_missing-Goes l false (ok x) h = tt
  add_missing-Goes l false (err e) h = h

  read_requirement-Goes :
      (d : Disk) (l : Text) (o : Option Y.Requirement) (rest : Result (List Text))
      → Goes rest
      → Goes (read_requirement H Y d l o rest)
  unfolding read_requirement
  read_requirement-Goes d l none rest h = refl
  read_requirement-Goes d l (some q) rest h = add_missing-Goes l _ rest h

  read_line-Goes :
      (d : Disk) (l : Text) (rest : Result (List Text)) → Goes rest → Goes (read_line H Y d l rest)
  unfolding read_line
  read_line-Goes d [] rest h = h
  read_line-Goes d (c ∷ t) rest h = elim (Bool-cases (c == b'#')) [
    | inl comment ↦ rw comment h
    | inr line ↦ rw line (read_requirement-Goes d (c ∷ t) (Y.requirement (c ∷ t)) rest h)
  ]

  missing-Goes : (d : Disk) (ls : List Text) → Goes (missing_requirements H Y d ls)
  unfolding missing_requirements
  missing-Goes d [] = tt
  missing-Goes d (l ∷ ls) = read_line-Goes d (H.strip l) _ (missing-Goes d ls)

  pip_words-Goes :
      (d : Disk) (verb file : Text) (words : List Text) (o : Option Text)
      → Goes (pip_words H Y d verb file words o)
  unfolding pip_words
  pip_words-Goes d verb file words (some uv) = tt
  pip_words-Goes d verb file words none = elim (Bool-cases (Y.find_spec d (codes "pip"))) [
    | inl there ↦ rw there tt
    | inr gone ↦ rw gone refl
  ]

  then_ok-Goes :
      {A B : Type 0} (r : Result A) (f : A → B) → Goes r → Goes (then_ok r (λ a. ok (f a)))
  then_ok-Goes (ok a) f h = tt
  then_ok-Goes (err e) f h = h

  after_call-Goes :
      (x : Exit × Disk) (left : ℕ) (rest : Disk → Result (Unit {0}) × Disk)
      → ((d : Disk) → Goes (rest d).0)
      → Goes (after_call H Y x left rest).0
  unfolding after_call
  after_call-Goes (succeeded, d) left rest h = tt
  after_call-Goes (failed, d) zero rest h = refl
  after_call-Goes (failed, d) (suc left) rest h = h d
  after_call-Goes (timed_out, d) zero rest h = refl
  after_call-Goes (timed_out, d) (suc left) rest h = h d
  after_call-Goes (broken, d) left rest h = refl

  attempts-Goes : (n : ℕ) (cmd : List Text) (d : Disk) → Goes (attempts H Y n cmd d).0
  unfolding attempts
  attempts-Goes zero cmd d = tt
  attempts-Goes (suc n) cmd d =
      after_call-Goes (check_call d cmd) n (attempts H Y n cmd) (attempts-Goes n cmd)

  run_install-Goes :
      (n : ℕ) (d : Disk) (r : Result (List Text)) → Goes r → Goes (run_install H Y n d r).0
  run_install-Goes n d (err e) h = h
  run_install-Goes n d (ok cmd) h = attempts-Goes n cmd d

  install_missing-Goes :
      (n : ℕ) (p : Text) (d : Disk) (r : Result (List Text))
      → Goes r
      → Goes (install_missing H Y n p d r).0
  unfolding plugin_pip_install_cmd pip_command
  install_missing-Goes n p d (err e) h = h
  install_missing-Goes n p d (ok []) h = tt
  install_missing-Goes n p d (ok (l ∷ ls)) h =
      run_install-Goes n d _ (then_ok-Goes _ _ (pip_words-Goes d _ _ _ _))

  install_file-Goes :
      (n : ℕ) (p : Text) (d : Disk) (o : Option Text) → Goes (install_file H Y n p d o).0
  unfolding install_file
  install_file-Goes n p d none = tt
  install_file-Goes n p d (some t) = install_missing-Goes n p d _ (missing-Goes d (Y.lines t))

  after_plugin-Goes :
      (x : Result (Unit {0}) × Disk) (rest : Disk → Result (Unit {0}) × Disk)
      → Goes x.0
      → ((d : Disk) → Goes (rest d).0)
      → Goes (after_plugin H Y x rest).0
  after_plugin-Goes (err e, d) rest h k = h
  after_plugin-Goes (ok u, d) rest h k = k d

  install_all-Goes : (n : ℕ) (ps : List Text) (d : Disk) → Goes (install_all H Y n ps d).0
  unfolding install_all
  install_all-Goes n [] d = tt
  install_all-Goes n (p ∷ ps) d =
      after_plugin-Goes _ (install_all H Y n ps) (install_file-Goes n p d _) (install_all-Goes n ps)

  install_requirements-Goes :
      (n : ℕ) (o : Option Text) (d : Disk) → Goes (install_requirements H Y n o d).0
  unfolding install_requirements
  install_requirements-Goes n none d = install_all-Goes n _ d
  install_requirements-Goes n (some []) d = install_all-Goes n _ d
  install_requirements-Goes n (some (c ∷ t)) d = install_all-Goes n ((c ∷ t) ∷ []) d

  module _ (R : Redis) where
    -- If the result is a refusal, nothing has changed.
    abbrev Whole : {A : Type 0} → Result A × PluginWorld R H → PluginWorld R H → Type 0
    Whole x w = (e : Error) → x.0 ≡ err e → is_refusal e ≡ true → x.1 ≡ w

    not_both : (b : Bool) → b ≡ false → b ≡ true → ⊥
    not_both b g k = cc

    err_injective : {A : Type 0} (x e : Error) → ◌≡◌ {A = Result A} (err x) (err e) → x ≡ e
    err_injective x e h = cc h

    clash : {A : Type 0} (r : Result A) (e : Error) → Goes r → r ≡ err e → is_refusal e ≡ true → ⊥
    clash (ok a) e g h k = err_ne_ok e a (sym h)
    clash (err x) e g h k = not_both (is_refusal x) g (ap is_refusal (err_injective x e h) ∙ k)

    Goes-Whole :
        {A : Type 0} (x : Result A × PluginWorld R H) (w : PluginWorld R H) → Goes x.0 → Whole x w
    Goes-Whole x w g e h k = absurd (clash x.0 e g h k)

    same-Whole : {A : Type 0} (r : Result A) (w : PluginWorld R H) → Whole (r, w) w
    same-Whole r w e h k = refl

    flagged-Goes :
        (name : Text) (w : PluginWorld R H) (x : Result (Unit {0}) × Disk)
        → Goes x.0
        → Goes (flagged R H Y name w x).0
    flagged-Goes name w (err e, d) h = h
    flagged-Goes name w (ok u, d) h = tt

    finish_install-Goes :
        (n : ℕ) (name required : Text) (w : PluginWorld R H) (d : Disk)
        → Goes (finish_install R H Y n name required w d).0
    unfolding finish_install
    finish_install-Goes n name required w d =
        flagged-Goes name w _
          (install_requirements-Goes n (some required) (append_env_example R H Y d name))

    unpack-Whole :
        (n : ℕ) (dir : Text) (names : List Text) (w : PluginWorld R H) (r : Result Text)
        → Whole (unpack R H Y n dir names w r) w
    unfolding unpack
    unpack-Whole n dir names w (err e) = same-Whole (err e) w
    unpack-Whole n dir names w (ok name) = elim (Bool-cases (exists w.disk name)) [
      | inl there ↦ rw there (same-Whole (err installed_already) w)
      | inr free ↦ rw free (Goes-Whole _ w (finish_install-Goes n name dir w _))
    ]

    members-Whole :
        (n : ℕ) (f : ZipSource) (o : Option (List Text)) (w : PluginWorld R H)
        → Whole (install_members R H Y n f o w) w
    unfolding install_members
    members-Whole n f none w = same-Whole _ w
    members-Whole n f (some []) w = same-Whole _ w
    members-Whole n f (some (m ∷ ms)) w =
        elim (Bool-cases (lacks_files (before_first b'/' m) (m ∷ ms))) [
          | inl lacks ↦ rw lacks (same-Whole _ w)
          | inr full ↦ rw full (unpack-Whole n (before_first b'/' m) (m ∷ ms) w _)
        ]

    cloned-Goes :
        (n : ℕ) (repo : Text) (w : PluginWorld R H) (x : Bool × Disk)
        → Goes (cloned R H Y n repo w x).0
    cloned-Goes n repo w (false, d) = refl
    cloned-Goes n repo w (true, d) = finish_install-Goes n repo repo w d

    repo-Whole :
        (n : ℕ) (url : Text) (o : Option Text) (w : PluginWorld R H)
        → Whole (install_repo R H Y n url o w) w
    unfolding install_repo
    repo-Whole n url none w = same-Whole _ w
    repo-Whole n url (some repo) w = elim (Bool-cases (exists w.disk repo)) [
      | inl there ↦ rw there (same-Whole _ w)
      | inr free ↦ rw free (Goes-Whole _ w (cloned-Goes n repo w _))
    ]

    type-Whole : (n : ℕ) (t : PluginType) (w : PluginWorld R H) → Whole (install_type R H Y n t w) w
    unfolding install_type install_zip_plugin install_git_plugin
    type-Whole n (zip none) w = same-Whole _ w
    type-Whole n (zip (some f)) w = members-Whole n f.source f.members w
    type-Whole n (git none) w = same-Whole _ w
    type-Whole n (git (some [])) w = same-Whole _ w
    type-Whole n (git (some (c ∷ t))) w = repo-Whole n (c ∷ t) (git_repo (c ∷ t)) w

    -- An installation that ends in a RequestError or a ConflictError changes neither the disk nor
    -- Redis, whatever is to be installed and by whichever test it is refused.
    pub install_refused :
        (is_dev : Bool) (n : ℕ) (t : PluginType) (w : PluginWorld R H) (e : Error)
        → (install R H Y is_dev n t w).0 ≡ err e
        → is_refusal e ≡ true
        → (install R H Y is_dev n t w).1 ≡ w
    unfolding install
    install_refused true n t w = type-Whole n t w
    install_refused false n t w = same-Whole _ w
