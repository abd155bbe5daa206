-- ===== src/Plugins/Install/Removal.antt =====
-- The removal of a plugin: uninstall of backend/app/admin/service/plugin_service.py.
use mc_bd.Prelude.{
  ℕ, ◌≡◌, refl, ap, ◌∙◌, Bool, true, false, ◌&&◌, Option, none, some, List, [], ◌∷◌, ◌++◌, inl, inr,
  Bool-cases, arith,
}
use mc_bd.Prelude.Text.{Text, codes, text_eq, starts_with, eq_of_text_eq, text_eq_refl}
use mc_bd.Errors.{Result, ok, err, err_ne_ok}
use mc_bd.Redis.{Redis, mem}
use mc_bd.Platform.{Platform}
use mc_bd.Plugins.Host.{Host, PluginWorld}
use mc_bd.Plugins.Registry.{
  plugin_key, changed_key, changed_name, changed, contains, backup_mark, is_plugin, plugins_among,
  read_plugins, cached_or, get_plugins, inject_error, check_info, plugin_status_checker,
}
use mc_bd.Plugins.Registry.Restart.{text_eq-plugin_key}
use mc_bd.Plugins.Requirements.{Python, uninstall_requirements}
use mc_bd.Plugins.Install.{backup_name, moved_away, uninstall}

contains-append : (p a b : Text) → contains p b ≡ true → contains p (a ++ b) ≡ true
unfolding contains
contains-append p [] b h = h
contains-append p (c ∷ a) b h = ground (arith, contains-append p a b h)

is_backup : (p t : Text) → contains backup_mark (backup_name p t) ≡ true
unfolding backup_name contains backup_mark starts_with
is_backup p t =
    contains-append backup_mark p (b'.' ∷ (t ++ codes ".backup"))
      (contains-append backup_mark (b'.' ∷ t) (codes ".backup") refl)

module _ (H : Host) where
  -- The list holds the names whose folders are plugins.
  pub mem-plugins_among :
      (d : H.Disk) (names : List Text) (p : Text)
      → mem p (plugins_among H d names) ≡ (mem p names && is_plugin H p (H.folder d p))
  unfolding plugins_among mem
  mem-plugins_among d [] p = refl
  mem-plugins_among d (n ∷ names) p = elim (Bool-cases (text_eq n p)) [
    | inl same ↦ rw (eq_of_text_eq n p same) (elim (Bool-cases (is_plugin H p (H.folder d p))) [
      | inl plugin ↦ rw plugin (rw (text_eq_refl p))
      | inr none_ ↦ rw none_ (mem-plugins_among d names p ∙ ground (arith, none_, text_eq_refl p))
    ])
    | inr apart ↦ elim (Bool-cases (is_plugin H n (H.folder d n))) [
      | inl plugin ↦ rw plugin (rw apart (mem-plugins_among d names p))
      | inr none_ ↦ rw none_ (rw apart (mem-plugins_among d names p))
    ]
  ]

  not_listed :
      (d : H.Disk) (p : Text)
      → is_plugin H p (H.folder d p) ≡ false
      → mem p (read_plugins H d) ≡ false
  unfolding read_plugins
  not_listed d p h = mem-plugins_among d (H.listdir d) p ∙ ground (arith, h)

  backup_not_plugin :
      (p t : Text) (o : Option (List Text)) → is_plugin H (backup_name p t) o ≡ false
  unfolding is_plugin
  backup_not_plugin p t none = refl
  backup_not_plugin p t (some files) = ground (arith, is_backup p t)

longer_differs : (p r : Text) (c : ℕ) → text_eq p (p ++ (c ∷ r)) ≡ false
unfolding text_eq
longer_differs [] r c = refl
longer_differs (x ∷ p) r c = ground (arith, longer_differs p r c)

backup_differs : (p t : Text) → text_eq p (backup_name p t) ≡ false
unfolding backup_name
backup_differs p t = longer_differs p (t ++ codes ".backup") b'.'

-- A folder that has been moved to another name is no longer there.
pub record LeavesPlace (H : Host) : Type 0 where
  pub left : (d : H.Disk) (a b : Text) → text_eq a b ≡ false → H.folder (H.move d a b) a ≡ none

module _ (R : Redis) (P : Platform) (H : Host) (Y : Python H) (leaves : LeavesPlace H) where
  flag_set : (s : R.Store) (t : Text) → R.get (R.put s changed_key t) changed_key ≡ some t
  flag_set s t = rw (R.get-put, text_eq_refl changed_key)

  key_gone :
      (s : R.Store) (p t : Text)
      → text_eq changed_name p ≡ false
      → R.get (R.put (R.remove s (plugin_key p)) changed_key t) (plugin_key p) ≡ none
  unfolding changed_key
  key_gone s p t n =
      R.get-put (R.remove s (plugin_key p)) changed_key t (plugin_key p)
      ∙ rw (text_eq-plugin_key changed_name p, n) removed
    where
      removed : R.get (R.remove s (plugin_key p)) (plugin_key p) ≡ none
      removed = rw (R.get-remove, text_eq_refl (plugin_key p))

  -- The next start finds neither the plugin nor its copy, the running process keeps its list, the check
  -- of the plugin fails, and the flag is set.
  abbrev pub Removed : Text → Text → List Text → PluginWorld R H → Type 0
  Removed t p l w =
      (mem p (read_plugins H w.disk) ≡ false)
      × (mem (backup_name p t) (read_plugins H w.disk) ≡ false)
      × (get_plugins H w.disk ≡ l)
      × (plugin_status_checker R P H p w.store ≡ err inject_error)
      × (changed R P H w.store ≡ some (codes "ture"))

  moved-Removed :
      (t p : Text) (l : List Text) (w : PluginWorld R H) (x : Result (Unit {0}) × H.Disk)
      → H.cached_plugins ≡ some l
      → text_eq changed_name p ≡ false
      → (moved_away R H Y p t w x).0 ≡ ok tt
      → Removed t p l (moved_away R H Y p t w x).1
  unfolding is_plugin get_plugins plugin_status_checker check_info changed changed_key
  moved-Removed t p l w (err e, d) kept n h = absurd (err_ne_ok e tt h)
  moved-Removed t p l w (ok u, d) kept n h = (
    not_listed H (H.move d p (backup_name p t)) p
        (ap (is_plugin H p) (leaves.left d p (backup_name p t) (backup_differs p t))),
    not_listed H (H.move d p (backup_name p t)) (backup_name p t) (backup_not_plugin H p t _),
    ap (λ o. cached_or H o (read_plugins H (H.move d p (backup_name p t)))) kept,
    ap (check_info R P H p) (key_gone w.store p (codes "ture") n),
    flag_set (R.remove w.store (plugin_key p)) (codes "ture"),
  )

  -- A plugin, but one called `changed`, whose removal returned is not on the list of plugins that
  -- the next start reads, and neither is the copy of its folder that is kept; the running process,
  -- which keeps the list of its own start, still has that list; the check of the plugin fails from
  -- now on, and the flag of changed plugins is set.
  pub uninstall-Removed :
      (is_dev : Bool) (t p : Text) (l : List Text) (w : PluginWorld R H)
      → H.cached_plugins ≡ some l
      → text_eq changed_name p ≡ false
      → (uninstall R H Y is_dev t p w).0 ≡ ok tt
      → Removed t p l (uninstall R H Y is_dev t p w).1
  unfolding uninstall
  uninstall-Removed false t p l w kept n h = absurd (err_ne_ok _ tt h)
  uninstall-Removed true t p l w kept n h = elim (Bool-cases (H.exists w.disk p)) [
    | inl there ↦
        rw there
          (moved-Removed t p l w (uninstall_requirements H Y p w.disk) kept n (rw there at h))
    | inr gone ↦ absurd (err_ne_ok _ tt (rw gone at h))
  ]
