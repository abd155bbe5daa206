-- ===== src/Plugins/Registry/Switch.antt =====
-- The switch of a plugin: update_status of backend/app/admin/service/plugin_service.py and the check
-- that the routes of a plugin depend on, in backend/plugin/core.py, across a restart too.
use mathlib.Core.Path.{subst}
use mc_bd.Prelude.{
  ℕ, ◌≡◌, refl, ap, sym, ◌∙◌, true, false, Option, some, List, ◌∷◌, ◌⊎◌, inl, inr, if◌then◌else◌,
}
use mc_bd.Prelude.Text.{Text, text_eq, text_eq_refl, decimal}
use mc_bd.Errors.{Result, ok, err}
use mc_bd.Redis.{Redis, mem}
use mc_bd.Platform.{Platform}
use mc_bd.Plugins.Config.{PluginConfig}
use mc_bd.Plugins.Host.{Host, config}
use mc_bd.Plugins.Registry.{
  plugin_key, changed_name, enabled, disabled, plugin_disabled, with_enable, completed,
  enable_field, enable_of, toggled, require_enabled, kept_enable, check_info, plugin_status_checker,
  toggle, switch, update_status, write_back, parse_plugin_config, Collected, then_ok,
}
use mc_bd.Plugins.Registry.Restart.{Distinct, parse-IsRegistered}

-- The verdict of the check for a switch that is on or off
abbrev pub verdict_of : Text → Text → Result (Unit {0})
verdict_of p e = if text_eq e disabled then err (plugin_disabled p) else ok tt

module _ (R : Redis) (P : Platform) (H : Host) where
  open R use {Store, get, put, get-put}

  -- Redis holds a configuration of the plugin, with this switch.
  pub record HasSwitch (s : Store) (p e : Text) : Type 0 where
    pub info : PluginConfig
    pub stored : get s (plugin_key p) ≡ some (H.dumps info)
    pub switch_is : info.info.enable ≡ some e

  read_back :
      (c : PluginConfig) (e : ℕ) (t : Text) → H.dumps c ≡ e ∷ t → H.loads (e ∷ t) ≡ some (config c)
  read_back c e t h = ap H.loads (sym h) ∙ H.loads-dumps c

  pub kept-dumps :
      (c : PluginConfig) → kept_enable H (some (H.dumps c)) ≡ enable_field c.info.enable
  unfolding kept_enable enable_of
  kept-dumps c =
      let (e, t, h) = H.dumps-present c in
      ap (λ (u : Text). kept_enable H (some u)) h ∙ ap enable_of (read_back c e t h)

  check-dumps :
      (p : Text) (c : PluginConfig)
      → check_info R P H p (some (H.dumps c))
        ≡ then_ok (enable_field c.info.enable) (λ e. require_enabled p (P.int_of e))
  unfolding check_info enable_of
  check-dumps p c =
      let (e, t, h) = H.dumps-present c in
      ap (λ (u : Text). check_info R P H p (some u)) h
      ∙ ap (λ o. then_ok (enable_of o) (λ k. require_enabled p (P.int_of k))) (read_back c e t h)

  switch-dumps :
      (p : Text) (s : Store) (c : PluginConfig) (k : Text)
      → c.info.enable ≡ some k
      → switch R P H p s (some (H.dumps c))
        ≡ (ok tt, put s (plugin_key p) (H.dumps (with_enable (toggled k) c)))
  unfolding switch toggle enable_of
  switch-dumps p s c k hk =
      let (e, t, h) = H.dumps-present c in
      ap (λ (u : Text). switch R P H p s (some u)) h
      ∙ ap (λ o. write_back R P H p s (toggle R P H o)) (read_back c e t h)
      ∙ ap
          (λ (o : Option Text).
            write_back R P H p s (then_ok (enable_field o) (λ j. ok (with_enable (toggled j) c))))
          hk

  -- What the call writes, from a key that holds a configuration
  update_status-writes :
      (s : Store) (p e : Text) (w : HasSwitch s p e)
      → update_status R P H p s
        ≡ (ok tt, put s (plugin_key p) (H.dumps (with_enable (toggled e) w.info)))
  unfolding update_status
  update_status-writes s p e w =
      ap (switch R P H p s) w.stored ∙ switch-dumps p s w.info e w.switch_is

  put-HasSwitch :
      (s : Store) (p e : Text) (c : PluginConfig)
      → c.info.enable ≡ some e
      → HasSwitch (put s (plugin_key p) (H.dumps c)) p e
  put-HasSwitch s p e c h = record {
    info = c;
    stored = rw (get-put, text_eq_refl (plugin_key p));
    switch_is = h;
  }

  with_enable-switch : (e : Text) (c : PluginConfig) → (with_enable e c).info.enable ≡ some e
  unfolding with_enable
  with_enable-switch e c = refl

  pub update_status-HasSwitch :
      (s : Store) (p e : Text)
      → HasSwitch s p e
      → HasSwitch (update_status R P H p s).1 p (toggled e)
  update_status-HasSwitch s p e w =
      subst (λ (t : Store). HasSwitch t p (toggled e))
        (sym (ap (λ r. r.1) (update_status-writes s p e w)))
        (put-HasSwitch s p (toggled e) (with_enable (toggled e) w.info)
          (with_enable-switch (toggled e) w.info))

  -- 1 and 0 as numbers
  require_on : (p : Text) → require_enabled p (P.int_of enabled) ≡ ok tt
  unfolding require_enabled decimal
  require_on p = ap (require_enabled p) (P.int-decimal 1)

  require_off : (p : Text) → require_enabled p (P.int_of disabled) ≡ err (plugin_disabled p)
  unfolding require_enabled decimal
  require_off p = ap (require_enabled p) (P.int-decimal 0)

  require-verdict_of :
      (p e : Text)
      → (e ≡ enabled) ⊎ (e ≡ disabled)
      → require_enabled p (P.int_of e) ≡ verdict_of p e
  unfolding text_eq
  require-verdict_of p e (inl h) = rw h (require_on p)
  require-verdict_of p e (inr h) = rw h (require_off p)

  pub checker-HasSwitch :
      (s : Store) (p e : Text)
      → (e ≡ enabled) ⊎ (e ≡ disabled)
      → HasSwitch s p e
      → plugin_status_checker R P H p s ≡ verdict_of p e
  unfolding plugin_status_checker enable_field
  checker-HasSwitch s p e b w =
      ap (check_info R P H p) w.stored
      ∙ check-dumps p w.info
      ∙ ap (λ (o : Option Text). then_ok (enable_field o) (λ k. require_enabled p (P.int_of k)))
          w.switch_is
      ∙ require-verdict_of p e b

  toggled_is :
      (e : Text) → (e ≡ enabled) ⊎ (e ≡ disabled) → (toggled e ≡ enabled) ⊎ (toggled e ≡ disabled)
  unfolding toggled text_eq
  toggled_is e (inl h) = rw h (inr refl)
  toggled_is e (inr h) = rw h (inl refl)

  verdict-toggled :
      (p e : Text)
      → (e ≡ enabled) ⊎ (e ≡ disabled)
      → verdict_of p (toggled e) ≡ (if text_eq e disabled then ok tt else err (plugin_disabled p))
  unfolding toggled text_eq
  verdict-toggled p e (inl h) = rw h refl
  verdict-toggled p e (inr h) = rw h refl

  restart-HasSwitch :
      (d : H.Disk) (s : Store) (p e : Text) (ps : List Text) (r : Collected)
      → HasSwitch s p e
      → Distinct ps
      → mem p ps ≡ true
      → text_eq changed_name p ≡ false
      → (parse_plugin_config R P H d ps s).0 ≡ ok r
      → HasSwitch (parse_plugin_config R P H d ps s).1 p e
  unfolding completed enable_field
  restart-HasSwitch d s p e ps r w u m n h =
      let g = parse-IsRegistered R P H d p ps s r u m n h in
      let same : ok g.enable ≡ ok e =
        sym g.kept
        ∙ ap (kept_enable H) w.stored
        ∙ kept-dumps w.info
        ∙ ap enable_field w.switch_is in
      record { info = completed p g.enable g.config; stored = g.stored; switch_is = cc same }

  -- If Redis holds the configuration of a plugin with the switch 1 or 0, then update_status returns,
  -- the check of the plugin answers from then on as for the other switch, and goes on to do so after a
  -- restart that succeeds and in which the plugin is on the list of different names and not called
  -- `changed`; every other key keeps its value in update_status.
  pub update_status-checker :
      (d : H.Disk) (s : Store) (p e : Text) (ps : List Text) (r : Collected)
      → HasSwitch s p e
      → (e ≡ enabled) ⊎ (e ≡ disabled)
      → Distinct ps
      → mem p ps ≡ true
      → text_eq changed_name p ≡ false
      → (parse_plugin_config R P H d ps (update_status R P H p s).1).0 ≡ ok r
      → ((update_status R P H p s).0 ≡ ok tt)
        × (plugin_status_checker R P H p (update_status R P H p s).1
            ≡ (if text_eq e disabled then ok tt else err (plugin_disabled p)))
        × (plugin_status_checker R P H p
              (parse_plugin_config R P H d ps (update_status R P H p s).1).1
            ≡ (if text_eq e disabled then ok tt else err (plugin_disabled p)))
        × ((j : Text)
            → text_eq (plugin_key p) j ≡ false
            → get (update_status R P H p s).1 j ≡ get s j)
  update_status-checker d s p e ps r w b u m n h =
      let w' = update_status-HasSwitch s p e w in
      (
        ap (λ t. t.0) (update_status-writes s p e w),
        checker-HasSwitch (update_status R P H p s).1 p (toggled e) (toggled_is e b) w'
            ∙ verdict-toggled p e b,
        checker-HasSwitch (parse_plugin_config R P H d ps (update_status R P H p s).1).1 p
              (toggled e) (toggled_is e b)
              (restart-HasSwitch d (update_status R P H p s).1 p (toggled e) ps r w' u m n h)
            ∙ verdict-toggled p e b,
        λ j k.
            ap (λ (t : Store). get t j) (ap (λ t. t.1) (update_status-writes s p e w))
            ∙ get-put s (plugin_key p) (H.dumps (with_enable (toggled e) w.info)) j
            ∙ rw k refl,
      )
