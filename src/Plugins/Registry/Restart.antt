-- ===== src/Plugins/Registry/Restart.antt =====
-- What a restart does with the keys of the plugins in Redis: parse_plugin_config of
-- backend/plugin/core.py.
use mc_bd.Prelude.{
  ◌≡◌, refl, ap, sym, ◌∙◌, true, false, Option, none, some, List, [], ◌∷◌, map, if◌then◌else◌,
  arith, Bool-cases, inl, inr, All,
}
use mc_bd.Prelude.Text.{Text, text_eq, starts_with-append, eq_of_text_eq, text_eq_refl}
use mathlib.Core.Path.{subst}
use mc_bd.Errors.{Result, ok, err, err_ne_ok}
use mc_bd.Redis
use mc_bd.Redis.{Redis, mem}
use mc_bd.Redis.Prefix.{get-delete_prefix}
use mc_bd.Platform.{Platform}
use mc_bd.Plugins.Config.{PluginConfig, PluginLevelType}
use mc_bd.Plugins.Host.{Host}
use mc_bd.Plugins.Registry.{
  plugin_prefix, plugin_key, changed_name, changed_key, completed, load_plugin_config, kept_enable,
  Levelled, Collected, cache_plugin, checked, parsed, parse_one, go_on, parse_all, reset_changed,
  parse_plugin_config, collect, then_ok,
}

-- The names are different.
abbrev pub Distinct : List Text → Type 0
Distinct [] = Unit
Distinct (p ∷ ps) = (mem p ps ≡ false) × Distinct ps

pub text_eq-plugin_key : (p q : Text) → text_eq (plugin_key p) (plugin_key q) ≡ text_eq p q
unfolding plugin_key plugin_prefix text_eq
text_eq-plugin_key p q = refl

mem-map : (p : Text) (ps : List Text) → mem (plugin_key p) (map plugin_key ps) ≡ mem p ps
unfolding mem
mem-map p [] = refl
mem-map p (q ∷ ps) = rw (text_eq-plugin_key q p, mem-map p ps)

others : (p : Text) (ps : List Text) → mem p ps ≡ false → All (λ q. text_eq q p ≡ false) ps
unfolding mem
others p [] h = tt
others p (q ∷ ps) h = elim (Bool-cases (text_eq q p)) [
  | inl same ↦ absurd (ground (arith, h, same))
  | inr other ↦ (other, others p ps (ground (arith, h, other)))
]

module _ (R : Redis) (P : Platform) (H : Host) where
  open R use {Store, get, put, remove, get-put, get-remove}

  -- The configuration of the plugin is loaded from its folder, and stored with the name and with the
  -- switch that the old value gives.
  pub record IsRegistered (d : H.Disk) (p : Text) (old new : Option Text) : Type 0 where
    pub config : PluginConfig
    pub enable : Text
    pub loaded : load_plugin_config H d p ≡ ok config
    pub kept : kept_enable H old ≡ ok enable
    pub stored : new ≡ some (H.dumps (completed p enable config))

  cache_plugin-other :
      (p : Text) (c : PluginConfig) (r : Result Text) (s : Store) (j : Text)
      → text_eq (plugin_key p) j ≡ false
      → get (cache_plugin R P H p c r s).1 j ≡ get s j
  unfolding cache_plugin
  cache_plugin-other p c (err e) s j h = refl
  cache_plugin-other p c (ok e) s j h = rw (get-put, h)

  checked-other :
      (p : Text) (c : PluginConfig) (s : Store) (v : Result PluginLevelType) (j : Text)
      → text_eq (plugin_key p) j ≡ false
      → get (checked R P H p c s v).1 j ≡ get s j
  unfolding checked
  checked-other p c s (err e) j h = refl
  checked-other p c s (ok level) j h = cache_plugin-other p c _ s j h

  parsed-other :
      (p : Text) (s : Store) (r : Result PluginConfig) (j : Text)
      → text_eq (plugin_key p) j ≡ false
      → get (parsed R P H p s r).1 j ≡ get s j
  unfolding parsed
  parsed-other p s (err e) j h = refl
  parsed-other p s (ok c) j h = checked-other p c s _ j h

  go_on-other :
      (x : Result Levelled × Store) (rest : Store → Result Collected × Store) (j : Text)
      → ((s : Store) → get (rest s).1 j ≡ get s j)
      → get (go_on R P H x rest).1 j ≡ get x.1 j
  go_on-other (err e, s) rest j h = refl
  go_on-other (ok (level, c), s) rest j h = h s

  -- The loop writes the keys of its plugins only.
  parse_all-other :
      (d : H.Disk) (ps : List Text) (s : Store) (j : Text)
      → All (λ q. text_eq (plugin_key q) j ≡ false) ps
      → get (parse_all R P H d ps s).1 j ≡ get s j
  unfolding parse_all parse_one
  parse_all-other d [] s j h = refl
  parse_all-other d (p ∷ ps) s j h =
      go_on-other (parse_one R P H d p s) (parse_all R P H d ps) j
        (λ s'. parse_all-other d ps s' j h.1)
      ∙ parsed-other p s (load_plugin_config H d p) j h.0

  cache_plugin-ok :
      (d : H.Disk) (p : Text) (c : PluginConfig) (r : Result Text) (s : Store) (l : PluginConfig)
      (old : Option Text)
      → load_plugin_config H d p ≡ ok c
      → kept_enable H old ≡ r
      → (cache_plugin R P H p c r s).0 ≡ ok l
      → IsRegistered d p old (get (cache_plugin R P H p c r s).1 (plugin_key p))
  unfolding cache_plugin
  cache_plugin-ok d p c (err e) s l old hc hr h = absurd (err_ne_ok e l h)
  cache_plugin-ok d p c (ok e) s l old hc hr h = record {
    config = c;
    enable = e;
    loaded = hc;
    kept = hr;
    stored = rw (get-put, text_eq_refl (plugin_key p));
  }

  then_value :
      {A B : Type 0} (r : Result A) (f : A → Result B) (b : B)
      → then_ok r f ≡ ok b
      → (a : A) × (r ≡ ok a)
  then_value (ok a) f b h = (a, refl)
  then_value (err e) f b h = absurd (err_ne_ok e b h)

  checked-ok :
      (d : H.Disk) (p : Text) (c : PluginConfig) (s : Store) (v : Result PluginLevelType)
      (l : Levelled)
      → load_plugin_config H d p ≡ ok c
      → (checked R P H p c s v).0 ≡ ok l
      → IsRegistered d p (get s (plugin_key p)) (get (checked R P H p c s v).1 (plugin_key p))
  unfolding checked
  checked-ok d p c s (err e) l hc h = absurd (err_ne_ok e l h)
  checked-ok d p c s (ok level) l hc h =
      let (l', e) =
        then_value (cache_plugin R P H p c (kept_enable H (get s (plugin_key p))) s).0
          (λ c'. ok (level, c')) l h in
      cache_plugin-ok d p c (kept_enable H (get s (plugin_key p))) s l' (get s (plugin_key p)) hc
        refl e

  parsed-ok :
      (d : H.Disk) (p : Text) (s : Store) (r : Result PluginConfig) (l : Levelled)
      → load_plugin_config H d p ≡ r
      → (parsed R P H p s r).0 ≡ ok l
      → IsRegistered d p (get s (plugin_key p)) (get (parsed R P H p s r).1 (plugin_key p))
  unfolding parsed
  parsed-ok d p s (err e) l hr h = absurd (err_ne_ok e l h)
  parsed-ok d p s (ok c) l hr h = checked-ok d p c s _ l hr h

  collected :
      (level : PluginLevelType) (c : PluginConfig) (x : Result Collected) (r : Collected)
      → collect level c x ≡ ok r
      → (r' : Collected) × (x ≡ ok r')
  unfolding collect
  collected level c (ok r') r h = (r', refl)
  collected level c (err e) r h = absurd (err_ne_ok e r h)

  -- Both parts of a loop that returned have returned.
  record Went (x : Result Levelled × Store) (rest : Store → Result Collected × Store) : Type 0 where
    one : Levelled
    others : Collected
    first : x.0 ≡ ok one
    then_ : (rest x.1).0 ≡ ok others
    end : (go_on R P H x rest).1 ≡ (rest x.1).1

  go_on-Went :
      (x : Result Levelled × Store) (rest : Store → Result Collected × Store) (r : Collected)
      → (go_on R P H x rest).0 ≡ ok r
      → Went x rest
  go_on-Went (err e, s) rest r h = absurd (err_ne_ok e r h)
  go_on-Went (ok (level, c), s) rest r h =
      let (r', e) = collected level c (rest s).0 r h in
      record { one = (level, c); others = r'; first = refl; then_ = e; end = refl }

  keys_apart :
      (q : Text) (l : List Text)
      → All (λ k. text_eq k q ≡ false) l
      → All (λ k. text_eq (plugin_key k) (plugin_key q) ≡ false) l
  keys_apart q [] k = tt
  keys_apart q (x ∷ l) k = (text_eq-plugin_key x q ∙ k.0, keys_apart q l k.1)

  mem_rest :
      (q p : Text) (ps : List Text) → text_eq q p ≡ false → mem p (q ∷ ps) ≡ true → mem p ps ≡ true
  unfolding mem
  mem_rest q p ps e k = ground (arith, e, k)

  -- Each plugin of the list is registered, from what its key held before.
  parse_all-IsRegistered :
      (d : H.Disk) (p : Text) (ps : List Text) (s : Store) (r : Collected)
      → Distinct ps
      → mem p ps ≡ true
      → (parse_all R P H d ps s).0 ≡ ok r
      → IsRegistered d p (get s (plugin_key p)) (get (parse_all R P H d ps s).1 (plugin_key p))
  unfolding mem parse_all parse_one
  parse_all-IsRegistered d p [] s r u m h = cc
  parse_all-IsRegistered d p (q ∷ ps) s r u m h =
      let w = go_on-Went (parse_one R P H d q s) (parse_all R P H d ps) r h in
      elim (Bool-cases (text_eq q p)) [
        | inl same ↦
            subst
              (λ (k : Text).
                IsRegistered d k (get s (plugin_key k))
                  (get (parse_all R P H d (q ∷ ps) s).1 (plugin_key k)))
              (eq_of_text_eq q p same)
              (subst (λ (o : Option Text). IsRegistered d q (get s (plugin_key q)) o)
                (sym (
                  ap (λ (t : Store). get t (plugin_key q)) w.end
                  ∙ parse_all-other d ps _ (plugin_key q) (keys_apart q ps (others q ps u.0))))
                (parsed-ok d q s (load_plugin_config H d q) w.one refl w.first))
        | inr other ↦
            subst
              (λ (o : Option Text).
                IsRegistered d p o (get (parse_all R P H d (q ∷ ps) s).1 (plugin_key p)))
              (parsed-other q s (load_plugin_config H d q) (plugin_key p)
                (text_eq-plugin_key q p ∙ other))
              (subst
                (λ (t : Store).
                  IsRegistered d p (get (parse_one R P H d q s).1 (plugin_key p))
                    (get t (plugin_key p)))
                (sym w.end)
                (parse_all-IsRegistered d p ps (parse_one R P H d q s).1 w.others u.1
                  (mem_rest q p ps other m) w.then_))
      ]

  -- Before the loop, the keys of plugins that are not on the list are gone.
  pruned : (ps : List Text) (s : Store) → Store
  pruned ps s = Redis.delete_prefix R plugin_prefix (map plugin_key ps) 1000 s

  get-pruned :
      (p : Text) (ps : List Text) (s : Store)
      → get (pruned ps s) (plugin_key p) ≡ (if mem p ps then get s (plugin_key p) else none)
  unfolding pruned plugin_key
  get-pruned p ps s =
      get-delete_prefix R plugin_prefix (map plugin_key ps) 1000 s (plugin_key p)
      ∙ ground (arith, mem-map p ps, starts_with-append plugin_prefix (b':' ∷ p))

  reset-get :
      (x : Result Collected × Store) (p : Text)
      → text_eq changed_name p ≡ false
      → get (reset_changed R P H x).1 (plugin_key p) ≡ get x.1 (plugin_key p)
  unfolding reset_changed changed_key
  reset-get (err e, s) p h = refl
  reset-get (ok r, s) p h = rw (get-remove, text_eq-plugin_key changed_name p, h)

  reset-none :
      (x : Result Collected × Store) (j : Text)
      → get x.1 j ≡ none
      → get (reset_changed R P H x).1 j ≡ none
  unfolding reset_changed
  reset-none (err e, s) j h = h
  reset-none (ok r, s) j h = ground (arith, get-remove s changed_key j, h)

  reset-ok :
      (x : Result Collected × Store) (r : Collected) → (reset_changed R P H x).0 ≡ ok r → x.0 ≡ ok r
  unfolding reset_changed
  reset-ok (err e, s) r h = h
  reset-ok (ok r', s) r h = h

  apart_of_absent :
      (j : Text) (ps : List Text)
      → mem j ps ≡ false
      → All (λ q. text_eq (plugin_key q) (plugin_key j) ≡ false) ps
  apart_of_absent j ps h = keys_apart j ps (others j ps h)

  -- After a restart, one that fails included, the prefix of the plugins holds no value under a name
  -- that is not on the list of plugins.
  pub parse-absent :
      (d : H.Disk) (ps : List Text) (s : Store) (j : Text)
      → mem j ps ≡ false
      → get (parse_plugin_config R P H d ps s).1 (plugin_key j) ≡ none
  unfolding parse_plugin_config pruned
  parse-absent d ps s j h = reset-none (parse_all R P H d ps (pruned ps s)) (plugin_key j) (
      parse_all-other d ps (pruned ps s) (plugin_key j) (apart_of_absent j ps h)
      ∙ get-pruned j ps s
      ∙ rw h)

  -- A restart that succeeds registers each plugin of a list of different names, but one called
  -- `changed`: its configuration is the one in its folder, with its name, and with the switch that
  -- Redis had before the restart, or on if Redis had none.
  pub parse-IsRegistered :
      (d : H.Disk) (p : Text) (ps : List Text) (s : Store) (r : Collected)
      → Distinct ps
      → mem p ps ≡ true
      → text_eq changed_name p ≡ false
      → (parse_plugin_config R P H d ps s).0 ≡ ok r
      → IsRegistered d p
          (get s (plugin_key p))
          (get (parse_plugin_config R P H d ps s).1 (plugin_key p))
  unfolding parse_plugin_config pruned
  parse-IsRegistered d p ps s r u m n h =
      subst
        (λ (o : Option Text).
          IsRegistered d p o (get (parse_plugin_config R P H d ps s).1 (plugin_key p)))
        (get-pruned p ps s ∙ rw m)
        (subst (λ (o : Option Text). IsRegistered d p (get (pruned ps s) (plugin_key p)) o)
          (sym (reset-get (parse_all R P H d ps (pruned ps s)) p n))
          (parse_all-IsRegistered d p ps (pruned ps s) r u m
            (reset-ok (parse_all R P H d ps (pruned ps s)) r h)))
