-- ===== src/Plugins/Remote/Urls.antt =====
-- The stored addresses of plugin lists: what is read back, and what a restart and the list of all
-- plugins make of them.
use mathlib.Core.Path.{subst}
use mc_bd.Prelude.{
  ◌≡◌, refl, ap, sym, ◌∙◌, true, false, ◌&&◌, Option, none, some, List, [], ◌∷◌, ◌++◌, map, ◌⊎◌,
  inl, inr, arith, Bool-cases,
}
use mc_bd.Prelude.Text.{Text, text_eq, text_eq_refl, eq_of_text_eq, starts_with}
use mc_bd.Redis.{Redis, mem, is_some}
use mc_bd.Platform.{Platform}
use mc_bd.Plugins.Host.{Host, Json, items}
use mc_bd.Plugins.Registry.{
  plugin_key, plugin_prefix, changed_name, changed_key, parse_plugin_config, parsed_into, infos,
  info_of, get_all,
}
use mc_bd.Plugins.Registry.Restart.{parse-absent}
use mc_bd.Plugins.Remote.{
  url_name, urls_name, remote_list_url_key, remote_list_urls_key, filled, nonblank, texts, urls_of,
  single_url, urls_or, cleaned, get_remote_list_urls, set_remote_list_urls, put_first,
}

keys_differ : text_eq remote_list_url_key remote_list_urls_key ≡ false
unfolding remote_list_url_key remote_list_urls_key plugin_key plugin_prefix url_name urls_name
    text_eq
keys_differ = refl

flag_differs : text_eq remote_list_urls_key changed_key ≡ false
unfolding remote_list_urls_key changed_key changed_name plugin_key plugin_prefix urls_name text_eq
flag_differs = refl

prefixed : starts_with (plugin_prefix ++ b':' ∷ []) remote_list_urls_key ≡ true
unfolding remote_list_urls_key plugin_key plugin_prefix urls_name starts_with
prefixed = refl

-- The value is on the list.
abbrev pub Has : Json → List Json → Type 0
Has j [] = ⊥
Has j (k ∷ l) = (j ≡ k) ⊎ Has j l

module _ (H : Host) where
  texts-map : (l : List Text) → texts H (map some l) ≡ l
  unfolding texts
  texts-map [] = refl
  texts-map (t ∷ l) = ap (λ (u : List Text). t ∷ u) (texts-map l)

  nonblank-cleaned : (l : List Text) → nonblank H (cleaned H l) ≡ cleaned H l
  unfolding nonblank cleaned
  nonblank-cleaned [] = refl
  nonblank-cleaned (u ∷ l) = elim (Bool-cases (filled u && filled (H.strip u))) [
    | inl stays ↦ rw stays (rw (H.strip-strip u, nonblank-cleaned l) (rw (strip_filled stays)))
    | inr goes ↦ rw goes (nonblank-cleaned l)
  ]
    where
      strip_filled : (filled u && filled (H.strip u)) ≡ true → filled (H.strip u) ≡ true
      strip_filled h = ground (arith, h)

  module _ (R : Redis) where
    open R use {Store, get, put, scan, get-put, mem-scan}

    urls_or-dumps :
        (l : List Text) (o : Option Text) → urls_or H (some (H.dumps_list l)) o ≡ nonblank H l
    unfolding urls_or urls_of
    urls_or-dumps l o =
        let (e, t, h) = H.dumps_list-present l in
        ap (λ (u : Text). urls_or H (some u) o) h
        ∙ ap (urls_of H) (ap H.loads (sym h) ∙ H.loads-dumps_list l)
        ∙ ap (nonblank H) (texts-map l)

    get-put_first :
        (l : List Text) (s : Store)
        → get (put_first H R l s) remote_list_urls_key ≡ get s remote_list_urls_key
    unfolding put_first
    get-put_first [] s = refl
    get-put_first (u ∷ l) s = rw (get-put, keys_differ)

    stored_urls :
        (urls : List Text) (s : Store)
        → get (set_remote_list_urls H R urls s) remote_list_urls_key
          ≡ some (H.dumps_list (cleaned H urls))
    unfolding set_remote_list_urls
    stored_urls urls s =
        get-put_first (cleaned H urls) _ ∙ rw (get-put, text_eq_refl remote_list_urls_key)

    -- The addresses that were set last are read back, without those that are blank and without the
    -- blanks around them, also if there are none.
    pub get-set_remote_list_urls :
        (urls : List Text) (s : Store)
        → get_remote_list_urls H R (set_remote_list_urls H R urls s) ≡ cleaned H urls
    unfolding get_remote_list_urls
    get-set_remote_list_urls urls s =
        ap
          (λ (o : Option Text).
            urls_or H o (get (set_remote_list_urls H R urls s) remote_list_url_key))
          (stored_urls urls s)
        ∙ urls_or-dumps (cleaned H urls) _
        ∙ nonblank-cleaned urls

    module _ (P : Platform) where
      Has-info_of :
          (j : Json) (l : List Json) (o : Option Text) → Has j l → Has j (info_of R P H l o)
      unfolding info_of
      Has-info_of j l none h = h
      Has-info_of j l (some []) h = h
      Has-info_of j l (some (c ∷ t)) h = passed (H.loads (c ∷ t))
        where
          passed : (v : Option Json) → Has j (parsed_into R P H l v)
          passed none = h
          passed (some k) = inr h

      info_of-dumps :
          (t : List Text) (l : List Json)
          → Has (items (map some t)) (info_of R P H l (some (H.dumps_list t)))
      unfolding info_of
      info_of-dumps t l =
          let (e, u, h) = H.dumps_list-present t in
          subst (λ (v : Text). Has (items (map some t)) (info_of R P H l (some v))) (sym h)
            (subst (λ (v : Option Json). Has (items (map some t)) (parsed_into R P H l v))
              (sym (ap H.loads (sym h) ∙ H.loads-dumps_list t)) (inl refl))

      infos-Has :
          (s : Store) (t : List Text) (ks : List Text)
          → get s remote_list_urls_key ≡ some (H.dumps_list t)
          → mem remote_list_urls_key ks ≡ true
          → Has (items (map some t)) (infos R P H s ks)
      unfolding infos mem
      infos-Has s t [] g m = cc
      infos-Has s t (k ∷ ks) g m = elim (Bool-cases (text_eq k remote_list_urls_key)) [
        | inl here ↦
            let e = eq_of_text_eq k remote_list_urls_key here in
            subst (λ (v : Text). Has (items (map some t)) (infos R P H s (v ∷ ks))) (sym e)
              (rw (flag_differs, g) (info_of-dumps t (infos R P H s ks)))
        | inr later ↦
            let ih = infos-Has s t ks g (ground (arith, m, later)) in
            elim (Bool-cases (text_eq k changed_key)) [
              | inl flag ↦ rw flag ih
              | inr more ↦ rw more (Has-info_of (items (map some t)) _ (get s k) ih)
            ]
      ]

      -- Once addresses are set, the list of all plugins holds the list of these addresses as one of
      -- its entries.
      pub get_all-Has_urls :
          (urls : List Text) (s : Store)
          → Has
              (items (map some (cleaned H urls)))
              (get_all R P H (set_remote_list_urls H R urls s))
      unfolding get_all
      get_all-Has_urls urls s =
          infos-Has (set_remote_list_urls H R urls s) (cleaned H urls)
            (scan (set_remote_list_urls H R urls s) (plugin_prefix ++ b':' ∷ []))
            (stored_urls urls s)
            (mem-scan (set_remote_list_urls H R urls s) (plugin_prefix ++ b':' ∷ [])
                remote_list_urls_key
              ∙ rw (prefixed, ap is_some (stored_urls urls s)))

      -- After a restart no address is left, if no plugin has the name of one of the two keys: the
      -- restart clears the prefix of the plugins, under which the addresses stand.
      pub restart_forgets_urls :
          (d : H.Disk) (ps : List Text) (s : Store)
          → mem url_name ps ≡ false
          → mem urls_name ps ≡ false
          → get_remote_list_urls H R (parse_plugin_config R P H d ps s).1 ≡ []
      unfolding get_remote_list_urls remote_list_url_key remote_list_urls_key urls_or single_url
      restart_forgets_urls d ps s h k =
          rw (parse-absent R P H d ps s urls_name k, parse-absent R P H d ps s url_name h)
