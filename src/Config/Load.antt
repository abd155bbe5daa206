-- ===== src/Config/Load.antt =====
-- When `_load_config` of backend/utils/dynamic_config.py leaves the settings alone.
use mc_bd.Prelude.{Option-cases, Bool-cases, inl, inr, ◌≡◌, refl, Option, none, some, List, [], ◌∷◌}
use mc_bd.Prelude.Text.{Text}
use mc_bd.Errors.{ok}
use mc_bd.Redis.{Redis}
use mc_bd.Platform.{Platform, user_security}
use mc_bd.Action.{World, KeepsStore, >>=-KeepsStore}
use mc_bd.Settings.{Settings}
use mc_bd.Config.{
  assign, assign_all, load_rows, switched_off, Assignment, config_get, load_config,
  load_user_security_config,
}

module _ (R : Redis) (P : Platform) where
  -- Without the config plugin or its table, nothing is loaded.
  pub load_nothing :
      (w : World R P)
      → P.config_rows w.db user_security ≡ none
      → load_user_security_config R P w ≡ (ok tt, w)
  unfolding load_user_security_config load_config
  load_nothing w e = rw e

  assign-KeepsStore : (o : Option Settings) → KeepsStore (assign R P o)
  unfolding assign
  assign-KeepsStore none w = refl
  assign-KeepsStore (some s) w = refl

  assign_all-KeepsStore :
      (rows : List (Text × Text)) (mapping : List Assignment)
      → KeepsStore (assign_all R P rows mapping)
  unfolding assign_all
  assign_all-KeepsStore rows [] w = refl
  assign_all-KeepsStore rows ((key, set) ∷ mapping) w = elim (Option-cases (config_get key rows)) [
    | inl missing ↦ rw (missing, assign_all) (assign_all-KeepsStore rows mapping w)
    | inr (v, there) ↦
        rw (there, assign_all)
          (>>=-KeepsStore (assign R P (set v w.settings)) _ (assign-KeepsStore (set v w.settings))
            (λ _. assign_all-KeepsStore rows mapping) w)
  ]

  load_rows-KeepsStore :
      (rows : Option (List (Text × Text))) (mapping : List Assignment) (key : Text)
      → KeepsStore (load_rows R P rows mapping key)
  unfolding load_rows
  load_rows-KeepsStore none mapping key w = refl
  load_rows-KeepsStore (some []) mapping key w = refl
  load_rows-KeepsStore (some (row ∷ rows)) mapping key w =
      elim (Bool-cases (switched_off (config_get key (row ∷ rows)))) [
        | inl off ↦ rw off refl
        | inr on ↦ rw on (assign_all-KeepsStore (row ∷ rows) mapping w)
      ]

  pub load_user_security_config-KeepsStore : KeepsStore (load_user_security_config R P)
  unfolding load_user_security_config load_config
  load_user_security_config-KeepsStore w =
      load_rows-KeepsStore (P.config_rows w.db user_security) _ _ w
