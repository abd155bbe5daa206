-- ===== src/Avatars/Inside.antt =====
-- Which files the removal of a picture may touch.
use mc_bd.Prelude.{
  ◌≡◌, ◌≢◌, refl, ◌∙◌, Bool, false, not, ◌||◌, Option, none, some, List, [], ◌∷◌, inl, inr,
  Bool-cases,
}
use mc_bd.Prelude.Text.{Text, codes}
use mc_bd.Redis.{mem}
use mc_bd.Plugins.Config.{skip}
use mc_bd.Plugins.Registry.{contains}
use mc_bd.Plugins.Install.{before_first, behind}
use mc_bd.Avatars.{
  Uploads, slash, kept_or, removable, remove_at, local_path, remove_upload_file_if_local,
  upload_url_prefix,
}

-- The path leads up, or its first part is none of the folders.
abbrev pub is_outside : List Text → Text → Bool
is_outside subdirs f = contains (codes "..") f || not (mem (before_first b'/' f) subdirs)

module _ (U : Uploads) where
  open U use {Disk, is_file, unlink, passes, passes_self, file-unlink}

  -- No path that leads nowhere up and begins with one of the folders comes to this file.
  abbrev pub IsApart : List Text → Disk → Text → Type 0
  IsApart subdirs d f = (rel : Text) → is_outside subdirs rel ≡ false → passes d rel f ≡ false

  kept_or-apart :
      (d : Disk) (rel f : Text)
      → passes d rel f ≡ false
      → is_file (kept_or U d (unlink d rel)) f ≡ is_file d f
  kept_or-apart d rel f h = after (unlink d rel) refl
    where
      after : (o : Option Disk) → unlink d rel ≡ o → is_file (kept_or U d o) f ≡ is_file d f
      after none e = refl
      after (some d') e = file-unlink d d' rel f e ∙ rw h refl

  remove_at-apart :
      (d : Disk) (rel f : Text)
      → passes d rel f ≡ false
      → is_file (remove_at U d (some rel)) f ≡ is_file d f
  remove_at-apart d rel f h = elim (Bool-cases (is_file d rel)) [
    | inl there ↦ rw there (kept_or-apart d rel f h)
    | inr gone ↦ rw gone refl
  ]

  removable-apart :
      (subdirs : List Text) (d : Disk) (t f : Text)
      → IsApart subdirs d f
      → is_file (remove_at U d (removable U subdirs t)) f ≡ is_file d f
  unfolding removable
  removable-apart subdirs d [] f h = refl
  removable-apart subdirs d (c ∷ t) f h = elim (Bool-cases (is_outside subdirs (c ∷ t))) [
    | inl outside ↦ rw outside refl
    | inr inside ↦ rw inside (remove_at-apart d (c ∷ t) f (h (c ∷ t) inside))
  ]

  local_path-apart :
      (subdirs : List Text) (d : Disk) (o : Option Text) (f : Text)
      → IsApart subdirs d f
      → is_file (remove_at U d (local_path U subdirs o)) f ≡ is_file d f
  local_path-apart subdirs d none f h = refl
  local_path-apart subdirs d (some t) f h = removable-apart subdirs d (skip slash t) f h

  -- The removal of a picture, whatever its address is, leaves each file alone that no path without
  -- two dots whose first part is one of the allowed folders comes to, links and other spellings of
  -- a path included.
  pub removal_inside :
      (url : Option Text) (subdirs : List Text) (d : Disk) (f : Text)
      → IsApart subdirs d f
      → is_file (remove_upload_file_if_local U url subdirs d) f ≡ is_file d f
  unfolding remove_upload_file_if_local
  removal_inside none subdirs d f h = refl
  removal_inside (some url) subdirs d f h =
      local_path-apart subdirs d (behind upload_url_prefix (U.strip url)) f h

  -- A file that may be removed is gone, if it can be unlinked.
  pub remove_at_self :
      (d : Disk) (f : Text) → (unlink d f ≢ none) → is_file (remove_at U d (some f)) f ≡ false
  remove_at_self d f can = elim (Bool-cases (is_file d f)) [
    | inl there ↦ rw there (after (unlink d f) refl)
    | inr gone ↦ rw gone gone
  ]
    where
      after : (o : Option Disk) → unlink d f ≡ o → is_file (kept_or U d o) f ≡ false
      after none e = absurd (can e)
      after (some d') e = file-unlink d d' f f e ∙ rw (passes_self d f) refl
