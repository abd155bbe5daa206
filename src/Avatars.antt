-- ===== src/Avatars.antt =====
-- backend/app/admin/utils/avatar.py and update_avatar of app/admin/service/user_service.py: the
-- pictures that users upload. The upload folder with its two sub-folders is a state; a path below it is
-- a text. The time stamp and the random part of a file name are arguments.
pub mod Inside
pub mod Sizes
pub mod Foreign
pub mod Concrete
use mc_bd.Prelude.{
  ℕ, ◌+◌, ◌*◌, ◌/◌, ◌==◌, ◌≡◌, ltb, Bool, true, false, not, ◌&&◌, ◌||◌, Option, none, some, List,
  [], ◌∷◌, ◌++◌, length, if◌then◌else◌,
}
use mc_bd.Prelude.Text.{Text, codes, text_eq, starts_with, decimal}
use mc_bd.Errors.{Error, Result, ok, err, bad_request, unexpected}
use mc_bd.Redis.{Redis, mem}
use mc_bd.Platform.{Platform, User, avatar}
use mc_bd.Keys.{jwt_user_key}
use mc_bd.Action.{World}
use mc_bd.Plugins.Config.{at_end, skip}
use mc_bd.Plugins.Registry.{contains}
use mc_bd.Plugins.Install.{before_first, behind}

pub record Uploads : Type 1 where
  pub Disk : Type 0
  -- Path.is_file and Path.unlink, where none is an exception; Path.mkdir with the parents and
  -- Path.write_bytes, where false is an exception and the disk is what it leaves behind
  pub is_file : Disk → Text → Bool
  pub unlink : Disk → Text → Option Disk
  pub mkdir : Disk → Text → Bool × Disk
  pub write_bytes : Disk → Text → List ℕ → Bool × Disk
  -- base64.b64decode with validation; none is an exception
  pub b64decode : Text → Option (List ℕ)
  -- `\w` of re, str.strip and str.lower
  pub is_word : ℕ → Bool
  pub strip : Text → Text
  pub lower : Text → Text
  -- whether the second path is found through the directory entry that the first one names, as the
  -- entry itself or behind it if it is a link; two texts may name one entry
  pub passes : Disk → Text → Text → Bool
  pub passes_self : (d : Disk) (f : Text) → passes d f f ≡ true
  pub file-unlink :
      (d d' : Disk) (f g : Text)
      → unlink d f ≡ some d'
      → is_file d' g ≡ (if passes d f g then false else is_file d g)

unfoldable pub upload_url_prefix : Text
upload_url_prefix = codes "/static/upload/"

unfoldable pub avatar_subdir : Text
avatar_subdir = codes "avatar"

unfoldable pub cover_subdir : Text
cover_subdir = codes "cover"

unfoldable pub upload_image_ext_include : List Text
upload_image_ext_include =
    codes "jpg" ∷ codes "jpeg" ∷ codes "png" ∷ codes "gif" ∷ codes "webp" ∷ []

abbrev pub upload_image_size_max : ℕ
upload_image_size_max = 5 * 1024 * 1024

abbrev pub avatar_base64_max_length : ℕ
avatar_base64_max_length = upload_image_size_max * 4 / 3 + 1024

-- The start of a text that holds the class, and what stands behind it
unfoldable pub span : (ℕ → Bool) → Text → Text × Text
span p [] = ([], [])
span p (c ∷ t) = let (a, b) = span p t in if p c then (c ∷ a, b) else ([], c ∷ t)

abbrev pub no_line_break : ℕ → Bool
no_line_break c = not (c == b'\n')

-- `(.+)$` behind the extension
unfoldable pub b64_part : Text → Text × Text → Option (Text × Text)
unfolding at_end
b64_part ext ([], r) = none
b64_part ext (c ∷ t, r) = if at_end r then some (ext, c ∷ t) else none

abbrev pub after_ext : Text → Option Text → Option (Text × Text)
after_ext ext none = none
after_ext ext (some t) = b64_part ext (span no_line_break t)

unfoldable pub ext_part : Text × Text → Option (Text × Text)
unfolding b64_part span behind
ext_part ([], r) = none
ext_part (c ∷ e, r) = after_ext (c ∷ e) (behind (codes ";base64,") r)

abbrev pub after_data : (ℕ → Bool) → Option Text → Option (Text × Text)
after_data p none = none
after_data p (some t) = ext_part (span p t)

-- DATA_URI_PATTERN.match, with its two groups
unfoldable pub match_data_uri : (ℕ → Bool) → Text → Option (Text × Text)
unfolding ext_part behind span
match_data_uri word t = after_data word (behind (codes "data:image/") t)

-- f'{user_id}_{timestamp}_{hex}.{ext}'
unfoldable pub file_name : ℕ → Text → Text → Text → Text
file_name user_id timestamp hex ext =
    decimal user_id ++ (b'_' ∷ (timestamp ++ (b'_' ∷ (hex ++ (b'.' ∷ ext)))))

abbrev pub slash : ℕ → Bool
slash c = c == b'/'

module _ (U : Uploads) where
  open U use {Disk, is_file, unlink, mkdir, write_bytes, b64decode, is_word, strip, lower}

  abbrev pub kept_or : Disk → Option Disk → Disk
  kept_or d none = d
  kept_or d (some d') = d'

  -- The path below the upload folder, if the file may be removed
  unfoldable pub removable : List Text → Text → Option Text
  unfolding contains before_first mem
  removable subdirs [] = none
  removable subdirs (c ∷ t) =
      if contains (codes "..") (c ∷ t) || not (mem (before_first b'/' (c ∷ t)) subdirs)
      then none
      else some (c ∷ t)

  abbrev pub remove_at : Disk → Option Text → Disk
  remove_at d none = d
  remove_at d (some rel) = if is_file d rel then kept_or d (unlink d rel) else d

  abbrev pub local_path : List Text → Option Text → Option Text
  local_path subdirs none = none
  local_path subdirs (some t) = removable subdirs (skip slash t)

  -- remove_upload_file_if_local
  unfoldable pub remove_upload_file_if_local : Option Text → List Text → Disk → Disk
  unfolding removable skip behind upload_url_prefix
  remove_upload_file_if_local none subdirs d = d
  remove_upload_file_if_local (some url) subdirs d =
      remove_at d (local_path subdirs (behind upload_url_prefix (strip url)))

  -- The write has failed or is done.
  abbrev pub saved : Text → Text → Bool × Disk → Result Text × Disk
  saved subdir name (false, d) = (err (bad_request "error.avatar_save_failed"), d)
  saved subdir name (true, d) = (ok (upload_url_prefix ++ (subdir ++ (b'/' ∷ name))), d)

  -- The folder is made, outside the `try`.
  abbrev pub made : Text → Text → List ℕ → Bool × Disk → Result Text × Disk
  made subdir name bytes (false, d) = (err (unexpected "OSError"), d)
  made subdir name bytes (true, d) =
      saved subdir name (write_bytes d (subdir ++ (b'/' ∷ name)) bytes)

  unfoldable pub save_bytes : Text → Text → Option (List ℕ) → Disk → Result Text × Disk
  unfolding upload_url_prefix
  save_bytes subdir name none d = (err (bad_request "error.invalid_avatar_base64"), d)
  save_bytes subdir name (some bytes) d =
      if ltb upload_image_size_max (length bytes)
      then (err (bad_request "error.avatar_size_exceeded"), d)
      else made subdir name bytes (mkdir d subdir)

  unfoldable pub save_checked : Text → (Text → Text) → Text → Text → Disk → Result Text × Disk
  unfolding save_bytes upload_image_ext_include mem
  save_checked subdir name ext b64 d =
      if not (mem ext upload_image_ext_include)
      then (err (bad_request "error.avatar_format_not_supported"), d)
      else if ltb avatar_base64_max_length (length b64)
      then (err (bad_request "error.avatar_size_exceeded"), d)
      else save_bytes subdir (name ext) (b64decode b64) d

  unfoldable pub save_matched :
      Text → (Text → Text) → Option (Text × Text) → Disk → Result Text × Disk
  unfolding save_checked
  save_matched subdir name none d = (err (bad_request "error.invalid_avatar_format"), d)
  save_matched subdir name (some (ext, b64)) d = save_checked subdir name (lower ext) b64 d

  -- save_avatar_from_data_uri and save_cover_from_data_uri, which differ in the sub-folder
  unfoldable pub save_from_data_uri : Text → Text → Text → Text → ℕ → Disk → Result Text × Disk
  unfolding save_matched match_data_uri file_name
  save_from_data_uri subdir timestamp hex data_uri user_id d =
      save_matched subdir (file_name user_id timestamp hex)
        (match_data_uri is_word (strip data_uri)) d

  abbrev pub as_some : Result Text × Disk → Result (Option Text) × Disk
  as_some (ok u, d) = (ok (some u), d)
  as_some (err e, d) = (err e, d)

  -- An input without its blanks
  unfoldable pub process_stripped :
      Text → Text → Text → Text → ℕ → Disk → Result (Option Text) × Disk
  unfolding save_from_data_uri starts_with
  process_stripped subdir timestamp hex [] user_id d = (ok none, d)
  process_stripped subdir timestamp hex (c ∷ t) user_id d =
      if starts_with (codes "data:image/") (c ∷ t)
      then as_some (save_from_data_uri subdir timestamp hex (c ∷ t) user_id d)
      else if ltb 5000 (length (c ∷ t))
      then (err (bad_request "error.avatar_url_too_long"), d)
      else (ok (some (c ∷ t)), d)

  -- process_avatar_input and process_cover_input, by the sub-folder
  unfoldable pub process_input :
      Text → Text → Text → Option Text → ℕ → Disk → Result (Option Text) × Disk
  unfolding process_stripped
  process_input subdir timestamp hex none user_id d = (ok none, d)
  process_input subdir timestamp hex (some []) user_id d = (ok none, d)
  process_input subdir timestamp hex (some (c ∷ t)) user_id d =
      process_stripped subdir timestamp hex (strip (c ∷ t)) user_id d

  module _ (R : Redis) (P : Platform) where
    abbrev pub PictureWorld : Type 0
    PictureWorld = World R P × Disk

    abbrev pub or_empty : Option Text → Text
    or_empty none = []
    or_empty (some t) = t

    abbrev pub old_avatar : Option User → Option Text
    old_avatar none = none
    old_avatar (some u) = u.avatar

    -- The old picture is removed if a row was changed and it is another one.
    unfoldable pub remove_old : ℕ → Option Text → Text → Disk → Disk
    unfolding remove_upload_file_if_local avatar_subdir text_eq
    remove_old count none stored d = d
    remove_old count (some []) stored d = d
    remove_old count (some (c ∷ t)) stored d =
        if ltb 0 count && not (text_eq (c ∷ t) stored)
        then remove_upload_file_if_local (some (c ∷ t)) (avatar_subdir ∷ []) d
        else d

    unfoldable pub store_avatar :
        ℕ → World R P → Result (Option Text) × Disk → Result (ℕ × Option Text) × PictureWorld
    unfolding remove_old jwt_user_key
    store_avatar user_id w (err e, d) = (err e, (w, d))
    store_avatar user_id w (ok url, d) =
        let count = P.rows w.db user_id in
        (
          ok (count, if count == 0 then none else url),
          (
            record w {
              db = P.update_user w.db user_id (avatar (or_empty url));
              store = R.remove w.store (jwt_user_key user_id);
            },
            remove_old count (old_avatar (P.find_user w.db user_id)) (or_empty url) d,
          ),
        )

    -- UserService.update_avatar
    unfoldable pub update_avatar :
        Text → Text → ℕ → Text → PictureWorld → Result (ℕ × Option Text) × PictureWorld
    unfolding store_avatar process_input avatar_subdir
    update_avatar timestamp hex user_id input (w, d) =
        store_avatar user_id w (process_input avatar_subdir timestamp hex (some input) user_id d)
