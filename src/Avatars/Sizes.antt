-- ===== src/Avatars/Sizes.antt =====
-- What is written for a picture.
use Prim.Native.String.{String}
use mc_bd.Prelude.{
  ℕ, ◌≡◌, ◌≤◌, refl, Bool, true, false, Option, none, some, List, ◌∷◌, ◌++◌, inl, inr, arith,
  Bool-cases, length, ltb,
}
use mc_bd.Prelude.Text.{Text}
use mc_bd.Errors.{Error, Result, ok, err, bad_request, unexpected}
use mc_bd.Redis.{mem}
use mc_bd.Avatars.{
  Uploads, upload_url_prefix, upload_image_ext_include, upload_image_size_max,
  avatar_base64_max_length, file_name, saved, made, save_bytes, save_checked, save_matched,
  save_from_data_uri, match_data_uri,
}

module _ (U : Uploads) where
  open U use {Disk, mkdir, write_bytes, b64decode, lower, strip, is_word}

  -- The folder is there, one file of it was written, and the address leads to it: its name is made by
  -- `name` with an allowed extension, and its content is not too large.
  pub record IsSaved (subdir : Text) (name : Text → Text) (d d' : Disk) (url : Text) : Type 0 where
    pub ext : Text
    pub bytes : List ℕ
    pub ready : Disk
    pub allowed : mem ext upload_image_ext_include ≡ true
    pub fits : length bytes ≤ upload_image_size_max
    pub folder : mkdir d subdir ≡ (true, ready)
    pub written : write_bytes ready (subdir ++ (b'/' ∷ name ext)) bytes ≡ (true, d')
    pub address : url ≡ upload_url_prefix ++ (subdir ++ (b'/' ∷ name ext))

  -- The input was refused before the disk was touched, or the folder could not be made, or the file
  -- could not be written; in the last two cases the disk is what this attempt left behind.
  pub data Failure (subdir : Text) (name : Text → Text) (d d' : Disk) (e : Error) : Type 0 where
    untouched : (m : String) → e ≡ bad_request m → d' ≡ d → Failure subdir name d d' e
    no_folder : e ≡ unexpected "OSError" → mkdir d subdir ≡ (false, d') → Failure subdir name d d' e
    unwritten :
        (ext : Text) (bytes : List ℕ) (ready : Disk)
        → e ≡ bad_request "error.avatar_save_failed"
        → mem ext upload_image_ext_include ≡ true
        → length bytes ≤ upload_image_size_max
        → mkdir d subdir ≡ (true, ready)
        → write_bytes ready (subdir ++ (b'/' ∷ name ext)) bytes ≡ (false, d')
        → Failure subdir name d d' e

  abbrev pub Outcome : Text → (Text → Text) → Disk → Result Text × Disk → Type 0
  Outcome subdir name d (ok url, d') = IsSaved subdir name d d' url
  Outcome subdir name d (err e, d') = Failure subdir name d d' e

  saved-Outcome :
      (subdir : Text) (name : Text → Text) (ext : Text) (bytes : List ℕ) (d ready : Disk)
      (o : Bool × Disk)
      → mem ext upload_image_ext_include ≡ true
      → length bytes ≤ upload_image_size_max
      → mkdir d subdir ≡ (true, ready)
      → write_bytes ready (subdir ++ (b'/' ∷ name ext)) bytes ≡ o
      → Outcome subdir name d (saved U subdir (name ext) o)
  saved-Outcome subdir name ext bytes d ready (false, d') m h k e =
      unwritten ext bytes ready refl m h k e
  saved-Outcome subdir name ext bytes d ready (true, d') m h k e = record {
    ext = ext;
    bytes = bytes;
    ready = ready;
    allowed = m;
    fits = h;
    folder = k;
    written = e;
    address = refl;
  }

  made-Outcome :
      (subdir : Text) (name : Text → Text) (ext : Text) (bytes : List ℕ) (d : Disk)
      (o : Bool × Disk)
      → mem ext upload_image_ext_include ≡ true
      → length bytes ≤ upload_image_size_max
      → mkdir d subdir ≡ o
      → Outcome subdir name d (made U subdir (name ext) bytes o)
  made-Outcome subdir name ext bytes d (false, d') m h k = no_folder refl k
  made-Outcome subdir name ext bytes d (true, ready) m h k =
      saved-Outcome subdir name ext bytes d ready _ m h k refl

  bytes-Outcome :
      (subdir : Text) (name : Text → Text) (ext : Text) (o : Option (List ℕ)) (d : Disk)
      → mem ext upload_image_ext_include ≡ true
      → Outcome subdir name d (save_bytes U subdir (name ext) o d)
  unfolding save_bytes
  bytes-Outcome subdir name ext none d m = untouched _ refl refl
  bytes-Outcome subdir name ext (some bytes) d m =
      elim (Bool-cases (ltb upload_image_size_max (length bytes))) [
        | inl large ↦ rw large (untouched _ refl refl)
        | inr fits ↦ rw fits (made-Outcome subdir name ext bytes d _ m (ground arith) refl)
      ]

  checked-Outcome :
      (subdir : Text) (name : Text → Text) (ext b64 : Text) (d : Disk)
      → Outcome subdir name d (save_checked U subdir name ext b64 d)
  unfolding save_checked
  checked-Outcome subdir name ext b64 d = elim (Bool-cases (mem ext upload_image_ext_include)) [
    | inl allowed ↦ rw allowed (elim (Bool-cases (ltb avatar_base64_max_length (length b64))) [
      | inl large ↦ rw large (untouched _ refl refl)
      | inr fits ↦ rw fits (bytes-Outcome subdir name ext (b64decode b64) d allowed)
    ])
    | inr other ↦ rw other (untouched _ refl refl)
  ]

  matched-Outcome :
      (subdir : Text) (name : Text → Text) (o : Option (Text × Text)) (d : Disk)
      → Outcome subdir name d (save_matched U subdir name o d)
  unfolding save_matched
  matched-Outcome subdir name none d = untouched _ refl refl
  matched-Outcome subdir name (some (ext, b64)) d = checked-Outcome subdir name (lower ext) b64 d

  -- Of a data URI one file of the folder is written, with an allowed extension and at most 5 MB,
  -- and the returned address leads to it; or it is refused with a RequestError and the disk is not
  -- touched; or the folder could not be made, or such a file in it could not be written, and the
  -- disk is what this one attempt left behind.
  pub save_from_data_uri-Outcome :
      (subdir timestamp hex data_uri : Text) (user_id : ℕ) (d : Disk)
      → Outcome subdir
          (file_name user_id timestamp hex)
          d
          (save_from_data_uri U subdir timestamp hex data_uri user_id d)
  unfolding save_from_data_uri
  save_from_data_uri-Outcome subdir timestamp hex data_uri user_id d =
      matched-Outcome subdir (file_name user_id timestamp hex)
        (match_data_uri is_word (strip data_uri)) d
