-- ===== src/Files.antt =====
-- backend/utils/file_ops.py: the files that are uploaded through the file route. `lower` is Python's
-- str.lower, the disk is the bytes of the written file or an exception, the time stamp is an argument.
pub mod Accepted
pub mod Copied
use mc_bd.Prelude.{
  ℕ, zero, suc, ◌-◌, ◌*◌, ltb, Bool, true, false, not, Option, none, some, List, [], ◌∷◌, ◌++◌,
  length, take, if◌then◌else◌,
}
use mc_bd.Prelude.Text.{Text, codes, text_eq, starts_with}
use mc_bd.Errors.{Error, Result, ok, err, bad_request}
use mc_bd.Redis.{mem}
use mc_bd.Avatars.{upload_image_ext_include, upload_image_size_max}
use mc_bd.Plugins.Install.{after_last}

-- UploadFile: its name, its declared size and its content
pub record UploadFile : Type 0 where
  pub filename : Text
  pub size : ℕ
  pub content : List ℕ

abbrev pub image_type : Text
image_type = codes "image"

abbrev pub video_type : Text
video_type = codes "video"

unfoldable pub upload_video_ext_include : List Text
upload_video_ext_include = codes "mp4" ∷ codes "mov" ∷ codes "avi" ∷ codes "flv" ∷ []

abbrev pub upload_video_size_max : ℕ
upload_video_size_max = 20 * 1024 * 1024

-- `t.replace(p, q)` for a text p that is not empty; the number counts what is still left out.
unfoldable pub replace_from : ℕ → Text → Text → Text → Text
replace_from k p q [] = []
replace_from (suc k) p q (c ∷ t) = replace_from k p q t
replace_from zero p q (c ∷ t) = elim (starts_with p (c ∷ t)) [
  | true ↦ q ++ replace_from (length p - 1) p q t
  | false ↦ c ∷ replace_from 0 p q t
]

unfoldable pub drop : ℕ → List ℕ → List ℕ
drop zero s = s
drop (suc n) [] = []
drop (suc n) (c ∷ s) = drop n s

-- The branch for one type of file
unfoldable pub verify_type : Text → List Text → ℕ → ℕ → Error → Error → Result (Unit {0})
unfolding mem
verify_type ext formats limit size format_error size_error =
    if not (mem ext formats)
    then err format_error
    else if ltb limit size
    then err size_error
    else ok tt

unfoldable pub verify_ext : Text → ℕ → Result (Unit {0})
verify_ext [] size = err (bad_request "未知的文件类型")
verify_ext (c ∷ e) size =
    if text_eq (c ∷ e) image_type
    then verify_type (c ∷ e) upload_image_ext_include upload_image_size_max size
        (bad_request "此图片格式暂不支持") (bad_request "图片超出最大限制，请重新选择")
    else if text_eq (c ∷ e) video_type
    then verify_type (c ∷ e) upload_video_ext_include upload_video_size_max size
        (bad_request "此视频格式暂不支持") (bad_request "视频超出最大限制，请重新选择")
    else ok tt

-- The loop of upload_file on fuel: what is read and written, with the read size. none is a loop that
-- has not ended.
unfoldable pub copy_step : List ℕ → List ℕ → Option (List ℕ) → Option (List ℕ)
copy_step [] out rest = some out
copy_step (b ∷ bs) out rest = rest

unfoldable pub copy : ℕ → ℕ → List ℕ → List ℕ → Option (List ℕ)
unfolding copy_step drop
copy zero read_size s out = none
copy (suc fuel) read_size s out =
    copy_step (take read_size s) out
      (copy fuel read_size (drop read_size s) (out ++ take read_size s))

abbrev pub written : Text → Option (List ℕ) → (List ℕ → Bool) → Option (Result Text × List ℕ)
written name none fits = none
written name (some bytes) fits =
    if fits bytes then some (ok name, bytes) else some (err (bad_request "上传文件失败"), [])

module _ (lower : Text → Text) where
  -- filename.split('.')[-1].lower()
  unfoldable pub file_ext : Text → Text
  unfolding after_last
  file_ext name = lower (after_last b'.' [] name)

  unfoldable pub build_filename : Text → Text → Text
  unfolding file_ext replace_from
  build_filename timestamp name =
      replace_from 0 (b'.' ∷ file_ext name) (b'_' ∷ timestamp) name ++ (b'.' ∷ file_ext name)

  unfoldable pub upload_file_verify : UploadFile → Result (Unit {0})
  unfolding verify_ext file_ext
  upload_file_verify f = verify_ext (file_ext f.filename) f.size

  -- upload_file: the name and the bytes of the file. `fits` is whether the disk takes them; what an
  -- exception leaves of the file is not modelled.
  unfoldable pub upload_file :
      ℕ → ℕ → (List ℕ → Bool) → Text → UploadFile → Option (Result Text × List ℕ)
  unfolding copy build_filename
  upload_file fuel read_size fits timestamp f =
      written (build_filename timestamp f.filename) (copy fuel read_size f.content []) fits
