-- ===== src/Files/Accepted.antt =====
-- Which files pass upload_file_verify of backend/utils/file_ops.py.
use mc_bd.Prelude.{
  ℕ, ◌≡◌, ◌↔◌, refl, sym, ◌∙◌, Bool, true, false, ◌||◌, List, [], ◌∷◌, inl, inr, arith, Bool-cases,
}
use mc_bd.Prelude.Text.{Text, text_eq, eq_of_text_eq, text_eq_refl}
use mc_bd.Errors.{Error, Result, ok, err, err_ne_ok, bad_request}
use mc_bd.Redis.{mem}
use mc_bd.Avatars.{upload_image_ext_include}
use mc_bd.Files.{
  UploadFile, image_type, video_type, upload_video_ext_include, file_ext, verify_type, verify_ext,
  upload_file_verify,
}

-- The extension is empty, or it is the word image or the word video.
abbrev pub is_odd : Text → Bool
is_odd e = text_eq e [] || text_eq e image_type || text_eq e video_type

unlisted :
    (ext : Text) (formats : List Text) (limit size : ℕ) (x y : Error)
    → mem ext formats ≡ false
    → verify_type ext formats limit size x y ≡ err x
unfolding verify_type
unlisted ext formats limit size x y h = rw h refl

image_unlisted : (e : Text) → text_eq e image_type ≡ true → mem e upload_image_ext_include ≡ false
unfolding mem upload_image_ext_include text_eq
image_unlisted e h = rw (eq_of_text_eq e image_type h) refl

video_unlisted : (e : Text) → text_eq e video_type ≡ true → mem e upload_video_ext_include ≡ false
unfolding mem upload_video_ext_include text_eq
video_unlisted e h = rw (eq_of_text_eq e video_type h) refl

refused :
    (r : Result (Unit {0})) (x : Error) (b : Bool)
    → r ≡ err x
    → b ≡ true
    → (r ≡ ok tt) ↔ (b ≡ false)
refused r x b h k = (λ e. absurd (err_ne_ok x tt (sym h ∙ e)), λ e. cc)

empty : (c : ℕ) (e : Text) → text_eq (c ∷ e) [] ≡ false
unfolding text_eq
empty c e = refl

verify_ext_iff : (e : Text) (size : ℕ) → (verify_ext e size ≡ ok tt) ↔ (is_odd e ≡ false)
unfolding verify_ext
verify_ext_iff [] size =
    refused (verify_ext [] size) (bad_request "未知的文件类型") (is_odd []) refl
      (ground (arith, text_eq_refl []))
verify_ext_iff (c ∷ e) size = elim (Bool-cases (text_eq (c ∷ e) image_type)) [
  | inl image ↦
      refused (verify_ext (c ∷ e) size) (bad_request "此图片格式暂不支持") (is_odd (c ∷ e))
        (rw image (unlisted (c ∷ e) _ _ size _ _ (image_unlisted (c ∷ e) image)))
        (ground (arith, image))
  | inr still ↦ elim (Bool-cases (text_eq (c ∷ e) video_type)) [
    | inl video ↦
        refused (verify_ext (c ∷ e) size) (bad_request "此视频格式暂不支持") (is_odd (c ∷ e))
          (rw (still, video) (unlisted (c ∷ e) _ _ size _ _ (video_unlisted (c ∷ e) video)))
          (ground (arith, video))
    | inr other ↦ (λ h. ground (arith, still, other, empty c e), λ h. rw (still, other) refl)
  ]
]

-- An uploaded file is accepted exactly if its extension is neither empty nor the word image nor the
-- word video: neither the list of formats nor the size counts.
pub upload_file_verify_iff :
    (lower : Text → Text) (f : UploadFile)
    → (upload_file_verify lower f ≡ ok tt) ↔ (is_odd (file_ext lower f.filename) ≡ false)
unfolding upload_file_verify
upload_file_verify_iff lower f = verify_ext_iff (file_ext lower f.filename) f.size
