-- ===== src/Tests/Pictures.antt =====
-- Instances of the theorems on uploaded pictures.
use mc_bd.Prelude.{◌≡◌, refl, ap, some, List, [], ◌∷◌, true, false, inl, inr, Bool-cases, arith}
use mc_bd.Prelude.Text.{Text, codes, text_eq, eq_of_text_eq, starts_with}
use mc_bd.Redis.{mem}
use mc_bd.Redis.Memory.{memory}
use mc_bd.Platform.Concrete.{concrete, find_in, update_in}
use mc_bd.Plugins.Config.{skip}
use mc_bd.Plugins.Registry.{contains}
use mc_bd.Plugins.Install.{before_first, behind}
use mc_bd.Avatars.{
  avatar_subdir, cover_subdir, upload_url_prefix, removable, remove_upload_file_if_local,
  process_input, process_stripped, update_avatar, store_avatar, remove_old, save_from_data_uri,
  file_name,
}
use mc_bd.Avatars.Inside.{is_outside, IsApart, removal_inside}
use mc_bd.Avatars.Sizes.{Outcome, save_from_data_uri-Outcome}
use mc_bd.Avatars.Foreign.{IsAddressOf, foreign_avatar_removed}
use mc_bd.Avatars.Concrete.{upload_folder}
use mc_bd.Tests.Data.{alice, world}

abbrev bobs_file : Text
bobs_file = codes "avatar/2_b.png"

abbrev bobs_url : Text
bobs_url = codes "/static/upload/avatar/2_b.png"

abbrev uploads : List Text
uploads = bobs_file ∷ codes "report.pdf" ∷ []

report_outside : is_outside (avatar_subdir ∷ cover_subdir ∷ []) (codes "report.pdf") ≡ true
unfolding contains before_first mem starts_with text_eq avatar_subdir cover_subdir
report_outside = refl

report-IsApart :
    IsApart upload_folder (avatar_subdir ∷ cover_subdir ∷ []) uploads (codes "report.pdf")
report-IsApart rel inside = elim (Bool-cases (text_eq rel (codes "report.pdf"))) [
  | inl same ↦ cc (
    ap (is_outside (avatar_subdir ∷ cover_subdir ∷ []))
        (eq_of_text_eq rel (codes "report.pdf") same),
    report_outside,
  )
  | inr other ↦ other
]

removal_inside_example :
    upload_folder.is_file
      (remove_upload_file_if_local upload_folder
        (some bobs_url)
        (avatar_subdir ∷ cover_subdir ∷ [])
        uploads)
      (codes "report.pdf")
    ≡ upload_folder.is_file uploads (codes "report.pdf")
removal_inside_example =
    removal_inside upload_folder (some bobs_url) (avatar_subdir ∷ cover_subdir ∷ []) uploads
      (codes "report.pdf") report-IsApart

save_from_data_uri-Outcome_example :
    Outcome upload_folder avatar_subdir (file_name 1 (codes "0") (codes "a")) uploads (
      save_from_data_uri upload_folder avatar_subdir
        (codes "0")
        (codes "a")
        (codes "data:image/png;base64,AAAA")
        1
        uploads)
save_from_data_uri-Outcome_example =
    save_from_data_uri-Outcome upload_folder avatar_subdir (codes "0") (codes "a")
      (codes "data:image/png;base64,AAAA") 1 uploads

bobs_url_leads : IsAddressOf upload_folder memory concrete bobs_file bobs_url
unfolding starts_with behind removable upload_url_prefix avatar_subdir skip contains before_first
    mem text_eq
bobs_url_leads = record {
  first = b'/';
  others = codes "static/upload/avatar/2_b.png";
  shape = refl;
  trimmed = refl;
  no_data = refl;
  short = refl;
  leads = refl;
}

alice_found : concrete.find_user (world []).db 1 ≡ some alice
unfolding find_in
alice_found = refl

-- Alice stores the address of Bob's picture, and then another address.
foreign_avatar_removed_example :
    let w' =
      (update_avatar upload_folder memory concrete
        (codes "0")
        (codes "a")
        1
        bobs_url
        (world [], uploads)).1 in
    upload_folder.is_file
      (update_avatar upload_folder memory concrete
        (codes "1")
        (codes "b")
        1
        (codes "http://x")
        w').1.1
      bobs_file
    ≡ false
unfolding update_avatar store_avatar process_input process_stripped starts_with text_eq remove_old
    find_in update_in
foreign_avatar_removed_example =
    foreign_avatar_removed upload_folder memory concrete (codes "0") (codes "1") (codes "a")
      (codes "b") bobs_file bobs_url (codes "http://x") 1 (world []) uploads uploads alice
      (some (codes "http://x")) bobs_url_leads alice_found refl (omega arith) refl (λ h. cc h)
