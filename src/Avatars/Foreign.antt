-- ===== src/Avatars/Foreign.antt =====
-- Whose pictures a user can remove: update_avatar of
-- backend/app/admin/service/user_service.py, called twice.
use mathlib.Core.Path.{subst}
use mc_bd.Prelude.{
  ℕ, ◌<◌, ◌≡◌, ◌≢◌, refl, ap, sym, ◌∙◌, true, false, Option, none, some, [], ◌∷◌, arith, length,
  ltb,
}
use mc_bd.Prelude.Text.{Text, codes, text_eq, starts_with}
use mc_bd.Errors.{ok}
use mc_bd.Redis.{Redis}
use mc_bd.Platform.{Platform, User, avatar, updated, apply}
use mc_bd.Action.{World}
use mc_bd.Plugins.Install.{behind}
use mc_bd.Avatars.{
  Uploads, upload_url_prefix, avatar_subdir, process_stripped, process_input, local_path,
  remove_upload_file_if_local, remove_old, store_avatar, update_avatar, old_avatar, or_empty,
}
use mc_bd.Avatars.Inside.{remove_at_self}

module _ (U : Uploads) (R : Redis) (P : Platform) where
  open U use {Disk, is_file, unlink, strip}

  -- A text that is not empty, not a data URI, not too long, without blanks around it, and the address of
  -- this file in the folder of avatars.
  pub record IsAddressOf (f : Text) (t : Text) : Type 0 where
    pub first : ℕ
    pub others : Text
    pub shape : t ≡ first ∷ others
    pub trimmed : strip t ≡ t
    pub no_data : starts_with (codes "data:image/") t ≡ false
    pub short : ltb 5000 (length t) ≡ false
    pub leads : local_path U (avatar_subdir ∷ []) (behind upload_url_prefix t) ≡ some f

  address_stripped :
      (subdir timestamp hex : Text) (i : ℕ) (d : Disk) (t : Text) (c : ℕ) (r : Text)
      → t ≡ c ∷ r
      → starts_with (codes "data:image/") t ≡ false
      → ltb 5000 (length t) ≡ false
      → process_stripped U subdir timestamp hex t i d ≡ (ok (some t), d)
  unfolding process_stripped
  address_stripped subdir timestamp hex i d t c r e n l =
      subst
        (λ (s : Text).
          starts_with (codes "data:image/") s ≡ false
          → ltb 5000 (length s) ≡ false
          → process_stripped U subdir timestamp hex s i d ≡ (ok (some s), d))
        (sym e) (λ n l. rw (n, l) refl) n l

  address_kept :
      (subdir timestamp hex f t : Text) (i : ℕ) (d : Disk)
      → IsAddressOf f t
      → process_input U subdir timestamp hex (some t) i d ≡ (ok (some t), d)
  unfolding process_input
  address_kept subdir timestamp hex f t i d a =
      ap (λ (s : Text). process_input U subdir timestamp hex (some s) i d) a.shape
      ∙ ap (λ (s : Text). process_stripped U subdir timestamp hex (strip s) i d) (sym a.shape)
      ∙ ap (λ (s : Text). process_stripped U subdir timestamp hex s i d) a.trimmed
      ∙ address_stripped subdir timestamp hex i d t a.first a.others a.shape a.no_data a.short

  removed_cons :
      (count c : ℕ) (f r stored : Text) (d : Disk)
      → 0 < count
      → (unlink d f ≢ none)
      → text_eq (c ∷ r) stored ≡ false
      → strip (c ∷ r) ≡ c ∷ r
      → local_path U (avatar_subdir ∷ []) (behind upload_url_prefix (c ∷ r)) ≡ some f
      → is_file (remove_old U R P count (some (c ∷ r)) stored d) f ≡ false
  unfolding remove_old remove_upload_file_if_local
  removed_cons count c f r stored d pos can ne trimmed leads =
      let positive : ltb 0 count ≡ true = ground arith in
      rw (positive, ne, trimmed, leads) (remove_at_self U d f can)

  removed_old :
      (count : ℕ) (f t stored : Text) (d : Disk)
      → IsAddressOf f t
      → 0 < count
      → text_eq t stored ≡ false
      → (unlink d f ≢ none)
      → is_file (remove_old U R P count (some t) stored d) f ≡ false
  removed_old count f t stored d a pos ne can =
      subst
        (λ (s : Text).
          text_eq s stored ≡ false
          → strip s ≡ s
          → local_path U (avatar_subdir ∷ []) (behind upload_url_prefix s) ≡ some f
          → is_file (remove_old U R P count (some s) stored d) f ≡ false)
        (sym a.shape) (removed_cons count a.first f a.others stored d pos can) ne a.trimmed a.leads

  -- The first call puts the address into the user's row.
  stored_address :
      (timestamp hex f t : Text) (i : ℕ) (w : World R P) (d : Disk)
      → IsAddressOf f t
      → (update_avatar U R P timestamp hex i t (w, d)).1.0.db ≡ P.update_user w.db i (avatar t)
  unfolding update_avatar store_avatar
  stored_address timestamp hex f t i w d a =
      ap (λ x. (store_avatar U R P i w x).1.0.db)
        (address_kept avatar_subdir timestamp hex f t i d a)

  -- If the user's row holds the address, the next picture that is stored removes the file.
  replaced_gone :
      (timestamp hex f t input : Text) (i : ℕ) (w : World R P) (d d' : Disk) (u : User)
      (new : Option Text)
      → IsAddressOf f t
      → process_input U avatar_subdir timestamp hex (some input) i d ≡ (ok new, d')
      → P.find_user w.db i ≡ some u
      → u.avatar ≡ some t
      → 0 < P.rows w.db i
      → text_eq t (or_empty U R P new) ≡ false
      → (unlink d' f ≢ none)
      → is_file (update_avatar U R P timestamp hex i input (w, d)).1.1 f ≡ false
  unfolding update_avatar store_avatar
  replaced_gone timestamp hex f t input i w d d' u new a e found holds pos ne can =
      ap (λ x. is_file (store_avatar U R P i w x).1.1 f) e
      ∙ ap
          (λ (o : Option Text).
            is_file (remove_old U R P (P.rows w.db i) o (or_empty U R P new) d') f)
          (ap (old_avatar U R P) found ∙ holds)
      ∙ removed_old (P.rows w.db i) f t (or_empty U R P new) d' a pos ne can

  -- A user who stores the address of any file of the folder of avatars, whoever's picture it is, and
  -- then another picture, has removed this file: if the address is not a data URI and has at most 5000
  -- characters, if the second input is accepted and is another address, if the user's row is there, and
  -- if the file can be unlinked.
  pub foreign_avatar_removed :
      (timestamp timestamp' hex hex' f t input : Text) (i : ℕ) (w : World R P) (d d' : Disk)
      (u : User) (new : Option Text)
      → IsAddressOf f t
      → P.find_user w.db i ≡ some u
      → let w' = (update_avatar U R P timestamp hex i t (w, d)).1 in
        process_input U avatar_subdir timestamp' hex' (some input) i w'.1 ≡ (ok new, d')
        → 0 < P.rows w'.0.db i
        → text_eq t (or_empty U R P new) ≡ false
        → (unlink d' f ≢ none)
        → is_file (update_avatar U R P timestamp' hex' i input w').1.1 f ≡ false
  foreign_avatar_removed timestamp timestamp' hex hex' f t input i w d d' u new a found e pos ne
        can =
      let w' = (update_avatar U R P timestamp hex i t (w, d)).1 in
      replaced_gone timestamp' hex' f t input i w'.0 w'.1 d' (apply (avatar t) u) new a e
        (ap (λ (s : P.Session). P.find_user s i) (stored_address timestamp hex f t i w d a)
          ∙ updated_row w u found)
        refl pos ne can
    where
      updated_row :
          (w : World R P) (u : User)
          → P.find_user w.db i ≡ some u
          → P.find_user (P.update_user w.db i (avatar t)) i ≡ some (apply (avatar t) u)
      updated_row w u found =
          P.find-update w.db i i (avatar t) ∙ ground (arith, ap (λ o. updated o (avatar t)) found)
