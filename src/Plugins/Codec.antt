-- ===== src/Plugins/Codec.antt =====
-- Texts that stand for structured values and are read back, for the concrete host.
use mc_bd.Prelude.{
  ℕ, zero, suc, ◌≡◌, refl, ap, ◌∙◌, Option, none, some, List, [], ◌∷◌, ◌++◌, length,
}
use mc_bd.Prelude.Text.{Text}

-- A writer in front of a rest, and a reader that gives back the value and the rest.
pub record Codec (A : Type 0) : Type 0 where
  pub write : A → Text → Text
  pub read : Text → Option (A × Text)
  pub read-write : (a : A) (r : Text) → read (write a r) ≡ some (a, r)

abbrev pub then_read :
    {A B : Type 0} → Option (A × Text) → (A → Text → Option (B × Text)) → Option (B × Text)
then_read none f = none
then_read (some (a, r)) f = f a r

-- The first n characters
unfoldable pub split : ℕ → Text → Option (Text × Text)
split zero s = some ([], s)
split (suc n) [] = none
split (suc n) (c ∷ s) = then_read (split n s) (λ t r. some (c ∷ t, r))

split-append : (t r : Text) → split (length t) (t ++ r) ≡ some (t, r)
unfolding split
split-append [] r = refl
split-append (c ∷ t) r = ap (λ o. then_read o (λ u s. some (c ∷ u, s))) (split-append t r)

unfoldable pub read_text : Text → Option (Text × Text)
unfolding split
read_text [] = none
read_text (n ∷ s) = split n s

pub read_text-write : (t r : Text) → read_text (length t ∷ (t ++ r)) ≡ some (t, r)
unfolding read_text
read_text-write t r = split-append t r

abbrev pub text_codec : Codec Text
text_codec = record {
  write = λ t r. length t ∷ (t ++ r);
  read = read_text;
  read-write = read_text-write;
}

module _ {A : Type 0} (c : Codec A) where
  unfoldable pub write_option : Option A → Text → Text
  write_option none r = 0 ∷ r
  write_option (some a) r = 1 ∷ c.write a r

  unfoldable pub read_option : Text → Option (Option A × Text)
  read_option [] = none
  read_option (zero ∷ r) = some (none, r)
  read_option (suc n ∷ r) = then_read (c.read r) (λ a s. some (some a, s))

  pub read_option-write : (o : Option A) (r : Text) → read_option (write_option o r) ≡ some (o, r)
  unfolding read_option write_option
  read_option-write none r = refl
  read_option-write (some a) r = ap (λ o. then_read o (λ b s. some (some b, s))) (c.read-write a r)

  unfoldable pub write_items : List A → Text → Text
  write_items [] r = r
  write_items (a ∷ l) r = c.write a (write_items l r)

  unfoldable pub read_items : ℕ → Text → Option (List A × Text)
  read_items zero s = some ([], s)
  read_items (suc n) s =
      then_read (c.read s) (λ a r. then_read (read_items n r) (λ l t. some (a ∷ l, t)))

  read_items-write : (l : List A) (r : Text) → read_items (length l) (write_items l r) ≡ some (l, r)
  unfolding read_items write_items
  read_items-write [] r = refl
  read_items-write (a ∷ l) r =
      ap (λ o. then_read o (λ b s. then_read (read_items (length l) s) (λ k t. some (b ∷ k, t))))
        (c.read-write a (write_items l r))
      ∙ ap (λ o. then_read o (λ k t. some (a ∷ k, t))) (read_items-write l r)

  unfoldable pub read_list : Text → Option (List A × Text)
  unfolding read_items
  read_list [] = none
  read_list (n ∷ s) = read_items n s

  pub read_list-write :
      (l : List A) (r : Text) → read_list (length l ∷ write_items l r) ≡ some (l, r)
  unfolding read_list
  read_list-write l r = read_items-write l r

abbrev pub option_codec : {A : Type 0} → Codec A → Codec (Option A)
option_codec c = record {
  write = write_option c;
  read = read_option c;
  read-write = read_option-write c;
}

abbrev pub list_codec : {A : Type 0} → Codec A → Codec (List A)
list_codec c = record {
  write = λ l r. length l ∷ write_items c l r;
  read = read_list c;
  read-write = read_list-write c;
}

module _ {A B : Type 0} (c : Codec A) (d : Codec B) where
  unfoldable pub write_pair : A × B → Text → Text
  write_pair (a, b) r = c.write a (d.write b r)

  unfoldable pub read_pair : Text → Option ((A × B) × Text)
  read_pair s = then_read (c.read s) (λ a r. then_read (d.read r) (λ b t. some ((a, b), t)))

  pub read_pair-write : (p : A × B) (r : Text) → read_pair (write_pair p r) ≡ some (p, r)
  unfolding read_pair write_pair
  read_pair-write (a, b) r =
      ap (λ o. then_read o (λ x s. then_read (d.read s) (λ y t. some ((x, y), t))))
        (c.read-write a (d.write b r))
      ∙ ap (λ o. then_read o (λ y t. some ((a, y), t))) (d.read-write b r)

abbrev pub pair_codec : {A B : Type 0} → Codec A → Codec B → Codec (A × B)
pair_codec c d = record {
  write = write_pair c d;
  read = read_pair c d;
  read-write = read_pair-write c d;
}

module _ {A B : Type 0} (c : Codec A) (from : B → A) (to : A → B)
    (back : (b : B) → to (from b) ≡ b) where
  unfoldable pub read_as : Text → Option (B × Text)
  read_as s = then_read (c.read s) (λ a r. some (to a, r))

  pub read_as-write : (b : B) (r : Text) → read_as (c.write (from b) r) ≡ some (b, r)
  unfolding read_as
  read_as-write b r =
      ap (λ o. then_read o (λ a s. some (to a, s))) (c.read-write (from b) r)
      ∙ ap (λ x. some (x, r)) (back b)

  abbrev pub as_codec : Codec B
  as_codec = record {
    write = λ b r. c.write (from b) r;
    read = read_as;
    read-write = read_as-write;
  }
