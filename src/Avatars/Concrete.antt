-- ===== src/Avatars/Concrete.antt =====
-- An upload folder in memory, which shows that the hypotheses on it can hold: the paths of its files,
-- of which each has one spelling and there are no links.
use mc_bd.Prelude.{
  ◌≡◌, sym, ap, ◌∙◌, true, false, some, List, [], ◌∷◌, leb, ◌&&◌, arith, Bool-cases, inl, inr,
  if◌then◌else◌,
}
use mc_bd.Prelude.Text.{Text, text_eq, text_eq_refl, eq_of_text_eq, text_eq_of_ne, ne_of_text_eq}
use mc_bd.Redis.{mem}
use mc_bd.Avatars.{Uploads}

unfoldable pub without_file : Text → List Text → List Text
without_file f [] = []
without_file f (g ∷ d) = if text_eq g f then without_file f d else g ∷ without_file f d

pub mem-without_file :
    (f g : Text) (d : List Text)
    → mem g (without_file f d) ≡ (if text_eq f g then false else mem g d)
unfolding without_file mem
mem-without_file f g [] = ground arith
mem-without_file f g (h ∷ d) = elim (Bool-cases (text_eq h f)) [
  | inl same ↦ rw (same, eq_of_text_eq h f same) (mem-without_file f g d ∙ ground arith)
  | inr other ↦ rw other (elim (Bool-cases (text_eq h g)) [
    | inl here ↦ rw here (ground (arith, apart other here))
    | inr there ↦ rw there (mem-without_file f g d)
  ])
]
  where
    apart : text_eq h f ≡ false → text_eq h g ≡ true → text_eq f g ≡ false
    apart e k = text_eq_of_ne f g (λ q. ne_of_text_eq h f e (eq_of_text_eq h g k ∙ sym q))

pub some_injective : {A : Type 0} {a b : A} → some a ≡ some b → a ≡ b
some_injective h = cc h

abbrev pub upload_folder : Uploads
upload_folder = record {
  Disk = List Text;
  is_file = λ d f. mem f d;
  unlink = λ d f. some (without_file f d);
  mkdir = λ d f. (true, d);
  write_bytes = λ d f b. (true, f ∷ d);
  passes = λ d f g. text_eq f g;
  passes_self = λ d f. text_eq_refl f;
  b64decode = some;
  is_word = λ c. leb b'a' c && leb c b'z';
  strip = λ t. t;
  lower = λ t. t;
  file-unlink = λ d d' f g e. sym (ap (mem g) (some_injective e)) ∙ mem-without_file f g d;
}
