-- ===== src/Prelude/Text.antt =====
-- Texts as lists of code points: equality, prefixes, and `str` of a non-negative integer.
use Prim.Native.Char.{code}
use Prim.Native.String.{String}
use Prim.Native.Nat.{ℕ, zero, suc, ◌+◌, ◌-◌, ◌*◌, ◌/◌, ◌%◌, ◌<◌}
use mathlib.Core.Path.{◌≡◌, refl, ap, sym, ◌∙◌}
use mathlib.Core.Logic.{◌≢◌, ◌↔◌, inl, inr}
use mathlib.Core.Bool.{Bool, true, false, ◌&&◌}
use mathlib.Core.List.{List, [], ◌∷◌, ◌++◌, append_assoc}
use native.Mathlib.Omega.{arith}
use mc_bd.Prelude.Tests.{Bool-cases, ltb, ◌==◌, if◌then◌else◌}
use mc_bd.Prelude.Lists.{All}

abbrev pub Text : Type 0
Text = List ℕ

abbrev pub codes : String → Text
codes String.[] = []
codes (String.◌∷◌ c s) = code c ∷ codes s

unfoldable pub text_eq : Text → Text → Bool
text_eq [] [] = true
text_eq [] (y ∷ ys) = false
text_eq (x ∷ xs) [] = false
text_eq (x ∷ xs) (y ∷ ys) = (x == y) && text_eq xs ys

pub text_eq_refl : (s : Text) → text_eq s s ≡ true
unfolding text_eq
text_eq_refl [] = refl
text_eq_refl (x ∷ xs) = ground (arith, text_eq_refl xs)

pub eq_of_text_eq : (s t : Text) → text_eq s t ≡ true → s ≡ t
unfolding text_eq
eq_of_text_eq [] [] h = refl
eq_of_text_eq [] (y ∷ ys) h = cc
eq_of_text_eq (x ∷ xs) [] h = cc
eq_of_text_eq (x ∷ xs) (y ∷ ys) h = ground (arith, eq_of_text_eq xs ys)

pub ne_of_text_eq : (s t : Text) → text_eq s t ≡ false → s ≢ t
ne_of_text_eq s t h e = ground (arith, text_eq_refl t, ap (λ u. text_eq u t) e)

pub text_eq_iff : (s t : Text) → (text_eq s t ≡ true) ↔ (s ≡ t)
text_eq_iff s t = (eq_of_text_eq s t, λ e. rw e (text_eq_refl t))

-- `t.startswith(p)`
unfoldable pub starts_with : Text → Text → Bool
starts_with [] t = true
starts_with (x ∷ p) [] = false
starts_with (x ∷ p) (y ∷ t) = (x == y) && starts_with p t

pub starts_with-append : (p t : Text) → starts_with p (p ++ t) ≡ true
unfolding starts_with
starts_with-append [] t = refl
starts_with-append (x ∷ p) t = ground (arith, starts_with-append p t)

-- A text with the prefix is not one without it.
pub text_eq_of_prefix :
    (p s t : Text) → starts_with p t ≡ true → starts_with p s ≡ false → text_eq s t ≡ false
text_eq_of_prefix p s t h k = elim (Bool-cases (text_eq s t)) [
  | inl same ↦ cc (eq_of_text_eq s t same)
  | inr other ↦ other
]

pub text_eq_of_ne : (s t : Text) → s ≢ t → text_eq s t ≡ false
text_eq_of_ne s t h = elim (Bool-cases (text_eq s t)) [
  | inl same ↦ absurd (h (eq_of_text_eq s t same))
  | inr other ↦ other
]

-- `str(n)`: the digits of n, most significant first, by fuel above n.
decimal_from : ℕ → ℕ → Text → Text
decimal_from zero n out = out
decimal_from (suc f) n out =
    let rest = decimal_from f (n / 10) ((48 + n % 10) ∷ out) in
    if ltb n 10 then (48 + n) ∷ out else rest

unfoldable pub decimal : ℕ → Text
unfolding decimal_from
decimal n = decimal_from (suc n) n []

unfoldable pub read_digits : ℕ → Text → ℕ
read_digits acc [] = acc
read_digits acc (c ∷ s) = read_digits (acc * 10 + (c - 48)) s

read-decimal_from :
    (f n : ℕ) (out : Text) → n < f → read_digits 0 (decimal_from f n out) ≡ read_digits n out
unfolding decimal_from read_digits
read-decimal_from zero n out h = absurd (omega arith)
read-decimal_from (suc f) n out h = elim (Bool-cases (ltb n 10)) [
  | inl small ↦ rw small (ap (λ k. read_digits k out) (omega arith))
  | inr large ↦ rw large (
      read-decimal_from f (n / 10) ((48 + n % 10) ∷ out) (ground arith)
      ∙ ap (λ k. read_digits k out) (omega arith))
]

pub read_digits-decimal : (n : ℕ) → read_digits 0 (decimal n) ≡ n
unfolding decimal read_digits
read_digits-decimal n = read-decimal_from (suc n) n [] (omega arith)

pub decimal-injective : (m n : ℕ) → decimal m ≡ decimal n → m ≡ n
decimal-injective m n e = sym (read_digits-decimal m) ∙ ap (read_digits 0) e ∙ read_digits-decimal n

decimal_from-cons :
    (f n x : ℕ) (out : Text) → (c : ℕ) × (t : Text) × (decimal_from f n (x ∷ out) ≡ c ∷ t)
unfolding decimal_from
decimal_from-cons zero n x out = (x, out, refl)
decimal_from-cons (suc f) n x out = elim (Bool-cases (ltb n 10)) [
  | inl small ↦ (48 + n, x ∷ out, rw small)
  | inr large ↦
      let (c, t, e) = decimal_from-cons f (n / 10) (48 + n % 10) (x ∷ out) in (c, t, rw large e)
]

-- `str(n)` is not empty.
pub decimal-cons : (n : ℕ) → (c : ℕ) × (t : Text) × (decimal n ≡ c ∷ t)
unfolding decimal decimal_from
decimal-cons n = elim (Bool-cases (ltb n 10)) [
  | inl small ↦ (48 + n, [], rw small)
  | inr large ↦ let (c, t, e) = decimal_from-cons n (n / 10) (48 + n % 10) [] in (c, t, rw large e)
]

-- No character of `t` is the separator.
abbrev pub NoColon : Text → Type 0
NoColon = All (λ c. c ≢ b':')

decimal_from-NoColon : (f n : ℕ) (out : Text) → NoColon out → NoColon (decimal_from f n out)
unfolding decimal_from
decimal_from-NoColon zero n out h = h
decimal_from-NoColon (suc f) n out h = elim (Bool-cases (ltb n 10)) [
  | inl small ↦ rw small (ground arith, h)
  | inr large ↦ rw large (decimal_from-NoColon f (n / 10) _ (omega arith, h))
]

pub decimal-NoColon : (n : ℕ) → NoColon (decimal n)
unfolding decimal
decimal-NoColon n = decimal_from-NoColon (suc n) n [] tt

-- A text is cut in one way at its first separator.
pub split_at_colon :
    (s t u v : Text) → NoColon s → NoColon t → s ++ b':' ∷ u ≡ t ++ b':' ∷ v → (s ≡ t) × (u ≡ v)
split_at_colon [] [] u v p q e = (refl, cc)
split_at_colon [] (y ∷ t) u v p q e = absurd (q.0 (cc))
split_at_colon (x ∷ s) [] u v p q e = absurd (p.0 (cc))
split_at_colon (x ∷ s) (y ∷ t) u v p q e =
    let (a, b) = split_at_colon s t u v p.1 q.1 (cc) in (cc, b)

-- One more decimal digit at the right end.
decimal_from-append : (f n : ℕ) (out : Text) → decimal_from f n out ≡ decimal_from f n [] ++ out
unfolding decimal_from
decimal_from-append zero n out = refl
decimal_from-append (suc f) n out = elim (Bool-cases (ltb n 10)) [
  | inl small ↦ rw small
  | inr large ↦ rw (
    large,
    decimal_from-append f (n / 10) ((48 + n % 10) ∷ out),
    decimal_from-append f (n / 10) ((48 + n % 10) ∷ []),
    append_assoc,
  )
]

decimal_from_fuel :
    (f g n : ℕ) (out : Text) → n < f → n < g → decimal_from f n out ≡ decimal_from g n out
unfolding decimal_from
decimal_from_fuel zero g n out p q = absurd (omega arith)
decimal_from_fuel (suc f) zero n out p q = absurd (omega arith)
decimal_from_fuel (suc f) (suc g) n out p q = elim (Bool-cases (ltb n 10)) [
  | inl small ↦ rw small
  | inr large ↦
      rw large (decimal_from_fuel f g (n / 10) ((48 + n % 10) ∷ out) (ground arith) (ground arith))
]

pub decimal_digit : (n d : ℕ) → 0 < n → d < 10 → decimal (n * 10 + d) ≡ decimal n ++ (48 + d) ∷ []
unfolding decimal decimal_from
decimal_digit n d h k =
    let large : ltb (n * 10 + d) 10 ≡ false = ground arith in
    let tens : (n * 10 + d) / 10 ≡ n = omega arith in
    let units : (n * 10 + d) % 10 ≡ d = omega arith in
    let same : decimal_from (n * 10 + d) n [] ≡ decimal_from (suc n) n [] =
      decimal_from_fuel (n * 10 + d) (suc n) n [] (omega arith) (omega arith) in
    rw large
      (rw (tens, units) (decimal_from-append (n * 10 + d) n _ ∙ ap (λ k. k ++ (48 + d) ∷ []) same))

decimal_1203 : decimal 1203 ≡ codes "1203"
unfolding decimal
decimal_1203 = refl
