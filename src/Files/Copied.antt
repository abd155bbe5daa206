-- ===== src/Files/Copied.antt =====
-- The copy loop of upload_file in backend/utils/file_ops.py.
use mc_bd.Prelude.{
  ℕ, zero, suc, ◌<◌, ◌≡◌, refl, ap, sym, ◌∙◌, some, List, [], ◌∷◌, ◌++◌, length, take, arith,
}
use mathlib.Core.List.{append_assoc, append-nil}
use mc_bd.Files.{drop, copy_step, copy}

take-drop : (n : ℕ) (s : List ℕ) → take n s ++ drop n s ≡ s
unfolding drop
take-drop zero s = refl
take-drop (suc n) [] = refl
take-drop (suc n) (c ∷ s) = ap (λ (t : List ℕ). c ∷ t) (take-drop n s)

length-drop_lt : (n c : ℕ) (s : List ℕ) → length (drop (suc n) (c ∷ s)) < suc (length s)
unfolding drop
length-drop_lt zero c s = omega arith
length-drop_lt (suc n) c [] = omega arith
length-drop_lt (suc n) c (d ∷ s) = omega (arith, length-drop_lt n d s)

-- With a read size above 0 and more fuel than bytes the loop ends, and has written the bytes in their
-- order behind what was written before.
pub copy-append :
    (fuel n : ℕ) (s out : List ℕ) → 0 < n → length s < fuel → copy fuel n s out ≡ some (out ++ s)
unfolding copy copy_step
copy-append zero n s out p h = absurd (omega arith)
copy-append (suc fuel) zero s out p h = absurd (omega arith)
copy-append (suc fuel) (suc n) [] out p h = ap some (sym (append-nil out))
copy-append (suc fuel) (suc n) (c ∷ s) out p h =
    copy-append fuel (suc n) (drop (suc n) (c ∷ s)) (out ++ (c ∷ take n s)) p
      (omega (arith, length-drop_lt n c s))
    ∙ ap some (
        append_assoc out (c ∷ take n s) (drop (suc n) (c ∷ s))
        ∙ ap (λ (t : List ℕ). out ++ t) (take-drop (suc n) (c ∷ s)))
