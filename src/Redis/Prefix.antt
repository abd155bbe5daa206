-- ===== src/Redis/Prefix.antt =====
-- What `delete_prefix` and `get_prefix` of backend/database/redis.py leave and return.
use mc_bd.Prelude.{
  ℕ, ◌≡◌, refl, ap, true, not, ◌&&◌, ◌||◌, none, List, [], ◌∷◌, ◌++◌, length, leb, if◌then◌else◌,
  arith, inl, inr, Bool-cases, Option-cases,
}
use mc_bd.Prelude.Text.{Text, text_eq, starts_with, eq_of_text_eq}
use mc_bd.Redis.{Redis, mem, delete, sweep, delete_prefix, is_some}

mem-append : (k : Text) (xs ys : List Text) → mem k (xs ++ ys) ≡ (mem k xs || mem k ys)
unfolding mem
mem-append k [] ys = refl
mem-append k (x ∷ xs) ys = ground (arith, mem-append k xs ys)

-- Membership does not tell equal texts apart.
text_eq-mem : (k j : Text) (xs : List Text) → text_eq k j ≡ true → mem k xs ≡ mem j xs
text_eq-mem k j xs e = rw (eq_of_text_eq k j e)

module _ (R : Redis) where
  open R use {Store, get, remove, scan, get-remove, mem-scan}

  pub get-delete :
      (s : Store) (ks : List Text) (j : Text)
      → get (delete R s ks) j ≡ (if mem j ks then none else get s j)
  unfolding delete mem
  get-delete s [] j = refl
  get-delete s (k ∷ ks) j = ground (arith, get-delete (remove s k) ks j, get-remove s k j)

  -- What the loop has collected or will collect is gone, the rest is untouched.
  get-sweep :
      (exclude : List Text) (size : ℕ) (keys batch : List Text) (s : Store) (j : Text)
      → get (sweep R exclude size keys batch s) j
        ≡ (if mem j batch || (mem j keys && not (mem j exclude)) then none else get s j)
  unfolding sweep mem
  get-sweep exclude size [] batch s j = ground (arith, get-delete s batch j)
  get-sweep exclude size (k ∷ keys) batch s j = elim (Bool-cases (mem k exclude)) [
    | inl kept ↦
        rw (kept, sweep)
          (ground (arith, get-sweep exclude size keys batch s j, text_eq-mem k j exclude))
    | inr swept ↦
        rw (swept, sweep)
          (elim (Bool-cases (leb size (length (batch ++ k ∷ [])))) [
            | inl full ↦
                rw (full, sweep)
                  (ground (
                    arith,
                    get-sweep exclude size keys [] (delete R s (batch ++ k ∷ [])) j,
                    get-delete s (batch ++ k ∷ []) j,
                    mem-append j batch (k ∷ []),
                    text_eq-mem k j exclude,
                  ))
            | inr room ↦
                rw (room, sweep)
                  (ground (
                    arith,
                    get-sweep exclude size keys (batch ++ k ∷ []) s j,
                    mem-append j batch (k ∷ []),
                    text_eq-mem k j exclude,
                  ))
          ])
  ]

  -- `delete_prefix` removes exactly the keys that begin with the prefix and are not excluded, for
  -- every batch size; every other key keeps its value.
  pub get-delete_prefix :
      (p : Text) (exclude : List Text) (size : ℕ) (s : Store) (j : Text)
      → get (delete_prefix R p exclude size s) j
        ≡ (if starts_with p j && not (mem j exclude) then none else get s j)
  unfolding delete_prefix mem
  get-delete_prefix p exclude size s j = elim (Option-cases (get s j)) [
    | inl gone ↦ ground (arith, get-sweep exclude size (scan s p) [] s j)
    | inr (v, there) ↦
        ground (arith, get-sweep exclude size (scan s p) [] s j, mem-scan s p j, ap is_some there)
  ]
