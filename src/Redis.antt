-- ===== src/Redis.antt =====
-- backend/database/redis.py: `delete_prefix` and `get_prefix`, over a Redis server that is a
-- parameter. The server is a state with the commands that the program sends, under the laws that
-- Redis documents for them: DEL and SET act on one key, SCAN returns every key that is present
-- and matches, possibly more than once and in any order, and no other key. Keys and values are texts
-- (`decode_responses`). The patterns of the program hold no glob character but the last `*`.
pub mod Prefix
pub mod Memory
use mc_bd.Prelude.{
  ℕ, suc, ◌<◌, ◌≡◌, Bool, true, false, not, ◌&&◌, ◌||◌, Option, none, some, List, [], ◌∷◌, ◌++◌,
  length, leb, if◌then◌else◌,
}
use mc_bd.Prelude.Text.{Text, text_eq, starts_with}

-- `key in keys`
unfoldable pub mem : Text → List Text → Bool
mem k [] = false
mem k (j ∷ ks) = text_eq j k || mem k ks

abbrev pub is_some {ℓ} : {A : Type ℓ} → Option A → Bool
is_some none = false
is_some (some a) = true

pub record Redis : Type 1 where
  pub Store : Type 0
  -- GET key
  pub get : Store → Text → Option Text
  -- SET key value
  pub put : Store → Text → Text → Store
  -- SETEX key seconds value
  pub setex : Store → Text → ℕ → Text → Store
  -- SET key value NX EX seconds, and whether it set the key
  pub set_nx : Store → Text → Text → ℕ → Bool × Store
  -- DEL key
  pub remove : Store → Text → Store
  -- SCAN with MATCH prefix*, run to its end
  pub scan : Store → Text → List Text
  pub get-put :
      (s : Store) (k v j : Text) → get (put s k v) j ≡ (if text_eq k j then some v else get s j)
  pub get-setex :
      (s : Store) (k : Text) (n : ℕ) (v j : Text)
      → 0 < n
      → get (setex s k n v) j ≡ (if text_eq k j then some v else get s j)
  pub set_nx-free : (s : Store) (k v : Text) (n : ℕ) → (set_nx s k v n).0 ≡ not (is_some (get s k))
  pub get-set_nx :
      (s : Store) (k v : Text) (n : ℕ) (j : Text)
      → 0 < n
      → get (set_nx s k v n).1 j
        ≡ (if text_eq k j && not (is_some (get s k)) then some v else get s j)
  pub get-remove :
      (s : Store) (k j : Text) → get (remove s k) j ≡ (if text_eq k j then none else get s j)
  pub mem-scan :
      (s : Store) (p k : Text) → mem k (scan s p) ≡ (starts_with p k && is_some (get s k))

module _ (R : Redis) where
  open R use {Store, remove, scan}

  -- DEL with several keys
  unfoldable pub delete : Store → List Text → Store
  delete s [] = s
  delete s (k ∷ ks) = delete (remove s k) ks

  -- The loop of `delete_prefix` over the scanned keys: `batch` is `batch_keys`.
  unfoldable pub sweep : List Text → ℕ → List Text → List Text → Store → Store
  sweep exclude size [] batch s = delete s batch
  sweep exclude size (k ∷ keys) batch s = elim (mem k exclude) [
    | true ↦ sweep exclude size keys batch s
    | false ↦ elim (leb size (length (batch ++ k ∷ []))) [
      | true ↦ sweep exclude size keys [] (delete s (batch ++ k ∷ []))
      | false ↦ sweep exclude size keys (batch ++ k ∷ []) s
    ]
  ]

  -- RedisCli.delete_prefix
  unfoldable pub delete_prefix : Text → List Text → ℕ → Store → Store
  delete_prefix prefix exclude batch_size s = sweep exclude batch_size (scan s prefix) [] s

  -- RedisCli.get_prefix
  unfoldable pub get_prefix : Text → Store → List Text
  get_prefix prefix s = scan s prefix
