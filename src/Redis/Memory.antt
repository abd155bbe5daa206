-- ===== src/Redis/Memory.antt =====
-- A Redis server in memory, which shows that the laws of the interface can hold: an association
-- list in which the first entry of a key counts, and a removal is an entry with no value.
use mc_bd.Prelude.{
  not, ◌≡◌, refl, Bool, true, false, ◌&&◌, ◌||◌, Bool-cases, inl, inr, Option, none, some, List, [],
  ◌∷◌, arith, if◌then◌else◌,
}
use mc_bd.Prelude.Text.{Text, text_eq, starts_with, eq_of_text_eq, text_eq_refl}
use mc_bd.Redis.{Redis, mem, is_some}

abbrev pub Entries : Type 0
Entries = List (Text × Option Text)

unfoldable pub find : Entries → Text → Option Text
find [] k = none
find ((j, v) ∷ s) k = if text_eq j k then v else find s k

-- The keys of `s` that match and have a value in `whole`.
unfoldable pub matching : Text → Entries → Entries → List Text
matching p whole [] = []
matching p whole ((j, v) ∷ s) =
    let rest = matching p whole s in
    if starts_with p j && is_some (find whole j) then j ∷ rest else rest

has_key : Text → Entries → Bool
has_key k [] = false
has_key k ((j, v) ∷ s) = text_eq j k || has_key k s

mem-matching :
    (p k : Text) (whole s : Entries)
    → mem k (matching p whole s) ≡ (has_key k s && (starts_with p k && is_some (find whole k)))
unfolding matching mem has_key
mem-matching p k whole [] = refl
mem-matching p k whole ((j, v) ∷ s) = elim (Bool-cases (text_eq j k)) [
  | inl same ↦
      rw (eq_of_text_eq j k same) (ground (arith, mem-matching p k whole s, text_eq_refl k))
  | inr other ↦ ground (arith, mem-matching p k whole s)
]

has_key_of_find : (k : Text) (s : Entries) → is_some (find s k) ≡ true → has_key k s ≡ true
unfolding find has_key
has_key_of_find k [] h = cc
has_key_of_find k ((j, v) ∷ s) h = ground (arith, has_key_of_find k s)

pub mem-matching_whole :
    (p k : Text) (s : Entries) → mem k (matching p s s) ≡ (starts_with p k && is_some (find s k))
mem-matching_whole p k s = ground (arith, mem-matching p k s s, has_key_of_find k s)

pub find_entry :
    (s : Entries) (k : Text) (v : Option Text) (j : Text)
    → find ((k, v) ∷ s) j ≡ (if text_eq k j then v else find s j)
unfolding find
find_entry s k v j = refl

unfoldable pub claim : Entries → Text → Text → Bool × Entries
claim s k v = if is_some (find s k) then (false, s) else (true, (k, some v) ∷ s)

pub claim-free : (s : Entries) (k v : Text) → (claim s k v).0 ≡ not (is_some (find s k))
unfolding claim
claim-free s k v = ground arith

pub find-claim :
    (s : Entries) (k v j : Text)
    → find (claim s k v).1 j
      ≡ (if text_eq k j && not (is_some (find s k)) then some v else find s j)
unfolding claim
find-claim s k v j = elim (Bool-cases (is_some (find s k))) [
  | inl taken ↦ rw taken (ground arith)
  | inr free ↦ rw free (ground (arith, find_entry s k (some v) j))
]

abbrev pub memory : Redis
memory = record {
  Store = Entries;
  get = find;
  put = λ s k v. (k, some v) ∷ s;
  setex = λ s k n v. (k, some v) ∷ s;
  set_nx = λ s k v n. claim s k v;
  remove = λ s k. (k, none) ∷ s;
  scan = λ s p. matching p s s;
  get-put = λ s k v j. find_entry s k (some v) j;
  get-setex = λ s k n v j h. find_entry s k (some v) j;
  set_nx-free = λ s k v n. claim-free s k v;
  get-set_nx = λ s k v n j h. find-claim s k v j;
  get-remove = λ s k j. find_entry s k none j;
  mem-scan = λ s p k. mem-matching_whole p k s;
}
