-- ===== src/Scheduler/Concrete.antt =====
-- A table in memory and a calendar that is always due, which show that the hypotheses on the
-- database, celery and datetime can hold.
use mc_bd.Prelude.{
  ℕ, ◌+◌, ◌-◌, ◌%◌, ◌≡◌, refl, ◌==◌, ◌∷◌, [], List, Option, none, some, true, false, arith,
  if◌then◌else◌, Bool-cases, inl, inr,
}
use mc_bd.Prelude.Text.{Text, text_eq}
use mc_bd.Platform.{micro}
use mc_bd.Scheduler.{TaskScheduler, TaskTable, Celery}

unfoldable pub find_in : List TaskScheduler → ℕ → Option TaskScheduler
find_in [] i = none
find_in (r ∷ rs) i = let rest = find_in rs i in if r.id == i then some r else rest

unfoldable pub find_name_in : List TaskScheduler → Text → Option TaskScheduler
find_name_in [] n = none
find_name_in (r ∷ rs) n = let rest = find_name_in rs n in if text_eq r.name n then some r else rest

-- One more than the sum of the numbers in use
unfoldable pub fresh_id : List TaskScheduler → ℕ
fresh_id [] = 1
fresh_id (r ∷ rs) = r.id + fresh_id rs

unfoldable pub insert_in : List TaskScheduler → TaskScheduler → List TaskScheduler
insert_in rs r = record r { id = fresh_id rs } ∷ rs

unfoldable pub write_in : List TaskScheduler → TaskScheduler → List TaskScheduler
write_in [] r = []
write_in (q ∷ rs) r = (if q.id == r.id then r else q) ∷ write_in rs r

unfoldable pub remove_in : List TaskScheduler → ℕ → List TaskScheduler
remove_in [] i = []
remove_in (r ∷ rs) i = let rest = remove_in rs i in if r.id == i then rest else r ∷ rest

unfoldable pub enabled_in : List TaskScheduler → List TaskScheduler
enabled_in [] = []
enabled_in (r ∷ rs) = let rest = enabled_in rs in if r.enabled then r ∷ rest else rest

below :
    {A : Type 0} (i j : ℕ) (a b c : A) → (i == j) ≡ false → (if i == j then a else b) ≡ c → b ≡ c
below i j a b c h e = ground arith

find-write_other :
    (rs : List TaskScheduler) (r : TaskScheduler) (j : ℕ)
    → (r.id == j) ≡ false
    → find_in (write_in rs r) j ≡ find_in rs j
unfolding find_in write_in
find-write_other [] r j h = refl
find-write_other (q ∷ rs) r j h = ground (arith, find-write_other rs r j h)

pub find-write_in :
    (rs : List TaskScheduler) (r s : TaskScheduler) (j : ℕ)
    → find_in rs r.id ≡ some s
    → find_in (write_in rs r) j ≡ (if r.id == j then some r else find_in rs j)
unfolding find_in write_in
find-write_in [] r s j h = cc
find-write_in (q ∷ rs) r s j h = elim (Bool-cases (q.id == r.id)) [
  | inl same ↦ elim (Bool-cases (r.id == j)) [
    | inl here ↦ ground arith
    | inr there ↦ ground (arith, find-write_other rs r j there)
  ]
  | inr apart ↦
      let ih =
        find-write_in rs r s j (below q.id r.id (some q) (find_in rs r.id) (some s) apart h) in
      ground (arith, ih)
]

pub find_name-insert_in :
    (rs : List TaskScheduler) (r : TaskScheduler) (n : Text)
    → find_name_in rs r.name ≡ none
    → find_name_in (insert_in rs r) n
      ≡ (if text_eq r.name n then some (record r { id = fresh_id rs }) else find_name_in rs n)
unfolding find_name_in insert_in
find_name-insert_in rs r n h = refl

pub find-remove_in :
    (rs : List TaskScheduler) (i j : ℕ)
    → find_in (remove_in rs i) j ≡ (if i == j then none else find_in rs j)
unfolding find_in remove_in
find-remove_in [] i j = ground arith
find-remove_in (r ∷ rs) i j = ground (arith, find-remove_in rs i j)

abbrev pub listed : TaskTable
listed = record {
  Table = List TaskScheduler;
  find = find_in;
  find_name = find_name_in;
  next_id = fresh_id;
  insert = insert_in;
  write = write_in;
  remove = remove_in;
  enabled_rows = enabled_in;
  find-write = find-write_in;
  find_name-insert = find_name-insert_in;
  find-remove = find-remove_in;
}

-- Times are written as one number after a letter; every expression is valid, and every task is due.
unfoldable pub read_time : Text → ℕ
read_time [] = 0
read_time (c ∷ []) = 0
read_time (c ∷ t ∷ r) = t

pub from-to_text : (t : ℕ) → read_time (b't' ∷ (t - t % micro) ∷ []) ≡ t - t % micro
unfolding read_time
from-to_text t = refl

abbrev pub always : Celery
always = record {
  Json = Text;
  loads = λ t. some t;
  parses = λ fields. true;
  is_period = λ t. true;
  every_due = λ period n last now. (true, n);
  remaining = λ fields last now. 0;
  to_str = λ t. b't' ∷ (t - t % micro) ∷ [];
  from_str = read_time;
  from-to_str = from-to_text;
  to_str-present = λ t. (b't', (t - t % micro) ∷ [], refl);
}
