-- ===== src/Scheduler.antt =====
-- Scheduled tasks: the rows of backend/app/task/model/scheduler.py with their event listeners, and
-- `crontab_verify` of backend/app/task/utils/tzcrontab.py. The table behind sqlalchemy and what is
-- used of celery, json and datetime are parameters. Times are microseconds.
pub mod Service
pub mod Beat
pub mod Concrete
use mc_bd.Prelude.{
  ℕ, ◌%◌, ◌-◌, ◌≡◌, ◌==◌, Bool, true, false, not, ◌&&◌, Option, none, some, List, [], ◌∷◌, length,
  if◌then◌else◌,
}
use mc_bd.Prelude.Text.{Text, codes, text_eq}
use mc_bd.Errors.{Error, conflict, bad_request, plain}
use mc_bd.Redis.{Redis, is_some}
use mc_bd.Platform.{micro}

-- A value of a JSON column: one that is false in Python, a text that is not empty, or another value.
pub data Argument : Type 0 where
  nothing other : Argument
  written : Text → Argument

-- TaskSchedulerType
abbrev pub interval : ℕ
interval = 0

abbrev pub crontab_type : ℕ
crontab_type = 1

-- TaskScheduler. `no_changes` is an attribute of the object and no column.
pub record TaskScheduler : Type 0 where
  pub id : ℕ
  pub name : Text
  pub task : Text
  pub args : Argument
  pub kwargs : Argument
  pub queue : Option Text
  pub exchange : Option Text
  pub routing_key : Option Text
  pub start_time : Option ℕ
  pub expire_time : Option ℕ
  pub expire_seconds : Option ℕ
  pub type : ℕ
  pub interval_every : Option ℕ
  pub interval_period : Option Text
  pub crontab : Option Text
  pub one_off : Bool
  pub enabled : Bool
  pub total_run_count : ℕ
  pub last_run_time : Option ℕ
  pub remark : Option Text
  pub no_changes : Bool

-- The statements on task_scheduler. An object is written back by its primary key.
pub record TaskTable : Type 1 where
  pub Table : Type 0
  pub find : Table → ℕ → Option TaskScheduler
  pub find_name : Table → Text → Option TaskScheduler
  pub next_id : Table → ℕ
  pub insert : Table → TaskScheduler → Table
  pub write : Table → TaskScheduler → Table
  pub remove : Table → ℕ → Table
  -- SELECT … WHERE enabled
  pub enabled_rows : Table → List TaskScheduler
  pub find-write :
      (t : Table) (r s : TaskScheduler) (j : ℕ)
      → find t r.id ≡ some s
      → find (write t r) j ≡ (if r.id == j then some r else find t j)
  pub find_name-insert :
      (t : Table) (r : TaskScheduler) (n : Text)
      → find_name t r.name ≡ none
      → find_name (insert t r) n
        ≡ (if text_eq r.name n then some (record r { id = next_id t }) else find_name t n)
  pub find-remove :
      (t : Table) (i j : ℕ) → find (remove t i) j ≡ (if i == j then none else find t j)

-- celery, json.loads (none is ValueError), strftime and strptime with a format in whole seconds
pub record Celery : Type 1 where
  pub Json : Type 0
  pub loads : Text → Option Json
  -- `crontab(*fields)` of five fields raises no ParseException
  pub parses : List Text → Bool
  -- `timedelta(**{period: every})` raises nothing
  pub is_period : Text → Bool
  -- schedule.is_due of an interval: the period, its count, the last run and the time
  pub every_due : Text → ℕ → ℕ → ℕ → Bool × ℕ
  -- max(crontab.remaining_estimate(…), 0), of the fields, the last run and the time
  pub remaining : List Text → ℕ → ℕ → ℕ
  pub to_str : ℕ → Text
  pub from_str : Text → ℕ
  pub from-to_str : (t : ℕ) → from_str (to_str t) ≡ t - t % micro
  pub to_str-present : (t : ℕ) → (c : ℕ) × (r : Text) × (to_str t ≡ c ∷ r)

-- `t.split(' ')`
onto_first : ℕ → List Text → List Text
onto_first c [] = (c ∷ []) ∷ []
onto_first c (t ∷ ts) = (c ∷ t) ∷ ts

unfoldable pub split_space : Text → List Text
unfolding onto_first
split_space [] = [] ∷ []
split_space (c ∷ t) = let rest = split_space t in if c == b' ' then [] ∷ rest else onto_first c rest

abbrev pub crontab_invalid : Error
crontab_invalid = bad_request "Crontab 表达式非法"

-- CELERY_REDIS_PREFIX
abbrev pub last_update_key : Text
last_update_key = codes "mc:celery:last_update"

-- What one message to a worker holds
pub record Sent (C : Celery) : Type 0 where
  pub name : Text
  pub args : Option C.Json
  pub kwargs : Option C.Json

-- What the services and the scheduler share.
pub record TaskWorld (R : Redis) (T : TaskTable) (C : Celery) : Type 0 where
  pub store : R.Store
  pub table : T.Table
  pub sent : List (Sent C)
  pub now : ℕ

-- crontab_verify, where true is no exception
unfoldable pub crontab_verify : Celery → Text → Bool
crontab_verify C crontab_str =
    let crontab_split = split_space crontab_str in
    (length crontab_split == 5) && C.parses crontab_split

abbrev pub expires_twice : Error
expires_twice = conflict (plain "expires 和 expire_seconds 只能设置一个")

-- The test of before_insert_or_update
unfoldable pub has_both_expiries : TaskScheduler → Bool
has_both_expiries target = is_some target.expire_seconds && is_some target.expire_time

-- update_changed, and the listener `changed`, which leaves it out where no_changes is set
module _ (R : Redis) (T : TaskTable) (C : Celery) where
  unfoldable pub update_changed : TaskWorld R T C → TaskWorld R T C
  update_changed w = record w { store = R.put w.store last_update_key (C.to_str w.now) }

  unfoldable pub changed : TaskScheduler → TaskWorld R T C → TaskWorld R T C
  changed target w = if not target.no_changes then update_changed w else w
