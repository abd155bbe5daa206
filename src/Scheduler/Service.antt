-- ===== src/Scheduler/Service.antt =====
-- backend/app/task/service/scheduler_service.py with backend/app/task/crud/crud_scheduler.py. The
-- listeners run at each flush; `update_changed` starts a task that sets the key at once.
pub mod Checks
pub mod Noticed
use mc_bd.Prelude.{
  ℕ, ◌==◌, Bool, true, false, not, ◌&&◌, Option, none, some, ◌++◌, [], ◌∷◌, if◌then◌else◌,
}
use mc_bd.Prelude.Text.{Text, codes, text_eq}
use mc_bd.Errors.{Error, Result, ok, err, not_found, conflict, server, bad_request, plain}
use mc_bd.Redis.{Redis, is_some}
use mc_bd.Scheduler.{
  Argument, nothing, other, written, TaskScheduler, TaskTable, Celery, Sent, TaskWorld,
  crontab_type, crontab_verify, crontab_invalid, has_both_expiries, expires_twice, update_changed,
}

-- CreateTaskSchedulerParam and UpdateTaskSchedulerParam; a field that is not in the body is none.
pub record TaskSchedulerParam : Type 0 where
  pub name : Text
  pub task : Text
  pub args : Option Argument
  pub kwargs : Option Argument
  pub queue : Option (Option Text)
  pub exchange : Option (Option Text)
  pub routing_key : Option (Option Text)
  pub start_time : Option (Option ℕ)
  pub expire_time : Option (Option ℕ)
  pub expire_seconds : Option (Option ℕ)
  pub type : ℕ
  pub interval_every : Option (Option ℕ)
  pub interval_period : Option (Option Text)
  pub crontab : Option Text
  pub one_off : Option Bool
  pub remark : Option (Option Text)

abbrev pub given : {A : Type 0} → Option A → A → A
given none a = a
given (some b) a = b

-- The fields of the body, over a row: `model_dump(exclude_unset=True)` and `setattr`
unfoldable pub set_fields : TaskSchedulerParam → TaskScheduler → TaskScheduler
set_fields obj row = record row {
  name = obj.name;
  task = obj.task;
  args = given obj.args row.args;
  kwargs = given obj.kwargs row.kwargs;
  queue = given obj.queue row.queue;
  exchange = given obj.exchange row.exchange;
  routing_key = given obj.routing_key row.routing_key;
  start_time = given obj.start_time row.start_time;
  expire_time = given obj.expire_time row.expire_time;
  expire_seconds = given obj.expire_seconds row.expire_seconds;
  type = obj.type;
  interval_every = given obj.interval_every row.interval_every;
  interval_period = given obj.interval_period row.interval_period;
  crontab = given (to_some obj.crontab) row.crontab;
  one_off = given obj.one_off row.one_off;
  remark = given obj.remark row.remark;
}
  where
    to_some : Option Text → Option (Option Text)
    to_some none = none
    to_some (some t) = some (some t)

-- The defaults of the schema and of the columns
abbrev pub default_crontab : Text
default_crontab = codes "* * * * *"

abbrev pub defaults : TaskScheduler
defaults = record {
  id = 0;
  name = [];
  task = [];
  args = nothing;
  kwargs = nothing;
  queue = none;
  exchange = none;
  routing_key = none;
  start_time = none;
  expire_time = none;
  expire_seconds = none;
  type = 0;
  interval_every = none;
  interval_period = none;
  crontab = some default_crontab;
  one_off = false;
  enabled = true;
  total_run_count = 0;
  last_run_time = none;
  remark = none;
  no_changes = false;
}

abbrev pub task_missing : Error
task_missing = not_found (plain "任务调度不存在")

abbrev pub task_exists : Error
task_exists = conflict (plain "任务调度已存在")

abbrev pub arguments_invalid : Error
arguments_invalid = bad_request "执行失败，任务参数非法"

module _ (R : Redis) (T : TaskTable) (C : Celery) where
  -- What an operation returns and leaves behind
  abbrev pub Outcome : Type 0 → Type 0
  Outcome A = Result A × TaskWorld R T C

  -- An insertion and an update of one row, with the listeners
  unfoldable pub flush_insert : TaskScheduler → TaskWorld R T C → Outcome (Unit {0})
  flush_insert row w =
      if has_both_expiries row
      then (err expires_twice, w)
      else (ok tt, update_changed R T C (record w { table = T.insert w.table row }))

  unfoldable pub flush_update : TaskScheduler → TaskWorld R T C → Outcome ℕ
  flush_update row w =
      if has_both_expiries row
      then (err expires_twice, w)
      else (ok 1, update_changed R T C (record w { table = T.write w.table row }))

  -- `if not task_scheduler: raise`, and what follows for a row
  with_row :
      {A : Type 0}
      → (TaskScheduler → TaskWorld R T C → Outcome A)
      → Option TaskScheduler
      → TaskWorld R T C
      → Outcome A
  with_row f none w = (err task_missing, w)
  with_row f (some row) w = f row w

  -- TaskSchedulerService.get
  unfoldable pub get : ℕ → TaskWorld R T C → Outcome TaskScheduler
  unfolding with_row
  get pk w = with_row (λ row w'. (ok row, w')) (T.find w.table pk) w

  -- `obj.type == CRONTAB` and the check of the expression
  unfoldable pub refuses : ℕ → TaskSchedulerParam → Bool
  refuses type obj =
      (type == crontab_type) && not (crontab_verify C (given obj.crontab default_crontab))

  unfoldable pub create : TaskSchedulerParam → TaskWorld R T C → Outcome (Unit {0})
  create obj w =
      if is_some (T.find_name w.table obj.name)
      then (err task_exists, w)
      else if refuses obj.type obj
      then (err crontab_invalid, w)
      else flush_insert (set_fields obj defaults) w

  update_row : TaskSchedulerParam → TaskScheduler → TaskWorld R T C → Outcome ℕ
  update_row obj row w =
      if not (text_eq row.name obj.name) && is_some (T.find_name w.table obj.name)
      then (err task_exists, w)
      else if refuses row.type obj
      then (err crontab_invalid, w)
      else flush_update (set_fields obj row) w

  unfoldable pub update : ℕ → TaskSchedulerParam → TaskWorld R T C → Outcome ℕ
  unfolding update_row with_row
  update pk obj w = with_row (update_row obj) (T.find w.table pk) w

  switch_row : TaskScheduler → TaskWorld R T C → Outcome ℕ
  switch_row row = flush_update (record row { enabled = not row.enabled })

  unfoldable pub update_status : ℕ → TaskWorld R T C → Outcome ℕ
  unfolding with_row switch_row
  update_status pk w = with_row switch_row (T.find w.table pk) w

  delete_row : ℕ → TaskScheduler → TaskWorld R T C → Outcome ℕ
  delete_row pk row w = (ok 1, update_changed R T C (record w { table = T.remove w.table pk }))

  unfoldable pub delete : ℕ → TaskWorld R T C → Outcome ℕ
  unfolding with_row delete_row
  delete pk w = with_row (delete_row pk) (T.find w.table pk) w

  -- `json.loads(value) if value else None`; TypeError and JSONDecodeError are caught.
  unfoldable pub load_argument : Argument → Option (Option C.Json)
  load_argument nothing = some none
  load_argument (written t) = elim (C.loads t) [ none ↦ none | some j ↦ some (some j) ]
  load_argument other = none

  send :
      TaskScheduler
      → Option (Option C.Json)
      → Option (Option C.Json)
      → TaskWorld R T C
      → Outcome (Unit {0})
  send row (some args) (some kwargs) w =
      let message : Sent C = record { name = row.task; args = args; kwargs = kwargs } in
      (ok tt, record w { sent = w.sent ++ message ∷ [] })
  send row (some args) none w = (err arguments_invalid, w)
  send row none kwargs w = (err arguments_invalid, w)

  send_row : TaskScheduler → TaskWorld R T C → Outcome (Unit {0})
  unfolding send
  send_row row = send row (load_argument row.args) (load_argument row.kwargs)

  -- `workers` tells whether a worker answers the ping.
  unfoldable pub execute : Bool → ℕ → TaskWorld R T C → Outcome (Unit {0})
  unfolding send_row with_row
  execute false pk w = (err (server (plain "Celery Worker 暂不可用，请稍后重试")), w)
  execute true pk w = with_row send_row (T.find w.table pk) w
