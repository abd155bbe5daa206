-- ===== src/Scheduler/Beat.antt =====
-- backend/app/task/utils/schedulers.py and TzAwareCrontab.is_due of backend/app/task/utils/tzcrontab.py.
-- An entry and its model are one object in memory, which the heap of celery and the dictionary
-- `_schedule` share; so what changes the model is also written into the dictionary. The row that
-- `save` rewrites passed before_update when it was stored, and `save` changes no field of that test.
-- The task of `_disable` runs before the new entry is asked anything. No database error occurs.
pub mod OneOff
pub mod Ready
pub mod Reload
pub mod Sync
pub mod Ends
pub mod Quiet
use Prim.Native.String.{String}
use mc_bd.Prelude.{
  ℕ, zero, suc, ◌+◌, ◌-◌, ◌*◌, ◌/◌, ◌==◌, ltb, Bool, true, false, not, ◌&&◌, Option, none, some,
  List, [], ◌∷◌, ◌++◌, length, if◌then◌else◌,
}
use mc_bd.Prelude.Text.{Text, codes, text_eq}
use mc_bd.Errors.{Error, Result, ok, err, unexpected}
use mc_bd.Redis.{Redis, mem}
use mc_bd.Platform.{micro}
use mc_bd.Action.{present}
use mc_bd.Scheduler.{
  Argument, nothing, other, written, TaskScheduler, TaskTable, Celery, TaskWorld, interval,
  crontab_type, split_space, last_update_key, changed,
}

-- `self.schedule` of an entry
pub data Plan : Type 0 where
  every : Text → ℕ → Plan
  cron : List Text → Plan

-- The keyword arguments of a message, `self.options`
pub record Options : Type 0 where
  pub routing : List (Text × Text)
  pub expires : Option ℕ
  pub periodic_task_name : Text

pub record Entry (C : Celery) : Type 0 where
  pub model : TaskScheduler
  pub plan : Option Plan
  pub args : Option C.Json
  pub kwargs : Option C.Json
  pub options : Options
  pub last_run_at : ℕ

-- `schedules.schedstate`, with the delay in microseconds
pub record Due : Type 0 where
  pub is_due : Bool
  pub next : ℕ

abbrev pub out_of_fuel : Error
out_of_fuel = unexpected "out of fuel"

-- A dictionary by name, and a set of names
unfoldable pub lookup : {A : Type 0} → Text → List (Text × A) → Option A
lookup k [] = none
lookup k ((j, a) ∷ rest) = let found = lookup k rest in if text_eq j k then some a else found

unfoldable pub replace : {A : Type 0} → Text → A → List (Text × A) → List (Text × A)
replace k a [] = []
replace k a ((j, b) ∷ rest) = (if text_eq j k then (j, a) else (j, b)) ∷ replace k a rest

unfoldable pub add : Text → List Text → List Text
add k ks = if mem k ks then ks else k ∷ ks

module _ (C : Celery) where
  interval_plan : Option ℕ → Option Text → Option Plan
  interval_plan (some n) (some period) = if C.is_period period then some (every period n) else none
  interval_plan (some n) none = none
  interval_plan none period = none

  -- The first five fields; fewer are an IndexError.
  crontab_fields : List Text → Option Plan
  crontab_fields (a ∷ b ∷ c ∷ d ∷ e ∷ rest) =
      if C.parses (a ∷ b ∷ c ∷ d ∷ e ∷ []) then some (cron (a ∷ b ∷ c ∷ d ∷ e ∷ [])) else none
  crontab_fields fields = none

  crontab_plan : Option Text → Option Plan
  unfolding crontab_fields
  crontab_plan none = none
  crontab_plan (some t) = crontab_fields (split_space t)

  -- The first `try` of ModelEntry.__init__, where none is the exception that it catches
  unfoldable pub plan_of : TaskScheduler → Option Plan
  unfolding interval_plan crontab_plan
  plan_of model =
      if model.type == interval
      then interval_plan model.interval_every model.interval_period
      else if model.type == crontab_type
      then crontab_plan model.crontab
      else none

  -- json.loads: the value, a ValueError, which is caught, or a TypeError, which is not
  pub data Loaded : Type 0 where
    value : Option C.Json → Loaded
    value_error type_error : Loaded

  unfoldable pub load : Argument → Loaded
  load nothing = value none
  load (written t) = elim (C.loads t) [ none ↦ value_error | some j ↦ value (some j) ]
  load other = type_error

  option : String → Option Text → List (Text × Text)
  option key none = []
  option key (some v) = (codes key, v) ∷ []

  -- `getattr(model, 'expires_', None)`: the model has no such attribute.
  expires_of : TaskScheduler → Option ℕ
  expires_of model = none

  unfoldable pub options_of : TaskScheduler → Options
  unfolding option expires_of
  options_of model = record {
    routing =
        option "queue" model.queue
        ++ (option "exchange" model.exchange ++ option "routing_key" model.routing_key);
    expires = expires_of model;
    periodic_task_name = model.name;
  }

  first_run : ℕ → Option ℕ → Option ℕ → ℕ
  first_run now (some t) start_time = t
  first_run now none (some start) = start - 365 * 86400 * micro
  first_run now none none = now

  -- The rest of __init__, with `_disable` where a `try` failed
  built : ℕ → TaskScheduler → Option Plan → Bool → Option C.Json → Option C.Json → Entry C
  unfolding first_run
  built now model plan fine args kwargs =
      let last_run_time = first_run now model.last_run_time model.start_time in
      let m = record model { last_run_time = some last_run_time } in
      record {
        model = if fine then m else record m { no_changes = true; enabled = false };
        plan = plan;
        args = args;
        kwargs = kwargs;
        options = options_of model;
        last_run_at = last_run_time;
      }

  abbrev planned : Option Plan → Bool
  planned none = false
  planned (some p) = true

  assemble : ℕ → TaskScheduler → Option Plan → Loaded → Loaded → Result (Entry C)
  unfolding built
  assemble now model plan (value args) (value kwargs) =
      ok (built now model plan (planned plan) args kwargs)
  assemble now model plan (value args) value_error = ok (built now model plan false args none)
  assemble now model plan (value args) type_error = err (unexpected "TypeError")
  assemble now model plan value_error kwargs = ok (built now model plan false none none)
  assemble now model plan type_error kwargs = err (unexpected "TypeError")

  -- ModelEntry(model)
  unfoldable pub make_entry : ℕ → TaskScheduler → Result (Entry C)
  unfolding assemble
  make_entry now model = assemble now model (plan_of model) (load model.args) (load model.kwargs)

  -- ModelEntry.__next__, with the model that it has changed
  unfoldable pub ran : ℕ → TaskScheduler → TaskScheduler
  ran now m = record m {
    last_run_time = some now;
    total_run_count = m.total_run_count + 1;
    no_changes = true;
  }

  unfoldable pub next_entry : ℕ → Entry C → Result (Entry C)
  next_entry now e = make_entry now (ran now e.model)

  -- schedule.is_due and TzAwareCrontab.is_due; an entry without a plan is disabled.
  unfoldable pub plan_due : Option Plan → ℕ → ℕ → Due
  plan_due none last_run_at now = record { is_due = false; next = 0 }
  plan_due (some (every period n)) last_run_at now =
      let (due, delay) = C.every_due period n last_run_at now in
      record { is_due = due; next = delay }
  plan_due (some (cron fields)) last_run_at now =
      let rem = C.remaining fields last_run_at now in
      if rem == 0
      then record { is_due = true; next = C.remaining fields now now }
      else record { is_due = false; next = rem }

-- The time that a task still has to wait for its start, rounded up to seconds
abbrev pub wait_start : Option ℕ → ℕ → Option ℕ
wait_start none now = none
wait_start (some start) now =
    if ltb now start then some ((start - now + (micro - 1)) / micro * micro) else none

module _ (R : Redis) (T : TaskTable) (C : Celery) where
  -- DatabaseScheduler, with the world that it runs in
  pub record DatabaseScheduler : Type 0 where
    pub world : TaskWorld R T C
    pub tasks : List (Text × Entry C)
    pub dirty : List Text
    pub last_update : Option ℕ
    pub initial_read : Bool
    pub heap_invalidated : Bool

  save_row : TaskScheduler → Bool → Option TaskScheduler → TaskWorld R T C → TaskWorld R T C
  save_row m with_enabled none w = w
  save_row m with_enabled (some row) w =
      let task = record row {
        last_run_time = m.last_run_time;
        total_run_count = m.total_run_count;
        no_changes = m.no_changes;
        enabled = if with_enabled then m.enabled else row.enabled;
      } in
      changed R T C task (record w { table = T.write w.table task })

  -- ModelEntry.save, with ('enabled',) as the fields or without
  unfoldable pub save : TaskScheduler → Bool → TaskWorld R T C → TaskWorld R T C
  unfolding save_row
  save m with_enabled w = save_row m with_enabled (T.find w.table m.id) w

  -- What has changed in the model of an entry shows in the dictionary too.
  share : Entry C → DatabaseScheduler → DatabaseScheduler
  share e s = record s { tasks = replace e.model.name e s.tasks }

  spent_one_off : TaskScheduler → Bool
  spent_one_off m = (m.one_off && m.enabled) && ltb 0 m.total_run_count

  switched_off : Entry C → Entry C
  switched_off e = record e {
    model = record e.model { enabled = false; total_run_count = 0; no_changes = false };
  }

  disabled_now : Entry C → DatabaseScheduler → Due × Entry C × DatabaseScheduler
  unfolding share
  disabled_now e s = (
    record { is_due = false; next = 1000000000 * micro },
    e,
    share e (record s { world = save e.model true s.world }),
  )

  -- The early returns of is_due: not enabled, not started, run already, and celery's answer
  verdict : Bool → Option ℕ → Bool → Entry C → DatabaseScheduler → Due × Entry C × DatabaseScheduler
  unfolding plan_due switched_off disabled_now
  verdict false wait spent e s = (record { is_due = false; next = 5 * micro }, e, s)
  verdict true (some delay) spent e s = (record { is_due = false; next = delay }, e, s)
  verdict true none true e s = disabled_now (switched_off e) s
  verdict true none false e s = (plan_due C e.plan e.last_run_at s.world.now, e, s)

  -- ModelEntry.is_due, with the entry and the scheduler that it leaves behind
  unfoldable pub is_due : Entry C → DatabaseScheduler → Due × Entry C × DatabaseScheduler
  unfolding verdict spent_one_off
  is_due e s =
      verdict e.model.enabled (wait_start e.model.start_time s.world.now) (spent_one_off e.model) e
        s

  marked : Text → Result (Entry C) → DatabaseScheduler → Result (Entry C) × DatabaseScheduler
  marked name (err x) s = (err x, s)
  marked name (ok new_entry) s = (ok new_entry, record s { dirty = add name s.dirty })

  -- DatabaseScheduler.reserve: the entry that goes on the heap
  unfoldable pub reserve : Entry C → DatabaseScheduler → Result (Entry C) × DatabaseScheduler
  unfolding share marked
  reserve e s =
      marked e.model.name (next_entry C s.world.now e)
        (share (record e { model = ran C s.world.now e.model }) s)

  -- schedule_changed; its None is false too.
  is_newer : Option ℕ → ℕ → Bool
  is_newer none ts = ltb ts ts
  is_newer (some last) ts = ltb last ts

  decide_change : Option Text → DatabaseScheduler → Bool × DatabaseScheduler
  unfolding is_newer
  decide_change none s =
      let w = s.world in
      let store = R.put w.store last_update_key (C.to_str w.now) in
      (false, record s { world = record w { store = store } })
  decide_change (some t) s =
      (is_newer s.last_update (C.from_str t), record s { last_update = some s.world.now })

  unfoldable pub schedule_changed : DatabaseScheduler → Bool × DatabaseScheduler
  unfolding decide_change
  schedule_changed s = decide_change (present (R.get s.world.store last_update_key)) s

  joined : Text → Result (Entry C) → Result (List (Text × Entry C)) → Result (List (Text × Entry C))
  joined name (err x) rest = err x
  joined name (ok e) (err x) = err x
  joined name (ok e) (ok es) = ok ((name, e) ∷ es)

  -- The loop of get_all_task_schedulers: names are unique in the table.
  entries_of : ℕ → List TaskScheduler → Result (List (Text × Entry C))
  unfolding joined
  entries_of now [] = ok []
  entries_of now (row ∷ rows) = joined row.name (make_entry C now row) (entries_of now rows)

  unfoldable pub get_all_task_schedulers : DatabaseScheduler → Result (List (Text × Entry C))
  unfolding entries_of
  get_all_task_schedulers s = entries_of s.world.now (T.enabled_rows s.world.table)

  abbrev pub Syncing : Type 0
  Syncing = DatabaseScheduler → Result (Unit {0}) × DatabaseScheduler

  take_over :
      Bool
      → Result (List (Text × Entry C))
      → DatabaseScheduler
      → Result (List (Text × Entry C)) × DatabaseScheduler
  take_over initial (err x) s = (err x, s)
  take_over initial (ok tasks) s = (
    ok tasks,
    record s { tasks = tasks; heap_invalidated = if initial then s.heap_invalidated else true },
  )

  read_all :
      Bool
      → Result (Unit {0}) × DatabaseScheduler
      → Result (List (Text × Entry C)) × DatabaseScheduler
  unfolding take_over
  read_all initial (err x, s) = (err x, s)
  read_all initial (ok u, s) = take_over initial (get_all_task_schedulers s) s

  after_check :
      Syncing → Bool × DatabaseScheduler → Result (List (Text × Entry C)) × DatabaseScheduler
  unfolding read_all
  after_check sync_ (true, s) = read_all false (sync_ s)
  after_check sync_ (false, s) = (ok s.tasks, s)

  -- The two tests of the property `schedule`
  read_schedule :
      Bool → Syncing → DatabaseScheduler → Result (List (Text × Entry C)) × DatabaseScheduler
  unfolding after_check
  read_schedule true sync_ s = read_all true (sync_ (record s { initial_read = false }))
  read_schedule false sync_ s = after_check sync_ (schedule_changed s)

  -- The property `schedule`, over the call of `sync` in it
  unfoldable pub schedule_by :
      Syncing → DatabaseScheduler → Result (List (Text × Entry C)) × DatabaseScheduler
  unfolding read_schedule
  schedule_by sync_ s = read_schedule s.initial_read sync_ s

  -- The `finally` of sync
  put_back : List Text → DatabaseScheduler → DatabaseScheduler
  put_back failed s = record s { dirty = s.dirty ++ failed }

  save_named : (List Text → Syncing) → List Text → Text → Option (Entry C) → Syncing
  save_named loop failed name none s = loop (name ∷ failed) s
  save_named loop failed name (some e) s =
      loop failed (record s { world = save e.model false s.world })

  save_next :
      (List Text → Syncing)
      → List Text
      → Text
      → Result (List (Text × Entry C)) × DatabaseScheduler
      → Result (Unit {0}) × DatabaseScheduler
  unfolding put_back save_named
  save_next loop failed name (err x, s) = (err x, put_back failed s)
  save_next loop failed name (ok tasks, s) = save_named loop failed name (lookup name tasks) s

  pop_name : (List Text → Syncing) → List Text → List Text → Syncing
  unfolding put_back save_next
  pop_name loop failed [] s = (ok tt, put_back failed s)
  pop_name loop failed (name ∷ rest) s =
      save_next loop failed name (schedule_by (loop []) (record s { dirty = rest }))

  -- The loop of sync, which may come back to it through `schedule`; a loop that goes on has the
  -- result `out_of_fuel`, which no code raises.
  unfoldable pub sync_loop : ℕ → List Text → Syncing
  unfolding pop_name put_back
  sync_loop zero failed s = (err out_of_fuel, put_back failed s)
  sync_loop (suc n) failed s = pop_name (sync_loop n) failed s.dirty s

  unfoldable pub sync : Syncing
  sync s = sync_loop (suc (length s.dirty)) [] s

  unfoldable pub schedule : DatabaseScheduler → Result (List (Text × Entry C)) × DatabaseScheduler
  schedule s = schedule_by sync s
