-- ===== src/Tests/Tasks.antt =====
-- Instances of the theorems on scheduled tasks.
use mc_bd.Prelude.{ℕ, ◌≡◌, ◌≤◌, ◌<◌, refl, inr, none, some, List, [], ◌∷◌, true, false, arith}
use mc_bd.Prelude.Text.{Text, codes, text_eq}
use mc_bd.Errors.{ok}
use mc_bd.Redis.Memory.{memory, Entries, find}
use mc_bd.Scheduler.{
  other, TaskScheduler, TaskWorld, last_update_key, update_changed, has_both_expiries,
}
use mc_bd.Scheduler.Concrete.{listed, always, find_in, write_in, enabled_in, read_time}
use mc_bd.Scheduler.Service.{flush_update, TaskSchedulerParam, defaults, set_fields, update_status}
use mc_bd.Scheduler.Service.Noticed.{change_noticed, switched}
use mc_bd.Scheduler.Beat.{
  options_of, every, plan_of, load, Entry, DatabaseScheduler, make_entry, sync, sync_loop, schedule,
  get_all_task_schedulers, lookup, replace, is_due, reserve, next_entry, schedule_by,
  schedule_changed, ran, plan_due,
}
use mc_bd.Scheduler.Beat.OneOff.{launches, one_off_once, ask, reread, tick, IsRemembered}
use mc_bd.Scheduler.Beat.Ends.{HasEnded, sync_loop_ends}
use mc_bd.Scheduler.Beat.Quiet.{IsQuiet, Synced, sync-Synced}

-- A task that runs every five seconds, with the number of its runs
abbrev job : ℕ → TaskScheduler
job n = record defaults {
  id = 1;
  name = codes "job";
  task = codes "tasks.job";
  interval_every = some 5;
  interval_period = some (codes "seconds");
  one_off = true;
  total_run_count = n;
  last_run_time = some 0;
}

abbrev entry : ℕ → Entry always
entry n = record {
  model = job n;
  plan = some (every (codes "seconds") 5);
  args = none;
  kwargs = none;
  options = record { routing = []; expires = none; periodic_task_name = codes "job" };
  last_run_at = 0;
}

abbrev tasks_at : Entries → List TaskScheduler → ℕ → TaskWorld memory listed always
tasks_at store rows now = record { store = store; table = rows; sent = []; now = now }

-- A scheduler that has checked at microsecond 1200000
abbrev beat : TaskWorld memory listed always → List Text → DatabaseScheduler memory listed always
beat w dirty = record {
  world = w;
  tasks = (codes "job", entry 1) ∷ [];
  dirty = dirty;
  last_update = some 1200000;
  initial_read = false;
  heap_invalidated = false;
}

abbrev stamp : ℕ → Entries
stamp t = (last_update_key, some (b't' ∷ t ∷ [])) ∷ []

task-IsRemembered :
    IsRemembered memory listed always
      (ask 1 ∷ reread 2 ∷ ask 3 ∷ [])
      (entry 0)
      (beat (tasks_at [] [] 0) [])
unfolding IsRemembered tick is_due reserve next_entry schedule schedule_by schedule_changed
    make_entry ran lookup replace find text_eq plan_due plan_of load
task-IsRemembered = (refl, λ over. inr (omega arith), tt)

one_off_once_example :
    (launches memory listed always
        (ask 1 ∷ reread 2 ∷ ask 3 ∷ [])
        (entry 0)
        (beat (tasks_at [] [] 0) [])
      ≤ 1)
    × (0 < 0
        → launches memory listed always
            (ask 1 ∷ reread 2 ∷ ask 3 ∷ [])
            (entry 0)
            (beat (tasks_at [] [] 0) [])
          ≡ 0)
one_off_once_example =
    one_off_once memory listed always (ask 1 ∷ reread 2 ∷ ask 3 ∷ []) (entry 0)
      (beat (tasks_at [] [] 0) []) refl task-IsRemembered

sync_loop_ends_example :
    HasEnded (sync_loop memory listed always 2 [] (beat (tasks_at [] [] 0) (codes "job" ∷ []))).0
    × (sync_loop memory listed always 2 [] (beat (tasks_at [] [] 0) (codes "job" ∷ []))
        ≡ sync_loop memory listed always 9 [] (beat (tasks_at [] [] 0) (codes "job" ∷ [])))
sync_loop_ends_example =
    sync_loop_ends memory listed always 2 9 [] (beat (tasks_at [] [] 0) (codes "job" ∷ []))
      (omega arith) (omega arith)

-- Stamped at second 1, at microsecond 2000000
abbrev quiet : DatabaseScheduler memory listed always
quiet = beat (tasks_at (stamp 1000000) (job 0 ∷ []) 2000000) (codes "job" ∷ codes "gone" ∷ [])

nothing_pending : IsQuiet memory listed always quiet.world quiet.last_update
unfolding read_time find text_eq
nothing_pending = record {
  check = 1200000;
  checked = refl;
  stamp = b't' ∷ 1000000 ∷ [];
  stamped = refl;
  older = omega arith;
  not_ahead = omega arith;
}

sync-Synced_example :
    Synced memory listed always
      (codes "job" ∷ codes "gone" ∷ [])
      []
      quiet
      (sync memory listed always quiet)
sync-Synced_example = sync-Synced memory listed always quiet refl nothing_pending

-- A change at microsecond 1500000
abbrev late : DatabaseScheduler memory listed always
late = beat (tasks_at (stamp 1000000) (job 0 ∷ []) 1500000) []

late_stamped : memory.get late.world.store last_update_key ≡ some (always.to_str 1500000)
unfolding find text_eq
late_stamped = refl

-- The switch of task 1 at microsecond 3000000, and the scheduler a second later
abbrev before : TaskWorld memory listed always
before = tasks_at [] (job 0 ∷ []) 3000000

abbrev switched_job : TaskScheduler
switched_job = record (job 0) { enabled = false }

abbrev after : TaskWorld memory listed always
after = tasks_at ((last_update_key, some (always.to_str 3000000)) ∷ []) (switched_job ∷ []) 3000000

switch_runs : update_status memory listed always 1 before ≡ (ok 1, after)
unfolding update_status find_in write_in flush_update has_both_expiries update_changed
switch_runs = refl

abbrev later : DatabaseScheduler memory listed always
later = beat (record after { now = 4000000 }) []

nothing_enabled : get_all_task_schedulers memory listed always later ≡ ok []
unfolding get_all_task_schedulers enabled_in
nothing_enabled = refl

change_noticed_example :
    let (r, s') = schedule memory listed always later in
    (r ≡ ok []) × (s'.tasks ≡ []) × (s'.heap_invalidated ≡ true)
change_noticed_example =
    change_noticed memory listed always later 1200000 [] (switched 1 1 before after switch_runs)
      refl refl refl refl (omega arith) nothing_enabled

-- A row with `args` that are a list in JSON, between two others
abbrev with_list : TaskScheduler
with_list = record (job 0) { id = 2; name = codes "listed"; args = other }

abbrev starting : DatabaseScheduler memory listed always
starting = record (beat (tasks_at [] (job 0 ∷ with_list ∷ []) 0) []) { initial_read = true }

two_rows : enabled_in (job 0 ∷ with_list ∷ []) ≡ job 0 ∷ with_list ∷ []
unfolding enabled_in
two_rows = refl

-- Memory has counted a run that the table has not, and a change is pending.
abbrev pending : DatabaseScheduler memory listed always
pending = beat (tasks_at (stamp 3000000) (job 0 ∷ []) 5000000) []

pending_stamped : memory.get pending.world.store last_update_key ≡ some (always.to_str 3000000)
unfolding find text_eq
pending_stamped = refl

abbrev read_entry : Entry always
read_entry = entry 0

entry_made : make_entry always 5000000 (job 0) ≡ ok read_entry
unfolding make_entry load plan_of options_of
entry_made = refl

entry_read :
    get_all_task_schedulers memory listed always pending ≡ ok ((codes "job", read_entry) ∷ [])
unfolding get_all_task_schedulers enabled_in make_entry load plan_of options_of
entry_read = refl

entry_found : lookup (codes "job") ((codes "job", read_entry) ∷ []) ≡ some read_entry
unfolding lookup text_eq
entry_found = refl

row_found : find_in (job 0 ∷ []) 1 ≡ some (job 0)
unfolding find_in
row_found = refl

-- A crontab task of the name "job" with an expression of one field
abbrev param : TaskSchedulerParam
param = record {
  name = codes "job";
  task = codes "tasks.job";
  args = none;
  kwargs = none;
  queue = none;
  exchange = none;
  routing_key = none;
  start_time = none;
  expire_time = none;
  expire_seconds = none;
  type = 1;
  interval_every = none;
  interval_period = none;
  crontab = some (codes "often");
  one_off = none;
  remark = none;
}

not_both : has_both_expiries (set_fields param (job 0)) ≡ false
unfolding has_both_expiries set_fields
not_both = refl

own_name : text_eq (codes "job") (codes "job") ≡ true
unfolding text_eq
own_name = refl
