-- ===== src/Scheduler/Beat/Quiet.antt =====
-- What DatabaseScheduler.sync of backend/app/task/utils/schedulers.py saves when no change of the
-- table is pending, and what it forgets when one is.
use mc_bd.Prelude.{
  ℕ, zero, suc, ◌≤◌, ◌≡◌, refl, ap, ◌∙◌, ltb, Bool, true, false, not, Option, none, some, List, [],
  ◌∷◌, arith, length, if◌then◌else◌,
}
use mc_bd.Prelude.Text.{Text, text_eq_refl}
use mc_bd.Errors.{Result, ok}
use mc_bd.Redis.{Redis}
use mc_bd.Action.{present, present-some}
use mc_bd.Scheduler.{
  TaskScheduler, TaskTable, Celery, TaskWorld, last_update_key, changed, update_changed,
}
use mc_bd.Scheduler.Beat.{
  Entry, DatabaseScheduler, lookup, save, schedule_changed, decide_change, is_newer, schedule_by,
  after_check, read_schedule, put_back, save_named, save_next, pop_name, sync_loop, sync, Syncing,
  save_row,
}

module _ (R : Redis) (T : TaskTable) (C : Celery) where
  -- The names are saved in turn, each by the entry that memory holds; the others are put back.
  unfoldable pub saves : List (Text × Entry C) → List Text → TaskWorld R T C → TaskWorld R T C
  saves tasks [] w = w
  saves tasks (name ∷ names) w =
      saves tasks names
        (elim (lookup name tasks) [ none ↦ w | some e ↦ save R T C e.model false w ])

  unfoldable pub unsaved : List (Text × Entry C) → List Text → List Text → List Text
  unsaved tasks [] failed = failed
  unsaved tasks (name ∷ names) failed =
      unsaved tasks names (elim (lookup name tasks) [ none ↦ name ∷ failed | some e ↦ failed ])

  -- No change is pending: the stamp in Redis is at most the last check, and it and the last check are not ahead.
  pub record IsQuiet (w : TaskWorld R T C) (last : Option ℕ) : Type 0 where
    pub check : ℕ
    pub checked : last ≡ some check
    pub stamp : Text
    pub stamped : present (R.get w.store last_update_key) ≡ some stamp
    pub older : C.from_str stamp ≤ check
    pub not_ahead : C.from_str stamp ≤ w.now

  retabled-IsQuiet :
      (w : TaskWorld R T C) (t : T.Table)
      → IsQuiet w (some w.now)
      → IsQuiet (record w { table = t }) (some w.now)
  retabled-IsQuiet w t q = record {
    check = q.check;
    checked = q.checked;
    stamp = q.stamp;
    stamped = q.stamped;
    older = q.older;
    not_ahead = q.not_ahead;
  }

  touched-IsQuiet :
      (b : Bool) (w : TaskWorld R T C)
      → IsQuiet w (some w.now)
      → (IsQuiet (if b then update_changed R T C w else w) (some w.now))
        × ((if b then update_changed R T C w else w).now ≡ w.now)
  unfolding update_changed
  touched-IsQuiet false w q = (q, refl)
  touched-IsQuiet true w q =
      let (c, t, e) = C.to_str-present w.now in
      let early : C.from_str (C.to_str w.now) ≤ w.now = omega (arith, C.from-to_str w.now) in
      (
        record {
          check = w.now;
          checked = refl;
          stamp = C.to_str w.now;
          stamped = simp (R.get-put, text_eq_refl, present-some (C.to_str w.now) e);
          older = early;
          not_ahead = early;
        },
        refl,
      )

  save_row-IsQuiet :
      (m : TaskScheduler) (row : Option TaskScheduler) (w : TaskWorld R T C)
      → IsQuiet w (some w.now)
      → (IsQuiet (save_row R T C m false row w) (some w.now))
        × ((save_row R T C m false row w).now ≡ w.now)
  unfolding save_row changed
  save_row-IsQuiet m none w q = (q, refl)
  save_row-IsQuiet m (some row) w q =
      let task = record row {
        last_run_time = m.last_run_time;
        total_run_count = m.total_run_count;
        no_changes = m.no_changes;
        enabled = row.enabled;
      } in
      touched-IsQuiet (not m.no_changes) _ (retabled-IsQuiet w (T.write w.table task) q)

  save-IsQuiet :
      (m : TaskScheduler) (w : TaskWorld R T C)
      → IsQuiet w (some w.now)
      → (IsQuiet (save R T C m false w) (some w.now)) × ((save R T C m false w).now ≡ w.now)
  unfolding save
  save-IsQuiet m w q = save_row-IsQuiet m (T.find w.table m.id) w q

  -- Without a pending change the schedule is the one in memory, and the check is noted.
  schedule_by_quiet :
      (f : Syncing R T C) (s : DatabaseScheduler R T C)
      → s.initial_read ≡ false
      → IsQuiet s.world s.last_update
      → schedule_by R T C f s ≡ (ok s.tasks, record s { last_update = some s.world.now })
  unfolding schedule_by read_schedule schedule_changed decide_change after_check is_newer
  schedule_by_quiet f s old q =
      let old_stamp : is_newer R T C (some q.check) (C.from_str q.stamp) ≡ false =
        not_newer q.check (C.from_str q.stamp) q.older in
      let t : DatabaseScheduler R T C = record s { last_update = some s.world.now } in
      ap (λ (b : Bool). read_schedule R T C b f s) old
      ∙ ap (λ (o : Option Text). after_check R T C f (decide_change R T C o s)) q.stamped
      ∙ ap (λ (o : Option ℕ). after_check R T C f (is_newer R T C o (C.from_str q.stamp), t))
          q.checked
      ∙ ap (λ (b : Bool). after_check R T C f (b, t)) old_stamp
    where
      not_newer : (last ts : ℕ) → ts ≤ last → ltb last ts ≡ false
      not_newer last ts h = ground arith

  -- What the sync leaves behind
  pub record Synced (names failed : List Text) (s : DatabaseScheduler R T C)
      (r : Result (Unit {0}) × DatabaseScheduler R T C) : Type 0 where
    pub returns : r.0 ≡ ok tt
    pub world : r.1.world ≡ saves s.tasks names s.world
    pub dirty : r.1.dirty ≡ unsaved s.tasks names failed
    pub tasks : r.1.tasks ≡ s.tasks

  -- So every loop with this fuel ends.
  abbrev Synces : ℕ → Type 0
  Synces n =
      (failed names : List Text) (s : DatabaseScheduler R T C)
      → length names ≤ n
      → s.dirty ≡ names
      → s.initial_read ≡ false
      → IsQuiet s.world s.last_update
      → Synced names failed s (pop_name R T C (sync_loop R T C n) failed names s)

  save_named-Synced :
      (n : ℕ) (failed : List Text) (name : Text) (rest : List Text) (s : DatabaseScheduler R T C)
      (o : Option (Entry C))
      → Synces n
      → length rest ≤ n
      → s.initial_read ≡ false
      → IsQuiet s.world (some s.world.now)
      → lookup name s.tasks ≡ o
      → Synced (name ∷ rest) failed s (
          save_named R T C
            (sync_loop R T C (suc n))
            failed
            name
            o
            (record s { dirty = rest; last_update = some s.world.now }))
  unfolding saves unsaved save_named sync_loop
  save_named-Synced n failed name rest s none ih small old q k =
      let t : DatabaseScheduler R T C = record s { dirty = rest; last_update = some s.world.now } in
      let r = ih (name ∷ failed) rest t small refl old q in
      record { returns = r.returns; world = rw k r.world; dirty = rw k r.dirty; tasks = r.tasks }
  save_named-Synced n failed name rest s (some e) ih small old q k =
      let t : DatabaseScheduler R T C = record s {
        world = save R T C e.model false s.world;
        dirty = rest;
        last_update = some s.world.now;
      } in
      let (kept, same) = save-IsQuiet e.model s.world q in
      let r = ih failed rest t small refl old kept in
      record { returns = r.returns; world = rw k r.world; dirty = rw k r.dirty; tasks = r.tasks }

  pop_name-Synced : (n : ℕ) → Synces n
  unfolding pop_name put_back saves unsaved save_next
  pop_name-Synced n failed [] s small e old q = record {
    returns = refl;
    world = refl;
    dirty = rw e refl;
    tasks = refl;
  }
  pop_name-Synced zero failed (name ∷ rest) s small e old q = absurd (omega arith)
  pop_name-Synced (suc n) failed (name ∷ rest) s small e old q =
      rw (schedule_by_quiet (sync_loop R T C (suc n) []) (record s { dirty = rest }) old q) (
        save_named-Synced n failed name rest s (lookup name s.tasks) (pop_name-Synced n)
          (omega arith) old (again q) refl)
    where
      again : IsQuiet s.world s.last_update → IsQuiet s.world (some s.world.now)
      again p = record {
        check = s.world.now;
        checked = refl;
        stamp = p.stamp;
        stamped = p.stamped;
        older = p.not_ahead;
        not_ahead = p.not_ahead;
      }

  -- If the first read is over, a check has been made, and Redis holds a stamp of the last change
  -- that is neither newer than that check nor ahead of the clock, sync returns, saves each name
  -- that has an entry in memory by that entry, in turn, leaves exactly the names without one to be
  -- tried again, and keeps the schedule in memory.
  pub sync-Synced :
      (s : DatabaseScheduler R T C)
      → s.initial_read ≡ false
      → IsQuiet s.world s.last_update
      → Synced s.dirty [] s (sync R T C s)
  unfolding sync sync_loop
  sync-Synced s old q = pop_name-Synced (length s.dirty) [] s.dirty s (omega arith) refl old q
