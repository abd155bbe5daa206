-- ===== src/Scheduler/Beat/Reload.antt =====
-- Which changes of the table backend/app/task/utils/schedulers.py notices, and what it then reads.
use mc_bd.Prelude.{
  if◌then◌else◌, ◌==◌, sym, ℕ, ◌-◌, ◌%◌, ◌≤◌, ◌<◌, ◌≡◌, refl, ap, ◌∙◌, ltb, Bool, true, false,
  Option, none, some, List, [], ◌∷◌, ◌++◌, arith, All, length,
}
use mc_bd.Prelude.Text.{Text}
use mc_bd.Errors.{Error, Result, ok, err, unexpected}
use mc_bd.Redis.{Redis}
use mc_bd.Platform.{micro}
use mc_bd.Action.{present, present-some}
use mc_bd.Scheduler.{
  other, TaskScheduler, TaskTable, Celery, TaskWorld, last_update_key, changed, update_changed,
}
use mc_bd.Scheduler.Beat.{
  Entry, DatabaseScheduler, Loaded, value, value_error, type_error, Plan, assemble, load, plan_of,
  lookup, save, schedule, schedule_changed, decide_change, is_newer, schedule_by, read_all,
  take_over, after_check, read_schedule, get_all_task_schedulers, entries_of, joined, put_back,
  save_named, save_next, pop_name, sync_loop, sync, make_entry, save_row,
}
use mc_bd.Scheduler.Beat.OneOff.{at, make_entry-Kept}

module _ (R : Redis) (T : TaskTable) (C : Celery) where
  -- The stamp of a change at time c
  abbrev pub Stamped : TaskWorld R T C → ℕ → Type 0
  Stamped w c = R.get w.store last_update_key ≡ some (C.to_str c)

  present-to_str : (c : ℕ) → present (some (C.to_str c)) ≡ some (C.to_str c)
  present-to_str c = let (x, t, e) = C.to_str-present c in present-some (C.to_str c) e

  checked :
      (s : DatabaseScheduler R T C) (c l : ℕ) (b : Bool)
      → Stamped s.world c
      → s.last_update ≡ some l
      → ltb l (c - c % micro) ≡ b
      → schedule_changed R T C s ≡ (b, record s { last_update = some s.world.now })
  unfolding schedule_changed decide_change is_newer
  checked s c l b stamped last newer =
      let t : DatabaseScheduler R T C = record s { last_update = some s.world.now } in
      ap (λ (o : Option Text). decide_change R T C (present o) s) stamped
      ∙ ap (λ (o : Option Text). decide_change R T C o s) (present-to_str c)
      ∙ ap (λ (o : Option ℕ). (is_newer R T C o (C.from_str (C.to_str c)), t)) last
      ∙ ap (λ (ts : ℕ). (ltb l ts, t)) (C.from-to_str c)
      ∙ ap (λ (x : Bool). (x, t)) newer

  -- The schedule of a scheduler that has read before, after its check
  check-schedule :
      (s : DatabaseScheduler R T C) (b : Bool) (t : DatabaseScheduler R T C)
      → s.initial_read ≡ false
      → schedule_changed R T C s ≡ (b, t)
      → schedule R T C s ≡ after_check R T C (sync R T C) (b, t)
  unfolding schedule schedule_by read_schedule
  check-schedule s b t old e =
      ap (λ (x : Bool). read_schedule R T C x (sync R T C) s) old
      ∙ ap (after_check R T C (sync R T C)) e

  sync_nothing :
      (s : DatabaseScheduler R T C) → s.dirty ≡ [] → sync R T C s ≡ (ok tt, put_back R T C [] s)
  unfolding sync sync_loop pop_name
  sync_nothing s clean =
      ap (λ (names : List Text). pop_name R T C (sync_loop R T C (length s.dirty)) [] names s) clean

  -- A check that finds a change, with nothing to save, reads the table.
  reads_again :
      (s : DatabaseScheduler R T C) (c l : ℕ)
      → s.initial_read ≡ false
      → s.dirty ≡ []
      → Stamped s.world c
      → s.last_update ≡ some l
      → l < c - c % micro
      → schedule R T C s
        ≡ take_over R T C false
            (get_all_task_schedulers R T C s)
            (put_back R T C [] (record s { last_update = some s.world.now }))
  unfolding after_check read_all put_back get_all_task_schedulers
  reads_again s c l old clean stamped last newer =
      let newest : ltb l (c - c % micro) ≡ true = ground arith in
      check-schedule s true _ old (checked s c l true stamped last newest)
      ∙ ap (read_all R T C false) (sync_nothing (record s { last_update = some s.world.now }) clean)

  -- With nothing to save, a change whose second is after the last check is noticed by the next
  -- check: the schedule is read again from the enabled rows, and celery's heap is marked as stale.
  pub change_seen :
      (s : DatabaseScheduler R T C) (c l : ℕ)
      → s.initial_read ≡ false
      → s.dirty ≡ []
      → Stamped s.world c
      → s.last_update ≡ some l
      → l < c - c % micro
      → (es : List (Text × Entry C)) → get_all_task_schedulers R T C s ≡ ok es
      → let (r, s') = schedule R T C s in
        (r ≡ ok es) × (s'.tasks ≡ es) × (s'.heap_invalidated ≡ true)
  unfolding take_over
  change_seen s c l old clean stamped last newer es rows =
      rw (reads_again s c l old clean stamped last newer) (rw rows (refl, refl, refl))

  -- Checks at the given times
  pub checks : List ℕ → DatabaseScheduler R T C → DatabaseScheduler R T C
  checks [] s = s
  checks (t ∷ times) s = checks times (schedule R T C (at R T C t s)).1

  -- A change in the second of the last check, or before it, is never noticed: whenever the scheduler
  -- checks from then on, it keeps the schedule that it has.
  pub change_missed :
      (times : List ℕ) (s : DatabaseScheduler R T C) (c l : ℕ)
      → s.initial_read ≡ false
      → Stamped s.world c
      → s.last_update ≡ some l
      → c - c % micro ≤ l
      → All (λ t. c ≤ t) times
      → (checks times s).tasks ≡ s.tasks
  unfolding checks after_check
  change_missed [] s c l old stamped last early after = refl
  change_missed (t ∷ times) s c l old stamped last early after =
      let older : ltb l (c - c % micro) ≡ false = ground arith in
      let s' = at R T C t s in
      ap
        (λ (r : Result (List (Text × Entry C)) × DatabaseScheduler R T C). (checks times r.1).tasks)
        (check-schedule s' false _ old (checked s' c l false stamped last older))
      ∙ change_missed times (record s' { last_update = some t }) c t old stamped refl
          (omega (arith, after.0)) after.1

  load_other :
      (now : ℕ) (m : TaskScheduler) (p : Option Plan) (a k : Loaded C)
      → a ≡ type_error
      → assemble C now m p a k ≡ err (unexpected "TypeError")
  unfolding assemble
  load_other now m p a k e = rw e refl

  -- A row whose `args` hold JSON that is neither a text nor false in Python
  make_entry-other :
      (now : ℕ) (m : TaskScheduler)
      → m.args ≡ other
      → make_entry C now m ≡ err (unexpected "TypeError")
  unfolding make_entry load
  make_entry-other now m e =
      load_other now m (plan_of C m) (load C m.args) (load C m.kwargs) (ap (load C) e)

  abbrev pub OnlyTypeError : {A : Type 0} → Result A → Type 0
  OnlyTypeError (ok a) = Unit
  OnlyTypeError (err x) = x ≡ unexpected "TypeError"

  assemble-OnlyTypeError :
      (now : ℕ) (m : TaskScheduler) (p : Option Plan) (a k : Loaded C)
      → OnlyTypeError (assemble C now m p a k)
  unfolding assemble
  assemble-OnlyTypeError now m p (value a) (value k) = tt
  assemble-OnlyTypeError now m p (value a) value_error = tt
  assemble-OnlyTypeError now m p (value a) type_error = refl
  assemble-OnlyTypeError now m p value_error k = tt
  assemble-OnlyTypeError now m p type_error k = refl

  joined_refused :
      (name : Text) (r : Result (Entry C))
      → OnlyTypeError r
      → joined R T C name r (err (unexpected "TypeError")) ≡ err (unexpected "TypeError")
  unfolding joined
  joined_refused name (ok e) h = refl
  joined_refused name (err x) h = ap (λ (y : Error). err y) h

  joined_first :
      (name : Text) (r : Result (Entry C)) (rest : Result (List (Text × Entry C))) (x : Error)
      → r ≡ err x
      → joined R T C name r rest ≡ err x
  unfolding joined
  joined_first name r rest x e = rw e refl

  entries_refused :
      (now : ℕ) (before : List TaskScheduler) (row : TaskScheduler) (after : List TaskScheduler)
      → row.args ≡ other
      → entries_of R T C now (before ++ row ∷ after) ≡ err (unexpected "TypeError")
  unfolding entries_of make_entry
  entries_refused now [] row after e =
      joined_first row.name _ (entries_of R T C now after) _ (make_entry-other now row e)
  entries_refused now (r ∷ before) row after e =
      ap (joined R T C r.name (make_entry C now r)) (entries_refused now before row after e)
      ∙ joined_refused r.name _
          (assemble-OnlyTypeError now r (plan_of C r) (load C r.args) (load C r.kwargs))

  -- One enabled row whose `args` hold JSON that is neither a text nor false in Python keeps the
  -- scheduler from its first read: the exception passes on, and no task is scheduled.
  pub other_args_refused :
      (s : DatabaseScheduler R T C) (before : List TaskScheduler) (row : TaskScheduler)
      (after : List TaskScheduler)
      → s.initial_read ≡ true
      → s.dirty ≡ []
      → T.enabled_rows s.world.table ≡ before ++ row ∷ after
      → row.args ≡ other
      → let (r, s') = schedule R T C s in (r ≡ err (unexpected "TypeError")) × (s'.tasks ≡ s.tasks)
  unfolding schedule schedule_by read_schedule read_all get_all_task_schedulers take_over put_back
  other_args_refused s before row after new clean rows e =
      let fails : get_all_task_schedulers R T C
            (put_back R T C [] (record s { initial_read = false }))
          ≡ err (unexpected "TypeError") =
        ap (entries_of R T C s.world.now) rows ∙ entries_refused s.world.now before row after e in
      let path : schedule R T C s
          ≡ (err (unexpected "TypeError"), put_back R T C [] (record s { initial_read = false })) =
        ap (λ (b : Bool). read_schedule R T C b (sync R T C) s) new
        ∙ ap (read_all R T C true) (sync_nothing (record s { initial_read = false }) clean)
        ∙ ap
            (λ (r : Result (List (Text × Entry C))).
              take_over R T C true r (put_back R T C [] (record s { initial_read = false })))
            fails in
      rw path (refl, refl)

  -- How often the row was run, as far as the table knows
  pub count : Option TaskScheduler → Option ℕ
  count none = none
  count (some row) = some row.total_run_count

  table_if :
      (b : Bool) (w : TaskWorld R T C) → (if b then update_changed R T C w else w).table ≡ w.table
  unfolding update_changed
  table_if true w = refl
  table_if false w = refl

  count-changed :
      (task row : TaskScheduler) (w : TaskWorld R T C) (i : ℕ)
      → T.find w.table task.id ≡ some row
      → i ≡ task.id
      → count (T.find (changed R T C task (record w { table = T.write w.table task })).table i)
        ≡ some task.total_run_count
  unfolding changed count
  count-changed task row w i found same =
      let same_id : (task.id == task.id) ≡ true = ground arith in
      rw (same, table_if, T.find-write w.table task row task.id found, same_id) refl

  -- Saving an entry that was just read from its row leaves the count of the row.
  count-save_row :
      (now : ℕ) (e : Entry C) (row : TaskScheduler) (w : TaskWorld R T C)
      → make_entry C now row ≡ ok e
      → T.find w.table e.model.id ≡ some row
      → count (T.find (save R T C e.model false w).table e.model.id) ≡ some row.total_run_count
  unfolding save save_row
  count-save_row now e row w made found =
      let (single, runs, same) = make_entry-Kept R T C now row e made in
      let task : TaskScheduler = record row {
        last_run_time = e.model.last_run_time;
        total_run_count = e.model.total_run_count;
        no_changes = e.model.no_changes;
      } in
      ap
        (λ (o : Option TaskScheduler).
          count (T.find (save_row R T C e.model false o w).table e.model.id))
        found
      ∙ count-changed task row w e.model.id (ap (T.find w.table) (sym same) ∙ found) same
      ∙ ap (λ (n : ℕ). some n) runs

  -- If a change of the table is pending when a sync of one name starts, and the name's row is read
  -- again, the run of the name is lost: the new entry is saved in place of the old one, so nothing is
  -- left to be saved and the table counts as many runs as before, whatever the entry in memory had
  -- counted.
  pub sync_loses_run :
      (s : DatabaseScheduler R T C) (name : Text) (c l : ℕ) (es : List (Text × Entry C))
      (e : Entry C) (row : TaskScheduler)
      → s.initial_read ≡ false
      → Stamped s.world c
      → s.last_update ≡ some l
      → l < c - c % micro
      → get_all_task_schedulers R T C s ≡ ok es
      → lookup name es ≡ some e
      → make_entry C s.world.now row ≡ ok e
      → T.find s.world.table e.model.id ≡ some row
      → let (r, s') = sync R T C (record s { dirty = name ∷ [] }) in
        (r ≡ ok tt)
        × (s'.dirty ≡ [])
        × (count (T.find s'.world.table e.model.id) ≡ some row.total_run_count)
  unfolding sync sync_loop pop_name save_next save_named put_back take_over schedule_by
      read_schedule after_check read_all get_all_task_schedulers
  sync_loses_run s name c l es e row old stamped last newer rows entry made found =
      let t : DatabaseScheduler R T C = record s { dirty = [] } in
      let u : DatabaseScheduler R T C =
        put_back R T C [] (record t { last_update = some s.world.now }) in
      let newest : ltb l (c - c % micro) ≡ true = ground arith in
      let read : schedule_by R T C (sync_loop R T C 1 []) t ≡ take_over R T C false (ok es) u =
        ap (λ (b : Bool). read_schedule R T C b (sync_loop R T C 1 []) t) old
        ∙ ap (after_check R T C (sync_loop R T C 1 [])) (checked t c l true stamped last newest)
        ∙ ap (λ (r : Result (List (Text × Entry C))). take_over R T C false r u) rows in
      rw (read, entry) (refl, refl, count-save_row s.world.now e row s.world made found)
