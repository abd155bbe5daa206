-- ===== src/Scheduler/Beat/Ends.antt =====
-- That DatabaseScheduler.sync of backend/app/task/utils/schedulers.py ends.
use mc_bd.Prelude.{
  ℕ, zero, suc, ◌<◌, ◌≤◌, ◌≡◌, refl, ap, Bool, true, false, Option, none, some, List, [], ◌∷◌,
  length, arith,
}
use mc_bd.Prelude.Text.{Text, codes, text_eq}
use mc_bd.Errors.{
  Error, Result, ok, err, request, custom, forbidden, not_found, server, gateway, authorization,
  token, conflict, unexpected,
}
use mc_bd.Redis.{Redis}
use mc_bd.Scheduler.{TaskScheduler, TaskTable, Celery}
use mc_bd.Scheduler.Beat.{
  Entry, Plan, Loaded, value, value_error, type_error, DatabaseScheduler, lookup, save, plan_of,
  load, assemble, make_entry, joined, entries_of, get_all_task_schedulers, take_over, read_all,
  after_check, read_schedule, schedule_changed, schedule_by, save_named, save_next, pop_name,
  sync_loop, Syncing,
}
use mc_bd.Scheduler.Beat.Sync.{
  Bounded, schedule_changed-dirty, loop-Shrinks, schedule_by-dirty, sync_loop-dirty, sync_loop_fuel,
}

-- Only the name of `out_of_fuel`
unfoldable pub is_out_of_fuel : Error → Bool
is_out_of_fuel (request c m) = false
is_out_of_fuel custom = false
is_out_of_fuel (forbidden m) = false
is_out_of_fuel (not_found m) = false
is_out_of_fuel (server m) = false
is_out_of_fuel (gateway m) = false
is_out_of_fuel (authorization m) = false
is_out_of_fuel (token m) = false
is_out_of_fuel (conflict m) = false
is_out_of_fuel (unexpected m) = text_eq (codes m) (codes "out of fuel")

-- The code has returned or raised: the result is not that of a loop that goes on.
abbrev pub HasEnded : {A : Type 0} → Result A → Type 0
HasEnded (ok a) = Unit
HasEnded (err e) = is_out_of_fuel e ≡ false

type_error_ends : is_out_of_fuel (unexpected "TypeError") ≡ false
unfolding is_out_of_fuel text_eq
type_error_ends = refl

module _ (R : Redis) (T : TaskTable) (C : Celery) where
  assemble-HasEnded :
      (now : ℕ) (m : TaskScheduler) (p : Option Plan) (a k : Loaded C)
      → HasEnded (assemble C now m p a k)
  unfolding assemble
  assemble-HasEnded now m p (value a) (value k) = tt
  assemble-HasEnded now m p (value a) value_error = tt
  assemble-HasEnded now m p (value a) type_error = type_error_ends
  assemble-HasEnded now m p value_error k = tt
  assemble-HasEnded now m p type_error k = type_error_ends

  joined-HasEnded :
      (name : Text) (e : Result (Entry C)) (es : Result (List (Text × Entry C)))
      → HasEnded e
      → HasEnded es
      → HasEnded (joined R T C name e es)
  unfolding joined
  joined-HasEnded name (err x) es h k = h
  joined-HasEnded name (ok e) (err x) h k = k
  joined-HasEnded name (ok e) (ok es) h k = tt

  entries_of-HasEnded : (now : ℕ) (rows : List TaskScheduler) → HasEnded (entries_of R T C now rows)
  unfolding entries_of make_entry
  entries_of-HasEnded now [] = tt
  entries_of-HasEnded now (row ∷ rows) =
      joined-HasEnded row.name (make_entry C now row) (entries_of R T C now rows)
        (assemble-HasEnded now row (plan_of C row) (load C row.args) (load C row.kwargs))
        (entries_of-HasEnded now rows)

  take_over-HasEnded :
      (b : Bool) (r : Result (List (Text × Entry C))) (s : DatabaseScheduler R T C)
      → HasEnded r
      → HasEnded (take_over R T C b r s).0
  unfolding take_over
  take_over-HasEnded b (ok es) s h = tt
  take_over-HasEnded b (err x) s h = h

  read_all-HasEnded :
      (b : Bool) (r : Result (Unit {0})) (s : DatabaseScheduler R T C)
      → HasEnded r
      → HasEnded (read_all R T C b (r, s)).0
  unfolding read_all get_all_task_schedulers
  read_all-HasEnded b (ok u) s h =
      take_over-HasEnded b (get_all_task_schedulers R T C s) s
        (entries_of-HasEnded s.world.now (T.enabled_rows s.world.table))
  read_all-HasEnded b (err x) s h = h

  -- A loop ends where few names are left.
  abbrev Ends : ℕ → (List Text → Syncing R T C) → Type 0
  Ends n f = (l : List Text) (t : DatabaseScheduler R T C) → length t.dirty < n → HasEnded (f l t).0

  after_check-HasEnded :
      (n : ℕ) (f : List Text → Syncing R T C) (b : Bool) (s : DatabaseScheduler R T C)
      → Ends n f
      → length s.dirty < n
      → HasEnded (after_check R T C (f []) (b, s)).0
  unfolding after_check
  after_check-HasEnded n f true s h small =
      read_all-HasEnded false (f [] s).0 (f [] s).1 (h [] s small)
  after_check-HasEnded n f false s h small = tt

  read_schedule-HasEnded :
      (b : Bool) (n : ℕ) (f : List Text → Syncing R T C) (s : DatabaseScheduler R T C)
      → Ends n f
      → length s.dirty < n
      → HasEnded (read_schedule R T C b (f []) s).0
  unfolding read_schedule
  read_schedule-HasEnded true n f s h small =
      let t : DatabaseScheduler R T C = record s { initial_read = false } in
      read_all-HasEnded true (f [] t).0 (f [] t).1 (h [] t small)
  read_schedule-HasEnded false n f s h small =
      let r = schedule_changed R T C s in
      after_check-HasEnded n f r.0 r.1 h (omega (arith, ap length (schedule_changed-dirty R T C s)))

  save_named-HasEnded :
      (n : ℕ) (f : List Text → Syncing R T C) (failed : List Text) (name : Text)
      (o : Option (Entry C)) (s : DatabaseScheduler R T C)
      → Ends n f
      → length s.dirty < n
      → HasEnded (save_named R T C f failed name o s).0
  unfolding save_named
  save_named-HasEnded n f failed name none s h small = h (name ∷ failed) s small
  save_named-HasEnded n f failed name (some e) s h small =
      h failed (record s { world = save R T C e.model false s.world }) small

  save_next-HasEnded :
      (n : ℕ) (f : List Text → Syncing R T C) (failed : List Text) (name : Text)
      (r : Result (List (Text × Entry C))) (s : DatabaseScheduler R T C)
      → HasEnded r
      → Ends n f
      → length s.dirty < n
      → HasEnded (save_next R T C f failed name (r, s)).0
  unfolding save_next
  save_next-HasEnded n f failed name (err x) s k h small = k
  save_next-HasEnded n f failed name (ok tasks) s k h small =
      save_named-HasEnded n f failed name (lookup name tasks) s h small

  pop_name-HasEnded :
      (n : ℕ) (f : List Text → Syncing R T C) (failed names : List Text)
      (s : DatabaseScheduler R T C)
      → Ends n f
      → Bounded R T C f
      → length names ≤ n
      → HasEnded (pop_name R T C f failed names s).0
  unfolding pop_name schedule_by
  pop_name-HasEnded n f failed [] s h k small = tt
  pop_name-HasEnded n f failed (name ∷ rest) s h k small =
      let t : DatabaseScheduler R T C = record s { dirty = rest } in
      let r = schedule_by R T C (f []) t in
      save_next-HasEnded n f failed name r.0 r.1
        (read_schedule-HasEnded s.initial_read n f t h (omega arith)) h
        (omega (arith, schedule_by-dirty R T C (f []) (loop-Shrinks R T C f k) t))

  ends : (n : ℕ) → Ends n (sync_loop R T C n)
  unfolding sync_loop
  ends zero failed s a = absurd (omega arith)
  ends (suc n) failed s a =
      pop_name-HasEnded n (sync_loop R T C n) failed s.dirty s (ends n) (sync_loop-dirty R T C n)
        (omega arith)

  -- The loop of sync, which may come back to itself through schedule, ends: with any fuel above the
  -- number of names it does not run out of fuel, which is a result of its own, and the result is
  -- the same for every such fuel.
  pub sync_loop_ends :
      (m n : ℕ) (failed : List Text) (s : DatabaseScheduler R T C)
      → length s.dirty < m
      → length s.dirty < n
      → HasEnded (sync_loop R T C m failed s).0
        × (sync_loop R T C m failed s ≡ sync_loop R T C n failed s)
  sync_loop_ends m n failed s a b = (ends m failed s a, sync_loop_fuel R T C m n failed s a b)
