-- ===== src/Scheduler/Beat/Sync.antt =====
-- DatabaseScheduler.sync of backend/app/task/utils/schedulers.py, which comes back to itself through
-- the property `schedule`: that it ends, what it saves, and what it forgets.
use mc_bd.Prelude.{
  ℕ, zero, suc, ◌+◌, ◌≤◌, ◌<◌, ◌≡◌, refl, ap, ◌∙◌, Bool, true, false, Option, none, some, List, [],
  ◌∷◌, arith, length, length-append,
}
use mc_bd.Prelude.Text.{Text}
use mc_bd.Errors.{Result, ok, err}
use mc_bd.Redis.{Redis}
use mc_bd.Action.{present}
use mc_bd.Scheduler.{TaskTable, Celery, last_update_key}
use mc_bd.Scheduler.Beat.{
  Entry, DatabaseScheduler, lookup, save, schedule_changed, decide_change, schedule_by, read_all,
  take_over, after_check, read_schedule, put_back, save_named, save_next, pop_name, sync_loop,
  Syncing,
}

module _ (R : Redis) (T : TaskTable) (C : Celery) where
  -- `sync` leaves at most as many names as there were.
  abbrev pub Shrinks : Syncing R T C → Type 0
  Shrinks f = (s : DatabaseScheduler R T C) → length (f s).1.dirty ≤ length s.dirty

  take_over-dirty :
      (b : Bool) (r : Result (List (Text × Entry C))) (s : DatabaseScheduler R T C)
      → (take_over R T C b r s).1.dirty ≡ s.dirty
  unfolding take_over
  take_over-dirty b (ok es) s = refl
  take_over-dirty b (err x) s = refl

  read_all-dirty :
      (b : Bool) (r : Result (Unit {0})) (s : DatabaseScheduler R T C)
      → (read_all R T C b (r, s)).1.dirty ≡ s.dirty
  unfolding read_all
  read_all-dirty b (ok u) s = take_over-dirty b _ s
  read_all-dirty b (err x) s = refl

  decide_change-dirty :
      (o : Option Text) (s : DatabaseScheduler R T C) → (decide_change R T C o s).1.dirty ≡ s.dirty
  unfolding decide_change
  decide_change-dirty none s = refl
  decide_change-dirty (some t) s = refl

  pub schedule_changed-dirty :
      (s : DatabaseScheduler R T C) → (schedule_changed R T C s).1.dirty ≡ s.dirty
  unfolding schedule_changed
  schedule_changed-dirty s = decide_change-dirty (present (R.get s.world.store last_update_key)) s

  after_check-dirty :
      (f : Syncing R T C)
      → Shrinks f
      → (b : Bool) (s : DatabaseScheduler R T C)
      → length (after_check R T C f (b, s)).1.dirty ≤ length s.dirty
  unfolding after_check
  after_check-dirty f h true s = rw (read_all-dirty false (f s).0 (f s).1) (h s)
  after_check-dirty f h false s = omega arith

  read_schedule-dirty :
      (b : Bool) (f : Syncing R T C)
      → Shrinks f
      → (s : DatabaseScheduler R T C) → length (read_schedule R T C b f s).1.dirty ≤ length s.dirty
  unfolding read_schedule schedule_changed
  read_schedule-dirty true f h s =
      let first = f (record s { initial_read = false }) in
      rw (read_all-dirty true first.0 first.1) (h (record s { initial_read = false }))
  read_schedule-dirty false f h s = omega (
    arith,
    after_check-dirty f h (schedule_changed R T C s).0 (schedule_changed R T C s).1,
    ap length (decide_change-dirty (present (R.get s.world.store last_update_key)) s),
  )

  -- A loop leaves at most the names that there were and those that have failed.
  abbrev pub Bounded : (List Text → Syncing R T C) → Type 0
  Bounded loop =
      (l : List Text) (t : DatabaseScheduler R T C)
      → length (loop l t).1.dirty ≤ length t.dirty + length l

  save_next-dirty :
      (loop : List Text → Syncing R T C) (failed : List Text) (name : Text)
      (r : Result (List (Text × Entry C))) (s : DatabaseScheduler R T C)
      → Bounded loop
      → length (save_next R T C loop failed name (r, s)).1.dirty
        ≤ suc (length s.dirty + length failed)
  unfolding save_next put_back
  save_next-dirty loop failed name (err x) s h = omega (arith, length-append s.dirty failed)
  save_next-dirty loop failed name (ok tasks) s h = found (lookup name tasks)
    where
      found :
          (o : Option (Entry C))
          → length (save_named R T C loop failed name o s).1.dirty
            ≤ suc (length s.dirty + length failed)
      found none = omega (arith, h (name ∷ failed) s)
      found (some e) =
          omega (arith, h failed (record s { world = save R T C e.model false s.world }))

  pub schedule_by-dirty :
      (f : Syncing R T C)
      → Shrinks f
      → (s : DatabaseScheduler R T C) → length (schedule_by R T C f s).1.dirty ≤ length s.dirty
  unfolding schedule_by
  schedule_by-dirty f h s = read_schedule-dirty s.initial_read f h s

  pub loop-Shrinks : (loop : List Text → Syncing R T C) → Bounded loop → Shrinks (loop [])
  loop-Shrinks loop h s = omega (arith, h [] s)

  pop_name-dirty :
      (loop : List Text → Syncing R T C) (failed names : List Text) (s : DatabaseScheduler R T C)
      → Bounded loop
      → s.dirty ≡ names
      → length (pop_name R T C loop failed names s).1.dirty ≤ length s.dirty + length failed
  unfolding pop_name put_back
  pop_name-dirty loop failed [] s h e = omega (arith, length-append s.dirty failed)
  pop_name-dirty loop failed (name ∷ rest) s h e =
      let r = schedule_by R T C (loop []) (record s { dirty = rest }) in
      omega (
        arith,
        save_next-dirty loop failed name r.0 r.1 h,
        schedule_by-dirty (loop []) (loop-Shrinks loop h) (record s { dirty = rest }),
        ap length e,
      )

  pub sync_loop-dirty : (n : ℕ) → Bounded (sync_loop R T C n)
  unfolding sync_loop put_back
  sync_loop-dirty zero failed s = omega (arith, length-append s.dirty failed)
  sync_loop-dirty (suc n) failed s =
      pop_name-dirty (sync_loop R T C n) failed s.dirty s (sync_loop-dirty n) refl

  -- Two loops agree where few names are left.
  abbrev Agree : ℕ → (f g : List Text → Syncing R T C) → Type 0
  Agree n f g = (l : List Text) (t : DatabaseScheduler R T C) → length t.dirty < n → f l t ≡ g l t

  read_schedule_cong :
      (b : Bool) (n : ℕ) (f g : List Text → Syncing R T C) (s : DatabaseScheduler R T C)
      → Agree n f g
      → length s.dirty < n
      → read_schedule R T C b (f []) s ≡ read_schedule R T C b (g []) s
  unfolding read_schedule schedule_changed after_check
  read_schedule_cong true n f g s h small = rw (h [] (record s { initial_read = false }) small)
  read_schedule_cong false n f g s h small =
      let r = schedule_changed R T C s in
      checked r.0 r.1 (
        omega (
          arith,
          ap length (decide_change-dirty (present (R.get s.world.store last_update_key)) s),
        ))
    where
      checked :
          (b : Bool) (t : DatabaseScheduler R T C)
          → length t.dirty < n
          → after_check R T C (f []) (b, t) ≡ after_check R T C (g []) (b, t)
      checked true t k = rw (h [] t k)
      checked false t k = refl

  save_next_cong :
      (n : ℕ) (f g : List Text → Syncing R T C) (failed : List Text) (name : Text)
      (r : Result (List (Text × Entry C))) (s : DatabaseScheduler R T C)
      → Agree n f g
      → length s.dirty < n
      → save_next R T C f failed name (r, s) ≡ save_next R T C g failed name (r, s)
  unfolding save_next
  save_next_cong n f g failed name (err x) s h small = refl
  save_next_cong n f g failed name (ok tasks) s h small = found (lookup name tasks)
    where
      found :
          (o : Option (Entry C))
          → save_named R T C f failed name o s ≡ save_named R T C g failed name o s
      found none = h (name ∷ failed) s small
      found (some e) = h failed (record s { world = save R T C e.model false s.world }) small

  pop_name_cong :
      (n : ℕ) (f g : List Text → Syncing R T C) (failed names : List Text)
      (s : DatabaseScheduler R T C)
      → Agree n f g
      → Bounded f
      → length names ≤ n
      → pop_name R T C f failed names s ≡ pop_name R T C g failed names s
  unfolding pop_name schedule_by
  pop_name_cong n f g failed [] s h k small = refl
  pop_name_cong n f g failed (name ∷ rest) s h k small =
      let t : DatabaseScheduler R T C = record s { dirty = rest } in
      let r = schedule_by R T C (f []) t in
      save_next_cong n f g failed name r.0 r.1 h
        (omega (arith, schedule_by-dirty (f []) (loop-Shrinks f k) t))
      ∙ ap (save_next R T C g failed name)
          (read_schedule_cong s.initial_read n f g t h (omega arith))

  -- The loop ends by itself: every fuel above the number of names gives the same result.
  pub sync_loop_fuel :
      (m n : ℕ) (failed : List Text) (s : DatabaseScheduler R T C)
      → length s.dirty < m
      → length s.dirty < n
      → sync_loop R T C m failed s ≡ sync_loop R T C n failed s
  unfolding sync_loop
  sync_loop_fuel zero n failed s a b = absurd (omega arith)
  sync_loop_fuel (suc m) zero failed s a b = absurd (omega arith)
  sync_loop_fuel (suc m) (suc n) failed s a b =
      pop_name_cong (length s.dirty) (sync_loop R T C m) (sync_loop R T C n) failed s.dirty s
        (λ l t k. sync_loop_fuel m n l t (omega arith) (omega arith)) (sync_loop-dirty m)
        (omega arith)
