-- ===== src/Scheduler/Service/Noticed.antt =====
-- How a change that backend/app/task/service/scheduler_service.py makes reaches the scheduler of
-- backend/app/task/utils/schedulers.py.
use mathlib.Core.Path.{subst}
use mc_bd.Prelude.{
  not, ◌&&◌, ℕ, ◌+◌, ◌≤◌, ◌≡◌, ap, ◌∙◌, Bool, true, false, Option, none, some, List, [], arith,
  if◌then◌else◌, Bool-cases, inl, inr,
}
use mc_bd.Prelude.Text.{Text, text_eq, text_eq_refl}
use mc_bd.Errors.{Error, ok, err, err_ne_ok}
use mc_bd.Redis.{Redis, is_some}
use mc_bd.Platform.{micro}
use mc_bd.Scheduler.{
  TaskScheduler, TaskTable, Celery, TaskWorld, has_both_expiries, expires_twice, crontab_invalid,
  update_changed, last_update_key,
}
use mc_bd.Scheduler.Beat.{Entry, DatabaseScheduler, get_all_task_schedulers, schedule}
use mc_bd.Scheduler.Beat.Reload.{Stamped, change_seen}
use mc_bd.Scheduler.Service.{
  TaskSchedulerParam, Outcome, flush_insert, flush_update, create, update, update_row, with_row,
  switch_row, delete_row, update_status, delete, refuses, task_missing, task_exists, set_fields,
  defaults,
}

module _ (R : Redis) (T : TaskTable) (C : Celery) where
  -- A request of an administrator that succeeds, as a step from one world to the next
  pub data Change : TaskWorld R T C → TaskWorld R T C → Type 0 where
    created :
        (obj : TaskSchedulerParam) (w w' : TaskWorld R T C)
        → create R T C obj w ≡ (ok tt, w')
        → Change w w'
    updated :
        (pk n : ℕ) (obj : TaskSchedulerParam) (w w' : TaskWorld R T C)
        → update R T C pk obj w ≡ (ok n, w')
        → Change w w'
    switched :
        (pk n : ℕ) (w w' : TaskWorld R T C) → update_status R T C pk w ≡ (ok n, w') → Change w w'
    deleted : (pk n : ℕ) (w w' : TaskWorld R T C) → delete R T C pk w ≡ (ok n, w') → Change w w'

  -- If the operation returned, its world is stamped with the time of the world `w`.
  record Stamps {A : Type 0} (w : TaskWorld R T C) (o : Outcome R T C A) : Type 0 where
    holds : (a : A) (w' : TaskWorld R T C) → o ≡ (ok a, w') → Stamped R T C w' w.now

  err-Stamps : {A : Type 0} (x : Error) (w w' : TaskWorld R T C) → Stamps {A = A} w (err x, w')
  err-Stamps x w w' = record { holds = λ a v e. absurd (err_ne_ok x a (ap (λ o. o.0) e)) }

  ok-Stamps :
      {A : Type 0} (a : A) (w w' : TaskWorld R T C) → Stamped R T C w' w.now → Stamps w (ok a, w')
  ok-Stamps a w w' h = record {
    holds = λ b v e. subst (λ u. Stamped R T C u w.now) (ap (λ o. o.1) e) h;
  }

  update_changed-Stamped : (w : TaskWorld R T C) → Stamped R T C (update_changed R T C w) w.now
  unfolding update_changed
  update_changed-Stamped w = simp (R.get-put, text_eq_refl)

  flush_insert-Stamps :
      (row : TaskScheduler) (w : TaskWorld R T C) → Stamps w (flush_insert R T C row w)
  unfolding flush_insert
  flush_insert-Stamps row w = elim (Bool-cases (has_both_expiries row)) [
    | inl both ↦ rw both (err-Stamps expires_twice w w)
    | inr one ↦
        rw one
          (ok-Stamps _ w _ (update_changed-Stamped (record w { table = T.insert w.table row })))
  ]

  flush_update-Stamps :
      (row : TaskScheduler) (w : TaskWorld R T C) → Stamps w (flush_update R T C row w)
  unfolding flush_update
  flush_update-Stamps row w = elim (Bool-cases (has_both_expiries row)) [
    | inl both ↦ rw both (err-Stamps expires_twice w w)
    | inr one ↦
        rw one (ok-Stamps _ w _ (update_changed-Stamped (record w { table = T.write w.table row })))
  ]

  guard-Stamps :
      {A : Type 0} (b : Bool) (x : Error) (w : TaskWorld R T C) (o : Outcome R T C A)
      → Stamps w o
      → Stamps w (if b then (err x, w) else o)
  guard-Stamps true x w o h = err-Stamps x w w
  guard-Stamps false x w o h = h

  update_row-Stamps :
      (obj : TaskSchedulerParam) (row : TaskScheduler) (w : TaskWorld R T C)
      → Stamps w (update_row R T C obj row w)
  unfolding update_row
  update_row-Stamps obj row w =
      guard-Stamps (not (text_eq row.name obj.name) && is_some (T.find_name w.table obj.name))
        task_exists w _
        (guard-Stamps (refuses R T C row.type obj) crontab_invalid w _
          (flush_update-Stamps (set_fields obj row) w))

  with_row-Stamps :
      {A : Type 0} (f : TaskScheduler → TaskWorld R T C → Outcome R T C A)
      (o : Option TaskScheduler) (w : TaskWorld R T C)
      → ((row : TaskScheduler) → Stamps w (f row w))
      → Stamps w (with_row R T C f o w)
  unfolding with_row
  with_row-Stamps f none w h = err-Stamps task_missing w w
  with_row-Stamps f (some row) w h = h row

  delete_row-Stamps :
      (pk : ℕ) (row : TaskScheduler) (w : TaskWorld R T C) → Stamps w (delete_row R T C pk row w)
  unfolding delete_row
  delete_row-Stamps pk row w =
      ok-Stamps 1 w _ (update_changed-Stamped (record w { table = T.remove w.table pk }))

  create-Stamps : (obj : TaskSchedulerParam) (w : TaskWorld R T C) → Stamps w (create R T C obj w)
  unfolding create
  create-Stamps obj w = guard-Stamps (is_some (T.find_name w.table obj.name)) task_exists w _ (
      guard-Stamps (refuses R T C obj.type obj) crontab_invalid w _
        (flush_insert-Stamps (set_fields obj defaults) w))

  switch_row-Stamps :
      (row : TaskScheduler) (w : TaskWorld R T C) → Stamps w (switch_row R T C row w)
  unfolding switch_row
  switch_row-Stamps row w = flush_update-Stamps (record row { enabled = not row.enabled }) w

  Change-Stamped : {w w' : TaskWorld R T C} → Change w w' → Stamped R T C w' w.now
  unfolding update update_status delete
  Change-Stamped (created obj w w' e) = (create-Stamps obj w).holds tt w' e
  Change-Stamped (updated pk n obj w w' e) =
      let h =
        with_row-Stamps (update_row R T C obj) (T.find w.table pk) w
          (λ row. update_row-Stamps obj row w) in
      h.holds n w' e
  Change-Stamped (switched pk n w w' e) =
      let h =
        with_row-Stamps (switch_row R T C) (T.find w.table pk) w (λ row. switch_row-Stamps row w) in
      h.holds n w' e
  Change-Stamped (deleted pk n w w' e) =
      let h =
        with_row-Stamps (delete_row R T C pk) (T.find w.table pk) w
          (λ row. delete_row-Stamps pk row w) in
      h.holds n w' e

  -- After a request of an administrator that succeeds, at least a second after the scheduler's last
  -- check, the scheduler's next read of its schedule, which is not its first, shows the enabled
  -- rows as they then are and marks celery's heap as stale, if nothing waits to be saved, if Redis
  -- is as the request left it, and if each enabled row can be read; a row whose arguments are a
  -- list or an object makes the read raise.
  pub change_noticed :
      {w w' : TaskWorld R T C} (s : DatabaseScheduler R T C) (l : ℕ) (es : List (Text × Entry C))
      → Change w w'
      → s.world.store ≡ w'.store
      → s.initial_read ≡ false
      → s.dirty ≡ []
      → s.last_update ≡ some l
      → l + micro ≤ w.now
      → get_all_task_schedulers R T C s ≡ ok es
      → let (r, s') = schedule R T C s in
        (r ≡ ok es) × (s'.tasks ≡ es) × (s'.heap_invalidated ≡ true)
  change_noticed {w} {w'} s l es change same old clean last gap rows =
      let stamped : Stamped R T C s.world w.now =
        ap (λ (t : R.Store). R.get t last_update_key) same ∙ Change-Stamped change in
      change_seen R T C s w.now l old clean stamped last (omega arith) es rows
