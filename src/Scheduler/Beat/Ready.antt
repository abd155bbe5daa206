-- ===== src/Scheduler/Beat/Ready.antt =====
-- When a task of backend/app/task/utils/schedulers.py is due.
use mc_bd.Prelude.{
  ℕ, ◌≤◌, ◌≡◌, ◌↔◌, ◌⊎◌, inl, inr, refl, ltb, Bool, true, false, ◌&&◌, Option, none, some, arith,
}
use mc_bd.Redis.{Redis}
use mc_bd.Scheduler.{TaskTable, Celery}
use mc_bd.Scheduler.Beat.{
  Entry, DatabaseScheduler, is_due, plan_due, spent_one_off, switched_off, wait_start, disabled_now,
  verdict,
}

module _ (R : Redis) (T : TaskTable) (C : Celery) where
  -- Celery's answer for an entry that the early returns let through
  abbrev pub PlanDue : Entry C → ℕ → Type 0
  PlanDue e now = (plan_due C e.plan e.last_run_at now).is_due ≡ true

  abbrev Started : Option ℕ → ℕ → Type 0
  Started none now = Unit
  Started (some start) now = start ≤ now

  -- What it takes for a task to be due
  pub record Ready (e : Entry C) (now : ℕ) : Type 0 where
    pub enabled : e.model.enabled ≡ true
    pub started : Started e.model.start_time now
    pub fresh : (e.model.one_off ≡ false) ⊎ (e.model.total_run_count ≡ 0)
    pub planned : PlanDue e now

  one_more :
      (single on : Bool) (n : ℕ)
      → on ≡ true
      → ((single && on) && ltb 0 n) ≡ false
      → (single ≡ false) ⊎ (n ≡ 0)
  one_more false on n a d = inl refl
  one_more true on n a d = inr (ground arith)

  Started-some : (t : ℕ) (o : Option ℕ) (now : ℕ) → o ≡ some t → Started o now → t ≤ now
  Started-some t none now e h = cc
  Started-some t (some u) now e h = ground arith

  Started-none : (o : Option ℕ) (now : ℕ) → wait_start o now ≡ none → Started o now
  Started-none none now e = tt
  Started-none (some u) now e = ground arith

  verdict-Ready :
      (on : Bool) (start wait : Option ℕ) (spent : Bool) (e : Entry C) (s : DatabaseScheduler R T C)
      → e.model.enabled ≡ on
      → e.model.start_time ≡ start
      → wait_start start s.world.now ≡ wait
      → spent_one_off R T C e.model ≡ spent
      → ((verdict R T C on wait spent e s).0.is_due ≡ true) ↔ Ready e s.world.now
  unfolding verdict disabled_now switched_off spent_one_off
  verdict-Ready false start wait spent e s a b c d = (λ h. cc, λ h. cc (h.enabled))
  verdict-Ready true none (some n) spent e s a b c d = (λ h. cc, λ h. cc)
  verdict-Ready true (some t) (some n) spent e s a b c d = (
    λ h. cc,
    λ h. let k = Started-some t e.model.start_time s.world.now b h.started in ground arith,
  )
  verdict-Ready true start none true e s a b c d = (λ h. cc, λ h. let k = h.fresh in ground arith)
  verdict-Ready true start none false e s a b c d = (
    λ h. record {
      enabled = a;
      started = Started-none e.model.start_time s.world.now (rw b c);
      fresh = one_more e.model.one_off e.model.enabled e.model.total_run_count a d;
      planned = h;
    },
    λ h. h.planned,
  )

  -- A task is due exactly if it is enabled, its start has come, it is not a one-off task that has
  -- run, and celery's schedule says so.
  pub is_due-Ready :
      (e : Entry C) (s : DatabaseScheduler R T C)
      → ((is_due R T C e s).0.is_due ≡ true) ↔ Ready e s.world.now
  unfolding is_due
  is_due-Ready e s = verdict-Ready e.model.enabled e.model.start_time _ _ e s refl refl refl refl
