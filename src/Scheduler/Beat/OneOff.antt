-- ===== src/Scheduler/Beat/OneOff.antt =====
-- How often a one-off task of backend/app/task/utils/schedulers.py runs.
use mathlib.Core.Path.{subst}
use mc_bd.Prelude.{
  ℕ, ◌+◌, ◌≤◌, ◌<◌, ◌≡◌, ◌⊎◌, inl, inr, refl, ◌∙◌, Bool, true, false, Option, none, some, List, [],
  ◌∷◌, arith, if◌then◌else◌, Bool-cases,
}
use mc_bd.Prelude.Text.{Text}
use mc_bd.Errors.{Result, ok, err}
use mc_bd.Redis.{Redis}
use mc_bd.Scheduler.{TaskScheduler, TaskTable, Celery}
use mc_bd.Scheduler.Beat.{
  Entry, Due, Plan, plan_of, load, Loaded, value, value_error, type_error, DatabaseScheduler,
  make_entry, assemble, built, ran, next_entry, is_due, reserve, spent_one_off, switched_off,
  disabled_now, verdict, planned, marked, share, lookup, schedule,
}

module _ (R : Redis) (T : TaskTable) (C : Celery) where
  abbrev pub at : ℕ → DatabaseScheduler R T C → DatabaseScheduler R T C
  at t s = record s { world = record (s.world) { now = t } }

  -- What celery does with the entry when its time on the heap has come: it asks, and if the task is
  -- due it takes the next entry and sends the task.
  taken :
      Entry C
      → Result (Entry C) × DatabaseScheduler R T C
      → Bool × Entry C × DatabaseScheduler R T C
  taken e (ok n, s) = (true, n, s)
  taken e (err x, s) = (false, e, s)

  asked : Due × Entry C × DatabaseScheduler R T C → Bool × Entry C × DatabaseScheduler R T C
  unfolding taken
  asked (d, e, s) = elim d.is_due [ false ↦ (false, e, s) | true ↦ taken e (reserve R T C e s) ]

  unfoldable pub tick :
      ℕ → Entry C → DatabaseScheduler R T C → Bool × Entry C × DatabaseScheduler R T C
  unfolding asked
  tick t e s = asked (is_due R T C e (at t s))

  abbrev pub Kept : TaskScheduler → Entry C → Type 0
  Kept m e =
      (e.model.one_off ≡ m.one_off)
      × (e.model.total_run_count ≡ m.total_run_count)
      × (e.model.id ≡ m.id)

  abbrev pub KeptBy : TaskScheduler → Result (Entry C) → Type 0
  KeptBy m (ok e) = Kept m e
  KeptBy m (err x) = Unit

  built-Kept :
      (now : ℕ) (m : TaskScheduler) (p : Option Plan) (fine : Bool) (a k : Option C.Json)
      → Kept m (built C now m p fine a k)
  unfolding built
  built-Kept now m p true a k = (refl, refl, refl)
  built-Kept now m p false a k = (refl, refl, refl)

  assemble-KeptBy :
      (now : ℕ) (m : TaskScheduler) (p : Option Plan) (a k : Loaded C)
      → KeptBy m (assemble C now m p a k)
  unfolding assemble
  assemble-KeptBy now m p (value a) (value k) = built-Kept now m p (planned C p) a k
  assemble-KeptBy now m p (value a) value_error = built-Kept now m p false a none
  assemble-KeptBy now m p (value a) type_error = tt
  assemble-KeptBy now m p value_error k = built-Kept now m p false none none
  assemble-KeptBy now m p type_error k = tt

  pub make_entry-Kept :
      (now : ℕ) (m : TaskScheduler) (e : Entry C) → make_entry C now m ≡ ok e → Kept m e
  unfolding make_entry
  make_entry-Kept now m e h =
      subst (KeptBy m) h (assemble-KeptBy now m (plan_of C m) (load C m.args) (load C m.kwargs))

  -- Nothing runs any more.
  abbrev pub Spent : Entry C → Type 0
  Spent e = (e.model.enabled ≡ false) ⊎ (0 < e.model.total_run_count)

  record Stopped (r : Bool × Entry C × DatabaseScheduler R T C) : Type 0 where
    silent : r.0 ≡ false
    one_off : r.1.model.one_off ≡ true
    spent : Spent r.1

  verdict-Stopped :
      (on : Bool) (wait : Option ℕ) (spent : Bool) (e : Entry C) (s : DatabaseScheduler R T C)
      → e.model.one_off ≡ true
      → Spent e
      → e.model.enabled ≡ on
      → spent_one_off R T C e.model ≡ spent
      → Stopped (asked (verdict R T C on wait spent e s))
  unfolding asked verdict switched_off disabled_now spent_one_off
  verdict-Stopped false wait spent e s single over f g = record {
    silent = refl;
    one_off = single;
    spent = over;
  }
  verdict-Stopped true (some d) spent e s single over f g = record {
    silent = refl;
    one_off = single;
    spent = over;
  }
  verdict-Stopped true none true e s single over f g = record {
    silent = refl;
    one_off = single;
    spent = inl refl;
  }
  verdict-Stopped true none false e s single over f g =
      absurd (elim over [ inl off ↦ cc | inr more ↦ ground arith ])

  tick-Stopped :
      (t : ℕ) (e : Entry C) (s : DatabaseScheduler R T C)
      → e.model.one_off ≡ true
      → Spent e
      → Stopped (tick t e s)
  unfolding tick is_due
  tick-Stopped t e s single over =
      verdict-Stopped e.model.enabled _ _ e (at t s) single over refl refl

  -- A task that is sent has run once more.
  abbrev Ran : Bool × Entry C × DatabaseScheduler R T C → Type 0
  Ran r = (r.1.model.one_off ≡ true) × (r.0 ≡ true → Spent r.1)

  taken-Ran :
      (name : Text) (e : Entry C) (now : ℕ) (r : Result (Entry C)) (s : DatabaseScheduler R T C)
      → e.model.one_off ≡ true
      → KeptBy (ran C now e.model) r
      → Ran (taken e (marked R T C name r s))
  unfolding taken ran marked
  taken-Ran name e now (ok n) s single kept = (kept.0 ∙ single, λ h. inr (omega (arith, kept.1)))
  taken-Ran name e now (err x) s single kept = (single, λ h. cc)

  asked-Ran :
      (due : Bool) (next : ℕ) (e : Entry C) (s : DatabaseScheduler R T C)
      → e.model.one_off ≡ true
      → Ran (asked (record { is_due = due; next = next }, e, s))
  unfolding asked reserve next_entry make_entry share
  asked-Ran false next e s single = (single, λ h. cc)
  asked-Ran true next e s single =
      let m = ran C s.world.now e.model in
      taken-Ran e.model.name e s.world.now _ _ single
        (assemble-KeptBy s.world.now m (plan_of C m) (load C m.args) (load C m.kwargs))

  verdict-Ran :
      (on : Bool) (wait : Option ℕ) (spent : Bool) (e : Entry C) (s : DatabaseScheduler R T C)
      → e.model.one_off ≡ true
      → Ran (asked (verdict R T C on wait spent e s))
  unfolding verdict disabled_now switched_off
  verdict-Ran false wait spent e s single = asked-Ran false _ e s single
  verdict-Ran true (some d) spent e s single = asked-Ran false _ e s single
  verdict-Ran true none true e s single = asked-Ran false _ _ _ single
  verdict-Ran true none false e s single = asked-Ran _ _ e s single

  tick-Ran :
      (t : ℕ) (e : Entry C) (s : DatabaseScheduler R T C)
      → e.model.one_off ≡ true
      → Ran (tick t e s)
  unfolding tick is_due
  tick-Ran t e s single = verdict-Ran _ _ _ e (at t s) single

  -- What celery does in turn: it asks the entry at a time, or it reads the schedule at a time and takes
  -- the entry of the task anew from it.
  pub data Step : Type 0 where
    ask reread : ℕ → Step

  -- The entry under the same name; a reading that raises leaves the old one.
  anew :
      Entry C
      → Result (List (Text × Entry C)) × DatabaseScheduler R T C
      → Option (Entry C) × DatabaseScheduler R T C
  anew e (ok es, s) = (lookup e.model.name es, s)
  anew e (err x, s) = (some e, s)

  abbrev sends : Option (Entry C) → (Entry C → ℕ) → ℕ
  sends none rest = 0
  sends (some n) rest = rest n

  -- How often the task is sent; a task that the schedule no longer has is not asked.
  unfoldable pub launches : List Step → Entry C → DatabaseScheduler R T C → ℕ
  unfolding anew
  launches [] e s = 0
  launches (ask t ∷ steps) e s =
      let (sent, e', s') = tick t e s in
      let rest = launches steps e' s' in (if sent then 1 else 0) + rest
  launches (reread t ∷ steps) e s =
      let (o, s') = anew e (schedule R T C (at t s)) in sends o (λ n. launches steps n s')

  -- An entry that is read is one-off, and if the task was spent, so is the entry.
  abbrev pub ShowsRun : Entry C → Option (Entry C) → (Entry C → Type 0) → Type 0
  ShowsRun e none rest = Unit
  ShowsRun e (some n) rest = (n.model.one_off ≡ true) × (Spent e → Spent n) × rest n

  -- No reading of the schedule forgets the run or the switch of the task.
  unfoldable pub IsRemembered : List Step → Entry C → DatabaseScheduler R T C → Type 0
  unfolding anew
  IsRemembered [] e s = Unit
  IsRemembered (ask t ∷ steps) e s = let (sent, e', s') = tick t e s in IsRemembered steps e' s'
  IsRemembered (reread t ∷ steps) e s =
      let (o, s') = anew e (schedule R T C (at t s)) in ShowsRun e o (λ n. IsRemembered steps n s')

  launches_none :
      (steps : List Step) (e : Entry C) (s : DatabaseScheduler R T C)
      → e.model.one_off ≡ true
      → Spent e
      → IsRemembered steps e s
      → launches steps e s ≡ 0
  unfolding launches IsRemembered
  launches_none [] e s single over kept = refl
  launches_none (ask t ∷ steps) e s single over kept =
      let r = tick-Stopped t e s single over in
      rw r.silent
        (omega (arith, launches_none steps (tick t e s).1 (tick t e s).2 r.one_off r.spent kept))
  launches_none (reread t ∷ steps) e s single over kept =
      let (o, s') = anew e (schedule R T C (at t s)) in
      after o s' (λ n. launches_none steps n s') kept
    where
      after :
          (o : Option (Entry C)) (s' : DatabaseScheduler R T C)
          → ((n : Entry C)
              → n.model.one_off ≡ true
              → Spent n
              → IsRemembered steps n s'
              → launches steps n s' ≡ 0)
          → ShowsRun e o (λ n. IsRemembered steps n s')
          → sends o (λ n. launches steps n s') ≡ 0
      after none s' rest k = refl
      after (some n) s' rest k = rest n k.0 (k.1 over) k.2

  launches_at_most :
      (steps : List Step) (e : Entry C) (s : DatabaseScheduler R T C)
      → e.model.one_off ≡ true
      → IsRemembered steps e s
      → launches steps e s ≤ 1
  unfolding launches IsRemembered
  launches_at_most [] e s single kept = omega arith
  launches_at_most (ask t ∷ steps) e s single kept =
      let r = tick-Ran t e s single in
      elim (Bool-cases (tick t e s).0) [
        | inl sent ↦
            rw sent
              (omega (arith, launches_none steps (tick t e s).1 (tick t e s).2 r.0 (r.1 sent) kept))
        | inr silent ↦
            rw silent (omega (arith, launches_at_most steps (tick t e s).1 (tick t e s).2 r.0 kept))
      ]
  launches_at_most (reread t ∷ steps) e s single kept =
      let (o, s') = anew e (schedule R T C (at t s)) in
      after o s' (λ n. launches_at_most steps n s') kept
    where
      after :
          (o : Option (Entry C)) (s' : DatabaseScheduler R T C)
          → ((n : Entry C)
              → n.model.one_off ≡ true
              → IsRemembered steps n s'
              → launches steps n s' ≤ 1)
          → ShowsRun e o (λ n. IsRemembered steps n s')
          → sends o (λ n. launches steps n s') ≤ 1
      after none s' rest k = omega arith
      after (some n) s' rest k = rest n k.0 k.2

  -- A one-off task is sent at most once, however often and whenever it is asked, and not at all if
  -- it has run before, as long as no reading of the schedule in between forgets that it has run or
  -- is switched off, as a reading does when the run was not saved; between two readings nothing is
  -- assumed.
  pub one_off_once :
      (steps : List Step) (e : Entry C) (s : DatabaseScheduler R T C)
      → e.model.one_off ≡ true
      → IsRemembered steps e s
      → (launches steps e s ≤ 1) × (0 < e.model.total_run_count → launches steps e s ≡ 0)
  one_off_once steps e s single kept = (
    launches_at_most steps e s single kept,
    λ more. launches_none steps e s single (inr more) kept,
  )
