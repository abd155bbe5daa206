-- ===== src/Scheduler/Service/Checks.antt =====
-- What backend/app/task/service/scheduler_service.py lets into the table.
use mc_bd.Prelude.{
  ℕ, ◌≡◌, ◌≢◌, ◌↔◌, refl, ap, ◌∙◌, ◌==◌, Bool, true, false, Option, none, some, arith,
  if◌then◌else◌, Bool-cases, ◌⊎◌, inl, inr,
}
use mc_bd.Prelude.Text.{Text, text_eq, text_eq_refl}
use mc_bd.Errors.{Error, ok, err, err_ne_ok}
use mc_bd.Redis.{Redis, is_some}
use mc_bd.Scheduler.{
  TaskScheduler, TaskTable, Celery, TaskWorld, crontab_type, interval, crontab_verify,
  has_both_expiries, update_changed, last_update_key,
}
use mc_bd.Scheduler.Service.{
  TaskSchedulerParam, given, set_fields, default_crontab, defaults, Outcome, flush_insert,
  flush_update, refuses, create, update_row, with_row, update,
}

module _ (R : Redis) (T : TaskTable) (C : Celery) where
  -- What a new task has to fulfil
  pub record Acceptable (obj : TaskSchedulerParam) (w : TaskWorld R T C) : Type 0 where
    pub free : T.find_name w.table obj.name ≡ none
    pub expression :
        (obj.type ≢ crontab_type) ⊎ (crontab_verify C (given obj.crontab default_crontab) ≡ true)
    pub expiry : has_both_expiries (set_fields obj defaults) ≡ false

  refuses-false :
      (type : ℕ) (obj : TaskSchedulerParam)
      → (refuses R T C type obj ≡ false)
        ↔ ((type ≢ crontab_type) ⊎ (crontab_verify C (given obj.crontab default_crontab) ≡ true))
  unfolding refuses
  refuses-false type obj =
      elim (Bool-cases (crontab_verify C (given obj.crontab default_crontab))) [
        | inl good ↦ rw good (λ h. inr refl, λ h. ground arith)
        | inr bad ↦
            rw bad
              (λ h. inl (ground arith), λ h. elim h [ inl other ↦ ground arith | inr no_ ↦ cc ])
      ]

  insert_iff :
      (row : TaskScheduler) (w : TaskWorld R T C)
      → ((flush_insert R T C row w).0 ≡ ok tt) ↔ (has_both_expiries row ≡ false)
  unfolding flush_insert
  insert_iff row w = elim (Bool-cases (has_both_expiries row)) [
    | inl both ↦ rw both (λ h. cc, λ h. cc)
    | inr one ↦ rw one (λ h. refl, λ h. refl)
  ]

  -- What is left of a creation
  abbrev inserted : TaskSchedulerParam → TaskWorld R T C → TaskWorld R T C
  inserted obj w =
      update_changed R T C (record w { table = T.insert w.table (set_fields obj defaults) })

  create-accepted :
      (obj : TaskSchedulerParam) (w : TaskWorld R T C)
      → Acceptable obj w
      → create R T C obj w ≡ (ok tt, inserted obj w)
  unfolding create flush_insert
  create-accepted obj w a =
      let fine = (refuses-false obj.type obj).1 a.expression in rw a.free (rw fine (rw a.expiry))

  guards_passed :
      (a b : Bool) (x y : Error) (w : TaskWorld R T C) (o : Outcome R T C (Unit {0}))
      → (if a then (err x, w) else if b then (err y, w) else o).0 ≡ ok tt
      → (a ≡ false) × (b ≡ false) × (o.0 ≡ ok tt)
  guards_passed true b x y w o h = absurd (err_ne_ok x tt h)
  guards_passed false true x y w o h = absurd (err_ne_ok y tt h)
  guards_passed false false x y w o h = (refl, refl, h)

  is_some-false : {A : Type 0} (o : Option A) → is_some o ≡ false → o ≡ none
  is_some-false none h = refl
  is_some-false (some a) h = cc

  create-needs :
      (obj : TaskSchedulerParam) (w : TaskWorld R T C)
      → (create R T C obj w).0 ≡ ok tt
      → Acceptable obj w
  unfolding create
  create-needs obj w h =
      let (free, fine, inserts) =
        guards_passed (is_some (T.find_name w.table obj.name)) (refuses R T C obj.type obj) _ _ w _
          h in
      record {
        free = is_some-false (T.find_name w.table obj.name) free;
        expression = (refuses-false obj.type obj).0 fine;
        expiry = (insert_iff (set_fields obj defaults) w).0 inserts;
      }

  -- A task is created exactly if its name is free, a crontab task has a valid expression, and not
  -- both expiries are given; then its name finds the row of its fields and the defaults, every other
  -- name finds what it found, and the change is stamped.
  pub create_iff :
      (obj : TaskSchedulerParam) (w : TaskWorld R T C)
      → let (r, w') = create R T C obj w in
        ((r ≡ ok tt) ↔ Acceptable obj w)
        × (r ≡ ok tt
            → ((n : Text)
                → T.find_name w'.table n ≡ (
                    if text_eq obj.name n
                    then some (record (set_fields obj defaults) { id = T.next_id w.table })
                    else T.find_name w.table n))
              × (R.get w'.store last_update_key ≡ some (C.to_str w.now)))
  unfolding update_changed set_fields
  create_iff obj w = (
    (create-needs obj w, λ a. ap (λ r. r.0) (create-accepted obj w a)),
    λ h.
        let a = create-needs obj w h in
        rw (create-accepted obj w a) (
          λ n. T.find_name-insert w.table (set_fields obj defaults) n a.free,
          simp (R.get-put, text_eq_refl),
        ),
  )

  -- An update looks at the type that the row had, not at the one that it gets: an interval task
  -- becomes a crontab task with any expression, valid or not, if its name stays and not both
  -- expiries are given.
  pub update_unchecked :
      (pk : ℕ) (obj : TaskSchedulerParam) (t : Text) (row : TaskScheduler) (w : TaskWorld R T C)
      → T.find w.table pk ≡ some row
      → row.id ≡ pk
      → row.type ≡ interval
      → text_eq row.name obj.name ≡ true
      → obj.type ≡ crontab_type
      → obj.crontab ≡ some t
      → has_both_expiries (set_fields obj row) ≡ false
      → let (r, w') = update R T C pk obj w in
        (r ≡ ok 1)
        × (T.find w'.table pk ≡ some (set_fields obj row))
        × ((set_fields obj row).crontab ≡ some t)
        × ((set_fields obj row).type ≡ crontab_type)
  unfolding update update_row with_row flush_update update_changed set_fields
  update_unchecked pk obj t row w found same was name now given_ one =
      let fine : refuses R T C row.type obj ≡ false =
        (refuses-false row.type obj).1 (inl (omega arith)) in
      let path : update R T C pk obj w ≡ (
        ok 1,
        update_changed R T C (record w { table = T.write w.table (set_fields obj row) }),
      ) =
        ap (λ (o : Option TaskScheduler). with_row R T C (update_row R T C obj) o w) found
        ∙ rw (name, fine, one) refl in
      let here : (row.id == pk) ≡ true = ground arith in
      rw path (
        refl,
        T.find-write w.table (set_fields obj row) row pk (ap (T.find w.table) same ∙ found)
            ∙ rw here refl,
        rw given_ refl,
        now,
      )
