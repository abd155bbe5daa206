-- ===== src/Snowflake/Order.antt =====
-- The IDs of one generator grow: backend/utils/snowflake.py, Snowflake.generate.
use mc_bd.Prelude.{
  ℕ, ◌+◌, ◌-◌, ◌%◌, ◌≤◌, ◌<◌, ◌≡◌, refl, sym, ap, ◌∙◌, List, [], ◌∷◌, ◌⊎◌, inl, inr, arith, All,
  ◌==◌, Bool-cases,
}
use mc_bd.Prelude.Int.{
  ℤ, pos, ◌<ℤ◌, ◌≤ℤ◌, ltb_ℤ, leb_ℤ, eqb_ℤ, ◌-ℤ◌, leb_ℤ→gt, ltb_ℤ→ge, eqb_ℤ→eq, eqb_ℤ→lt,
}
use mc_bd.Prelude.Bits.{and-mask}
use mc_bd.Snowflake.{
  Snowflake, Generated, issued, raised, waiting, compose, epoch, till_next_ms, after_wait, emit,
  number, generate_at, read_clock, generate,
}
use mc_bd.Snowflake.Layout.{flat, compose-flat}

-- `s'` has issued `id` after everything that `s` issued.
pub record Issues (s : Snowflake) (id : ℤ) (s' : Snowflake) : Type 0 where
  pub time : ℕ
  pub since_epoch : epoch ≤ time
  pub composed : id ≡ compose time s.datacenter_id s.worker_id s'.sequence
  pub stamped : s'.last_timestamp ≡ pos time
  pub same_datacenter : s'.datacenter_id ≡ s.datacenter_id
  pub same_worker : s'.worker_id ≡ s.worker_id
  pub fits : s'.sequence < 4096
  pub later :
      (s.last_timestamp <ℤ pos time) ⊎ ((s.last_timestamp ≡ pos time) × (s.sequence < s'.sequence))

abbrev pub Progress : Snowflake → Generated → Type 0
Progress s (issued id s' rest) = Issues s id s'
Progress s (raised e s' rest) = s' ≡ s
Progress s waiting = Unit

abbrev pub SinceEpoch : List ℕ → Type 0
SinceEpoch = All (λ t. epoch ≤ t)

emit-Progress :
    (s : Snowflake) (q t : ℕ) (clock : List ℕ)
    → epoch ≤ t
    → q < 4096
    → (s.last_timestamp <ℤ pos t) ⊎ ((s.last_timestamp ≡ pos t) × (s.sequence < q))
    → Progress s (emit s q t clock)
unfolding emit
emit-Progress s q t clock since fits later = record {
  time = t;
  since_epoch = since;
  composed = refl;
  stamped = refl;
  same_datacenter = refl;
  same_worker = refl;
  fits = fits;
  later = later;
}

after_wait-Progress :
    (s : Snowflake) (k : ℕ → List ℕ → Generated) (clock : List ℕ)
    → SinceEpoch clock
    → ((ts : ℕ) (rest : List ℕ)
        → s.last_timestamp <ℤ pos ts
        → epoch ≤ ts
        → SinceEpoch rest
        → Progress s (k ts rest))
    → Progress s (after_wait (till_next_ms s.last_timestamp clock) k)
unfolding after_wait till_next_ms
after_wait-Progress s k [] since step = tt
after_wait-Progress s k (t ∷ clock) since step =
    elim (Bool-cases (leb_ℤ (pos t) s.last_timestamp)) [
      | inl early ↦ rw (early, till_next_ms) (after_wait-Progress s k clock since.1 step)
      | inr late ↦
          rw (late, till_next_ms)
            (step t clock (leb_ℤ→gt (pos t) s.last_timestamp late) since.0 since.1)
    ]

number-Progress :
    (s : Snowflake) (t : ℕ) (clock : List ℕ)
    → s.sequence < 4096
    → epoch ≤ t
    → SinceEpoch clock
    → s.last_timestamp ≤ℤ pos t
    → Progress s (number s t clock)
unfolding number
number-Progress s t clock fits e since ahead = elim (Bool-cases (eqb_ℤ (pos t) s.last_timestamp)) [
  | inr other ↦ rw other (
      emit-Progress s 0 t clock e (omega arith)
        (inl (eqb_ℤ→lt (pos t) s.last_timestamp other ahead)))
  | inl same ↦
      rw (same, and-mask 12 (s.sequence + 1))
        (elim (Bool-cases ((s.sequence + 1) % 4096 == 0)) [
          | inl wrapped ↦ rw wrapped (
              after_wait-Progress s _ clock since
                (λ ts rest later k _. emit-Progress s _ ts rest k (omega arith) (inl later)))
          | inr next ↦ rw next (
              emit-Progress s _ t clock e (omega arith)
                (inr (sym (eqb_ℤ→eq (pos t) s.last_timestamp same), ground arith)))
        ])
]

generate_at-Progress :
    (s : Snowflake) (t : ℕ) (clock : List ℕ)
    → s.sequence < 4096
    → epoch ≤ t
    → SinceEpoch clock
    → Progress s (generate_at s t clock)
unfolding generate_at
generate_at-Progress s t clock fits e since = elim (Bool-cases (ltb_ℤ (pos t) s.last_timestamp)) [
  | inr ahead ↦
      rw ahead (number-Progress s t clock fits e since (ltb_ℤ→ge (pos t) s.last_timestamp ahead))
  | inl back ↦ rw back (elim (Bool-cases (leb_ℤ (s.last_timestamp -ℤ pos t) (pos 10000))) [
    | inl near ↦ rw near (
        after_wait-Progress s _ clock since
          (λ ts rest later k m. number-Progress s ts rest fits k m (omega arith)))
    | inr far ↦ rw far
  ])
]

-- From a state whose sequence number fits, and readings from the epoch on, a call that issues an
-- ID issues one after all earlier ones, in the layout and with the new state that record it; a
-- call that raises leaves the state as it was.
pub generate-Progress :
    (s : Snowflake) (clock : List ℕ)
    → s.sequence < 4096
    → SinceEpoch clock
    → Progress s (generate s clock)
unfolding generate read_clock
generate-Progress s [] fits since = elim (Bool-cases s.initialized) [
  | inl e ↦ simp e tt
  | inr e ↦ simp e
]
generate-Progress s (t ∷ clock) fits since = elim (Bool-cases s.initialized) [
  | inl e ↦ simp e (generate_at-Progress s t clock fits since.0 since.1)
  | inr e ↦ simp e
]

-- The IDs that one generator issues, call after call: each call has its own readings of the clock,
-- a call that raises issues nothing, and one that never returns ends the list.
collect : Generated → (Snowflake → List ℤ) → List ℤ
collect (issued id s' rest) k = id ∷ k s'
collect (raised e s' rest) k = k s'
collect waiting k = []

pub issue_all : Snowflake → List (List ℕ) → List ℤ
issue_all s [] = []
issue_all s (clock ∷ calls) = collect (generate s clock) (λ s'. issue_all s' calls)

abbrev pub Increasing : List ℤ → Type 0
Increasing [] = Unit
Increasing (x ∷ xs) = All (λ y. x <ℤ y) xs × Increasing xs

-- A generator on node (d, w).
pub record IsReady (d w : ℕ) (s : Snowflake) : Type 0 where
  pub datacenter : s.datacenter_id ≡ pos d
  pub worker : s.worker_id ≡ pos w
  pub datacenter_fits : d < 32
  pub worker_fits : w < 32
  pub sequence_fits : s.sequence < 4096

module _ (d w : ℕ) where
  Issues-IsReady : {s s' : Snowflake} {id : ℤ} → IsReady d w s → Issues s id s' → IsReady d w s'
  Issues-IsReady r i = record {
    datacenter = i.same_datacenter ∙ r.datacenter;
    worker = i.same_worker ∙ r.worker;
    datacenter_fits = r.datacenter_fits;
    worker_fits = r.worker_fits;
    sequence_fits = i.fits;
  }

  Issues-flat :
      {s s' : Snowflake} {id : ℤ}
      → IsReady d w s
      → (i : Issues s id s') → id ≡ pos (flat i.time d w s'.sequence)
  Issues-flat {s} {s'} r i =
      i.composed
      ∙ rw (r.datacenter, r.worker)
          (compose-flat i.time d w s'.sequence (record {
            since_epoch = i.since_epoch;
            datacenter = r.datacenter_fits;
            worker = r.worker_fits;
            sequence = i.fits;
          }))

  later-lt :
      (x : ℤ) {s s' : Snowflake} {id : ℤ} {t : ℕ}
      → IsReady d w s
      → (i : Issues s id s') → s.last_timestamp ≡ pos t
      → epoch ≤ t
      → x ≤ℤ pos (flat t d w s.sequence)
      → (x <ℤ id) × (x ≤ℤ pos (flat i.time d w s'.sequence))
  later-lt x {s} {s'} {id} {t} r i e since h =
      rw (Issues-flat r i) (let bound = gap i.later in (bound, omega arith))
    where
      gap :
          (s.last_timestamp <ℤ pos i.time)
            ⊎ ((s.last_timestamp ≡ pos i.time) × (s.sequence < s'.sequence))
          → x <ℤ pos (flat i.time d w s'.sequence)
      gap (inl l) =
          let k : pos t <ℤ pos i.time = rw e at l in
          omega (arith, r.sequence_fits, r.datacenter_fits, r.worker_fits)
      gap (inr l) =
          let k : t ≡ i.time = ground (arith, e, l.0) in omega (arith, ap (λ (u : ℕ). u - epoch) k)

  -- All IDs to come are above one that the state records.
  abbrev Above : ℤ → Snowflake → List ℤ → Type 0
  Above x s ids =
      (t : ℕ)
      → epoch ≤ t
      → s.last_timestamp ≡ pos t
      → x ≤ℤ pos (flat t d w s.sequence)
      → All (λ y. x <ℤ y) ids

  collect-Above :
      (x : ℤ) (s : Snowflake) (g : Generated) (k : Snowflake → List ℤ)
      → IsReady d w s
      → Progress s g
      → ((s' : Snowflake) → IsReady d w s' → Above x s' (k s'))
      → Above x s (collect g k)
  unfolding collect
  collect-Above x s (issued id s' rest) k r i step t since e h =
      let (a, b) = later-lt x r i e since h in
      (a, step s' (Issues-IsReady r i) i.time i.since_epoch i.stamped b)
  collect-Above x s (raised _ s' rest) k r i step t since e h = rw i (step s r t since e h)
  collect-Above x s waiting k r i step t since e h = tt

  issue_all-Above :
      (x : ℤ) (s : Snowflake) (calls : List (List ℕ))
      → IsReady d w s
      → All SinceEpoch calls
      → Above x s (issue_all s calls)
  unfolding issue_all
  issue_all-Above x s [] r c = λ t since e h. tt
  issue_all-Above x s (clock ∷ calls) r c =
      collect-Above x s (generate s clock) _ r (generate-Progress s clock r.sequence_fits c.0)
        (λ s' r'. issue_all-Above x s' calls r' c.1)

  collect-Increasing :
      (s : Snowflake) (g : Generated) (k : Snowflake → List ℤ)
      → IsReady d w s
      → Progress s g
      → ((s' : Snowflake) → IsReady d w s' → Increasing (k s'))
      → ((x : ℤ) (s' : Snowflake) → IsReady d w s' → Above x s' (k s'))
      → Increasing (collect g k)
  unfolding collect
  collect-Increasing s (issued id s' rest) k r i grows above =
      let r' = Issues-IsReady r i in
      (
        above id s' r' i.time i.since_epoch i.stamped (rw (Issues-flat r i) (omega arith)),
        grows s' r',
      )
  collect-Increasing s (raised _ s' rest) k r i grows above = rw i (grows s r)
  collect-Increasing s waiting k r i grows above = tt

  -- On a node whose numbers fit, the IDs of any sequence of calls grow strictly, whatever the
  -- clock does within and between the calls, as long as it reads no time before the epoch.
  pub issue_all-Increasing :
      (s : Snowflake) (calls : List (List ℕ))
      → IsReady d w s
      → All SinceEpoch calls
      → Increasing (issue_all s calls)
  unfolding issue_all
  issue_all-Increasing s [] r c = tt
  issue_all-Increasing s (clock ∷ calls) r c =
      collect-Increasing s (generate s clock) _ r (generate-Progress s clock r.sequence_fits c.0)
        (λ s' r'. issue_all-Increasing s' calls r' c.1)
        (λ x s' r'. issue_all-Above x s' calls r' c.1)
