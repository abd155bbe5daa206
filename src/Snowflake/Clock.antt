-- ===== src/Snowflake/Clock.antt =====
-- When Snowflake.generate of backend/utils/snowflake.py returns, and when it refuses the clock.
use mc_bd.Prelude.{
  ℕ, ◌+◌, ◌-◌, ◌%◌, ◌<◌, ◌==◌, ◌≡◌, refl, true, List, [], ◌∷◌, ◌++◌, inl, inr, arith, Bool-cases,
}
use mc_bd.Prelude.Int.{ℤ, pos, ◌<ℤ◌, ◌≤ℤ◌, ◌-ℤ◌, ltb_ℤ, leb_ℤ, eqb_ℤ, leb_ℤ→gt, leb_ℤ→le, eqb_ℤ→eq}
use mc_bd.Prelude.Bits.{and-mask}
use mc_bd.Snowflake.{
  Snowflake, Generated, issued, raised, till_next_ms, after_wait, emit, number, generate_at,
  read_clock, generate, clock_backward_tolerance_ms, backward,
}

pub record Issued (g : Generated) : Type 0 where
  pub id : ℤ
  pub next : Snowflake
  pub rest : List ℕ
  pub outcome : g ≡ issued id next rest

emit-Issued : (s : Snowflake) (q t : ℕ) (rest : List ℕ) → Issued (emit s q t rest)
unfolding emit
emit-Issued s q t rest = record { id = _; next = _; rest = rest; outcome = refl }

module _ (n : ℕ) (after : List ℕ) where
  wait-Issued :
      (last : ℤ) (k : ℕ → List ℕ → Generated) (before : List ℕ)
      → last <ℤ pos n
      → ((ts : ℕ) (rest : List ℕ) → last <ℤ pos ts → Issued (k ts rest))
      → Issued (after_wait (till_next_ms last (before ++ n ∷ after)) k)
  unfolding after_wait till_next_ms
  wait-Issued last k [] ahead step = elim (Bool-cases (leb_ℤ (pos n) last)) [
    | inl early ↦ absurd (omega (arith, leb_ℤ→le (pos n) last early))
    | inr late ↦ rw (late, till_next_ms) (step n after ahead)
  ]
  wait-Issued last k (t ∷ before) ahead step = elim (Bool-cases (leb_ℤ (pos t) last)) [
    | inl early ↦ rw (early, till_next_ms) (wait-Issued last k before ahead step)
    | inr late ↦ rw (late, till_next_ms) (step t (before ++ n ∷ after) (leb_ℤ→gt (pos t) last late))
  ]

  number-Issued :
      (s : Snowflake) (t : ℕ) (before : List ℕ)
      → s.last_timestamp <ℤ pos n
      → Issued (number s t (before ++ n ∷ after))
  unfolding number
  number-Issued s t before ahead = elim (Bool-cases (eqb_ℤ (pos t) s.last_timestamp)) [
    | inr other ↦ rw other (emit-Issued s 0 t _)
    | inl same ↦
        rw (same, and-mask 12 (s.sequence + 1))
          (elim (Bool-cases ((s.sequence + 1) % 4096 == 0)) [
            | inl wrapped ↦
                rw wrapped (
                  wait-Issued s.last_timestamp _ before ahead
                    (λ ts rest _. emit-Issued s _ ts rest))
            | inr next ↦ rw next (emit-Issued s _ t _)
          ])
  ]

number_later-Issued :
    (s : Snowflake) (t : ℕ) (rest : List ℕ) → s.last_timestamp <ℤ pos t → Issued (number s t rest)
unfolding number
number_later-Issued s t rest later = elim (Bool-cases (eqb_ℤ (pos t) s.last_timestamp)) [
  | inr other ↦ rw other (emit-Issued s 0 t rest)
  | inl same ↦
      let e : pos t ≡ s.last_timestamp = eqb_ℤ→eq (pos t) s.last_timestamp same in
      let k : pos t <ℤ pos t = rw (← e) at later in absurd (omega arith)
]

-- A call of an initialised generator returns an ID once the clock shows a millisecond after the
-- last one, if its first reading is at most the tolerance behind.
pub generate_returns :
    (s : Snowflake) (t : ℕ) (before : List ℕ) (n : ℕ) (after : List ℕ)
    → s.initialized ≡ true
    → s.last_timestamp -ℤ pos t ≤ℤ pos clock_backward_tolerance_ms
    → s.last_timestamp <ℤ pos n
    → Issued (generate s (t ∷ before ++ n ∷ after))
unfolding generate read_clock generate_at
generate_returns s t before n after ready near ahead =
    simp ready (elim (Bool-cases (ltb_ℤ (pos t) s.last_timestamp)) [
      | inr on_time ↦ rw on_time (number-Issued n after s t before ahead)
      | inl back ↦
          rw back
            (elim (Bool-cases
              (leb_ℤ (s.last_timestamp -ℤ pos t) (pos clock_backward_tolerance_ms))) [
                | inl small ↦ rw small (
                    wait-Issued n after s.last_timestamp _ before ahead
                      (λ ts rest later. number_later-Issued s ts rest later))
                | inr far ↦ absurd (
                    omega (
                      arith,
                      leb_ℤ→gt (s.last_timestamp -ℤ pos t) (pos clock_backward_tolerance_ms) far,
                    ))
              ])
    ])

-- A clock more than the tolerance behind the last ID is refused with the exact distance in the
-- error, and the state stays as it was.
pub generate_refuses :
    (s : Snowflake) (t l : ℕ) (rest : List ℕ)
    → s.initialized ≡ true
    → s.last_timestamp ≡ pos l
    → t + clock_backward_tolerance_ms < l
    → generate s (t ∷ rest) ≡ raised (backward (l - t)) s rest
unfolding generate read_clock generate_at ◌-ℤ◌
generate_refuses s t l rest ready last far = ground arith
