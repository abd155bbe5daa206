-- ===== src/Plugins/Config/Version.antt =====
-- The version numbers that validator.py accepts.
use mc_bd.Prelude.{
  ℕ, ◌≡◌, ◌↔◌, ◌⊎◌, inl, inr, refl, ap, ◌∙◌, Bool, true, false, Option, none, some, [], ◌∷◌, ◌++◌,
  arith, Bool-cases, ==_iff, All,
}
use mc_bd.Prelude.Text.{Text}
use mc_bd.Plugins.Config.{at_end, skip, run, one, next, ends, match_version}

-- A number: at least one digit
pub record IsNumber (digit : ℕ → Bool) (t : Text) : Type 0 where
  pub first : ℕ
  pub others : Text
  pub shape : t ≡ first ∷ others
  pub digits : All (λ c. digit c ≡ true) t

-- Three numbers with dots between them, and a line break behind them or nothing
pub record IsVersion (digit : ℕ → Bool) (t : Text) : Type 0 where
  pub major : Text
  pub minor : Text
  pub patch : Text
  pub rest : Text
  pub numbers : IsNumber digit major × IsNumber digit minor × IsNumber digit patch
  pub shape : t ≡ major ++ (b'.' ∷ (minor ++ (b'.' ∷ (patch ++ rest))))
  pub end : (rest ≡ []) ⊎ (rest ≡ b'\n' ∷ [])

module _ (digit : ℕ → Bool) where
  -- The text does not go on with a digit.
  abbrev Stops : Text → Type 0
  Stops [] = Unit
  Stops (c ∷ t) = digit c ≡ false

  skip-append : (a r : Text) → All (λ c. digit c ≡ true) a → Stops r → skip digit (a ++ r) ≡ r
  unfolding skip
  skip-append [] [] h s = refl
  skip-append [] (c ∷ r) h s = rw s
  skip-append (c ∷ a) r h s = rw h.0 (skip-append a r h.1 s)

  run-append : (a r : Text) → IsNumber digit a → Stops r → run digit (a ++ r) ≡ some r
  unfolding run
  run-append [] r n s = cc n.shape
  run-append (c ∷ a) r n s = rw n.digits.0 (ap some (skip-append a r n.digits.1 s))

  skip_split : (t : Text) → (a : Text) × All (λ c. digit c ≡ true) a × (t ≡ a ++ skip digit t)
  unfolding skip
  skip_split [] = ([], tt, refl)
  skip_split (c ∷ t) = elim (Bool-cases (digit c)) [
    | inl yes_digit ↦
        let (a, h, e) = skip_split t in (c ∷ a, (yes_digit, h), rw yes_digit (ap (λ u. c ∷ u) e))
    | inr other ↦ ([], tt, rw other)
  ]

  run_split : (t r : Text) → run digit t ≡ some r → (a : Text) × IsNumber digit a × (t ≡ a ++ r)
  unfolding run
  run_split [] r h = cc
  run_split (c ∷ t) r h = elim (Bool-cases (digit c)) [
    | inl yes_digit ↦
        let (a, all, e) = skip_split t in
        let same : skip digit t ≡ r = ground (arith, h) in
        (
          c ∷ a,
          record { first = c; others = a; shape = refl; digits = (yes_digit, all) },
          ap (λ u. c ∷ u) (e ∙ ap (λ (u : Text). a ++ u) same),
        )
    | inr other ↦ absurd (ground (arith, h))
  ]

  one_split : (x : ℕ) (t r : Text) → one x t ≡ some r → t ≡ x ∷ r
  unfolding one
  one_split x [] r h = cc
  one_split x (c ∷ t) r h = ground (arith, ==_iff c x)

  next_split :
      (o : Option Text) (f : Text → Option Text) (r : Text)
      → next o f ≡ some r
      → (t : Text) × (o ≡ some t) × (f t ≡ some r)
  next_split none f r h = cc
  next_split (some t) f r h = (t, refl, h)

  ends_split : (o : Option Text) → ends o ≡ true → (t : Text) × (o ≡ some t) × (at_end t ≡ true)
  ends_split none h = cc
  ends_split (some t) h = (t, refl, h)

  at_end_cases : (t : Text) → at_end t ≡ true → (t ≡ []) ⊎ (t ≡ b'\n' ∷ [])
  unfolding at_end
  at_end_cases [] h = inl refl
  at_end_cases (c ∷ []) h = inr (ground (arith, ==_iff c b'\n'))
  at_end_cases (c ∷ d ∷ t) h = cc

  IsVersion-parts : (t : Text) → match_version digit t ≡ true → IsVersion digit t
  unfolding match_version
  IsVersion-parts t h =
      let (r5, e5, stop) =
        ends_split
          (next (next (next (next (run digit t) (one b'.')) (run digit)) (one b'.')) (run digit))
          h in
      let (r4, e4, k5) =
        next_split (next (next (next (run digit t) (one b'.')) (run digit)) (one b'.')) (run digit)
          r5 e5 in
      let (r3, e3, k4) =
        next_split (next (next (run digit t) (one b'.')) (run digit)) (one b'.') r4 e4 in
      let (r2, e2, k3) = next_split (next (run digit t) (one b'.')) (run digit) r3 e3 in
      let (r1, e1, k2) = next_split (run digit t) (one b'.') r2 e2 in
      let (a, na, ea) = run_split t r1 e1 in
      let (b, nb, eb) = run_split r2 r3 k3 in
      let (c, nc, ec) = run_split r4 r5 k5 in
      record {
        major = a;
        minor = b;
        patch = c;
        rest = r5;
        numbers = (na, nb, nc);
        shape =
            ea
            ∙ ap (λ (u : Text). a ++ u)
                (one_split b'.' r1 r2 k2
                  ∙ ap (λ (u : Text). b'.' ∷ u)
                      (eb
                        ∙ ap (λ (u : Text). b ++ u)
                            (one_split b'.' r3 r4 k4 ∙ ap (λ (u : Text). b'.' ∷ u) ec)));
        end = at_end_cases r5 stop;
      }

  end-Stops :
      (r : Text) → digit b'\n' ≡ false → (r ≡ []) ⊎ (r ≡ b'\n' ∷ []) → Stops r × (at_end r ≡ true)
  unfolding at_end
  end-Stops r h (inl e) = rw e (tt, refl)
  end-Stops r h (inr e) = rw e (h, refl)

  match-parts :
      (t : Text)
      → digit b'.' ≡ false
      → digit b'\n' ≡ false
      → IsVersion digit t
      → match_version digit t ≡ true
  unfolding match_version
  match-parts t dot line v = rw v.shape (
      rw
        (
          run-append v.major (b'.' ∷ (v.minor ++ (b'.' ∷ (v.patch ++ v.rest)))) v.numbers.0 dot,
          run-append v.minor (b'.' ∷ (v.patch ++ v.rest)) v.numbers.1 dot,
          run-append v.patch v.rest v.numbers.2 (end-Stops v.rest line v.end).0,
        )
        (end-Stops v.rest line v.end).1)

  -- If neither a dot nor a line break is a digit, the accepted versions are those that consist of
  -- three numbers with dots between them, with nothing or one line break behind them.
  pub match_version-IsVersion :
      (t : Text)
      → digit b'.' ≡ false
      → digit b'\n' ≡ false
      → (match_version digit t ≡ true) ↔ IsVersion digit t
  match_version-IsVersion t dot line = (IsVersion-parts t, match-parts t dot line)
