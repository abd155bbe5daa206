-- ===== src/Plugins/Requirements/Retries.antt =====
-- The retries of install_requirements in backend/plugin/requirements.py.
use mc_bd.Prelude.{ℕ, zero, suc, ◌<◌, ◌≡◌, ◌↔◌, refl, ap, ◌∙◌, List, arith, Bool, true, false}
use mc_bd.Prelude.Text.{Text}
use mc_bd.Errors.{ok, err_ne_ok}
use mc_bd.Plugins.Host.{Host}
use mc_bd.Plugins.Requirements.{
  Exit, succeeded, failed, timed_out, broken, Python, install_error, after_call, attempts,
}

-- The exits after which the loop goes on
abbrev pub is_retried : Exit → Bool
is_retried succeeded = false
is_retried failed = true
is_retried timed_out = true
is_retried broken = false

module _ (H : Host) (Y : Python H) (cmd : List Text) where
  open H use {Disk}
  open Y use {check_call}

  -- The command run one time after another, whatever its exits: the state after k runs.
  unfoldable pub after_runs : ℕ → Disk → Disk
  after_runs zero d = d
  after_runs (suc k) d = after_runs k (check_call d cmd).1

  -- Run k + 1 is the first that the loop does not repeat, and it succeeds.
  pub record SucceedsAt (k : ℕ) (d : Disk) : Type 0 where
    pub before : (j : ℕ) → j < k → is_retried (check_call (after_runs j d) cmd).0 ≡ true
    pub run : (check_call (after_runs k d) cmd).0 ≡ succeeded

  -- One retried run more in front
  later :
      (k : ℕ) (d : Disk)
      → is_retried (check_call d cmd).0 ≡ true
      → SucceedsAt k (check_call d cmd).1
      → SucceedsAt (suc k) d
  unfolding after_runs
  later k d h s = record { before = λ j lt. earlier j lt; run = s.run }
    where
      earlier : (j : ℕ) → j < suc k → is_retried (check_call (after_runs j d) cmd).0 ≡ true
      earlier zero lt = h
      earlier (suc j) lt = s.before j (omega arith)

  sooner :
      (k : ℕ) (d : Disk)
      → SucceedsAt (suc k) d
      → is_retried (check_call d cmd).0 ≡ true × SucceedsAt k (check_call d cmd).1
  unfolding after_runs
  sooner k d s = (
    s.before 0 (omega arith),
    record { before = λ j lt. s.before (suc j) (omega arith); run = s.run },
  )

  abbrev Found : ℕ → Disk → Type 0
  Found n d = (k : ℕ) × (k < n) × SucceedsAt k d

  again :
      (n : ℕ) (d : Disk)
      → is_retried (check_call d cmd).0 ≡ true
      → Found n (check_call d cmd).1
      → Found (suc n) d
  again n d h (k, lt, s) = (suc k, omega arith, later k d h s)

  found_at :
      (n : ℕ) (d d' : Disk) (x : Exit)
      → check_call d cmd ≡ (x, d')
      → ((attempts H Y n cmd d').0 ≡ ok tt → 0 < n → Found n d')
      → (attempts H Y (suc n) cmd d).0 ≡ ok tt
      → Found (suc n) d
  unfolding attempts after_call after_runs
  found_at n d d' succeeded e ih h =
      (0, omega arith, record { before = λ j lt. absurd (omega arith); run = ap (λ r. r.0) e })
  found_at zero d d' failed e ih h = absurd (err_ne_ok install_error tt (rw e at h))
  found_at zero d d' timed_out e ih h = absurd (err_ne_ok install_error tt (rw e at h))
  found_at (suc n) d d' failed e ih h = again (suc n) d (rw e) (rw e (ih (rw e at h) (omega arith)))
  found_at (suc n) d d' timed_out e ih h =
      again (suc n) d (rw e) (rw e (ih (rw e at h) (omega arith)))
  found_at n d d' broken e ih h = absurd (err_ne_ok _ tt (rw e at h))

  found : (n : ℕ) (d : Disk) → (attempts H Y n cmd d).0 ≡ ok tt → 0 < n → Found n d
  found zero d h p = absurd (omega arith)
  found (suc n) d h p =
      found_at n d (check_call d cmd).1 (check_call d cmd).0 refl (found n (check_call d cmd).1) h

  retried_call :
      (n : ℕ) (d d' : Disk) (x : Exit)
      → check_call d cmd ≡ (x, d')
      → is_retried x ≡ true
      → attempts H Y (suc (suc n)) cmd d ≡ attempts H Y (suc n) cmd d'
  unfolding attempts after_call
  retried_call n d d' succeeded e h = cc
  retried_call n d d' failed e h = rw e
  retried_call n d d' timed_out e h = rw e
  retried_call n d d' broken e h = cc

  succeeded_call :
      (n : ℕ) (d d' : Disk) (x : Exit)
      → check_call d cmd ≡ (x, d')
      → x ≡ succeeded
      → attempts H Y (suc n) cmd d ≡ (ok tt, d')
  unfolding attempts after_call
  succeeded_call n d d' succeeded e h = rw e
  succeeded_call n d d' failed e h = cc
  succeeded_call n d d' timed_out e h = cc
  succeeded_call n d d' broken e h = cc

  -- If run k + 1 of the command is the first that the loop does not repeat, if it succeeds, and if
  -- there are more than k attempts, then the loop returns after just these k + 1 runs.
  pub attempts-SucceedsAt :
      (k n : ℕ) (d : Disk)
      → k < n
      → SucceedsAt k d
      → attempts H Y n cmd d ≡ (ok tt, after_runs (suc k) d)
  unfolding after_runs
  attempts-SucceedsAt k zero d lt s = absurd (omega arith)
  attempts-SucceedsAt zero (suc n) d lt s =
      succeeded_call n d (check_call d cmd).1 (check_call d cmd).0 refl s.run
  attempts-SucceedsAt (suc k) (suc zero) d lt s = absurd (omega arith)
  attempts-SucceedsAt (suc k) (suc (suc n)) d lt s =
      let (h, t) = sooner k d s in
      retried_call n d (check_call d cmd).1 (check_call d cmd).0 refl h
      ∙ attempts-SucceedsAt k (suc n) (check_call d cmd).1 (omega arith) t

  -- With at least one attempt, the installation of the missing packages returns exactly if the first
  -- run of the command that neither fails nor times out is one of the attempts, and succeeds.
  pub attempts_iff :
      (n : ℕ) (d : Disk)
      → 0 < n
      → ((attempts H Y n cmd d).0 ≡ ok tt) ↔ ((k : ℕ) × (k < n) × SucceedsAt k d)
  attempts_iff n d p =
      (λ h. found n d h p, λ f. ap (λ r. r.0) (attempts-SucceedsAt f.0 n d f.1 f.2))
