-- ===== src/Release/Newer.antt =====
-- That script/version_bump.py moves forward, and where it moves too far.
use mathlib.Core.Path.{subst}
use mc_bd.Prelude.{
  sym, ℕ, ◌+◌, ◌≡◌, refl, ltb, Bool, true, false, not, ◌||◌, Option, none, some, List, [], ◌∷◌,
  ◌++◌, arith, if◌then◌else◌,
}
use mc_bd.Errors.{ok}
use mc_bd.Redis.{is_some}
use mc_bd.Release.{
  Pre, alpha, beta, candidate, Numbers, Version, BumpType, beta_bump, dev_bump, patch_bump,
  minor_bump, nightly_bump, sync_bump, is_prerelease, bump_patch, bump_minor, bump_to_minor,
  bump_to_patch, bump_to_dev, bump_pre, bump_to_beta, bump_version, pre_key, dev_key, less, key,
  newer, is_nightly, is_sync, asserted, main,
}

less_cons : (x : ℕ) (xs ys : List ℕ) → less xs ys ≡ true → less (x ∷ xs) (x ∷ ys) ≡ true
unfolding less
less_cons x xs ys h = ground arith

less_head : (x y : ℕ) (xs ys : List ℕ) → ltb x y ≡ true → less (x ∷ xs) (y ∷ ys) ≡ true
unfolding less
less_head x y xs ys h = ground arith

abbrev parts : Option Pre → Option ℕ → List ℕ
parts p d = pre_key p d ++ dev_key d

minor_later :
    (v : Version) (p : Option Pre) (d : Option ℕ)
    → newer (record { release = bump_minor v.release; pre = p; dev = d }) v ≡ true
unfolding newer key
minor_later v p d =
    less_cons v.release.major (v.release.minor ∷ v.release.patch ∷ parts v.pre v.dev)
      ((v.release.minor + 1) ∷ 0 ∷ parts p d)
      (less_head v.release.minor (v.release.minor + 1) (v.release.patch ∷ parts v.pre v.dev)
        (0 ∷ parts p d) (ground arith))

patch_later :
    (v : Version) (p : Option Pre) (d : Option ℕ)
    → newer (record { release = bump_patch v.release; pre = p; dev = d }) v ≡ true
unfolding newer key
patch_later v p d =
    less_cons v.release.major (v.release.minor ∷ v.release.patch ∷ parts v.pre v.dev)
      (v.release.minor ∷ (v.release.patch + 1) ∷ parts p d)
      (less_cons v.release.minor (v.release.patch ∷ parts v.pre v.dev)
        ((v.release.patch + 1) ∷ parts p d)
        (less_head v.release.patch (v.release.patch + 1) (parts v.pre v.dev) (parts p d)
          (ground arith)))

same_later :
    (v : Version) (p : Option Pre) (d : Option ℕ)
    → less (parts v.pre v.dev) (parts p d) ≡ true
    → newer (record { release = v.release; pre = p; dev = d }) v ≡ true
unfolding newer key
same_later v p d h =
    less_cons v.release.major (v.release.minor ∷ v.release.patch ∷ parts v.pre v.dev)
      (v.release.minor ∷ v.release.patch ∷ parts p d)
      (less_cons v.release.minor (v.release.patch ∷ parts v.pre v.dev) (v.release.patch ∷ parts p d)
        (less_cons v.release.patch (parts v.pre v.dev) (parts p d) h))

-- What is no final version stands before it.
final_later :
    (p : Option Pre) (d : Option ℕ)
    → (is_some d || is_some p) ≡ true
    → less (pre_key p d ++ dev_key d) (4 ∷ 0 ∷ 1 ∷ 0 ∷ []) ≡ true
unfolding less pre_key dev_key
final_later none none h = cc
final_later none (some d) h = refl
final_later (some (alpha n)) d h = refl
final_later (some (beta n)) d h = refl
final_later (some (candidate n)) d h = refl

-- A step to a final version: the release grows, or the version was no final one.
minor_step :
    (v : Version) (b : Bool)
    → (b ≡ false → is_prerelease v ≡ true)
    → newer
        (record { release = if b then bump_minor v.release else v.release; pre = none; dev = none })
        v
      ≡ true
unfolding is_prerelease pre_key dev_key
minor_step v true h = minor_later v _ _
minor_step v false h = same_later v none none (final_later v.pre v.dev (h refl))

patch_step :
    (v : Version) (b : Bool)
    → (b ≡ false → is_prerelease v ≡ true)
    → newer
        (record { release = if b then bump_patch v.release else v.release; pre = none; dev = none })
        v
      ≡ true
unfolding is_prerelease pre_key dev_key
patch_step v true h = patch_later v _ _
patch_step v false h = same_later v none none (final_later v.pre v.dev (h refl))

not-false : (a : Bool) → not a ≡ false → a ≡ true
not-false true h = refl
not-false false h = cc

either_false : (a b : Bool) → (not a || b) ≡ false → a ≡ true
either_false true b h = refl
either_false false b h = cc

dev_step : (p : Option Pre) (d : ℕ) → less (parts p (some d)) (parts p (some (d + 1))) ≡ true
unfolding less pre_key dev_key
dev_step none d = ground arith
dev_step (some (alpha n)) d = ground arith
dev_step (some (beta n)) d = ground arith
dev_step (some (candidate n)) d = ground arith

-- The pre-release of a dev release that a beta may follow
abbrev pub MayBeta : Option Pre → Option ℕ → Type 0
MayBeta (some (beta n)) (some d) = ⊥
MayBeta (some (candidate n)) (some d) = ⊥
MayBeta (some (alpha n)) (some d) = Unit
MayBeta none (some d) = Unit
MayBeta p none = Unit

beta_step :
    (p : Option Pre) (d : ℕ)
    → MayBeta p (some d)
    → less (parts p (some d)) (parts (some (beta 0)) none) ≡ true
unfolding less pre_key dev_key
beta_step none d h = refl
beta_step (some (alpha n)) d h = refl
beta_step (some (beta n)) d h = absurd h
beta_step (some (candidate n)) d h = absurd h

beta_next : (n : ℕ) → less (parts (some (beta n)) none) (parts (some (beta (n + 1))) none) ≡ true
unfolding less pre_key dev_key
beta_next n = ground arith

dev_newer : (v : Version) (d : Option ℕ) → v.dev ≡ d → newer (bump_to_dev v d) v ≡ true
unfolding bump_to_dev
dev_newer v none e = minor_later v _ _
dev_newer v (some d) e = same_later v v.pre (some (d + 1)) (
    subst (λ o. less (parts v.pre o) (parts v.pre (some (d + 1))) ≡ true) (sym e)
      (dev_step v.pre d))

pre_newer :
    (v : Version) (p : Option Pre) → v.dev ≡ none → v.pre ≡ p → newer (bump_pre v p) v ≡ true
unfolding bump_pre
pre_newer v none e f = patch_later v _ _
pre_newer v (some (alpha n)) e f = patch_later v _ _
pre_newer v (some (candidate n)) e f = patch_later v _ _
pre_newer v (some (beta n)) e f = same_later v (some (beta (n + 1))) v.dev (between v.pre v.dev e f)
  where
    between :
        (p : Option Pre) (d : Option ℕ)
        → d ≡ none
        → p ≡ some (beta n)
        → less (parts p d) (parts (some (beta (n + 1))) d) ≡ true
    between p d g h = rw (g, h) (beta_next n)

beta_newer :
    (v : Version) (d : Option ℕ)
    → v.dev ≡ d
    → MayBeta v.pre v.dev
    → newer (bump_to_beta v d) v ≡ true
unfolding bump_to_beta
beta_newer v none e may = pre_newer v v.pre e refl
beta_newer v (some d) e may = same_later v (some (beta 0)) none (between v.dev e may)
  where
    between :
        (o : Option ℕ)
        → o ≡ some d
        → MayBeta v.pre o
        → less (parts v.pre o) (parts (some (beta 0)) none) ≡ true
    between none g h = cc
    between (some c) g h = beta_step v.pre c h

-- What a bump asks for
abbrev pub Bumps : BumpType → Version → Type 0
Bumps minor_bump v = Unit
Bumps patch_bump v = Unit
Bumps dev_bump v = Unit
Bumps beta_bump v = MayBeta v.pre v.dev
Bumps nightly_bump v = ⊥
Bumps sync_bump v = ⊥

pub bump_version-newer :
    (v : Version) (type : BumpType) (set : Option Version) (now : ℕ)
    → Bumps type v
    → (new : Version) × (bump_version v type set now ≡ ok new) × (newer new v ≡ true)
unfolding bump_version bump_to_minor bump_to_patch
bump_version-newer v minor_bump set now h =
    (_, refl, minor_step v _ (either_false (is_prerelease v) _))
bump_version-newer v patch_bump set now h = (_, refl, patch_step v _ (not-false (is_prerelease v)))
bump_version-newer v dev_bump set now h = (_, refl, dev_newer v v.dev refl)
bump_version-newer v beta_bump set now h = (_, refl, beta_newer v v.dev refl h)
bump_version-newer v nightly_bump set now h = absurd h
bump_version-newer v sync_bump set now h = absurd h

-- The script's assertion holds: a minor, patch or dev bump, and a beta bump but from a dev release
-- of a beta or a candidate, writes a version, and it is newer than the old one.
pub main-newer :
    (v : Version) (type : BumpType) (now : ℕ)
    → Bumps type v
    → (new : Version) × (main
          (record { type = type; set_nightly_version = none; set_version = none })
          v
          now
        ≡ ok new)
      × (newer new v ≡ true)
unfolding main asserted is_nightly is_sync
main-newer v type now h =
    let (new, e, f) = bump_version-newer v type none now h in (new, main_returns type h e f, f)
  where
    main_returns :
        (t : BumpType) {new : Version}
        → Bumps t v
        → bump_version v t none now ≡ ok new
        → newer new v ≡ true
        → main (record { type = t; set_nightly_version = none; set_version = none }) v now ≡ ok new
    main_returns minor_bump h e f = rw (e, f) refl
    main_returns patch_bump h e f = rw (e, f) refl
    main_returns dev_bump h e f = rw (e, f) refl
    main_returns beta_bump h e f = rw (e, f) refl
    main_returns nightly_bump h e f = absurd h
    main_returns sync_bump h e f = absurd h

-- The beta of an alpha skips its own release: what it writes is newer than every version of that
-- release, its betas, its candidates and its final version included.
pub alpha_skips_release :
    (r : Numbers) (n now : ℕ) (set : Option Version) (p : Option Pre) (d : Option ℕ)
    → (new : Version) × (bump_version
          (record { release = r; pre = some (alpha n); dev = none })
          beta_bump
          set
          now
        ≡ ok new)
      × (newer new (record { release = r; pre = p; dev = d }) ≡ true)
unfolding bump_version bump_to_beta bump_pre
alpha_skips_release r n now set p d =
    (_, refl, patch_later (record { release = r; pre = p; dev = d }) (some (beta 0)) none)
