-- ===== src/Release.antt =====
-- script/version_bump.py: the next version of the backend. `Version` of packaging is a parameter, as
-- far as its order goes: `key` is its documented order on versions of three numbers with an optional
-- pre-release and an optional dev part, and no epoch, post or local part. The files that the script
-- rewrites, and git, are I/O.
pub mod Newer
use mc_bd.Prelude.{
  ℕ, ◌+◌, ◌==◌, ltb, Bool, true, false, not, ◌&&◌, ◌||◌, Option, none, some, List, [], ◌∷◌, ◌++◌,
  if◌then◌else◌,
}
use mc_bd.Errors.{Result, ok, err, unexpected}
use mc_bd.Redis.{is_some}

-- `pre`: a letter and a number
pub data Pre : Type 0 where
  alpha beta candidate : ℕ → Pre

pub record Numbers : Type 0 where
  pub major : ℕ
  pub minor : ℕ
  pub patch : ℕ

pub record Version : Type 0 where
  pub release : Numbers
  pub pre : Option Pre
  pub dev : Option ℕ

-- The choices of the argument `type`
pub data BumpType : Type 0 where
  beta_bump dev_bump patch_bump minor_bump nightly_bump sync_bump : BumpType

is_prerelease : Version → Bool
is_prerelease v = is_some v.dev || is_some v.pre

-- _bump_release
abbrev pub bump_patch : Numbers → Numbers
bump_patch r = record r { patch = r.patch + 1 }

abbrev pub bump_minor : Numbers → Numbers
bump_minor r = record r { minor = r.minor + 1; patch = 0 }

-- The branches of bump_version
bump_to_minor : Version → Version
unfolding is_prerelease
bump_to_minor v = record {
  release =
      if not (is_prerelease v) || not (v.release.patch == 0)
      then bump_minor v.release
      else v.release;
  pre = none;
  dev = none;
}

bump_to_patch : Version → Version
unfolding is_prerelease
bump_to_patch v = record {
  release = if not (is_prerelease v) then bump_patch v.release else v.release;
  pre = none;
  dev = none;
}

bump_to_dev : Version → Option ℕ → Version
bump_to_dev v (some d) = record v { dev = some (d + 1) }
bump_to_dev v none = record { release = bump_minor v.release; pre = none; dev = some 0 }

-- A pre-release that is no dev release: for an alpha the second `if` overrules the first one.
bump_pre : Version → Option Pre → Version
bump_pre v (some (beta n)) = record v { pre = some (beta (n + 1)) }
bump_pre v other = record v { release = bump_patch v.release; pre = some (beta 0) }

bump_to_beta : Version → Option ℕ → Version
unfolding bump_pre
bump_to_beta v (some d) = record v { dev = none; pre = some (beta 0) }
bump_to_beta v none = bump_pre v v.pre

same_release : Numbers → Numbers → Bool
same_release r s = (r.major == s.major) && (r.minor == s.minor) && (r.patch == s.patch)

-- Nightly with a version of its own, and with the present minute as a number
nightly_to : Version → Version → Option ℕ → Result Version
unfolding same_release
nightly_to v new none = err (unexpected "ValueError")
nightly_to v new (some d) =
    if not (is_some v.dev) || not (same_release new.release v.release)
    then ok new
    else ok (record v { dev = some d })

nightly_now : Version → ℕ → Option ℕ → Result Version
nightly_now v now none = err (unexpected "ValueError")
nightly_now v now (some d) = ok (record v { dev = some now })

bump_nightly : Version → Option Version → ℕ → Result Version
unfolding nightly_to nightly_now
bump_nightly v (some new) now = nightly_to v new new.dev
bump_nightly v none now = nightly_now v now v.dev

-- `now` is _utcnow_compact as a number.
unfoldable pub bump_version : Version → BumpType → Option Version → ℕ → Result Version
unfolding bump_to_minor bump_to_patch bump_to_dev bump_to_beta bump_nightly
bump_version v minor_bump nightly_version now = ok (bump_to_minor v)
bump_version v patch_bump nightly_version now = ok (bump_to_patch v)
bump_version v dev_bump nightly_version now = ok (bump_to_dev v v.dev)
bump_version v beta_bump nightly_version now = ok (bump_to_beta v v.dev)
bump_version v nightly_bump nightly_version now = bump_nightly v nightly_version now
bump_version v sync_bump nightly_version now = err (unexpected "ValueError")

-- The order of packaging: a dev release without a pre-release stands before all pre-releases, a
-- final release after them, and a dev release before what it leads to.
unfoldable pub pre_key : Option Pre → Option ℕ → List ℕ
pre_key (some (alpha n)) d = 1 ∷ n ∷ []
pre_key (some (beta n)) d = 2 ∷ n ∷ []
pre_key (some (candidate n)) d = 3 ∷ n ∷ []
pre_key none (some d) = 0 ∷ 0 ∷ []
pre_key none none = 4 ∷ 0 ∷ []

unfoldable pub dev_key : Option ℕ → List ℕ
dev_key (some d) = 0 ∷ d ∷ []
dev_key none = 1 ∷ 0 ∷ []

unfoldable pub less : List ℕ → List ℕ → Bool
less [] ys = false
less (x ∷ xs) [] = false
less (x ∷ xs) (y ∷ ys) = let rest = less xs ys in ltb x y || ((x == y) && rest)

unfoldable pub key : Version → List ℕ
unfolding pre_key dev_key
key v = v.release.major ∷ v.release.minor ∷ v.release.patch ∷ (pre_key v.pre v.dev ++ dev_key v.dev)

-- `new > old`
unfoldable pub newer : Version → Version → Bool
unfolding key less
newer new old = less (key old) (key new)

-- The arguments of the script, with versions already read
pub record Arguments : Type 0 where
  pub type : BumpType
  pub set_nightly_version : Option Version
  pub set_version : Option Version

is_nightly : BumpType → Bool
is_nightly nightly_bump = true
is_nightly _ = false

is_sync : BumpType → Bool
is_sync sync_bump = true
is_sync _ = false

asserted : Version → Option Version → Result Version → Result Version
asserted current set_nightly (err e) = err e
asserted current (some n) (ok bumped) = ok bumped
asserted current none (ok bumped) =
    if newer bumped current then ok bumped else err (unexpected "AssertionError")

synced : Option Version → Result Version
synced none = err (unexpected "SystemExit")
synced (some v) = ok v

-- main: the version that it writes, or the exception
unfoldable pub main : Arguments → Version → ℕ → Result Version
unfolding is_nightly is_sync asserted synced
main a current now =
    if is_some a.set_nightly_version && not (is_nightly a.type)
    then err (unexpected "SystemExit")
    else if is_some a.set_version && not (is_sync a.type)
    then err (unexpected "SystemExit")
    else if is_sync a.type
    then synced a.set_version
    else asserted current a.set_nightly_version
        (bump_version current a.type a.set_nightly_version now)
