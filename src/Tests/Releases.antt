-- ===== src/Tests/Releases.antt =====
-- Instances of the theorems on versions, and some of the assertions of script/version_bump.py.
use mc_bd.Prelude.{ℕ, ◌≡◌, refl, none, some, true}
use mc_bd.Errors.{ok}
use mc_bd.Release.{
  beta, Numbers, Version, beta_bump, dev_bump, minor_bump, bump_version, newer, main,
}
use mc_bd.Release.Newer.{main-newer}

abbrev numbers : ℕ → ℕ → ℕ → Numbers
numbers a b c = record { major = a; minor = b; patch = c }

abbrev dev_release : Version
dev_release = record { release = numbers 0 56 0; pre = none; dev = some 0 }

main-newer_example :
    (new : Version) × (main
        (record { type = beta_bump; set_nightly_version = none; set_version = none })
        dev_release
        0
      ≡ ok new)
    × (newer new dev_release ≡ true)
main-newer_example = main-newer dev_release beta_bump 0 tt

beta_of_beta :
    bump_version
      (record { release = numbers 0 56 0; pre = some (beta 3); dev = none })
      beta_bump
      none
      0
    ≡ ok (record { release = numbers 0 56 0; pre = some (beta 4); dev = none })
unfolding bump_version
beta_of_beta = refl

dev_of_beta :
    bump_version
      (record { release = numbers 0 56 0; pre = some (beta 3); dev = none })
      dev_bump
      none
      0
    ≡ ok (record { release = numbers 0 57 0; pre = none; dev = some 0 })
unfolding bump_version
dev_of_beta = refl

minor_of_patch_dev :
    bump_version (record { release = numbers 0 56 2; pre = none; dev = some 0 }) minor_bump none 0
    ≡ ok (record { release = numbers 0 57 0; pre = none; dev = none })
unfolding bump_version
minor_of_patch_dev = refl
