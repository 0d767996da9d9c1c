-- ===== src/Semver.antt =====
-- What the program uses of github.com/Masterminds/semver: versions are a parameter.
use openclaw_operator.Prelude.{String, ◌≡◌, Bool, true, false, Option}

pub record Semver : Type 1 where
  pub Version : Type 0
  -- `semver.NewVersion`; none is an error.
  pub parse : String → Option Version
  -- `v.Prerelease() != ""`
  pub is_prerelease : Version → Bool
  -- `v.GreaterThan(u)`
  pub greater : Version → Version → Bool
  pub greater_irrefl : (v : Version) → greater v v ≡ false
  pub greater_trans :
      (u v w : Version) → greater u v ≡ true → greater v w ≡ true → greater u w ≡ true
