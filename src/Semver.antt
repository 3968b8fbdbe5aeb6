-- ===== src/Semver.antt =====
-- semver/semver.go: semantic versions, and which of them a client or a server accepts.
pub mod Compat
mod Checks
use monetarium_explorer.Prelude.{
  ℕ, Bool, true, false, not, ◌&&◌, List, [], ◌∷◌, ltb, ◌==◌, if◌then◌else◌,
}

pub record Semver : Type 0 where
  pub major : ℕ
  pub minor : ℕ
  pub patch : ℕ

-- The switch, case by case.
unfoldable pub compatible : Semver → Semver → Bool
compatible required actual =
    if not (required.major == actual.major)
    then false
    else if ltb actual.minor required.minor
    then false
    else if required.minor == actual.minor && ltb actual.patch required.patch
    then false
    else true

unfoldable pub any_compatible : List Semver → Semver → Bool
any_compatible [] actual = false
any_compatible (v ∷ vs) actual =
    let rest = any_compatible vs actual in if compatible v actual then true else rest
