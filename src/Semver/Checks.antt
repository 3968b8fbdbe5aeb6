-- ===== src/Semver/Checks.antt =====
-- A few versions.
use monetarium_explorer.Prelude.{ℕ, ◌<◌, ◌≤◌, ◌≡◌, ◌↔◌, ◌⊎◌, true}
use monetarium_explorer.Semver.{Semver, compatible}
use monetarium_explorer.Semver.Compat.{compatible_iff}

abbrev version : ℕ → ℕ → ℕ → Semver
version a b c = record { major = a; minor = b; patch = c }

compatible_iff_example :
    (compatible (version 3 1 0) (version 3 2 0) ≡ true)
    ↔ ((◌≡◌ {A = ℕ} 3 3) × ((1 < 2) ⊎ ((◌≡◌ {A = ℕ} 1 2) × (0 ≤ 0))))
compatible_iff_example = compatible_iff (version 3 1 0) (version 3 2 0)
