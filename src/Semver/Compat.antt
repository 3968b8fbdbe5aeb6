-- ===== src/Semver/Compat.antt =====
-- Compatibility as an order within a major version.
use monetarium_explorer.Prelude.{
  ◌<◌, ◌≤◌, ◌≡◌, refl, ◌↔◌, ◌⊎◌, inl, inr, true, List, [], ◌∷◌, arith, Bool-cases,
}
use monetarium_explorer.Semver.{Semver, compatible, any_compatible}

-- Compatible accepts a version exactly when it has the required major version, and a later minor
-- version, or the same one with a patch no earlier.
pub compatible_iff :
    (required actual : Semver)
    → (compatible required actual ≡ true) ↔ (
        (required.major ≡ actual.major)
        × ((required.minor < actual.minor)
            ⊎ ((required.minor ≡ actual.minor) × (required.patch ≤ actual.patch))))
unfolding compatible
compatible_iff required actual = ground arith

-- A version that is compatible with one that is compatible with the required one is so itself.
pub compatible_trans :
    (a b c : Semver) → compatible a b ≡ true → compatible b c ≡ true → compatible a c ≡ true
unfolding compatible
compatible_trans a b c e f = ground arith

-- AnyCompatible accepts every later compatible version of a version that it accepts.
pub any_compatible_later :
    (vs : List Semver) (actual later : Semver)
    → any_compatible vs actual ≡ true
    → compatible actual later ≡ true
    → any_compatible vs later ≡ true
unfolding any_compatible
any_compatible_later [] actual later e f = e
any_compatible_later (v ∷ vs) actual later e f = elim (Bool-cases (compatible v later)) [
  | inl g ↦ rw g refl
  | inr g ↦ elim (Bool-cases (compatible v actual)) [
    | inl h ↦ absurd (ground (arith, compatible_trans v actual later h f))
    | inr h ↦ rw g (any_compatible_later vs actual later (rw h at e) f)
  ]
]
