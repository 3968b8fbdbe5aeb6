-- ===== src/Prelude/Method.antt =====
-- How a method that mutates its receiver ends: it returns with no error, it returns an error, or it
-- panics. A Go method may change its receiver and then return an error, so the state that it leaves
-- stands beside the error too.

use mathlib.Core.Path.{◌≡◌, ap}

pub data Outcome {ℓ κ} (E : Type κ) (S : Type ℓ) : Type (ℓ ⊔ κ) where
  fine : S → Outcome E S
  failed : E → S → Outcome E S
  panic : Outcome E S

infixl 5 ◌>>=◌
-- `if err := m(); err != nil { return err }`, followed by `f`.
abbrev pub ◌>>=◌ {ℓ κ} : {E : Type κ} {S : Type ℓ} → Outcome E S → (S → Outcome E S) → Outcome E S
fine s >>= f = f s
failed e s >>= f = failed e s
panic >>= f = panic

-- The state that a method leaves, `s` standing for what a panic leaves.
abbrev state_or {ℓ κ} : {E : Type κ} {S : Type ℓ} → S → Outcome E S → S
state_or s (fine t) = t
state_or s (failed e t) = t
state_or s panic = s

pub fine-injective {ℓ κ} :
    {E : Type κ} {S : Type ℓ} {s t : S} → ◌≡◌ {A = Outcome E S} (fine s) (fine t) → s ≡ t
fine-injective {s = s} e = ap (state_or s) e

pub failed-injective {ℓ κ} :
    {E : Type κ} {S : Type ℓ} {d e : E} {s t : S}
    → ◌≡◌ {A = Outcome E S} (failed d s) (failed e t)
    → s ≡ t
failed-injective {s = s} e = ap (state_or s) e
