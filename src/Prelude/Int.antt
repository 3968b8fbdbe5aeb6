-- ===== src/Prelude/Int.antt =====
-- Signed integers over the native numbers, for arguments that a caller may pass negative.
use Prim.Native.Nat.{ℕ, zero, suc, ◌+◌, ◌-◌, ◌^◌}
use mathlib.Core.Path.{◌≡◌, refl}
use mathlib.Core.Logic.{◌⊎◌, inl, inr}
use mathlib.Core.Bool.{Bool, true, false}
use package.monetarium_explorer.Prelude.Tests.{ltb, leb, ◌==◌, if◌then◌else◌}

-- `negsuc n` is -(n + 1).
pub data ℤ : Type 0 where
  pos : ℕ → ℤ
  negsuc : ℕ → ℤ

-- `z > n` for an `int64` z and a number n.
abbrev pub gtb : ℤ → ℕ → Bool
gtb (pos m) n = ltb n m
gtb (negsuc m) n = false

-- `z < n`
abbrev pub below : ℤ → ℕ → Bool
below (pos m) n = ltb m n
below (negsuc m) n = true

-- `z == n`
abbrev pub is : ℤ → ℕ → Bool
is (pos m) n = m == n
is (negsuc m) n = false

-- a - b, as an integer.
abbrev pub sub_ℕ : ℕ → ℕ → ℤ
sub_ℕ a b = if leb b a then pos (a - b) else negsuc (b - a - 1)

infixl 60 ◌+ℤ◌
abbrev pub ◌+ℤ◌ : ℤ → ℤ → ℤ
pos a +ℤ pos b = pos (a + b)
pos a +ℤ negsuc b = sub_ℕ a (b + 1)
negsuc a +ℤ pos b = sub_ℕ b (a + 1)
negsuc a +ℤ negsuc b = negsuc (a + b + 1)

abbrev pub neg : ℤ → ℤ
neg (pos zero) = pos 0
neg (pos (suc n)) = negsuc n
neg (negsuc n) = pos (n + 1)

-- `y < z`
abbrev pub ltz : ℤ → ℤ → Bool
ltz (pos m) (pos n) = ltb m n
ltz (pos m) (negsuc n) = false
ltz (negsuc m) (pos n) = true
ltz (negsuc m) (negsuc n) = ltb n m

-- `y == z`
abbrev pub eqz : ℤ → ℤ → Bool
eqz (pos m) (pos n) = m == n
eqz (negsuc m) (negsuc n) = m == n
eqz (pos m) (negsuc n) = false
eqz (negsuc m) (pos n) = false

-- `z + 1` on an `int64`, which wraps around.
abbrev pub int64_next : ℤ → ℤ
int64_next (pos n) = if n + 1 == 2 ^ 63 then negsuc (2 ^ 63 - 1) else pos (n + 1)
int64_next (negsuc zero) = pos 0
int64_next (negsuc (suc n)) = negsuc n

pub ℤ-cases : (z : ℤ) → ((n : ℕ) × (z ≡ pos n)) ⊎ ((n : ℕ) × (z ≡ negsuc n))
ℤ-cases (pos n) = inl (n, refl)
ℤ-cases (negsuc n) = inr (n, refl)

-- `int(u)` of a `uint64`.
abbrev pub int_of : ℕ → ℤ
int_of u = if ltb u (2 ^ 63) then pos u else sub_ℕ u (2 ^ 64)
