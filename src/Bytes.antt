-- ===== src/Bytes.antt =====
-- encoding/binary's big-endian numbers, and slices of bytes. A byte is a number below 256.
use native.Mathlib.Nat.{pow-suc}
use monetarium_explorer.Prelude.{
  ℕ, zero, suc, ◌+◌, ◌*◌, ◌/◌, ◌%◌, ◌^◌, ◌<◌, ◌≡◌, refl, ap, List, [], ◌∷◌, ◌++◌, arith, length,
  take, drop, length-append,
}

-- The `width` bytes of `v`, the most significant first: `PutUint64` at width 8, `PutUint32` at 4. At
-- width 32 it is the array of the hash `v`.
unfoldable pub be_bytes : ℕ → ℕ → List ℕ
be_bytes zero v = []
be_bytes (suc width) v = be_bytes width (v / 256) ++ (v % 256) ∷ []

-- `Uint64` and the like: the number that the bytes spell, after `high`.
unfoldable pub be_value : ℕ → List ℕ → ℕ
be_value high [] = high
be_value high (b ∷ bs) = be_value (high * 256 + b) bs

be_value-append :
    (high : ℕ) (bs : List ℕ) (b : ℕ) → be_value high (bs ++ b ∷ []) ≡ be_value high bs * 256 + b
unfolding be_value
be_value-append high [] b = refl
be_value-append high (x ∷ bs) b = be_value-append (high * 256 + x) bs b

pub length-be_bytes : (width v : ℕ) → length (be_bytes width v) ≡ width
unfolding be_bytes
length-be_bytes zero v = refl
length-be_bytes (suc width) v = omega (
  arith,
  length-append (be_bytes width (v / 256)) ((v % 256) ∷ []),
  length-be_bytes width (v / 256),
)

-- Reading the bytes of a number that fits gives the number back.
pub be_value-be_bytes : (width v : ℕ) → v < 256 ^ width → be_value 0 (be_bytes width v) ≡ v
unfolding be_bytes be_value
be_value-be_bytes zero v fits = omega arith
be_value-be_bytes (suc width) v fits =
    let room : v / 256 < 256 ^ width = omega (arith, pow-suc 256 width) in
    omega (
      arith,
      be_value-append 0 (be_bytes width (v / 256)) (v % 256),
      be_value-be_bytes width (v / 256) room,
    )

module _ {ℓ} {A : Type ℓ} where
  pub take-append : (xs ys : List A) (n : ℕ) → length xs ≡ n → take n (xs ++ ys) ≡ xs
  take-append [] ys zero e = refl
  take-append [] ys (suc n) e = absurd (omega arith)
  take-append (x ∷ xs) ys zero e = absurd (omega arith)
  take-append (x ∷ xs) ys (suc n) e = ap (◌∷◌ x) (take-append xs ys n (omega arith))

  pub drop-append : (xs ys : List A) (n : ℕ) → length xs ≡ n → drop n (xs ++ ys) ≡ ys
  drop-append [] ys zero e = refl
  drop-append [] ys (suc n) e = absurd (omega arith)
  drop-append (x ∷ xs) ys zero e = absurd (omega arith)
  drop-append (x ∷ xs) ys (suc n) e = drop-append xs ys n (omega arith)
