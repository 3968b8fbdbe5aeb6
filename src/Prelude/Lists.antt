-- ===== src/Prelude/Lists.antt =====
-- Lists measured and indexed by native numbers, under the library's names.
use Prim.Native.Nat.{ℕ, zero, suc, ◌+◌, ◌-◌, ◌≤◌, ◌<◌}
use mathlib.Core.Path.{◌≡◌, refl, ap, ◌∙◌}
use mathlib.Core.List.{List, [], ◌∷◌, ◌++◌}
use mathlib.Core.Option.{Option, none, some}
use mathlib.Core.Bool.{Bool}
use native.Mathlib.Omega.{arith}
use package.monetarium_explorer.Prelude.Tests.{if◌then◌else◌, ◌==◌}

module _ {ℓ} {A : Type ℓ} where
  abbrev pub length : List A → ℕ
  length [] = 0
  length (x ∷ xs) = suc (length xs)

  abbrev pub get_elem? : List A → ℕ → Option A
  get_elem? [] i = none
  get_elem? (x ∷ xs) zero = some x
  get_elem? (x ∷ xs) (suc i) = get_elem? xs i

  abbrev pub take : ℕ → List A → List A
  take zero xs = []
  take (suc n) [] = []
  take (suc n) (x ∷ xs) = x ∷ take n xs

  abbrev pub drop : ℕ → List A → List A
  drop zero xs = xs
  drop (suc n) [] = []
  drop (suc n) (x ∷ xs) = drop n xs

  -- `xs[i] = x`, out of range left as it is.
  abbrev pub set_at : ℕ → A → List A → List A
  set_at i x [] = []
  set_at zero x (y ∷ xs) = x ∷ xs
  set_at (suc i) x (y ∷ xs) = y ∷ set_at i x xs

  -- The entries that pass a Boolean test.
  abbrev pub keep : (A → Bool) → List A → List A
  keep p [] = []
  keep p (x ∷ xs) = if p x then x ∷ keep p xs else keep p xs

  -- `xs[:len(xs)-1]`
  abbrev pub but_last : List A → List A
  but_last [] = []
  but_last (x ∷ []) = []
  but_last (x ∷ y ∷ xs) = x ∷ but_last (y ∷ xs)

  pub length-append : (xs ys : List A) → length (xs ++ ys) ≡ length xs + length ys
  length-append [] ys = omega arith
  length-append (x ∷ xs) ys = omega (arith, length-append xs ys)

  pub length-take : (n : ℕ) (xs : List A) → n ≤ length xs → length (take n xs) ≡ n
  length-take zero xs h = refl
  length-take (suc n) [] h = absurd (omega arith)
  length-take (suc n) (x ∷ xs) h = ap suc (length-take n xs (omega arith))

  pub length-drop : (n : ℕ) (xs : List A) → length (drop n xs) ≡ length xs - n
  length-drop zero xs = omega arith
  length-drop (suc n) [] = omega arith
  length-drop (suc n) (x ∷ xs) = omega (arith, length-drop n xs)

  pub get_elem?-append :
      (xs ys : List A) (i : ℕ) → i < length xs → get_elem? (xs ++ ys) i ≡ get_elem? xs i
  get_elem?-append [] ys i h = absurd (omega arith)
  get_elem?-append (x ∷ xs) ys zero h = refl
  get_elem?-append (x ∷ xs) ys (suc i) h = get_elem?-append xs ys i (omega arith)

  pub get_elem?-append_last : (xs : List A) (x : A) → get_elem? (xs ++ x ∷ []) (length xs) ≡ some x
  get_elem?-append_last [] x = refl
  get_elem?-append_last (y ∷ xs) x = get_elem?-append_last xs x

  pub get_elem?-some : (xs : List A) (i : ℕ) → i < length xs → (x : A) × (get_elem? xs i ≡ some x)
  get_elem?-some [] i h = absurd (omega arith)
  get_elem?-some (x ∷ xs) zero h = (x, refl)
  get_elem?-some (x ∷ xs) (suc i) h = get_elem?-some xs i (omega arith)

  pub get_elem?-none : (xs : List A) (i : ℕ) → length xs ≤ i → get_elem? xs i ≡ none
  get_elem?-none [] i h = refl
  get_elem?-none (x ∷ xs) zero h = absurd (omega arith)
  get_elem?-none (x ∷ xs) (suc i) h = get_elem?-none xs i (omega arith)

  pub length-but_last : (xs : List A) → length (but_last xs) ≡ length xs - 1
  length-but_last [] = omega arith
  length-but_last (x ∷ []) = omega arith
  length-but_last (x ∷ y ∷ xs) = omega (arith, length-but_last (y ∷ xs))

  pub get_elem?-but_last :
      (xs : List A) (i : ℕ) → suc i < length xs → get_elem? (but_last xs) i ≡ get_elem? xs i
  get_elem?-but_last [] i h = absurd (omega arith)
  get_elem?-but_last (x ∷ []) i h = absurd (omega arith)
  get_elem?-but_last (x ∷ y ∷ xs) zero h = refl
  get_elem?-but_last (x ∷ y ∷ xs) (suc i) h = get_elem?-but_last (y ∷ xs) i (omega arith)

  pub take-all : (n : ℕ) (xs : List A) → length xs ≤ n → take n xs ≡ xs
  take-all zero [] h = refl
  take-all zero (x ∷ xs) h = absurd (omega arith)
  take-all (suc n) [] h = refl
  take-all (suc n) (x ∷ xs) h = ap (λ r. x ∷ r) (take-all n xs (omega arith))

  pub drop-all : (n : ℕ) (xs : List A) → length xs ≤ n → drop n xs ≡ []
  drop-all zero [] h = refl
  drop-all zero (x ∷ xs) h = absurd (omega arith)
  drop-all (suc n) [] h = refl
  drop-all (suc n) (x ∷ xs) h = drop-all n xs (omega arith)

  pub drop-take : (m n : ℕ) (xs : List A) → drop m (take (m + n) xs) ≡ take n (drop m xs)
  drop-take zero n xs = ap (λ k. take k xs) (omega arith)
  drop-take (suc m) n [] =
      rw (take-all (suc m + n) [] (omega arith), take-all n [] (omega arith)) refl
  drop-take (suc m) n (x ∷ xs) =
      let up : suc m + n ≡ suc (m + n) = omega arith in
      ap (λ k. drop (suc m) (take k (x ∷ xs))) up ∙ drop-take m n xs

  pub length-set_at : (i : ℕ) (x : A) (xs : List A) → length (set_at i x xs) ≡ length xs
  length-set_at i x [] = refl
  length-set_at zero x (y ∷ xs) = refl
  length-set_at (suc i) x (y ∷ xs) = ap suc (length-set_at i x xs)

  pub get_elem?-set_at :
      (j i : ℕ) (x : A) (xs : List A)
      → i < length xs
      → get_elem? (set_at i x xs) j ≡ (if j == i then some x else get_elem? xs j)
  get_elem?-set_at j i x [] h = absurd (omega arith)
  get_elem?-set_at zero zero x (y ∷ xs) h = ground arith
  get_elem?-set_at (suc j) zero x (y ∷ xs) h = ground arith
  get_elem?-set_at zero (suc i) x (y ∷ xs) h = ground arith
  get_elem?-set_at (suc j) (suc i) x (y ∷ xs) h =
      ground (arith, get_elem?-set_at j i x xs (omega arith))

  pub get_elem?-lt : (xs : List A) (i : ℕ) (x : A) → get_elem? xs i ≡ some x → i < length xs
  get_elem?-lt [] i x e = ground arith
  get_elem?-lt (y ∷ xs) zero x e = omega arith
  get_elem?-lt (y ∷ xs) (suc i) x e = omega (arith, get_elem?-lt xs i x e)
