-- ===== src/AssocMap.antt =====
-- A Go map with numbers for keys: a list of entries with no key twice. The order of the list is one
-- that `range` may take; what depends on the order takes it as a parameter.
use monetarium_explorer.Prelude.{
  ℕ, ◌+◌, ◌<◌, ◌≤◌, ◌≡◌, refl, true, false, ◌||◌, not, ◌&&◌, List, [], ◌∷◌, Option, none, some,
  arith, length, ◌==◌, if◌then◌else◌, Bool-cases, inr, inl, ==_iff,
}
use monetarium_explorer.HashSet.{has, IsDistinct}

module _ {V : Type 0} where
  unfoldable pub lookup : ℕ → List (ℕ × V) → Option V
  lookup k [] = none
  lookup k ((j, v) ∷ m) = if k == j then some v else lookup k m

  -- `m[k] = v`
  unfoldable pub put : ℕ → V → List (ℕ × V) → List (ℕ × V)
  put k v [] = (k, v) ∷ []
  put k v ((j, w) ∷ m) = if k == j then (k, v) ∷ m else (j, w) ∷ put k v m

  -- `delete(m, k)`
  unfoldable pub erase : ℕ → List (ℕ × V) → List (ℕ × V)
  erase k [] = []
  erase k ((j, w) ∷ m) = if k == j then erase k m else (j, w) ∷ erase k m

  abbrev pub keys : List (ℕ × V) → List ℕ
  keys [] = []
  keys ((j, w) ∷ m) = j ∷ keys m

  -- A sum over the entries.
  abbrev pub total : (V → ℕ) → List (ℕ × V) → ℕ
  total size [] = 0
  total size ((j, w) ∷ m) = size w + total size m

  pub lookup-put :
      (i k : ℕ) (v : V) (m : List (ℕ × V))
      → lookup i (put k v m) ≡ (if i == k then some v else lookup i m)
  unfolding lookup put
  lookup-put i k v [] = refl
  lookup-put i k v ((j, w) ∷ m) = ground (arith, lookup-put i k v m)

  pub lookup-erase :
      (i k : ℕ) (m : List (ℕ × V)) → lookup i (erase k m) ≡ (if i == k then none else lookup i m)
  unfolding lookup erase
  lookup-erase i k [] = ground arith
  lookup-erase i k ((j, w) ∷ m) = ground (arith, lookup-erase i k m)

  pub has-keys-erase :
      (i k : ℕ) (m : List (ℕ × V)) → has i (keys (erase k m)) ≡ (not (i == k) && has i (keys m))
  unfolding has erase
  has-keys-erase i k [] = ground arith
  has-keys-erase i k ((j, w) ∷ m) = ground (arith, has-keys-erase i k m)

  pub has-keys-put :
      (i k : ℕ) (v : V) (m : List (ℕ × V)) → has i (keys (put k v m)) ≡ (i == k || has i (keys m))
  unfolding has put
  has-keys-put i k v [] = refl
  has-keys-put i k v ((j, w) ∷ m) = ground (arith, has-keys-put i k v m)

  pub erase-IsDistinct :
      (k : ℕ) (m : List (ℕ × V)) → IsDistinct (keys m) → IsDistinct (keys (erase k m))
  unfolding erase
  erase-IsDistinct k [] d = tt
  erase-IsDistinct k ((j, w) ∷ m) d = ground (arith, erase-IsDistinct k m d.1, has-keys-erase j k m)

  pub put-IsDistinct :
      (k : ℕ) (v : V) (m : List (ℕ × V)) → IsDistinct (keys m) → IsDistinct (keys (put k v m))
  unfolding put has
  put-IsDistinct k v [] d = (refl, tt)
  put-IsDistinct k v ((j, w) ∷ m) d = ground (arith, put-IsDistinct k v m d.1, has-keys-put j k v m)

  pub length-erase_at_most : (k : ℕ) (m : List (ℕ × V)) → length (erase k m) ≤ length m
  unfolding erase
  length-erase_at_most k [] = omega arith
  length-erase_at_most k ((j, w) ∷ m) = ground (arith, length-erase_at_most k m)

  pub length-erase :
      (k : ℕ) (m : List (ℕ × V)) → has k (keys m) ≡ true → length (erase k m) < length m
  unfolding erase has
  length-erase k [] e = ground arith
  length-erase k ((j, w) ∷ m) e = ground (arith, length-erase k m, length-erase_at_most k m)

  length-erase_absent :
      (k : ℕ) (m : List (ℕ × V)) → has k (keys m) ≡ false → length (erase k m) ≡ length m
  unfolding erase has
  length-erase_absent k [] e = refl
  length-erase_absent k ((j, w) ∷ m) e = ground (arith, length-erase_absent k m)

  pub length-put :
      (k : ℕ) (v : V) (m : List (ℕ × V))
      → length (put k v m) ≡ (if has k (keys m) then length m else length m + 1)
  unfolding put has
  length-put k v [] = refl
  length-put k v ((j, w) ∷ m) = ground (arith, length-put k v m)

  pub lookup-has : (k : ℕ) (m : List (ℕ × V)) → lookup k m ≡ none → has k (keys m) ≡ false
  unfolding lookup has
  lookup-has k [] e = refl
  lookup-has k ((j, w) ∷ m) e = ground (arith, lookup-has k m)

  pub lookup-keys : (k : ℕ) (v : V) (m : List (ℕ × V)) → lookup k m ≡ some v → has k (keys m) ≡ true
  unfolding lookup has
  lookup-keys k v [] e = ground arith
  lookup-keys k v ((j, w) ∷ m) e = ground (arith, lookup-keys k v m)

  pub total-put :
      (size : V → ℕ) (k : ℕ) (v : V) (m : List (ℕ × V))
      → lookup k m ≡ none
      → total size (put k v m) ≡ total size m + size v
  unfolding put lookup
  total-put size k v [] e = omega arith
  total-put size k v ((j, w) ∷ m) e = ground (arith, total-put size k v m)

  pub length-erase_once :
      (k : ℕ) (m : List (ℕ × V))
      → has k (keys m) ≡ true
      → IsDistinct (keys m)
      → length (erase k m) + 1 ≡ length m
  unfolding erase has
  length-erase_once k [] e d = absurd (ground arith)
  length-erase_once k ((j, w) ∷ m) e d = elim (Bool-cases (k == j)) [
    | inr f ↦ ground (arith, length-erase_once k m (ground arith) d.1)
    | inl f ↦
        let same : k ≡ j = (==_iff k j).0 f in
        let gone : has k (keys m) ≡ false = rw same d.0 in
        rw f (omega (arith, length-erase_absent k m gone))
  ]
