-- ===== src/Charts/Lengths.antt =====
-- ValidateLengths: what it returns of the lengths of a set's series.
use mathlib.Core.Path.{subst}
use monetarium_explorer.Prelude.{
  ℕ, ◌≤◌, ◌≡◌, ◌⊎◌, refl, sym, ◌∙◌, if◌then◌else◌, Bool, true, false, List, [], ◌∷◌, arith, ltb,
  ◌==◌, Bool-cases, inl, inr, ==_iff,
}
use monetarium_explorer.Charts.{lengths_loop, validate_lengths}

-- Every length lies between two bounds.
abbrev pub IsBetween : ℕ → ℕ → List ℕ → Type 0
IsBetween low high [] = Unit
IsBetween low high (n ∷ ns) = ((low ≤ n) × (n ≤ high)) × IsBetween low high ns

pub IsBetween-widen :
    (low high l h : ℕ) (ns : List ℕ) → l ≤ low → high ≤ h → IsBetween low high ns → IsBetween l h ns
IsBetween-widen low high l h [] e f b = tt
IsBetween-widen low high l h (n ∷ ns) e f ((b, c), d) =
    ((omega arith, omega arith), IsBetween-widen low high l h ns e f d)

-- Bounds of the lengths, no narrower than the first ones.
Bounds : ℕ → ℕ → List ℕ → ℕ × ℕ → Type 0
Bounds s l ns (low, high) = (low ≤ s) × (l ≤ high) × IsBetween low high ns

lengths_loop-Bounds :
    (first s l : ℕ) (ns : List ℕ)
    → s ≤ first
    → first ≤ l
    → Bounds s l ns (lengths_loop first s l ns)
unfolding lengths_loop Bounds
lengths_loop-Bounds first s l [] e f = (omega arith, omega arith, tt)
lengths_loop-Bounds first s l (n ∷ ns) e f = elim (Bool-cases (n == first)) [
  | inl g ↦
      let (a, b, c) = lengths_loop-Bounds first s l ns e f in
      let same : n ≡ first = (==_iff n first).0 g in
      let next : lengths_loop first s l (n ∷ ns) ≡ lengths_loop first s l ns = rw g refl in
      subst (Bounds s l (n ∷ ns)) (sym next) (a, b, ((omega arith, omega arith), c))
  | inr g ↦ elim (Bool-cases (ltb n s)) [
    | inl h ↦
        let (a, b, c) = lengths_loop-Bounds first n l ns (ground arith) f in
        let next : lengths_loop first s l (n ∷ ns) ≡ lengths_loop first n l ns = rw (g, h) refl in
        subst (Bounds s l (n ∷ ns)) (sym next) (ground arith, b, ((a, ground arith), c))
    | inr h ↦ elim (Bool-cases (ltb l n)) [
      | inl k ↦
          let (a, b, c) = lengths_loop-Bounds first s n ns e (ground arith) in
          let next : lengths_loop first s l (n ∷ ns) ≡ lengths_loop first s n ns =
            rw (g, h, k) refl in
          subst (Bounds s l (n ∷ ns)) (sym next) (a, ground arith, ((ground arith, b), c))
      | inr k ↦
          let (a, b, c) = lengths_loop-Bounds first s l ns e f in
          let next : lengths_loop first s l (n ∷ ns) ≡ lengths_loop first s l ns =
            rw (g, h, k) refl in
          subst (Bounds s l (n ∷ ns)) (sym next) (a, b, ((ground arith, ground arith), c))
    ]
  ]
]

-- What ValidateLengths returns is no more than any length, and it is every length when it finds no
-- mismatch.
unfoldable pub IsChecked : List ℕ → ℕ × Bool → Type 0
IsChecked ns (low, mismatch) =
    (high : ℕ) × IsBetween low high ns × ((mismatch ≡ true) ⊎ ((mismatch ≡ false) × (high ≡ low)))

pub validate_lengths-IsChecked : (ns : List ℕ) → IsChecked ns (validate_lengths ns)
unfolding validate_lengths Bounds IsChecked
validate_lengths-IsChecked [] = (0, tt, inr (refl, refl))
validate_lengths-IsChecked (n ∷ ns) =
    let (low, high) = lengths_loop n n n ns in
    let (a, b, c) = lengths_loop-Bounds n n n ns (omega arith) (omega arith) in
    elim (Bool-cases (low == high)) [
      | inr e ↦
          let result : validate_lengths (n ∷ ns) ≡ (low, true) = rw e refl in
          subst (IsChecked (n ∷ ns)) (sym result) (high, ((a, b), c), inl refl)
      | inl e ↦
          let same : low ≡ high = (==_iff low high).0 e in
          let result : validate_lengths (n ∷ ns) ≡ (n, false) = rw e refl in
          let all = IsBetween-widen low high n n ns (omega arith) (omega arith) c in
          subst (IsChecked (n ∷ ns)) (sym result)
            (n, ((omega arith, omega arith), all), inr (refl, refl))
    ]

-- The least of some numbers, 0 for none.
abbrev min_with : ℕ → List ℕ → ℕ
min_with low [] = low
min_with low (n ∷ ns) = min_with (if ltb n low then n else low) ns

abbrev pub shortest_of : List ℕ → ℕ
shortest_of [] = 0
shortest_of (n ∷ ns) = min_with n ns

lengths_loop_shortest :
    (first s l : ℕ) (ns : List ℕ)
    → s ≤ first
    → first ≤ l
    → (lengths_loop first s l ns).0 ≡ min_with s ns
unfolding lengths_loop
lengths_loop_shortest first s l [] e f = refl
lengths_loop_shortest first s l (n ∷ ns) e f = elim (Bool-cases (n == first)) [
  | inl g ↦
      let kept : ltb n s ≡ false = ground arith in
      rw (g, kept) (lengths_loop_shortest first s l ns e f)
  | inr g ↦ elim (Bool-cases (ltb n s)) [
    | inl h ↦ rw (g, h) (lengths_loop_shortest first n l ns (ground arith) f)
    | inr h ↦ elim (Bool-cases (ltb l n)) [
      | inl k ↦ rw (g, h, k) (lengths_loop_shortest first s n ns e (ground arith))
      | inr k ↦ rw (g, h, k) (lengths_loop_shortest first s l ns e f)
    ]
  ]
]

-- ValidateLengths returns the least of the lengths.
pub validate_lengths_shortest : (ns : List ℕ) → (validate_lengths ns).0 ≡ shortest_of ns
unfolding validate_lengths Bounds
validate_lengths_shortest [] = refl
validate_lengths_shortest (n ∷ ns) =
    let (low, high) = lengths_loop n n n ns in
    let (a, b, c) = lengths_loop-Bounds n n n ns (omega arith) (omega arith) in
    let least = lengths_loop_shortest n n n ns (omega arith) (omega arith) in
    elim (Bool-cases (low == high)) [
      | inr e ↦ rw e least
      | inl e ↦
          let same : low ≡ high = (==_iff low high).0 e in
          let whole : n ≡ low = omega arith in rw e (whole ∙ least)
    ]
