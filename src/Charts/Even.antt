-- ===== src/Charts/Even.antt =====
-- The series of blocks have one length once Lengthen has been through, and after a reorganisation.
use mathlib.Core.Path.{subst}
use monetarium_explorer.Prelude.{
  ℕ, ◌≤◌, ◌≡◌, ◌⊎◌, sym, false, List, arith, length, ltb, inl, inr, fine, length-take,
}
use monetarium_explorer.Prelude.Int.{pos}
use monetarium_explorer.Charts.Lengths.{
  IsBetween, IsBetween-widen, IsChecked, validate_lengths-IsChecked, shortest_of,
  validate_lengths_shortest,
}
use monetarium_explorer.Charts.{snip, ZoomSet, ChartData, snip_set, set_lengths, validate_lengths}
use monetarium_explorer.Charts.Ends.{lengthen_ends}
use monetarium_explorer.Charts.Days.{lengthen, cut_blocks}

length-snip {ℓ} :
    {A : Type ℓ} (n : ℕ) (xs : List A)
    → n ≤ length xs
    → (n ≤ length (snip n xs)) × (length (snip n xs) ≤ n)
unfolding snip
length-snip n xs e =
    let long : ltb (length xs) n ≡ false = ground arith in
    let cut = length-take n xs e in rw long (omega arith, omega arith)

module _ {Work : Type 0} where
  -- Every series of the set has as many points.
  unfoldable pub IsEven : ℕ → ZoomSet Work → Type 0
  IsEven n set = IsBetween n n (set_lengths set)

  -- What snipping does to the length of each series, it does to the set.
  pub snip_set_by :
      (low high k n : ℕ) (set : ZoomSet Work)
      → ((A : Type 0) (xs : List A)
          → (low ≤ length xs) × (length xs ≤ high)
          → (n ≤ length (snip k xs)) × (length (snip k xs) ≤ n))
      → IsBetween low high (set_lengths set)
      → IsEven n (snip_set (pos k) set)
  unfolding snip_set IsEven
  snip_set_by low high k n set step b =
      let b1 = b.1 in
      let b2 = b1.1 in
      let b3 = b2.1 in
      let b4 = b3.1 in
      let b5 = b4.1 in
      let b6 = b5.1 in
      let b7 = b6.1 in
      let b8 = b7.1 in
      let b9 = b8.1 in
      let b10 = b9.1 in
      (
        step ℕ set.height b.0,
        (
          step ℕ set.time b1.0,
          (
            step ℕ set.pool_size b2.0,
            (
              step ℕ set.pool_value b3.0,
              (
                step ℕ set.block_size b4.0,
                (
                  step ℕ set.tx_count b5.0,
                  (
                    step ℕ set.new_atoms b6.0,
                    (
                      step Work set.chainwork b7.0,
                      (
                        step ℕ set.fees b8.0,
                        (step ℕ set.total_mixed b9.0, (step ℕ set.anonymity_set b10.0, tt)),
                      ),
                    ),
                  ),
                ),
              ),
            ),
          ),
        ),
      )

  snip_set-IsEven :
      (n high : ℕ) (set : ZoomSet Work)
      → IsBetween n high (set_lengths set)
      → IsEven n (snip_set (pos n) set)
  snip_set-IsEven n high set b = snip_set_by n high n n set (λ A xs l. length-snip n xs l.0) b

  cut_blocks-IsEven :
      (blocks : ZoomSet Work) → IsEven (validate_lengths (set_lengths blocks)).0 (cut_blocks blocks)
  unfolding IsChecked IsEven
  cut_blocks-IsEven blocks =
      let low = (validate_lengths (set_lengths blocks)).0 in
      let (high, b, which) = validate_lengths-IsChecked (set_lengths blocks) in
      elim which [
        | inl mismatch ↦ rw mismatch (snip_set-IsEven low high blocks b)
        | inr (match, same) ↦
            rw match
              (IsBetween-widen low high low low (set_lengths blocks) (omega arith) (omega arith) b)
      ]

  checked-IsEven :
      (set : ZoomSet Work) → (validate_lengths (set_lengths set)).1 ≡ false → (m : ℕ) × IsEven m set
  unfolding IsChecked IsEven
  checked-IsEven set good =
      let low = (validate_lengths (set_lengths set)).0 in
      let (high, b, which) = validate_lengths-IsChecked (set_lengths set) in
      elim which [
        | inl mismatch ↦ absurd (ground (arith, mismatch, good))
        | inr (match, same) ↦
            (low, IsBetween-widen low high low low (set_lengths set) (omega arith) (omega arith) b)
      ]

module _ {Float Work : Type 0} where
  -- When Lengthen succeeds, every series of the blocks has as many points, that of the shortest series
  -- of the blocks before, and there are none, or the series of the days, too, have one length.
  pub lengthen-IsEven :
      (charts t : ChartData Float Work)
      → lengthen charts ≡ fine t
      → IsEven (shortest_of (set_lengths charts.blocks)) t.blocks
        × ((shortest_of (set_lengths charts.blocks) ≡ 0) ⊎ ((m : ℕ) × IsEven m t.days))
  unfolding IsEven
  lengthen-IsEven charts t e =
      let n = (validate_lengths (set_lengths charts.blocks)).0 in
      let least = validate_lengths_shortest (set_lengths charts.blocks) in
      let even = cut_blocks-IsEven charts.blocks in
      let (blocks_even, days_even) : IsEven n t.blocks × ((n ≡ 0) ⊎ ((m : ℕ) × IsEven m t.days)) =
        elim (lengthen_ends charts t e) [
          | inl (nothing, same) ↦ (subst (λ r. IsEven n r.blocks) (sym same) even, inl nothing)
          | inr (first, end, days, appended, begun, (good, blocks, gathered)) ↦
              let (m, flat) = checked-IsEven days good in
              (subst (IsEven n) (sym blocks) even, inr (m, subst (IsEven m) (sym gathered) flat))
        ] in
      (
        subst (λ k. IsEven k t.blocks) least blocks_even,
        subst (λ k. (k ≡ 0) ⊎ ((m : ℕ) × IsEven m t.days)) least days_even,
      )
