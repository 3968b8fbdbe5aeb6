-- ===== src/AddressRows/Merge/Plain.antt =====
-- MergeRows on plain rows, and MergeRowsCompact on their compact form.
use monetarium_explorer.Prelude.{
  ℕ, ◌≡◌, refl, true, Bool, List, [], ◌∷◌, Option, some, none, ◌==◌, ◌&&◌, if◌then◌else◌,
  Bool-cases, inl, inr, arith, false,
}
use monetarium_explorer.Prelude.Int.{ℤ}
use monetarium_explorer.AddressRows.{AddressRow, AddressRowMerged}
use monetarium_explorer.AddressRows.Merge.{
  compact_row, compact_rows, merge_into, merge_loop, merge_rows_compact, merge_rows_loop,
  merge_rows,
}

-- No row of the list is a merged one.
unfoldable pub all_single : List AddressRow → Bool
all_single [] = true
all_single (r ∷ rows) = r.merged_count == 0 && all_single rows

module _ (set_string : List ℕ → Option ℤ) where
  merge_rows_loop-single :
      (ms : List AddressRowMerged) (rows : List AddressRow)
      → all_single rows ≡ true
      → merge_rows_loop set_string ms rows ≡ some (merge_loop set_string ms (compact_rows rows))
  unfolding merge_rows_loop all_single merge_loop compact_rows
  merge_rows_loop-single ms [] single = refl
  merge_rows_loop-single ms (r ∷ rows) single =
      let this : (r.merged_count == 0) ≡ true = ground arith in
      rw this
        (merge_rows_loop-single (merge_into set_string (compact_row r) ms) rows (ground arith))

  merge_rows_loop-merged :
      (ms : List AddressRowMerged) (rows : List AddressRow)
      → all_single rows ≡ false
      → merge_rows_loop set_string ms rows ≡ none
  unfolding merge_rows_loop all_single
  merge_rows_loop-merged ms [] single = ground arith
  merge_rows_loop-merged ms (r ∷ rows) single = elim (Bool-cases (r.merged_count == 0)) [
    | inl e ↦
        rw e
          (merge_rows_loop-merged (merge_into set_string (compact_row r) ms) rows (rw e at single))
    | inr e ↦ rw e refl
  ]

  -- MergeRows on single rows gives what MergeRowsCompact gives for their compact form; with a merged
  -- row anywhere in the input it gives an error.
  pub merge_rows-compact_rows :
      (rows : List AddressRow)
      → merge_rows set_string rows ≡ (
          if all_single rows
          then some (merge_rows_compact set_string (compact_rows rows))
          else none)
  unfolding merge_rows merge_rows_compact
  merge_rows-compact_rows rows = elim (Bool-cases (all_single rows)) [
    | inl e ↦ rw e (merge_rows_loop-single [] rows e)
    | inr e ↦ rw e (merge_rows_loop-merged [] rows e)
  ]
