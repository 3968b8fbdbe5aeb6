-- ===== src/AddressRows/Merge/PlainRange.antt =====
-- CountMergedRows and MergeRowsRange, the loops of db/dbtypes/types.go on plain rows, beside
-- CountMergedRowsCompact and MergeRowsCompactRange on the compact form of the rows.
use monetarium_explorer.Prelude.{
  ℕ, ◌+◌, ◌<◌, ◌≡◌, refl, ap, suc, Bool, false, not, ◌||◌, List, [], ◌∷◌, Option, some, none,
  length, ltb, ◌==◌, if◌then◌else◌, Bool-cases, inl, inr, Option-cases, arith, keep,
}
use monetarium_explorer.Prelude.Int.{ℤ, pos, negsuc}
use monetarium_explorer.HashSet.{has, insert}
use monetarium_explorer.AddressRows.{AddressRow, AddressRowMerged, AddrTxnViewType}
use monetarium_explorer.AddressRows.Merge.{
  compact_row, compact_rows, merge_into, has_row, wrong_direction, count_merged_loop,
  count_merged_rows_compact, range_loop, merge_rows_compact_range,
}
use monetarium_explorer.AddressRows.Merge.Plain.{all_single}

-- The loop of CountMergedRows refuses (`none`) a merged row before it looks at the direction.
pub count_rows_loop : (Bool → Bool) → List ℕ → ℕ → List AddressRow → Option ℕ
count_rows_loop wrong met n [] = some n
count_rows_loop wrong met n (r ∷ rows) =
    let pass = count_rows_loop wrong met n rows in
    let count = count_rows_loop wrong (insert r.tx_hash met) (n + 1) rows in
    if not (r.merged_count == 0)
    then none
    else if wrong r.is_funding
    then pass
    else if not (has r.tx_hash met)
    then count
    else pass

pub count_merged_rows : List AddressRow → AddrTxnViewType → Option ℕ
count_merged_rows rows view = elim (wrong_direction view) [
  | none ↦ none
  | some wrong ↦ count_rows_loop wrong [] 0 rows
]

count_rows_loop_lem :
    (wrong : Bool → Bool) (met : List ℕ) (n : ℕ) (rows : List AddressRow)
    → count_rows_loop wrong met n rows
      ≡ (if all_single rows then some (count_merged_loop wrong met n (compact_rows rows)) else none)
unfolding count_rows_loop all_single count_merged_loop compact_rows compact_row
count_rows_loop_lem wrong met n [] = refl
count_rows_loop_lem wrong met n (r ∷ rows) = elim (Bool-cases (r.merged_count == 0)) [
  | inr e ↦ rw e refl
  | inl e ↦ elim (Bool-cases (wrong r.is_funding)) [
    | inl d ↦ rw (e, d) (count_rows_loop_lem wrong met n rows)
    | inr d ↦ elim (Bool-cases (has r.tx_hash met)) [
      | inl h ↦ rw (e, d, h) (count_rows_loop_lem wrong met n rows)
      | inr h ↦ rw (e, d, h) (count_rows_loop_lem wrong (insert r.tx_hash met) (n + 1) rows)
    ]
  ]
]

-- CountMergedRows counts what CountMergedRowsCompact counts on the compact form of single rows; with
-- a merged row anywhere in the input it gives an error.
pub count_merged_rows-compact_rows :
    (rows : List AddressRow) (view : AddrTxnViewType)
    → count_merged_rows rows view
      ≡ (if all_single rows then count_merged_rows_compact (compact_rows rows) view else none)
unfolding count_merged_rows count_merged_rows_compact
count_merged_rows-compact_rows rows view = elim (Option-cases (wrong_direction view)) [
  | inl e ↦ elim (Bool-cases (all_single rows)) [
    | inl s ↦ rw (e, s, count_merged_rows, count_merged_rows_compact) refl
    | inr s ↦ rw (e, s, count_merged_rows) refl
  ]
  | inr (wrong, e) ↦
      rw (e, count_merged_rows, count_merged_rows_compact) (count_rows_loop_lem wrong [] 0 rows)
]

-- The rows that the loop does not leave out for their direction.
abbrev pub rows_rightly : (Bool → Bool) → List AddressRow → List AddressRow
rows_rightly wrong rows = keep (λ r. not (wrong r.is_funding)) rows

length-compact_rows : (rows : List AddressRow) → length (compact_rows rows) ≡ length rows
unfolding compact_rows
length-compact_rows [] = refl
length-compact_rows (r ∷ rows) = ap suc (length-compact_rows rows)

module _ (set_string : List ℕ → Option ℤ) where
  -- The loop of MergeRowsRange, which looks at the direction before it refuses a merged row.
  pub rows_range_loop :
      (Bool → Bool)
      → ℕ
      → ℕ
      → ℕ
      → List ℕ
      → List AddressRowMerged
      → List AddressRow
      → Option (List AddressRowMerged)
  rows_range_loop wrong n offset skipped seen ms [] = some ms
  rows_range_loop wrong n offset skipped seen ms (r ∷ rows) =
      let pass = rows_range_loop wrong n offset skipped seen ms rows in
      let merged = merge_into set_string (compact_row r) ms in
      let take_in = rows_range_loop wrong n offset skipped seen merged rows in
      let skip = rows_range_loop wrong n offset (skipped + 1) (insert r.tx_hash seen) ms rows in
      if wrong r.is_funding
      then pass
      else if not (r.merged_count == 0)
      then none
      else if has_row r.tx_hash ms
      then take_in
      else if length ms == n
      then pass
      else if ltb skipped offset
      then if not (has r.tx_hash seen) then skip else pass
      else take_in

  -- MergeRowsRange, with `none` for each of its errors.
  pub merge_rows_range : List AddressRow → ℤ → ℤ → AddrTxnViewType → Option (List AddressRowMerged)
  merge_rows_range rows (negsuc k) offset view = none
  merge_rows_range rows (pos n) (negsuc k) view = none
  merge_rows_range rows (pos n) (pos offset) view = elim (wrong_direction view) [
    | none ↦ none
    | some wrong ↦
        if n == 0 || length rows == 0 then some [] else rows_range_loop wrong n offset 0 [] [] rows
  ]

  rows_range_loop_lem :
      (wrong : Bool → Bool) (n offset skipped : ℕ) (seen : List ℕ) (ms : List AddressRowMerged)
      (rows : List AddressRow)
      → rows_range_loop wrong n offset skipped seen ms rows ≡ (
          if all_single (rows_rightly wrong rows)
          then some (range_loop set_string wrong n offset skipped seen ms (compact_rows rows))
          else none)
  unfolding rows_range_loop all_single range_loop compact_rows compact_row
  rows_range_loop_lem wrong n offset skipped seen ms [] = refl
  rows_range_loop_lem wrong n offset skipped seen ms (r ∷ rows) =
      let same = λ (k : ℕ) (hs : List ℕ) (rs : List AddressRowMerged).
        rows_range_loop_lem wrong n offset k hs rs rows in
      let merged = merge_into set_string (compact_row r) ms in
      elim (Bool-cases (wrong r.is_funding)) [
        | inl d ↦ rw d (same skipped seen ms)
        | inr d ↦ elim (Bool-cases (r.merged_count == 0)) [
          | inr e ↦ rw (d, e) refl
          | inl e ↦ elim (Bool-cases (has_row r.tx_hash ms)) [
            | inl h ↦ rw (d, e, h) (same skipped seen merged)
            | inr h ↦ elim (Bool-cases (length ms == n)) [
              | inl f ↦ rw (d, e, h, f) (same skipped seen ms)
              | inr f ↦ elim (Bool-cases (ltb skipped offset)) [
                | inr b ↦ rw (d, e, h, f, b) (same skipped seen merged)
                | inl b ↦ elim (Bool-cases (has r.tx_hash seen)) [
                  | inl s ↦ rw (d, e, h, f, b, s) (same skipped seen ms)
                  | inr s ↦ rw (d, e, h, f, b, s) (same (skipped + 1) (insert r.tx_hash seen) ms)
                ]
              ]
            ]
          ]
        ]
      ]

  -- For a positive count, MergeRowsRange gives the range that MergeRowsCompactRange gives on the
  -- compact form of the rows, for a merged view and an offset that is not negative, unless a merged
  -- row stands among the rows of the view's direction: then it gives an error.
  pub merge_rows_range-compact_rows :
      (rows : List AddressRow) (n offset : ℕ) (view : AddrTxnViewType) (wrong : Bool → Bool)
      → 0 < n
      → wrong_direction view ≡ some wrong
      → merge_rows_range rows (pos n) (pos offset) view ≡ (
          if all_single (rows_rightly wrong rows)
          then merge_rows_compact_range set_string (compact_rows rows) (pos n) (pos offset) view
          else none)
  unfolding merge_rows_range merge_rows_compact_range all_single compact_rows
  merge_rows_range-compact_rows [] n offset view wrong lt e = elim (Bool-cases (n == 0)) [
    | inl z ↦ absurd (ground arith)
    | inr z ↦ rw (e, merge_rows_range, merge_rows_compact_range, compact_rows, z) refl
  ]
  merge_rows_range-compact_rows (r ∷ rows) n offset view wrong lt e =
      let more : (n == 0 || length (r ∷ rows) == 0) ≡ false = ground arith in
      rw (e, merge_rows_range, merge_rows_compact_range, length-compact_rows (r ∷ rows), more)
        (rows_range_loop_lem wrong n offset 0 [] [] (r ∷ rows))
