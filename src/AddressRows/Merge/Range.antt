-- ===== src/AddressRows/Merge/Range.antt =====
-- The pages of merged rows that MergeRowsCompactRange cuts.

use monetarium_explorer.Prelude.{
  ℕ, zero, suc, ◌+◌, ◌<◌, ◌≤◌, ◌≡◌, refl, ◌∙◌, ap, Bool, true, false, not, ◌||◌, List, [], ◌∷◌,
  ◌++◌, Option, some, length, take, keep, ltb, ◌==◌, if◌then◌else◌, arith, Bool-cases, inl, inr,
  take-all, length-append,
}
use monetarium_explorer.Prelude.Int.{ℤ, pos}
use monetarium_explorer.HashSet.{has, insert, length-insert, insert_known, length-insert_new}
use monetarium_explorer.AddressRows.{AddressRowCompact, AddressRowMerged, AddrTxnViewType}
use monetarium_explorer.AddressRows.Merge.{
  has_row, merge_into, merge_loop, merge_rows_compact, wrong_direction, range_loop,
  merge_rows_compact_range,
}
use monetarium_explorer.AddressRows.Merge.Groups.{
  has_row-nil, has_row-cons, merge_into-cons, length-merge_into,
}

-- The rows that a merged view takes in.
abbrev pub rightly : (Bool → Bool) → List AddressRowCompact → List AddressRowCompact
rightly wrong rows = keep (λ r. not (wrong r.is_funding)) rows

-- The set of the transactions that rows of the right directions belong to.
unfoldable pub txs_of : (Bool → Bool) → List ℕ → List AddressRowCompact → List ℕ
txs_of wrong seen [] = seen
txs_of wrong seen (r ∷ rows) =
    if wrong r.is_funding then txs_of wrong seen rows else txs_of wrong (insert r.tx_hash seen) rows

length-txs_of :
    (wrong : Bool → Bool) (seen : List ℕ) (rows : List AddressRowCompact)
    → length seen ≤ length (txs_of wrong seen rows)
unfolding txs_of
length-txs_of wrong seen [] = omega arith
length-txs_of wrong seen (r ∷ rows) = elim (Bool-cases (wrong r.is_funding)) [
  | inl e ↦ rw e (length-txs_of wrong seen rows)
  | inr e ↦ rw e (
      ground
        (arith, length-insert r.tx_hash seen, length-txs_of wrong (insert r.tx_hash seen) rows))
]

module _ (set_string : List ℕ → Option ℤ) where
  -- One row on the first `n` merged rows.
  take-merge_into :
      (n : ℕ) (r : AddressRowCompact) (ms : List AddressRowMerged)
      → take n (merge_into set_string r ms) ≡ (
          if has_row r.tx_hash (take n ms)
          then merge_into set_string r (take n ms)
          else if length (take n ms) == n
          then take n ms
          else merge_into set_string r (take n ms))
  take-merge_into zero r ms = rw (has_row-nil r.tx_hash) refl
  take-merge_into (suc n) r [] =
      let room : (0 == suc n) ≡ false = ground arith in
      rw (has_row-nil r.tx_hash, room)
        (take-all (suc n) _
          (ground (arith, length-merge_into set_string r [], has_row-nil r.tx_hash)))
  take-merge_into (suc n) r (m ∷ ms) =
      rw
        (
          merge_into-cons set_string r m ms,
          merge_into-cons set_string r m (take n ms),
          has_row-cons r.tx_hash m (take n ms),
        )
        (elim (Bool-cases (r.tx_hash == m.tx_hash)) [
          | inl e ↦ rw e refl
          | inr e ↦
              rw (e, take-merge_into n r ms)
                (elim (Bool-cases (has_row r.tx_hash (take n ms))) [
                  | inl f ↦ rw f refl
                  | inr f ↦ rw f (elim (Bool-cases (length (take n ms) == n)) [
                    | inl g ↦
                        let full : (suc (length (take n ms)) == suc n) ≡ true = ground arith in
                        rw (g, full) refl
                    | inr g ↦
                        let room : (suc (length (take n ms)) == suc n) ≡ false = ground arith in
                        rw (g, room) refl
                  ])
                ])
        ])

  -- Once enough transactions are skipped, the loop keeps the first `n` of the merged rows.
  range_loop-skipped :
      (wrong : Bool → Bool) (n offset skipped : ℕ) (seen : List ℕ) (ms : List AddressRowMerged)
      (rows : List AddressRowCompact)
      → offset ≤ skipped
      → range_loop set_string wrong n offset skipped seen (take n ms) rows
        ≡ take n (merge_loop set_string ms (rightly wrong rows))
  unfolding range_loop merge_loop
  range_loop-skipped wrong n offset skipped seen ms [] done = refl
  range_loop-skipped wrong n offset skipped seen ms (r ∷ rows) done =
      let enough : ltb skipped offset ≡ false = ground arith in
      let rest =
        range_loop-skipped wrong n offset skipped seen (merge_into set_string r ms) rows done in
      elim (Bool-cases (wrong r.is_funding)) [
        | inl e ↦ rw e (range_loop-skipped wrong n offset skipped seen ms rows done)
        | inr e ↦ rw e (elim (Bool-cases (has_row r.tx_hash (take n ms))) [
          | inl f ↦ rw f (rw (take-merge_into n r ms, f) at rest)
          | inr f ↦ rw f (elim (Bool-cases (length (take n ms) == n)) [
            | inl g ↦ rw g (rw (take-merge_into n r ms, f, g) at rest)
            | inr g ↦ rw (g, enough) (rw (take-merge_into n r ms, f, g) at rest)
          ])
        ])
      ]

  -- Before enough transactions are skipped, the loop only gathers them.
  range_loop-skipping :
      (wrong : Bool → Bool) (n offset : ℕ) (seen : List ℕ) (before after : List AddressRowCompact)
      → 0 < n
      → length (txs_of wrong seen before) < offset
      → range_loop set_string wrong n offset (length seen) seen [] (before ++ after)
        ≡ range_loop set_string wrong n offset
            (length (txs_of wrong seen before))
            (txs_of wrong seen before)
            []
            after
  unfolding range_loop txs_of has_row
  range_loop-skipping wrong n offset seen [] after positive few = refl
  range_loop-skipping wrong n offset seen (r ∷ before) after positive few =
      let room : (0 == n) ≡ false = ground arith in
      elim (Bool-cases (wrong r.is_funding)) [
        | inl e ↦ rw e (range_loop-skipping wrong n offset seen before after positive (rw e at few))
        | inr e ↦
            let later =
              range_loop-skipping wrong n offset (insert r.tx_hash seen) before after positive
                (rw e at few) in
            let short : ltb (length seen) offset ≡ true = ground (
              arith,
              length-txs_of wrong (insert r.tx_hash seen) before,
              length-insert r.tx_hash seen,
              rw e at few,
            ) in
            rw (e, room, short)
              (elim (Bool-cases (has r.tx_hash seen)) [
                | inl f ↦
                    rw (f, insert_known r.tx_hash seen f)
                      (rw (insert_known r.tx_hash seen f) at later)
                | inr f ↦ rw (f, ← length-insert_new r.tx_hash seen f) later
              ])
      ]

  -- A first page of merged rows is made of the first `n` merged rows that MergeRowsCompact makes of
  -- the rows of the view's direction, each of them complete.
  pub merge_rows_compact_range_first :
      (n : ℕ) (rows : List AddressRowCompact) (view : AddrTxnViewType) (wrong : Bool → Bool)
      → wrong_direction view ≡ some wrong
      → merge_rows_compact_range set_string rows (pos n) (pos 0) view
        ≡ some (take n (merge_rows_compact set_string (rightly wrong rows)))
  unfolding merge_rows_compact_range merge_rows_compact merge_loop
  merge_rows_compact_range_first zero rows view wrong e = rw (e, merge_rows_compact_range) refl
  merge_rows_compact_range_first (suc n) [] view wrong e =
      let empty : (suc n == 0 || 0 == 0) ≡ true = ground arith in
      rw (e, merge_rows_compact_range) (rw empty refl)
  merge_rows_compact_range_first (suc n) (r ∷ rows) view wrong e =
      let some_rows : (suc n == 0 || suc (length rows) == 0) ≡ false = ground arith in
      rw (e, merge_rows_compact_range)
        (rw some_rows
          (ap some (range_loop-skipped wrong (suc n) 0 0 [] [] (r ∷ rows) (omega arith))))

  -- The row that completes the skip.
  range_loop-completes :
      (n offset : ℕ) (seen : List ℕ) (r : AddressRowCompact) (after : List AddressRowCompact)
      (wrong : Bool → Bool)
      → 0 < n
      → length seen + 1 ≡ offset
      → wrong r.is_funding ≡ false
      → has r.tx_hash seen ≡ false
      → range_loop set_string wrong n offset (length seen) seen [] (r ∷ after)
        ≡ take n (merge_loop set_string [] (rightly wrong after))
  unfolding range_loop
  range_loop-completes n offset seen r after wrong positive skip right new =
      let room : (0 == n) ≡ false = ground arith in
      let short : ltb (length seen) offset ≡ true = ground arith in
      let nothing : take {A = AddressRowMerged} n [] ≡ [] = take-all n [] (omega arith) in
      rw (right, has_row-nil r.tx_hash, room, short, new)
        (rw nothing at (
          range_loop-skipped wrong n offset (length seen + 1) (insert r.tx_hash seen) [] after
            (omega arith)))

  -- A later page is made of the first `n` merged rows of what follows the row that completes the
  -- skip, which is the first row of the last transaction skipped. Rows of the skipped transactions
  -- that come after it are not left out: they make merged rows of their own.
  pub merge_rows_compact_range_later :
      (n offset : ℕ) (before : List AddressRowCompact) (r : AddressRowCompact)
      (after : List AddressRowCompact) (view : AddrTxnViewType) (wrong : Bool → Bool)
      → wrong_direction view ≡ some wrong
      → 0 < n
      → length (txs_of wrong [] before) + 1 ≡ offset
      → wrong r.is_funding ≡ false
      → has r.tx_hash (txs_of wrong [] before) ≡ false
      → merge_rows_compact_range set_string (before ++ r ∷ after) (pos n) (pos offset) view
        ≡ some (take n (merge_rows_compact set_string (rightly wrong after)))
  unfolding merge_rows_compact_range merge_rows_compact
  merge_rows_compact_range_later n offset before r after view wrong e positive skip right new =
      let some_rows : (n == 0 || length (before ++ r ∷ after) == 0) ≡ false =
        ground (arith, length-append before (r ∷ after)) in
      rw (e, merge_rows_compact_range)
        (rw some_rows (
          ap some (
            range_loop-skipping wrong n offset [] before (r ∷ after) positive (omega arith)
            ∙ range_loop-completes n offset (txs_of wrong [] before) r after wrong positive skip
                right new)))
