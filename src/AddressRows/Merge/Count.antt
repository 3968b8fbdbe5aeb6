-- ===== src/AddressRows/Merge/Count.antt =====
-- How many merged rows there are.
use monetarium_explorer.Prelude.{
  ℕ, ◌+◌, ◌≡◌, refl, ◌∙◌, ap, Bool, not, List, [], ◌∷◌, Option, some, length, keep, arith,
  Bool-cases, inl, inr,
}
use monetarium_explorer.HashSet.{has, insert, has-insert, has-nil}
use monetarium_explorer.Prelude.Int.{ℤ}
use monetarium_explorer.AddressRows.{AddressRowCompact, AddressRowMerged, AddrTxnViewType}
use monetarium_explorer.AddressRows.Merge.{
  has_row, merge_into, merge_loop, merge_rows_compact, wrong_direction, count_merged_loop,
  count_merged_rows_compact,
}
use monetarium_explorer.AddressRows.Merge.Groups.{has_row-merge_into, length-merge_into}

module _ (set_string : List ℕ → Option ℤ) where
  count_merged_loop_lem :
      (wrong : Bool → Bool) (met : List ℕ) (n : ℕ) (ms : List AddressRowMerged)
      (rows : List AddressRowCompact)
      → ((h : ℕ) → has h met ≡ has_row h ms)
      → n ≡ length ms
      → count_merged_loop wrong met n rows
        ≡ length (merge_loop set_string ms (keep (λ r. not (wrong r.is_funding)) rows))
  unfolding count_merged_loop merge_loop
  count_merged_loop_lem wrong met n ms [] same len = len
  count_merged_loop_lem wrong met n ms (r ∷ rows) same len =
      elim (Bool-cases (wrong r.is_funding)) [
        | inl e ↦ rw e (count_merged_loop_lem wrong met n ms rows same len)
        | inr e ↦ rw e (elim (Bool-cases (has_row r.tx_hash ms)) [
          | inl f ↦ rw (same r.tx_hash ∙ f) (
              count_merged_loop_lem wrong met n (merge_into set_string r ms) rows
                (λ h. rw (has_row-merge_into set_string h r ms) (ground (arith, same h)))
                (ground (arith, length-merge_into set_string r ms)))
          | inr f ↦ rw (same r.tx_hash ∙ f) (
              count_merged_loop_lem wrong (insert r.tx_hash met) (n + 1)
                (merge_into set_string r ms) rows
                (λ h.
                  rw (has_row-merge_into set_string h r ms, has-insert h r.tx_hash met, same h)
                    refl)
                (ground (arith, length-merge_into set_string r ms)))
        ])
      ]

  -- CountMergedRowsCompact counts the rows that MergeRowsCompact makes of the rows of the view's
  -- direction.
  pub count_merged_rows_compact_lem :
      (rows : List AddressRowCompact) (view : AddrTxnViewType) (wrong : Bool → Bool)
      → wrong_direction view ≡ some wrong
      → count_merged_rows_compact rows view
        ≡ some (length (merge_rows_compact set_string (keep (λ r. not (wrong r.is_funding)) rows)))
  unfolding count_merged_rows_compact merge_rows_compact has_row
  count_merged_rows_compact_lem rows view wrong e =
      rw (e, count_merged_rows_compact)
        (ap some (count_merged_loop_lem wrong [] 0 [] rows (λ h. has-nil h) refl))
