-- ===== src/AddressRows/Checks.antt =====
-- Pages and merged rows of a small history.
use monetarium_explorer.Prelude.{
  ℕ, ◌%◌, ◌^◌, ◌≤◌, ◌≡◌, refl, Bool, true, false, not, List, [], ◌∷◌, ◌++◌, Option, none, some,
  length, take, drop, keep, arith, if◌then◌else◌,
}
use monetarium_explorer.Prelude.Int.{ℤ, pos}
use Prim.Native.Nat.{min}
use monetarium_explorer.HashSet.{has}
use monetarium_explorer.AddressRows.{
  AddressRow, AddressRowCompact, AddressRowMerged, is_merged_view, credit, merged, merged_credit,
}
use monetarium_explorer.AddressRows.Slices.{
  rows_of, address_rows, is_row_credit, is_row_debit, is_row_unspent, slice_address_credit_rows,
  slice_address_debit_rows, slice_address_unspent_credit_rows,
}
use monetarium_explorer.AddressRows.Slices.Pages.{slice_address_rows_pages, slice_unspent_page}
use monetarium_explorer.AddressRows.Merge.{
  merge_rows_compact, compact_rows, count_merged_rows_compact, merge_rows_compact_range,
  wrong_direction,
}
use monetarium_explorer.AddressRows.Merge.Groups.{find_row, of_tx, AreApart}
use monetarium_explorer.AddressRows.Merge.Totals.{var_atoms, merge_rows_compact_totals}
use monetarium_explorer.AddressRows.Merge.Count.{count_merged_rows_compact_lem}
use monetarium_explorer.AddressRows.Merge.Plain.{all_single}
use monetarium_explorer.AddressRows.Merge.PlainRange.{
  rows_rightly, merge_rows_range, merge_rows_range-compact_rows,
}
use monetarium_explorer.AddressRows.Merge.Range.{
  rightly, txs_of, merge_rows_compact_range_first, merge_rows_compact_range_later,
}
use monetarium_explorer.AddressRows.Select.{slice_address_rows}
use monetarium_explorer.AddressRows.Select.Short.{slice_address_rows_short}
use monetarium_explorer.AddressRows.Item.{
  AddressCacheItem, found, compact_page, block_id, transactions,
}
use monetarium_explorer.AddressRows.Item.Views.{shows_credit, transactions_shows}

abbrev sample_row : ℕ → Bool → ℕ → AddressRowCompact
sample_row tx funding value = record {
  address = 1;
  tx_block_time = pos 100;
  tx_hash = tx;
  matching_tx_hash = none;
  tx_vin_vout_index = 0;
  tx_type = pos 0;
  valid_main_chain = true;
  is_funding = funding;
  value = value;
  coin_type = 0;
  ska_value = [];
}

-- Transaction 7 funds the address twice and spends from it once.
abbrev sample_rows : List AddressRowCompact
sample_rows =
    sample_row 7 true 50 ∷ sample_row 7 true 20 ∷ sample_row 8 true 5 ∷ sample_row 7 false 30 ∷ []

-- No SKA text parses.
abbrev no_numbers : List ℕ → Option ℤ
no_numbers s = none

abbrev plain : Bool → Option ℕ → ℕ → AddressRow
plain funding matching value = record {
  address = 1;
  valid_main_chain = true;
  matching_tx_hash = matching;
  is_funding = funding;
  tx_block_time = pos 100;
  tx_hash = 7;
  tx_vin_vout_index = 0;
  value = value;
  vin_vout_db_id = 0;
  merged_count = 0;
  tx_type = pos 0;
  atoms_credit = 0;
  atoms_debit = 0;
  coin_type = 0;
  ska_value = [];
}

-- A spent credit, an unspent one, and a debit.
abbrev plain_rows : List AddressRow
plain_rows = plain true (some 9) 50 ∷ plain true none 20 ∷ plain false (some 3) 30 ∷ []

abbrev sample_item : AddressCacheItem Unit Unit Unit
sample_item = record {
  balance = none;
  rows = some sample_rows;
  utxos = none;
  history = tt;
  height = pos 4;
  hash = 44;
}

transactions_shows_example :
    (p : Option (List AddressRowCompact)) × (transactions no_numbers
        (pos 2)
        (pos 1)
        credit
        sample_item
      ≡ found (compact_page p) (some (block_id sample_item)))
    × (rows_of p
        ≡ take 2 (drop 1 (keep (λ r. r.is_funding) (keep (λ r. r.valid_main_chain) sample_rows))))
transactions_shows_example =
    transactions_shows no_numbers sample_item 2 1 sample_rows shows_credit (omega arith)
      (omega arith) refl

slice_address_rows_pages_example :
    (rows_of (address_rows (some plain_rows) 1 1) ≡ take 1 (drop 1 plain_rows))
    × (rows_of (slice_address_credit_rows (some plain_rows) 1 1)
        ≡ take 1 (drop 1 (keep is_row_credit plain_rows)))
    × (rows_of (slice_address_debit_rows (some plain_rows) 1 1)
        ≡ take 1 (drop 1 (keep is_row_debit plain_rows)))
slice_address_rows_pages_example =
    slice_address_rows_pages plain_rows 1 1 (omega arith) (omega arith)

slice_unspent_page_example :
    rows_of (slice_address_unspent_credit_rows (some plain_rows) 1 0)
    ≡ take
        (min 1 (length (keep is_row_unspent plain_rows)))
        (drop 0 (keep is_row_credit plain_rows))
slice_unspent_page_example = slice_unspent_page plain_rows 1 0 (omega arith) (omega arith)

merge_rows_compact_totals_example :
    (t : AddressRowMerged) × (find_row 7 (merge_rows_compact no_numbers sample_rows) ≡ some t)
    × (t.atoms_credit ≡ var_atoms (λ f. f) (of_tx 7 sample_rows) % 2 ^ 64)
    × (t.atoms_debit ≡ var_atoms (λ f. not f) (of_tx 7 sample_rows) % 2 ^ 64)
    × (t.merged_count ≡ length (of_tx 7 sample_rows) % 2 ^ 32)
    × AreApart (merge_rows_compact no_numbers sample_rows)
merge_rows_compact_totals_example = merge_rows_compact_totals no_numbers 7 sample_rows (omega arith)

count_merged_rows_compact_lem_example :
    count_merged_rows_compact sample_rows merged_credit
    ≡ some (length (merge_rows_compact no_numbers (keep (λ r. not (not r.is_funding)) sample_rows)))
unfolding wrong_direction
count_merged_rows_compact_lem_example =
    count_merged_rows_compact_lem no_numbers sample_rows merged_credit (λ f. not f) refl

merge_rows_compact_range_first_example :
    merge_rows_compact_range no_numbers sample_rows (pos 1) (pos 0) merged
    ≡ some (take 1 (merge_rows_compact no_numbers (rightly (λ f. false) sample_rows)))
unfolding wrong_direction
merge_rows_compact_range_first_example =
    merge_rows_compact_range_first no_numbers 1 sample_rows merged (λ f. false) refl

-- The second page of one row starts with what is left of the first transaction.
merge_rows_compact_range_later_example :
    merge_rows_compact_range no_numbers ([] ++ sample_rows) (pos 1) (pos 1) merged
    ≡ some (
        take 1 (
          merge_rows_compact no_numbers (
            rightly
              (λ f. false)
              (sample_row 7 true 20 ∷ sample_row 8 true 5 ∷ sample_row 7 false 30 ∷ []))))
unfolding wrong_direction txs_of has
merge_rows_compact_range_later_example =
    merge_rows_compact_range_later no_numbers 1 1 [] (sample_row 7 true 50)
      (sample_row 7 true 20 ∷ sample_row 8 true 5 ∷ sample_row 7 false 30 ∷ []) merged (λ f. false)
      refl (omega arith) (omega arith) refl refl

-- The debit is left out by the direction.
merge_rows_range-compact_rows_example :
    merge_rows_range no_numbers plain_rows (pos 1) (pos 0) merged_credit ≡ (
      if all_single (rows_rightly (λ f. not f) plain_rows)
      then merge_rows_compact_range no_numbers
          (compact_rows plain_rows)
          (pos 1)
          (pos 0)
          merged_credit
      else none)
unfolding wrong_direction
merge_rows_range-compact_rows_example =
    merge_rows_range-compact_rows no_numbers plain_rows 1 0 merged_credit (λ f. not f) (omega arith)
      refl

-- The two rows of one transaction make one merged row.
slice_address_rows_short_example :
    (page : Option (List AddressRow)) × (slice_address_rows no_numbers
        (λ z. [])
        (some plain_rows)
        (pos 1)
        (pos 0)
        merged
      ≡ some page)
    × (length (rows_of page) ≤ 1)
unfolding all_single is_merged_view
slice_address_rows_short_example =
    slice_address_rows_short no_numbers (λ z. []) plain_rows 1 0 merged true refl refl
