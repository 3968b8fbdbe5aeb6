-- ===== src/AddressRows/Select.antt =====
-- SliceAddressRows of db/dbtypes/types.go, which picks the page of a view, and the conversion of
-- merged rows back into plain ones. big.Int's SetString and String are the parameters `set_string`
-- and `show_big`.
pub mod Short
use monetarium_explorer.Prelude.{
  ℕ, ◌+◌, ◌-◌, ◌^◌, ◌||◌, List, [], ◌∷◌, Option, some, none, length, ltb, leb, ◌==◌, if◌then◌else◌,
}
use monetarium_explorer.Prelude.Int.{ℤ, pos, negsuc}
use monetarium_explorer.AddressRows.{
  AddressRow, AddressRowMerged, AddrTxnViewType, all, credit, debit, merged, merged_credit,
  merged_debit, unspent, unknown,
}
use monetarium_explorer.AddressRows.Slices.{
  address_rows, rows_of, slice_address_credit_rows, slice_address_debit_rows,
  slice_address_unspent_credit_rows,
}
use monetarium_explorer.AddressRows.Merge.{ska_net, is_net_funding, net_value}
use monetarium_explorer.AddressRows.Merge.PlainRange.{merge_rows_range}

abbrev abs : ℤ → ℤ
abs (pos n) = pos n
abs (negsuc k) = pos (k + 1)

-- `uint64` of the 32 bits of an int32 repeats the sign bit.
abbrev widen : ℕ → ℕ
widen m = if ltb m (2 ^ 31) then m else m + (2 ^ 64 - 2 ^ 32)

module _ (show_big : ℤ → List ℕ) where
  -- AddressRowMerged.SKAValueStr
  pub ska_value_str : AddressRowMerged → List ℕ
  ska_value_str arm = if arm.coin_type == 0 then [] else show_big (abs (ska_net arm))

  pub uncompact_row : AddressRowMerged → AddressRow
  uncompact_row r = record {
    address = r.address;
    valid_main_chain = r.valid_main_chain;
    matching_tx_hash = none;
    is_funding = is_net_funding r;
    tx_block_time = r.tx_block_time;
    tx_hash = r.tx_hash;
    tx_vin_vout_index = 0;
    value = net_value r;
    vin_vout_db_id = 0;
    merged_count = widen r.merged_count;
    tx_type = r.tx_type;
    atoms_credit = 0;
    atoms_debit = 0;
    coin_type = r.coin_type;
    ska_value = ska_value_str r;
  }

  -- UncompactMergedRows
  pub uncompact_merged_rows : List AddressRowMerged → List AddressRow
  uncompact_merged_rows [] = []
  uncompact_merged_rows (r ∷ rows) = uncompact_row r ∷ uncompact_merged_rows rows

module _ (set_string : List ℕ → Option ℤ) (show_big : ℤ → List ℕ) where
  -- The cases of a merged view.
  pub slice_merged :
      Option (List AddressRow) → ℕ → ℕ → AddrTxnViewType → Option (Option (List AddressRow))
  slice_merged rows n offset view =
      elim (merge_rows_range set_string (rows_of rows) (pos n) (pos offset) view) [
        | none ↦ none
        | some ms ↦ some (some (uncompact_merged_rows show_big ms))
      ]

  -- The switch on the view.
  pub slice_view :
      Option (List AddressRow) → ℕ → ℕ → AddrTxnViewType → Option (Option (List AddressRow))
  slice_view rows n offset all = some (address_rows rows n offset)
  slice_view rows n offset credit = some (slice_address_credit_rows rows n offset)
  slice_view rows n offset debit = some (slice_address_debit_rows rows n offset)
  slice_view rows n offset merged = slice_merged rows n offset merged
  slice_view rows n offset merged_credit = slice_merged rows n offset merged_credit
  slice_view rows n offset merged_debit = slice_merged rows n offset merged_debit
  slice_view rows n offset unspent = some (slice_address_unspent_credit_rows rows n offset)
  slice_view rows n offset unknown = none

  -- SliceAddressRows, with `none` for each of its errors.
  pub slice_address_rows :
      Option (List AddressRow) → ℤ → ℤ → AddrTxnViewType → Option (Option (List AddressRow))
  slice_address_rows rows (negsuc k) offset view = none
  slice_address_rows rows (pos n) (negsuc k) view = none
  slice_address_rows rows (pos n) (pos offset) view =
      if n == 0 || length (rows_of rows) == 0 || leb (length (rows_of rows)) offset
      then some (some [])
      else slice_view rows n offset view
