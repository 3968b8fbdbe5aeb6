-- ===== src/AddressRows/Merge.antt =====
-- The rows of one transaction merged into one: MergeRows, MergeRowsCompact, its range, and the
-- counts of merged rows. `hashMap` holds pointers to the rows of `mergedRows`, under their hashes, so
-- a lookup in it is a search of `mergedRows`, and an update through it changes the row in place.
-- big.Int's SetString is the parameter `set_string`, on the bytes of a text.
pub mod Groups
pub mod Totals
pub mod Count
pub mod Plain
pub mod Range
pub mod PlainRange
use monetarium_explorer.Prelude.{
  ℕ, ◌+◌, ◌-◌, ◌%◌, ◌^◌, Bool, true, false, not, ◌||◌, List, [], ◌∷◌, ◌++◌, Option, none, some,
  length, ltb, ◌==◌, if◌then◌else◌,
}
use monetarium_explorer.Prelude.Int.{ℤ, pos, negsuc, ◌+ℤ◌, neg}
use monetarium_explorer.HashSet.{has, insert}
use monetarium_explorer.AddressRows.{
  AddressRow, AddressRowCompact, AddressRowMerged, AddrTxnViewType, all, credit, debit, merged,
  merged_credit, merged_debit, unspent, unknown,
}

-- The tests `s == ""` and `s == "0"`.
is_zero_text : List ℕ → Bool
is_zero_text [] = true
is_zero_text (c ∷ []) = c == 48
is_zero_text (c ∷ d ∷ s) = false

-- A nil *big.Int stands for zero.
abbrev pub or_zero : Option ℤ → ℤ
or_zero none = pos 0
or_zero (some z) = z

-- skaNet
pub ska_net : AddressRowMerged → ℤ
ska_net arm = or_zero arm.ska_atoms_credit +ℤ neg (or_zero arm.ska_atoms_debit)

abbrev is_positive : ℤ → Bool
is_positive (pos n) = ltb 0 n
is_positive (negsuc n) = false

-- AddressRowMerged.IsFunding
pub is_net_funding : AddressRowMerged → Bool
is_net_funding arm =
    if not (arm.coin_type == 0)
    then is_positive (ska_net arm)
    else ltb arm.atoms_debit arm.atoms_credit

-- AddressRowMerged.Value, on `uint64`.
pub net_value : AddressRowMerged → ℕ
net_value arm =
    if ltb arm.atoms_debit arm.atoms_credit
    then arm.atoms_credit - arm.atoms_debit
    else arm.atoms_debit - arm.atoms_credit

-- The row's fields that a new merged row takes over, from a plain row.
pub compact_row : AddressRow → AddressRowCompact
compact_row r = record {
  address = r.address;
  tx_block_time = r.tx_block_time;
  tx_hash = r.tx_hash;
  matching_tx_hash = r.matching_tx_hash;
  tx_vin_vout_index = r.tx_vin_vout_index;
  tx_type = r.tx_type;
  valid_main_chain = r.valid_main_chain;
  is_funding = r.is_funding;
  value = r.value;
  coin_type = r.coin_type;
  ska_value = r.ska_value;
}

-- CompactRows
pub compact_rows : List AddressRow → List AddressRowCompact
compact_rows [] = []
compact_rows (r ∷ rows) = compact_row r ∷ compact_rows rows

-- The directions that a view leaves out; `none` for a view that is not merged.
unfoldable pub wrong_direction : AddrTxnViewType → Option (Bool → Bool)
wrong_direction merged = some (λ funding. false)
wrong_direction merged_credit = some (λ funding. not funding)
wrong_direction merged_debit = some (λ funding. funding)
wrong_direction all = none
wrong_direction credit = none
wrong_direction debit = none
wrong_direction unspent = none
wrong_direction unknown = none

-- The loop of CountMergedRowsCompact, with the set of hashes that it has met.
pub count_merged_loop : (Bool → Bool) → List ℕ → ℕ → List AddressRowCompact → ℕ
count_merged_loop wrong met n [] = n
count_merged_loop wrong met n (r ∷ rows) =
    let pass = count_merged_loop wrong met n rows in
    let count = count_merged_loop wrong (insert r.tx_hash met) (n + 1) rows in
    if wrong r.is_funding then pass else if not (has r.tx_hash met) then count else pass

pub count_merged_rows_compact : List AddressRowCompact → AddrTxnViewType → Option ℕ
count_merged_rows_compact rows view = elim (wrong_direction view) [
  | none ↦ none
  | some wrong ↦ some (count_merged_loop wrong [] 0 rows)
]

-- `hashMap[hash] != nil`
pub has_row : ℕ → List AddressRowMerged → Bool
has_row h [] = false
has_row h (m ∷ ms) = h == m.tx_hash || has_row h ms

-- A merged row before its first `add`.
abbrev pub blank_row : AddressRowCompact → AddressRowMerged
blank_row r = record {
  address = r.address;
  tx_block_time = r.tx_block_time;
  tx_hash = r.tx_hash;
  atoms_credit = 0;
  atoms_debit = 0;
  ska_atoms_credit = none;
  ska_atoms_debit = none;
  merged_count = 1;
  tx_type = r.tx_type;
  valid_main_chain = r.valid_main_chain;
  coin_type = 0;
}

-- `row.MergedCount++`
abbrev pub counted_row : AddressRowMerged → AddressRowMerged
counted_row m = record m { merged_count = (m.merged_count + 1) % 2 ^ 32 }

module _ (set_string : List ℕ → Option ℤ) where
  -- BigAddSKA
  pub big_add_ska : ℤ → List ℕ → ℤ
  big_add_ska acc s =
      if is_zero_text s then acc else elim (set_string s) [ none ↦ acc | some v ↦ acc +ℤ v ]

  -- AddressRowMerged.add, for the row `r`.
  pub add : AddressRowCompact → AddressRowMerged → AddressRowMerged
  add r arm =
      if r.coin_type == 0
      then if r.is_funding
        then record arm {
          coin_type = r.coin_type;
          atoms_credit = (arm.atoms_credit + r.value) % 2 ^ 64;
        }
        else record arm {
          coin_type = r.coin_type;
          atoms_debit = (arm.atoms_debit + r.value) % 2 ^ 64;
        }
      else if r.is_funding
      then record arm {
        coin_type = r.coin_type;
        ska_atoms_credit = some (big_add_ska (or_zero arm.ska_atoms_credit) r.ska_value);
      }
      else record arm {
        coin_type = r.coin_type;
        ska_atoms_debit = some (big_add_ska (or_zero arm.ska_atoms_debit) r.ska_value);
      }

  -- A newly encountered hash starts a merged row.
  pub start_row : AddressRowCompact → AddressRowMerged
  start_row r = add r (blank_row r)

  -- A further row of the same transaction.
  pub update_row : AddressRowCompact → AddressRowMerged → AddressRowMerged
  update_row r m = add r (counted_row m)

  -- One row: the merged row of its hash is updated in place, or a new one goes to the end.
  pub merge_into : AddressRowCompact → List AddressRowMerged → List AddressRowMerged
  merge_into r [] = start_row r ∷ []
  merge_into r (m ∷ ms) =
      if r.tx_hash == m.tx_hash then update_row r m ∷ ms else m ∷ merge_into r ms

  pub merge_loop : List AddressRowMerged → List AddressRowCompact → List AddressRowMerged
  merge_loop ms [] = ms
  merge_loop ms (r ∷ rows) = merge_loop (merge_into r ms) rows

  pub merge_rows_compact : List AddressRowCompact → List AddressRowMerged
  merge_rows_compact rows = merge_loop [] rows

  -- MergeRows, which refuses (`none`) a merged row in its input.
  pub merge_rows_loop : List AddressRowMerged → List AddressRow → Option (List AddressRowMerged)
  merge_rows_loop ms [] = some ms
  merge_rows_loop ms (r ∷ rows) =
      let rest = merge_rows_loop (merge_into (compact_row r) ms) rows in
      if not (r.merged_count == 0) then none else rest

  pub merge_rows : List AddressRow → Option (List AddressRowMerged)
  merge_rows rows = merge_rows_loop [] rows

  -- The loop of MergeRowsCompactRange.
  unfoldable pub range_loop :
      (Bool → Bool)
      → ℕ
      → ℕ
      → ℕ
      → List ℕ
      → List AddressRowMerged
      → List AddressRowCompact
      → List AddressRowMerged
  range_loop wrong n offset skipped seen ms [] = ms
  range_loop wrong n offset skipped seen ms (r ∷ rows) =
      let pass = range_loop wrong n offset skipped seen ms rows in
      let take_in = range_loop wrong n offset skipped seen (merge_into r ms) rows in
      let skip = range_loop wrong n offset (skipped + 1) (insert r.tx_hash seen) ms rows in
      if wrong r.is_funding
      then pass
      else if has_row r.tx_hash ms
      then take_in
      else if length ms == n
      then pass
      else if ltb skipped offset
      then if not (has r.tx_hash seen) then skip else pass
      else take_in

  -- MergeRowsCompactRange; a nil slice of rows is as good as an empty one.
  unfoldable pub merge_rows_compact_range :
      List AddressRowCompact → ℤ → ℤ → AddrTxnViewType → Option (List AddressRowMerged)
  merge_rows_compact_range rows (negsuc k) offset view = none
  merge_rows_compact_range rows (pos n) (negsuc k) view = none
  merge_rows_compact_range rows (pos n) (pos offset) view = elim (wrong_direction view) [
    | none ↦ none
    | some wrong ↦
        if n == 0 || length rows == 0
        then some []
        else some (range_loop wrong n offset 0 [] [] rows)
  ]
