-- ===== src/AddressRows.antt =====
-- db/dbtypes/types.go and db/cache/addresscache.go: the rows of an address's history, the pages cut
-- out of them, and the rows of one transaction merged into one.
-- An address and a hash are the numbers that their bytes spell; a Go slice that may be nil is an
-- `Option` of a list; a time is its Unix seconds.
pub mod Slices
pub mod Merge
pub mod Item
pub mod Select
mod Checks
use monetarium_explorer.Prelude.{ℕ, Bool, true, false, List, Option, ◌≡◌, ◌==◌, none, some}
use monetarium_explorer.Prelude.Int.{ℤ}

pub data AddrTxnViewType : Type 0 where
  all credit debit merged_debit merged_credit merged unspent unknown : AddrTxnViewType

-- AddrTxnViewType.IsMerged, with `none` for its error.
unfoldable pub is_merged_view : AddrTxnViewType → Option Bool
is_merged_view all = some false
is_merged_view credit = some false
is_merged_view debit = some false
is_merged_view unspent = some false
is_merged_view merged = some true
is_merged_view merged_credit = some true
is_merged_view merged_debit = some true
is_merged_view unknown = none

pub record AddressRow : Type 0 where
  pub address : ℕ
  pub valid_main_chain : Bool
  pub matching_tx_hash : Option ℕ
  pub is_funding : Bool
  pub tx_block_time : ℤ
  pub tx_hash : ℕ
  pub tx_vin_vout_index : ℕ
  pub value : ℕ
  pub vin_vout_db_id : ℕ
  pub merged_count : ℕ
  pub tx_type : ℤ
  pub atoms_credit : ℕ
  pub atoms_debit : ℕ
  pub coin_type : ℕ
  pub ska_value : List ℕ

pub record AddressRowCompact : Type 0 where
  pub address : ℕ
  pub tx_block_time : ℤ
  pub tx_hash : ℕ
  pub matching_tx_hash : Option ℕ
  pub tx_vin_vout_index : ℕ
  pub tx_type : ℤ
  pub valid_main_chain : Bool
  pub is_funding : Bool
  pub value : ℕ
  pub coin_type : ℕ
  pub ska_value : List ℕ

-- `MergedCount` is the 32 bits of an int32.
pub record AddressRowMerged : Type 0 where
  pub address : ℕ
  pub tx_block_time : ℤ
  pub tx_hash : ℕ
  pub atoms_credit : ℕ
  pub atoms_debit : ℕ
  pub ska_atoms_credit : Option ℤ
  pub ska_atoms_debit : Option ℤ
  pub merged_count : ℕ
  pub tx_type : ℤ
  pub valid_main_chain : Bool
  pub coin_type : ℕ

-- ChainHash.IsZero on a pointer: nil, or the hash of 32 zero bytes.
abbrev pub is_zero_hash : Option ℕ → Bool
is_zero_hash none = true
is_zero_hash (some h) = h == 0
