-- ===== src/AddressRows/Item.antt =====
-- addresscache.go: AddressCacheItem, what the cache keeps for one address, and the pages that its
-- Transactions method answers with. Balances, outputs and charts are only stored and handed out, so
-- their types are parameters.
pub mod Views
use monetarium_explorer.Prelude.{
  ℕ, ◌+◌, Bool, true, false, ◌||◌, List, [], Option, none, some, length, keep, leb, ltb, ◌==◌,
  if◌then◌else◌, not,
}
use monetarium_explorer.Prelude.Int.{ℤ, pos, negsuc}
use monetarium_explorer.AddressRows.{
  AddressRowCompact, AddressRowMerged, AddrTxnViewType, is_merged_view, all, credit, debit, merged,
  merged_credit, merged_debit, unspent, unknown,
}
use monetarium_explorer.AddressRows.Slices.{
  address_rows, credit_address_rows, debit_address_rows, unspent_credit_address_rows,
}
use monetarium_explorer.AddressRows.Merge.{merge_rows_compact_range}

pub record BlockId : Type 0 where
  pub hash : ℕ
  pub height : ℤ

pub record AddressCacheItem (Balance Output History : Type 0) : Type 0 where
  pub balance : Option Balance
  pub rows : Option (List AddressRowCompact)
  pub utxos : Option (List Output)
  pub history : History
  pub height : ℤ
  pub hash : ℕ

-- The rows of either type that Transactions returns as an `interface{}`.
pub data TxnRows : Type 0 where
  compact_page : Option (List AddressRowCompact) → TxnRows
  merged_page : Option (List AddressRowMerged) → TxnRows

pub data TxnError : Type 0 where
  invalid_range invalid_view : TxnError

-- Rows with the block that they are valid at, which is nil on a cache miss; or an error.
pub data TxnResult : Type 0 where
  found : TxnRows → Option BlockId → TxnResult
  refused : TxnError → TxnResult

abbrev no_rows : Bool → TxnRows
no_rows true = merged_page (some [])
no_rows false = compact_page (some [])

abbrev missed : Bool → TxnRows
missed true = merged_page none
missed false = compact_page none

module _ (set_string : List ℕ → Option ℤ) where
  -- The switch over the views, on the rows of the main chain.
  pub view_rows : AddrTxnViewType → ℕ → ℕ → BlockId → List AddressRowCompact → TxnResult
  view_rows all n offset b rows = found (compact_page (address_rows (some rows) n offset)) (some b)
  view_rows credit n offset b rows =
      found (compact_page (credit_address_rows (some rows) n offset)) (some b)
  view_rows debit n offset b rows =
      found (compact_page (debit_address_rows (some rows) n offset)) (some b)
  view_rows unspent n offset b rows =
      found (compact_page (unspent_credit_address_rows (some rows) n offset)) (some b)
  view_rows merged n offset b rows =
      found (merged_page (merge_rows_compact_range set_string rows (pos n) (pos offset) merged))
        (some b)
  view_rows merged_credit n offset b rows =
      found
        (merged_page (merge_rows_compact_range set_string rows (pos n) (pos offset) merged_credit))
        (some b)
  view_rows merged_debit n offset b rows =
      found
        (merged_page (merge_rows_compact_range set_string rows (pos n) (pos offset) merged_debit))
        (some b)
  view_rows unknown n offset b rows = refused invalid_view

  -- Transactions, from the test for a cache miss on.
  cached_rows :
      AddrTxnViewType → Bool → ℕ → ℕ → BlockId → Option (List AddressRowCompact) → TxnResult
  cached_rows view is_merged n offset b none = found (missed is_merged) none
  cached_rows view is_merged n offset b (some rows) =
      let filtered = keep (λ r. r.valid_main_chain) rows in
      if n == 0 || (length filtered == 0 || leb (length filtered) offset)
      then found (no_rows is_merged) (some b)
      else view_rows view n offset b filtered

module _ {Balance Output History : Type 0} where
  pub block_id : AddressCacheItem Balance Output History → BlockId
  block_id d = record { hash = d.hash; height = d.height }

  pub transactions :
      (List ℕ → Option ℤ)
      → ℤ
      → ℤ
      → AddrTxnViewType
      → AddressCacheItem Balance Output History
      → TxnResult
  transactions set_string (pos n) (pos offset) view d = elim (is_merged_view view) [
    | none ↦ refused invalid_view
    | some is_merged ↦ cached_rows set_string view is_merged n offset (block_id d) d.rows
  ]
  transactions set_string (pos n) (negsuc k) view d = refused invalid_range
  transactions set_string (negsuc k) offset view d = refused invalid_range

  -- A cached value with the block that it belongs to.
  with_block :
      {A : Type 0} → AddressCacheItem Balance Output History → Option A → Option (A × BlockId)
  with_block d none = none
  with_block d (some a) = some (a, block_id d)

  pub balance_of : AddressCacheItem Balance Output History → Option (Balance × BlockId)
  balance_of d = with_block d d.balance

  pub utxos_of : AddressCacheItem Balance Output History → Option (List Output × BlockId)
  utxos_of d = with_block d d.utxos

  pub cached : AddressCacheItem Balance Output History → Option (List AddressRowCompact × BlockId)
  cached d = with_block d d.rows

  -- setBlock; `cleared` is a history with no charts.
  pub set_block :
      History
      → BlockId
      → AddressCacheItem Balance Output History
      → AddressCacheItem Balance Output History
  set_block cleared block d = if block.hash == d.hash then d else record {
    balance = none;
    rows = none;
    utxos = none;
    history = cleared;
    height = block.height;
    hash = block.hash;
  }

  pub set_rows :
      History
      → BlockId
      → Option (List AddressRowCompact)
      → AddressCacheItem Balance Output History
      → AddressCacheItem Balance Output History
  set_rows cleared block rs d = record (set_block cleared block d) { rows = rs }

  pub set_utxos :
      History
      → BlockId
      → Option (List Output)
      → AddressCacheItem Balance Output History
      → AddressCacheItem Balance Output History
  set_utxos cleared block us d = record (set_block cleared block d) { utxos = us }

  pub set_balance :
      History
      → BlockId
      → Option Balance
      → AddressCacheItem Balance Output History
      → AddressCacheItem Balance Output History
  set_balance cleared block b d = record (set_block cleared block d) { balance = b }
