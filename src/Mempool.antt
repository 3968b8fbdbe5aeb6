-- ===== src/Mempool.antt =====
-- mempool/mempoolcache.go: DataCache, what the API serves of the mempool. Fees are only copied, so
-- their type is a parameter; a transaction id is a number; of a mempool transaction there are the
-- fields that the cache reads.
pub mod Pages
pub mod Spending
mod Checks
use monetarium_explorer.Prelude.{
  ℕ, ◌+◌, ◌-◌, ◌%◌, ◌^◌, Bool, List, [], ◌∷◌, ◌++◌, Option, none, some, length, drop, leb, ltb,
  ◌==◌, if◌then◌else◌,
}
use monetarium_explorer.Prelude.Int.{ℤ, pos, negsuc}

pub record MempoolInput : Type 0 where
  pub tx_id : ℕ
  pub outdex : ℕ

pub record MempoolTx : Type 0 where
  pub tx_id : ℕ
  pub vin : List MempoolInput

-- The fields of DataCache, and those of StakeData that it takes over. `Info` stands for the ticket
-- fee summary, `Details` for the details of one ticket.
pub record DataCache (Fee Info Details : Type 0) : Type 0 where
  pub height : ℕ
  pub hash : ℕ
  pub timestamp : ℤ
  pub txns : List MempoolTx
  pub num_tickets : ℕ
  pub ticket_fee_info : Info
  pub all_fees : List Fee
  pub all_fee_rates : List Fee
  pub lowest_mineable_by_fee_rate : Fee
  pub all_tickets_details : List Details
  pub stake_diff : ℤ

-- `stake_diff` is what dcrutil.NewAmount makes of the stake difficulty, or `none` for its error.
pub record StakeData (Fee Info Details : Type 0) : Type 0 where
  pub block_height : ℕ
  pub block_hash : ℕ
  pub time : ℤ
  pub num_tickets : ℕ
  pub ticket_fees : Info
  pub fees : List Fee
  pub fee_rates : List Fee
  pub lowest_mineable_fee : Fee
  pub tickets_details : List Details
  pub stake_diff : Option ℤ

module _ {Fee Info Details : Type 0} where
  -- StoreMPData, which does nothing without stake data.
  pub store_mp_data :
      Option (StakeData Fee Info Details)
      → List MempoolTx
      → DataCache Fee Info Details
      → DataCache Fee Info Details
  store_mp_data none txs c = c
  store_mp_data (some d) txs c = record {
    height = d.block_height % 2 ^ 32;
    hash = d.block_hash;
    timestamp = d.time;
    txns = txs;
    num_tickets = d.num_tickets;
    ticket_fee_info = d.ticket_fees;
    all_fees = d.fees;
    all_fee_rates = d.fee_rates;
    lowest_mineable_by_fee_rate = d.lowest_mineable_fee;
    all_tickets_details = d.tickets_details;
    stake_diff = elim d.stake_diff [ none ↦ c.stake_diff | some sbits ↦ sbits ];
  }

-- The copy that GetFees, GetFeeRates and GetTicketsDetails make: no entries for N of 0, all for a
-- negative N or one that is too large, and otherwise the last N.
pub last_entries : {A : Type 0} → ℤ → List A → List A
last_entries (negsuc k) xs = xs
last_entries (pos n) xs =
    if n == 0 then [] else if leb (length xs) n then xs else drop (length xs - n) xs

module _ {Fee Info Details : Type 0} where
  pub get_fees : ℤ → DataCache Fee Info Details → ℕ × ℕ × List Fee
  get_fees n c = (c.height, length c.all_fees, last_entries n c.all_fees)

  pub get_fee_rates : ℤ → DataCache Fee Info Details → ℕ × ℤ × ℕ × List Fee
  get_fee_rates n c =
      (c.height, c.timestamp, length c.all_fee_rates, last_entries n c.all_fee_rates)

  pub get_tickets_details : ℤ → DataCache Fee Info Details → ℕ × ℤ × ℕ × List Details
  get_tickets_details n c =
      (c.height, c.timestamp, length c.all_tickets_details, last_entries n c.all_tickets_details)

-- hashes, vinInds and voutInds.
abbrev pub Spends : Type 0
Spends = List ℕ × List ℕ × List ℕ

-- The loop over the inputs of the transaction `id`, from input `i` on.
pub spender_inputs : ℕ → ℕ → ℕ → List MempoolInput → Spends → Spends
spender_inputs funding id i [] acc = acc
spender_inputs funding id i (v ∷ vin) (hashes, vin_inds, vout_inds) =
    let found =
      spender_inputs funding id (i + 1) vin
        (hashes ++ id ∷ [], vin_inds ++ i % 2 ^ 32 ∷ [], vout_inds ++ v.outdex ∷ []) in
    let pass = spender_inputs funding id (i + 1) vin (hashes, vin_inds, vout_inds) in
    if v.tx_id == funding then found else pass

pub spender_txs : ℕ → List MempoolTx → Spends → Spends
spender_txs funding [] acc = acc
spender_txs funding (tx ∷ txs) acc =
    spender_txs funding txs (spender_inputs funding tx.tx_id 0 tx.vin acc)

module _ {Fee Info Details : Type 0} where
  pub spenders : ℕ → DataCache Fee Info Details → Spends
  spenders funding c = spender_txs funding c.txns ([], [], [])
