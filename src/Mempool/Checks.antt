-- ===== src/Mempool/Checks.antt =====
-- A mempool of two transactions and three fees.
use monetarium_explorer.Prelude.{ℕ, ◌≡◌, [], ◌∷◌}
use monetarium_explorer.Prelude.Int.{pos}
use monetarium_explorer.Mempool.{DataCache, spenders}
use monetarium_explorer.Mempool.Spending.{columns, from_tx, all_inputs, spenders_lem}

abbrev sample_mempool : DataCache ℕ Unit ℕ
sample_mempool = record {
  height = 9;
  hash = 99;
  timestamp = pos 100;
  txns =
      record {
        tx_id = 5;
        vin = record { tx_id = 1; outdex = 0 } ∷ record { tx_id = 2; outdex = 3 } ∷ [];
      }
      ∷ record { tx_id = 6; vin = record { tx_id = 2; outdex = 4 } ∷ [] }
      ∷ [];
  num_tickets = 3;
  ticket_fee_info = tt;
  all_fees = 10 ∷ 20 ∷ 30 ∷ [];
  all_fee_rates = 1 ∷ 2 ∷ 3 ∷ [];
  lowest_mineable_by_fee_rate = 1;
  all_tickets_details = 7 ∷ 8 ∷ [];
  stake_diff = pos 40;
}

spenders_lem_example :
    spenders 2 sample_mempool ≡ columns (from_tx 2 (all_inputs sample_mempool.txns))
spenders_lem_example = spenders_lem 2 sample_mempool
