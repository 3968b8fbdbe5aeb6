-- ===== src/AddressCache/Checks.antt =====
-- A small cache: two addresses and three rows at most.
use monetarium_explorer.Prelude.{
  ℕ, ◌+◌, ◌≤◌, ◌<◌, ◌≡◌, refl, true, List, [], ◌∷◌, none, some, length, leb, arith, ◌⊎◌,
}
use monetarium_explorer.Prelude.Int.{pos}
use monetarium_explorer.HashSet.{IsDistinct}
use monetarium_explorer.AssocMap.{keys, lookup, put, total}
use monetarium_explorer.AddressRows.{AddressRowCompact}
use monetarium_explorer.AddressRows.Item.{AddressCacheItem, BlockId}
use monetarium_explorer.AddressCache.{
  AddressCache, num_rows, is_off, blank_item, store_rows_compact, purge_rows_to_fit,
  new_address_cache,
}
use monetarium_explorer.AddressCache.Purge.{purge_rows_to_fit-fits}
use monetarium_explorer.AddressCache.Rows.{store_rows_compact_new}
use monetarium_explorer.AddressCache.History.{begin, after, stores_rows, CacheReach-bounded}

abbrev row : ℕ → AddressRowCompact
row tx = record {
  address = 1;
  tx_block_time = pos 100;
  tx_hash = tx;
  matching_tx_hash = none;
  tx_vin_vout_index = 0;
  tx_type = pos 0;
  valid_main_chain = true;
  is_funding = true;
  value = 5;
  coin_type = 0;
  ska_value = [];
}

abbrev block : BlockId
block = record { hash = 44; height = pos 4 }

abbrev UnitItem : Type 0
UnitItem = AddressCacheItem Unit Unit Unit

abbrev first_entry : List (ℕ × UnitItem) → ℕ
first_entry m = 0

abbrev empty_cache : AddressCache Unit Unit Unit
empty_cache = record { a = []; cap = 3; cap_addr = 2; max_utxos_per_addr = 1 }

purge_rows_to_fit-fits_example :
    ((purge_rows_to_fit (λ m. 1) (λ v. v) 9 2 4 0 ((1, 5) ∷ (2, 6) ∷ [])).0 ≡ leb 4 (9 + 0))
    × (length (purge_rows_to_fit (λ m. 1) (λ v. v) 9 2 4 0 ((1, 5) ∷ (2, 6) ∷ [])).1 < 2)
    × ((total (λ v. v) (purge_rows_to_fit (λ m. 1) (λ v. v) 9 2 4 0 ((1, 5) ∷ (2, 6) ∷ [])).1 ≡ 0)
        ⊎ (total (λ v. v) (purge_rows_to_fit (λ m. 1) (λ v. v) 9 2 4 0 ((1, 5) ∷ (2, 6) ∷ [])).1 + 4
            ≤ 9 + 0))
purge_rows_to_fit-fits_example =
    purge_rows_to_fit-fits (λ m. 1) (λ v. v) 9 2 4 0 ((1, 5) ∷ (2, 6) ∷ []) (omega arith)
      (omega arith)

store_rows_compact_new_example :
    (t : AddressCache Unit Unit Unit) × (store_rows_compact first_entry tt 7
        (some (row 1 ∷ row 2 ∷ []))
        (some block)
        empty_cache
      ≡ (t, true))
    × (lookup 7 t.a
        ≡ some (record (blank_item first_entry tt block) { rows = some (row 1 ∷ row 2 ∷ []) }))
    × (total num_rows t.a ≤ empty_cache.cap)
    × ((i : ℕ)
        → (lookup i t.a ≡ none)
          ⊎ (lookup i t.a
              ≡ lookup i (
                  put 7
                    (record (blank_item first_entry tt block) { rows = some (row 1 ∷ row 2 ∷ []) })
                    empty_cache.a)))
unfolding is_off lookup
store_rows_compact_new_example =
    store_rows_compact_new first_entry tt 7 (row 1 ∷ row 2 ∷ []) block empty_cache refl refl
      (omega arith)

abbrev cache_with_rows : AddressCache Unit Unit Unit
cache_with_rows =
    (store_rows_compact first_entry tt 7 (some (row 1 ∷ [])) (some block)
      (new_address_cache 3 2 100)).0

CacheReach-bounded_example : (length cache_with_rows.a ≤ 2) × IsDistinct (keys cache_with_rows.a)
CacheReach-bounded_example =
    CacheReach-bounded 3 2 100 cache_with_rows
      (after begin (stores_rows first_entry tt 7 (some (row 1 ∷ [])) (some block)))
