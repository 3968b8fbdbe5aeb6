-- ===== src/AddressCache/History.antt =====
-- The cache over its life: the calls that store and clear, in any order, each with any order of the
-- map.
use monetarium_explorer.Prelude.{
  ℕ, ◌+◌, ◌≤◌, ◌≡◌, refl, ◌∙◌, List, [], ◌∷◌, Option, none, some, length, arith, Option-cases, inl,
  inr,
}
use monetarium_explorer.HashSet.{IsDistinct}
use monetarium_explorer.AssocMap.{keys, lookup, erase, erase-IsDistinct, length-erase_at_most}
use monetarium_explorer.AddressRows.{AddressRowCompact}
use monetarium_explorer.AddressRows.Item.{AddressCacheItem, BlockId}
use monetarium_explorer.AddressCache.{
  AddressCache, new_address_cache, store_rows_compact, store_balance, store_utxos, clear_utxos,
  clear_rows, clear_loop, clear, clear_all,
}
use monetarium_explorer.AddressCache.Store.{
  IsWithin, modify-IsBounded, store_rows_compact-IsWithin, store_balance-IsWithin,
  store_utxos-IsWithin,
}
use monetarium_explorer.AddressCache.Capacity.{
  store_rows_compact-cap_addr, store_balance-cap_addr, store_utxos-cap_addr, clear-cap_addr,
}

module _ {Balance Output History : Type 0} where
  -- The cache after one call.
  pub data CacheCall (ac : AddressCache Balance Output History)
      : AddressCache Balance Output History → Type 0 where
    stores_rows :
        (pick : List (ℕ × AddressCacheItem Balance Output History) → ℕ) (no_history : History)
        (addr : ℕ) (rows : Option (List AddressRowCompact)) (block : Option BlockId)
        → CacheCall ac (store_rows_compact pick no_history addr rows block ac).0
    stores_balance :
        (pick : List (ℕ × AddressCacheItem Balance Output History) → ℕ) (no_history : History)
        (zero_balance : ℕ → Balance) (addr : ℕ) (balance : Option Balance) (block : Option BlockId)
        → CacheCall ac (store_balance pick no_history zero_balance addr balance block ac).0
    stores_utxos :
        (pick : List (ℕ × AddressCacheItem Balance Output History) → ℕ) (no_history : History)
        (addr : ℕ) (utxos : Option (List Output)) (block : Option BlockId)
        → CacheCall ac (store_utxos pick no_history addr utxos block ac).0
    clears_rows :
        (pick : List (ℕ × AddressCacheItem Balance Output History) → ℕ) (no_history : History)
        (addr : ℕ)
        → CacheCall ac (clear_rows pick no_history addr ac)
    clears_utxos :
        (pick : List (ℕ × AddressCacheItem Balance Output History) → ℕ) (no_history : History)
        (addr : ℕ)
        → CacheCall ac (clear_utxos pick no_history addr ac)
    clears : (addrs : Option (List ℕ)) → CacheCall ac (clear addrs ac).0

  -- The states of a cache with the given capacities.
  pub data CacheReach (rows addrs bytes : ℕ) : AddressCache Balance Output History → Type 0 where
    begin : CacheReach rows addrs bytes (new_address_cache rows addrs bytes)
    after :
        {ac t : AddressCache Balance Output History}
        → CacheReach rows addrs bytes ac
        → CacheCall ac t
        → CacheReach rows addrs bytes t

  clear_loop-IsWithin :
      (addrs : List ℕ) (n : ℕ) (ac : AddressCache Balance Output History)
      → IsWithin ac
      → IsWithin (clear_loop addrs n ac).0
  unfolding clear_loop
  clear_loop-IsWithin [] n ac b = b
  clear_loop-IsWithin (addr ∷ addrs) n ac b = elim (Option-cases (lookup addr ac.a)) [
    | inl e ↦ rw (e, clear_loop) (clear_loop-IsWithin addrs n ac b)
    | inr (item, e) ↦
        rw (e, clear_loop)
          (clear_loop-IsWithin addrs (n + 1) (record ac { a = erase addr ac.a })
            (record {
              once = erase-IsDistinct addr ac.a b.once;
              few = omega (arith, length-erase_at_most addr ac.a, b.few);
            }))
  ]

  clear-IsWithin :
      (addrs : Option (List ℕ)) (ac : AddressCache Balance Output History)
      → IsWithin ac
      → IsWithin (clear addrs ac).0
  unfolding clear clear_all
  clear-IsWithin none ac b = record { once = tt; few = omega arith }
  clear-IsWithin (some addrs) ac b = clear_loop-IsWithin addrs 0 ac b

  CacheCall-IsWithin :
      {ac t : AddressCache Balance Output History} → CacheCall ac t → IsWithin ac → IsWithin t
  unfolding clear_rows clear_utxos
  CacheCall-IsWithin {ac} (stores_rows pick no_history addr rows block) b =
      store_rows_compact-IsWithin pick no_history addr rows block ac b
  CacheCall-IsWithin {ac} (stores_balance pick no_history zero_balance addr balance block) b =
      store_balance-IsWithin pick no_history zero_balance addr balance block ac b
  CacheCall-IsWithin {ac} (stores_utxos pick no_history addr utxos block) b =
      store_utxos-IsWithin pick no_history addr utxos block ac b
  CacheCall-IsWithin {ac} (clears_rows pick no_history addr) b =
      modify-IsBounded addr ac.cap_addr _ ac.a b
  CacheCall-IsWithin {ac} (clears_utxos pick no_history addr) b =
      modify-IsBounded addr ac.cap_addr _ ac.a b
  CacheCall-IsWithin {ac} (clears addrs) b = clear-IsWithin addrs ac b

  CacheCall-cap_addr :
      {ac t : AddressCache Balance Output History} → CacheCall ac t → t.cap_addr ≡ ac.cap_addr
  unfolding clear_rows clear_utxos
  CacheCall-cap_addr {ac} (stores_rows pick no_history addr rows block) =
      store_rows_compact-cap_addr pick no_history addr rows block ac
  CacheCall-cap_addr {ac} (stores_balance pick no_history zero_balance addr balance block) =
      store_balance-cap_addr pick no_history zero_balance addr balance block ac
  CacheCall-cap_addr {ac} (stores_utxos pick no_history addr utxos block) =
      store_utxos-cap_addr pick no_history addr utxos block ac
  CacheCall-cap_addr (clears_rows pick no_history addr) = refl
  CacheCall-cap_addr (clears_utxos pick no_history addr) = refl
  CacheCall-cap_addr {ac} (clears addrs) = clear-cap_addr addrs ac

  CacheReach-IsWithin :
      (rows addrs bytes : ℕ) {ac : AddressCache Balance Output History}
      → CacheReach rows addrs bytes ac
      → IsWithin ac × (ac.cap_addr ≡ addrs)
  unfolding new_address_cache
  CacheReach-IsWithin rows addrs bytes begin = (record { once = tt; few = omega arith }, refl)
  CacheReach-IsWithin rows addrs bytes (after r c) =
      let (b, e) = CacheReach-IsWithin rows addrs bytes r in
      (CacheCall-IsWithin c b, CacheCall-cap_addr c ∙ e)

  -- A cache that was made for at most `addrs` addresses, after any sequence of stored rows, balances
  -- and outputs, and of cleared rows, outputs and addresses, whatever the order of the map in each
  -- call: every address is in it once, and there are at most `addrs` of them.
  pub CacheReach-bounded :
      (rows addrs bytes : ℕ) (ac : AddressCache Balance Output History)
      → CacheReach rows addrs bytes ac
      → (length ac.a ≤ addrs) × IsDistinct (keys ac.a)
  CacheReach-bounded rows addrs bytes ac r =
      let (b, e) = CacheReach-IsWithin rows addrs bytes r in (omega (arith, b.few, e), b.once)
