-- ===== src/AddressCache/Rows.antt =====
-- What StoreRowsCompact leaves for the address, for the others, and of the row capacity.
use monetarium_explorer.Prelude.{
  ℕ, ◌≤◌, ◌≡◌, refl, ◌∙◌, true, false, List, none, some, length, ◌==◌, arith, Bool-cases, ◌⊎◌, inl,
  inr,
}
use monetarium_explorer.AssocMap.{lookup, put, total, lookup-put, total-put}
use monetarium_explorer.AddressRows.{AddressRowCompact}
use monetarium_explorer.AddressRows.Item.{AddressCacheItem, BlockId}
use monetarium_explorer.AddressCache.{
  AddressCache, num_rows, is_off, add_cache_item, blank_item, store_rows_compact,
  set_cache_item_rows, if_space, purge_rows_to_fit,
}
use monetarium_explorer.AddressCache.Purge.{purge_rows_to_fit-fits}
use monetarium_explorer.AddressCache.Store.{purged_lookup, on-positive, on-rows}

module _ {Balance Output History : Type 0}
    (pick : List (ℕ × AddressCacheItem Balance Output History) → ℕ) (no_history : History) where
  -- The item of an address that is not cached, within the row capacity.
  add_cache_item_new :
      (addr : ℕ) (item : AddressCacheItem Balance Output History)
      (ac : AddressCache Balance Output History)
      → is_off ac ≡ false
      → lookup addr ac.a ≡ none
      → num_rows item ≤ ac.cap
      → (t : AddressCache Balance Output History) × (add_cache_item pick no_history addr item ac
          ≡ (t, true))
        × (lookup addr t.a ≡ some item)
        × (total num_rows t.a ≤ ac.cap)
        × ((i : ℕ) → (lookup i t.a ≡ none) ⊎ (lookup i t.a ≡ lookup i (put addr item ac.a)))
  unfolding add_cache_item if_space
  add_cache_item_new addr item ac on absent fits =
      let purged = purge_rows_to_fit pick num_rows ac.cap ac.cap_addr (num_rows item) 0 ac.a in
      let (space, room, within) =
        purge_rows_to_fit-fits pick num_rows ac.cap ac.cap_addr (num_rows item) 0 ac.a
          (on-rows ac on) (on-positive ac on) in
      let enough : purged.0 ≡ true = space ∙ ground arith in
      let others = purged_lookup pick num_rows ac.cap ac.cap_addr (num_rows item) 0 ac.a in
      let gone : lookup addr purged.1 ≡ none = elim (others addr) [
        | inl e ↦ e
        | inr e ↦ e ∙ absent
      ] in
      let self : (addr == addr) ≡ true = ground arith in
      (
        record ac { a = put addr item purged.1 },
        rw on (rw absent (rw enough refl)),
        lookup-put addr addr item purged.1 ∙ rw self refl,
        omega (arith, total-put num_rows addr item purged.1 gone, within, fits),
        λ i.
            rw (lookup-put i addr item purged.1, lookup-put i addr item ac.a)
              (elim (Bool-cases (i == addr)) [ inl f ↦ rw f (inr refl) | inr f ↦ rw f (others i) ]),
      )

  -- Rows for an address that is not cached, no more of them than the row capacity, in a cache that is
  -- on: they are stored and found again with the block; all cached rows together are within the
  -- capacity; every address has the item that it would have with nothing purged, or none.
  pub store_rows_compact_new :
      (addr : ℕ) (rows : List AddressRowCompact) (block : BlockId)
      (ac : AddressCache Balance Output History)
      → is_off ac ≡ false
      → lookup addr ac.a ≡ none
      → length rows ≤ ac.cap
      → (t : AddressCache Balance Output History) × (store_rows_compact pick no_history addr
            (some rows)
            (some block)
            ac
          ≡ (t, true))
        × (lookup addr t.a ≡ some (record (blank_item pick no_history block) { rows = some rows }))
        × (total num_rows t.a ≤ ac.cap)
        × ((i : ℕ)
            → (lookup i t.a ≡ none)
              ⊎ (lookup i t.a
                  ≡ lookup i (
                      put addr
                        (record (blank_item pick no_history block) { rows = some rows })
                        ac.a)))
  unfolding store_rows_compact set_cache_item_rows num_rows
  store_rows_compact_new addr rows block ac on absent fits =
      let item = record (blank_item pick no_history block) { rows = some rows } in
      let (t, added, hit, within, others) = add_cache_item_new addr item ac on absent fits in
      (t, rw on (rw absent added), hit, within, others)
