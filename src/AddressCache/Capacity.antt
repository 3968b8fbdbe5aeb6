-- ===== src/AddressCache/Capacity.antt =====
-- No method changes the capacities.
use monetarium_explorer.Prelude.{
  ℕ, ◌+◌, ◌≡◌, refl, Bool, ◌&&◌, ◌||◌, List, [], ◌∷◌, Option, none, some, length, ltb, ◌==◌, arith,
  Bool-cases, Option-cases, inl, inr,
}
use monetarium_explorer.AssocMap.{lookup, erase}
use monetarium_explorer.AddressRows.{AddressRowCompact}
use monetarium_explorer.AddressRows.Slices.{rows_of}
use monetarium_explorer.AddressRows.Item.{AddressCacheItem, BlockId}
use monetarium_explorer.AddressCache.{
  AddressCache, num_rows, is_set, is_off, if_space, add_cache_item, update_rows,
  set_cache_item_rows, store_rows_compact, store_balance, store_utxos, clear_loop, clear, clear_all,
}

module _ {Balance Output History : Type 0} where
  if_space-cap_addr :
      (store : List (ℕ × AddressCacheItem Balance Output History)
        → List (ℕ × AddressCacheItem Balance Output History))
      (ac : AddressCache Balance Output History)
      (purged : Bool × List (ℕ × AddressCacheItem Balance Output History))
      → (if_space store ac purged).0.cap_addr ≡ ac.cap_addr
  unfolding if_space
  if_space-cap_addr store ac (space, left) = ground arith

  module _ (pick : List (ℕ × AddressCacheItem Balance Output History) → ℕ)
      (no_history : History) where
    add_cache_item-cap_addr :
        (addr : ℕ) (item : AddressCacheItem Balance Output History)
        (ac : AddressCache Balance Output History)
        → (add_cache_item pick no_history addr item ac).0.cap_addr ≡ ac.cap_addr
    unfolding add_cache_item
    add_cache_item-cap_addr addr item ac = elim (Bool-cases (is_off ac)) [
      | inl e ↦ rw e refl
      | inr e ↦ rw e (if_space-cap_addr _ ac _)
    ]

    pub store_rows_compact-cap_addr :
        (addr : ℕ) (rows : Option (List AddressRowCompact)) (block : Option BlockId)
        (ac : AddressCache Balance Output History)
        → (store_rows_compact pick no_history addr rows block ac).0.cap_addr ≡ ac.cap_addr
    unfolding store_rows_compact set_cache_item_rows update_rows
    store_rows_compact-cap_addr addr rows none ac = refl
    store_rows_compact-cap_addr addr rows (some block) ac = elim (Bool-cases (is_off ac)) [
      | inl e ↦ rw e refl
      | inr e ↦ elim (Option-cases (lookup addr ac.a)) [
        | inl f ↦ rw e (rw f (add_cache_item-cap_addr addr _ ac))
        | inr (item, f) ↦ elim (Bool-cases (item.hash == block.hash)) [
          | inr g ↦ rw e (rw (f, g) (add_cache_item-cap_addr addr _ ac))
          | inl g ↦ rw e (
              rw (f, g)
                (elim (Bool-cases (is_set item.rows && num_rows item == length (rows_of rows))) [
                  | inl h ↦ rw h refl
                  | inr h ↦ rw h (if_space-cap_addr _ ac _)
                ]))
        ]
      ]
    ]

    pub store_balance-cap_addr :
        (zero_balance : ℕ → Balance) (addr : ℕ) (balance : Option Balance) (block : Option BlockId)
        (ac : AddressCache Balance Output History)
        → (store_balance pick no_history zero_balance addr balance block ac).0.cap_addr
          ≡ ac.cap_addr
    unfolding store_balance
    store_balance-cap_addr zero_balance addr balance none ac = refl
    store_balance-cap_addr zero_balance addr balance (some block) ac =
        elim (Bool-cases (is_off ac)) [
          | inl o ↦ rw o refl
          | inr o ↦ elim (Option-cases (lookup addr ac.a)) [
            | inl e ↦ rw (o, e) (add_cache_item-cap_addr addr _ ac)
            | inr (item, e) ↦ elim (Bool-cases (item.hash == block.hash)) [
              | inl f ↦ rw (o, e, f) refl
              | inr f ↦ rw (o, e, f) (add_cache_item-cap_addr addr _ ac)
            ]
          ]
        ]

    pub store_utxos-cap_addr :
        (addr : ℕ) (utxos : Option (List Output)) (block : Option BlockId)
        (ac : AddressCache Balance Output History)
        → (store_utxos pick no_history addr utxos block ac).0.cap_addr ≡ ac.cap_addr
    unfolding store_utxos
    store_utxos-cap_addr addr utxos none ac = refl
    store_utxos-cap_addr addr utxos (some block) ac =
        elim (Bool-cases (is_off ac || ltb ac.max_utxos_per_addr (length (rows_of utxos)))) [
          | inl o ↦ rw o refl
          | inr o ↦ rw o (elim (Option-cases (lookup addr ac.a)) [
            | inl e ↦ rw e (add_cache_item-cap_addr addr _ ac)
            | inr (item, e) ↦ rw e refl
          ])
        ]

  clear_loop-cap_addr :
      (addrs : List ℕ) (n : ℕ) (ac : AddressCache Balance Output History)
      → (clear_loop addrs n ac).0.cap_addr ≡ ac.cap_addr
  unfolding clear_loop
  clear_loop-cap_addr [] n ac = refl
  clear_loop-cap_addr (addr ∷ addrs) n ac = elim (Option-cases (lookup addr ac.a)) [
    | inl e ↦ rw (e, clear_loop) (clear_loop-cap_addr addrs n ac)
    | inr (item, e) ↦
        rw (e, clear_loop) (clear_loop-cap_addr addrs (n + 1) (record ac { a = erase addr ac.a }))
  ]

  pub clear-cap_addr :
      (addrs : Option (List ℕ)) (ac : AddressCache Balance Output History)
      → (clear addrs ac).0.cap_addr ≡ ac.cap_addr
  unfolding clear clear_all
  clear-cap_addr none ac = refl
  clear-cap_addr (some addrs) ac = clear_loop-cap_addr addrs 0 ac
