-- ===== src/AddressCache/Store.antt =====
-- What the methods that store and clear do to the cache.
use monetarium_explorer.Prelude.{
  ℕ, ◌<◌, ◌≤◌, ◌≡◌, refl, false, ◌&&◌, ◌||◌, List, Option, none, some, length, ltb, ◌==◌, arith,
  Bool-cases, Option-cases, ◌⊎◌, inl, inr,
}
use monetarium_explorer.HashSet.{IsDistinct}
use monetarium_explorer.AssocMap.{
  lookup, put, keys, lookup-erase, lookup-keys, length-put, length-erase_at_most, put-IsDistinct,
  erase-IsDistinct,
}
use monetarium_explorer.AddressRows.{AddressRowCompact}
use monetarium_explorer.AddressRows.Slices.{rows_of}
use monetarium_explorer.AddressRows.Item.{AddressCacheItem, BlockId}
use monetarium_explorer.AddressCache.{
  AddressCache, num_rows, is_off, add_cache_item, modify, update_rows, set_cache_item_rows,
  store_rows_compact, purge_rows_to_fit, store_balance, store_utxos, is_set, if_space,
}
use monetarium_explorer.AddressCache.Purge.{purge_rows_to_fit-keeps, purge_rows_to_fit-fits}

-- A map of items that holds each address once, and at most so many of them.
pub record IsBounded {V : Type 0} (m : List (ℕ × V)) (most : ℕ) : Type 0 where
  pub once : IsDistinct (keys m)
  pub few : length m ≤ most

module _ {V : Type 0} where
  pub purged-IsBounded :
      (pick : List (ℕ × V) → ℕ) (size : V → ℕ) (row_cap cap_addr new old most : ℕ)
      (m : List (ℕ × V))
      → IsBounded m most
      → IsBounded (purge_rows_to_fit pick size row_cap cap_addr new old m).1 most
  purged-IsBounded pick size row_cap cap_addr new old most m b =
      purge_rows_to_fit-keeps (λ n. IsBounded n most)
        (λ k n c. record {
          once = erase-IsDistinct k n c.once;
          few = omega (arith, length-erase_at_most k n, c.few);
        })
        pick size row_cap cap_addr new old m b

  -- Other entries are deleted or kept as they are.
  pub purged_lookup :
      (pick : List (ℕ × V) → ℕ) (size : V → ℕ) (row_cap cap_addr new old : ℕ) (m : List (ℕ × V))
      (i : ℕ)
      → (lookup i (purge_rows_to_fit pick size row_cap cap_addr new old m).1 ≡ none)
        ⊎ (lookup i (purge_rows_to_fit pick size row_cap cap_addr new old m).1 ≡ lookup i m)
  purged_lookup pick size row_cap cap_addr new old m i =
      purge_rows_to_fit-keeps (λ n. (lookup i n ≡ none) ⊎ (lookup i n ≡ lookup i m))
        (λ k n c. ground (arith, lookup-erase i k n)) pick size row_cap cap_addr new old m
        (inr refl)

  put-IsBounded :
      (k : ℕ) (v : V) (most : ℕ) (m : List (ℕ × V))
      → IsBounded m most
      → length m < most
      → IsBounded (put k v m) most
  put-IsBounded k v most m b room = record {
    once = put-IsDistinct k v m b.once;
    few = ground (arith, length-put k v m);
  }

module _ {Balance Output History : Type 0} where
  pub modify-IsBounded :
      (addr most : ℕ)
      (f : AddressCacheItem Balance Output History → AddressCacheItem Balance Output History)
      (m : List (ℕ × AddressCacheItem Balance Output History))
      → IsBounded m most
      → IsBounded (modify addr f m) most
  unfolding modify
  modify-IsBounded addr most f m b = elim (Option-cases (lookup addr m)) [
    | inl e ↦ rw (e, modify) b
    | inr (v, e) ↦
        rw (e, modify)
          record {
            once = put-IsDistinct addr (f v) m b.once;
            few = ground (arith, length-put addr (f v) m, lookup-keys addr v m e, b.few);
          }
  ]

  -- The cache holds each address once, and no more of them than its capacity.
  abbrev pub IsWithin : AddressCache Balance Output History → Type 0
  IsWithin ac = IsBounded ac.a ac.cap_addr

  pub on-positive : (ac : AddressCache Balance Output History) → is_off ac ≡ false → 0 < ac.cap_addr
  unfolding is_off
  on-positive ac e = ground arith

  pub on-rows : (ac : AddressCache Balance Output History) → is_off ac ≡ false → 0 < ac.cap
  unfolding is_off
  on-rows ac e = ground arith

  module _ (pick : List (ℕ × AddressCacheItem Balance Output History) → ℕ)
      (no_history : History) where
    if_space-IsWithin :
        (store : List (ℕ × AddressCacheItem Balance Output History)
          → List (ℕ × AddressCacheItem Balance Output History))
        (new old : ℕ) (ac : AddressCache Balance Output History)
        → ((m : List (ℕ × AddressCacheItem Balance Output History))
            → IsBounded m ac.cap_addr
            → length m < ac.cap_addr
            → IsBounded (store m) ac.cap_addr)
        → is_off ac ≡ false
        → IsWithin ac
        → IsWithin
            (if_space store ac (purge_rows_to_fit pick num_rows ac.cap ac.cap_addr new old ac.a)).0
    unfolding if_space
    if_space-IsWithin store new old ac bounded on b =
        let purged = purge_rows_to_fit pick num_rows ac.cap ac.cap_addr new old ac.a in
        let left = purged-IsBounded pick num_rows ac.cap ac.cap_addr new old ac.cap_addr ac.a b in
        let (_, room, _) =
          purge_rows_to_fit-fits pick num_rows ac.cap ac.cap_addr new old ac.a (on-rows ac on)
            (on-positive ac on) in
        elim (Bool-cases purged.0) [ inl f ↦ rw f (bounded purged.1 left room) | inr f ↦ rw f left ]

    pub add_cache_item-IsWithin :
        (addr : ℕ) (item : AddressCacheItem Balance Output History)
        (ac : AddressCache Balance Output History)
        → IsWithin ac
        → IsWithin (add_cache_item pick no_history addr item ac).0
    unfolding add_cache_item
    add_cache_item-IsWithin addr item ac b = elim (Bool-cases (is_off ac)) [
      | inl e ↦ rw e b
      | inr e ↦ rw e (
          if_space-IsWithin (λ m. put addr item m) _ _ ac
            (λ m c room. put-IsBounded addr item ac.cap_addr m c room) e b)
    ]

    update_rows-IsWithin :
        (addr : ℕ) (rows : List AddressRowCompact) (item : AddressCacheItem Balance Output History)
        (ac : AddressCache Balance Output History)
        → is_off ac ≡ false
        → IsWithin ac
        → IsWithin (update_rows pick no_history addr rows item ac).0
    unfolding update_rows
    update_rows-IsWithin addr rows item ac on b =
        elim (Bool-cases (is_set item.rows && num_rows item == length rows)) [
          | inl e ↦ rw e b
          | inr e ↦ rw e (
              if_space-IsWithin _ _ _ ac (λ m c room. modify-IsBounded addr ac.cap_addr _ m c) on b)
        ]

    set_cache_item_rows-IsWithin :
        (addr : ℕ) (rows : List AddressRowCompact) (block : BlockId)
        (ac : AddressCache Balance Output History)
        → is_off ac ≡ false
        → IsWithin ac
        → IsWithin (set_cache_item_rows pick no_history addr rows block ac).0
    unfolding set_cache_item_rows
    set_cache_item_rows-IsWithin addr rows block ac on b = elim (Option-cases (lookup addr ac.a)) [
      | inl e ↦ rw (on, e) (add_cache_item-IsWithin addr _ ac b)
      | inr (item, e) ↦ elim (Bool-cases (item.hash == block.hash)) [
        | inl f ↦ rw (on, e, f) (update_rows-IsWithin addr rows item ac on b)
        | inr f ↦ rw (on, e, f) (add_cache_item-IsWithin addr _ ac b)
      ]
    ]

    pub store_rows_compact-IsWithin :
        (addr : ℕ) (rows : Option (List AddressRowCompact)) (block : Option BlockId)
        (ac : AddressCache Balance Output History)
        → IsWithin ac
        → IsWithin (store_rows_compact pick no_history addr rows block ac).0
    unfolding store_rows_compact
    store_rows_compact-IsWithin addr rows none ac b = b
    store_rows_compact-IsWithin addr rows (some block) ac b = elim (Bool-cases (is_off ac)) [
      | inl e ↦ rw e b
      | inr e ↦ rw e (set_cache_item_rows-IsWithin addr (rows_of rows) block ac e b)
    ]

    pub store_balance-IsWithin :
        (zero_balance : ℕ → Balance) (addr : ℕ) (balance : Option Balance) (block : Option BlockId)
        (ac : AddressCache Balance Output History)
        → IsWithin ac
        → IsWithin (store_balance pick no_history zero_balance addr balance block ac).0
    unfolding store_balance
    store_balance-IsWithin zero_balance addr balance none ac b = b
    store_balance-IsWithin zero_balance addr balance (some block) ac b =
        elim (Bool-cases (is_off ac)) [
          | inl o ↦ rw o b
          | inr o ↦ elim (Option-cases (lookup addr ac.a)) [
            | inl e ↦ rw (o, e) (add_cache_item-IsWithin addr _ ac b)
            | inr (item, e) ↦ elim (Bool-cases (item.hash == block.hash)) [
              | inl f ↦ rw (o, e, f) (modify-IsBounded addr ac.cap_addr _ ac.a b)
              | inr f ↦ rw (o, e, f) (add_cache_item-IsWithin addr _ ac b)
            ]
          ]
        ]

    pub store_utxos-IsWithin :
        (addr : ℕ) (utxos : Option (List Output)) (block : Option BlockId)
        (ac : AddressCache Balance Output History)
        → IsWithin ac
        → IsWithin (store_utxos pick no_history addr utxos block ac).0
    unfolding store_utxos
    store_utxos-IsWithin addr utxos none ac b = b
    store_utxos-IsWithin addr utxos (some block) ac b =
        elim (Bool-cases (is_off ac || ltb ac.max_utxos_per_addr (length (rows_of utxos)))) [
          | inl o ↦ rw o b
          | inr o ↦ rw o (elim (Option-cases (lookup addr ac.a)) [
            | inl e ↦ rw e (add_cache_item-IsWithin addr _ ac b)
            | inr (item, e) ↦ rw e (modify-IsBounded addr ac.cap_addr _ ac.a b)
          ])
        ]
