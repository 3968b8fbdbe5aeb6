-- ===== src/AddressCache.antt =====
-- db/cache/addresscache.go: AddressCache, its store of items, and the purge that keeps it within
-- capacity. The methods are the bodies that run under `ac.mtx`. Capacities are numbers, with 0 for
-- any below 1, which switches the cache off. Hit and miss counters, log lines and history charts are
-- left out. A Go map gives its entries in any order: `pick` stands for the choice that `range` makes,
-- as the position, modulo their number, among the entries of which the first is deleted.
pub mod Purge
pub mod Store
pub mod Rows
pub mod Capacity
pub mod History
mod Checks
use monetarium_explorer.Prelude.{
  ℕ, zero, suc, ◌+◌, ◌%◌, ◌/◌, Bool, true, false, ◌||◌, ◌&&◌, not, List, [], ◌∷◌, Option, none,
  some, length, get_elem?, keep, ltb, leb, ◌==◌, if◌then◌else◌,
}
use monetarium_explorer.AssocMap.{lookup, put, erase, total}
use monetarium_explorer.AddressRows.{AddressRow, AddressRowCompact}
use monetarium_explorer.AddressRows.Slices.{rows_of}
use monetarium_explorer.AddressRows.Merge.{compact_rows}
use monetarium_explorer.AddressRows.Item.{AddressCacheItem, BlockId}

abbrev pub key_of {ℓ} : {V : Type ℓ} → Option (ℕ × V) → Option ℕ
key_of none = none
key_of (some (k, v)) = some k

module _ {V : Type 0} where
  -- The key of the entry that `range` comes to first among those that pass the test.
  pub victim : (List (ℕ × V) → ℕ) → (V → Bool) → List (ℕ × V) → Option ℕ
  victim pick ok m =
      let candidates = keep (λ e. ok e.1) m in
      key_of (get_elem? candidates (pick m % length candidates))

  -- `for addrsCached >= ac.capAddr`
  pub purge_addrs : (List (ℕ × V) → ℕ) → ℕ → ℕ → List (ℕ × V) → List (ℕ × V)
  purge_addrs pick cap_addr zero m = m
  purge_addrs pick cap_addr (suc fuel) m =
      let rest : List (ℕ × V) = elim (victim pick (λ v. true) m) [
        | none ↦ m
        | some k ↦ purge_addrs pick cap_addr fuel (erase k m)
      ] in
      if leb cap_addr (length m) then rest else m

  -- `for cacheSize > 0 && cacheSize+numRows > ac.cap`, where numRows is `new - old`, with the negative
  -- term moved across.
  pub purge_rows : (List (ℕ × V) → ℕ) → (V → ℕ) → ℕ → ℕ → ℕ → ℕ → List (ℕ × V) → List (ℕ × V)
  purge_rows pick size row_cap new old zero m = m
  purge_rows pick size row_cap new old (suc fuel) m =
      let rest : List (ℕ × V) = elim (victim pick (λ v. not (size v == 0)) m) [
        | none ↦ m
        | some k ↦ purge_rows pick size row_cap new old fuel (erase k m)
      ] in
      if not (total size m == 0) && ltb (row_cap + old) (total size m + new) then rest else m

  -- purgeRowsToFit on the map: whether there is space, and what is left. Each round deletes an entry, so
  -- the map's length is fuel enough. A capacity of 0 stands for every one below 1.
  pub purge_rows_to_fit :
      (List (ℕ × V) → ℕ) → (V → ℕ) → ℕ → ℕ → ℕ → ℕ → List (ℕ × V) → Bool × List (ℕ × V)
  purge_rows_to_fit pick size row_cap cap_addr new old m =
      let m1 = purge_addrs pick cap_addr (length m) m in
      let m2 = purge_rows pick size row_cap new old (length m1) m1 in
      if ltb row_cap 1 || ltb cap_addr 1
      then (false, m)
      else (leb (total size m2 + new) (row_cap + old) && ltb (length m2) cap_addr, m2)

pub record AddressCache (Balance Output History : Type 0) : Type 0 where
  pub a : List (ℕ × AddressCacheItem Balance Output History)
  pub cap : ℕ
  pub cap_addr : ℕ
  pub max_utxos_per_addr : ℕ

abbrev pub is_set : Option (List AddressRowCompact) → Bool
is_set none = false
is_set (some rows) = true

module _ {Balance Output History : Type 0} where
  pub num_rows : AddressCacheItem Balance Output History → ℕ
  num_rows item = length (rows_of item.rows)

  pub num_utxos : AddressCacheItem Balance Output History → ℕ
  num_utxos item = length (rows_of item.utxos)

  -- approxTxnOutSize is 180.
  pub new_address_cache : ℕ → ℕ → ℕ → AddressCache Balance Output History
  new_address_cache row_capacity address_capacity utxo_capacity_bytes = record {
    a = [];
    cap = row_capacity;
    cap_addr = address_capacity;
    max_utxos_per_addr =
        if address_capacity == 0 then 0 else utxo_capacity_bytes / 180 / address_capacity;
  }

  -- The tests `ac.cap < 1 || ac.capAddr < 1`.
  pub is_off : AddressCache Balance Output History → Bool
  is_off ac = ac.cap == 0 || ac.cap_addr == 0

  -- The number of addresses, of rows and of outputs.
  pub cache_length : AddressCache Balance Output History → ℕ × ℕ × ℕ
  cache_length ac = (length ac.a, total num_rows ac.a, total num_utxos ac.a)

  abbrev pub stored_rows : Option (AddressCacheItem Balance Output History) → ℕ
  stored_rows none = 0
  stored_rows (some item) = num_rows item

  -- An assignment to a field of the item that the map points to. When the purge has deleted the
  -- entry, the item is no longer in the map, and the map stays as it is.
  pub modify :
      ℕ
      → (AddressCacheItem Balance Output History → AddressCacheItem Balance Output History)
      → List (ℕ × AddressCacheItem Balance Output History)
      → List (ℕ × AddressCacheItem Balance Output History)
  modify addr f m = elim (lookup addr m) [ none ↦ m | some item ↦ put addr (f item) m ]

  -- `if haveSpace`, on what purgeRowsToFit reports and leaves.
  pub if_space :
      (List (ℕ × AddressCacheItem Balance Output History)
        → List (ℕ × AddressCacheItem Balance Output History))
      → AddressCache Balance Output History
      → Bool × List (ℕ × AddressCacheItem Balance Output History)
      → AddressCache Balance Output History × Bool
  if_space store ac purged =
      if purged.0
      then (record ac { a = store purged.1 }, true)
      else (record ac { a = purged.1 }, false)

  module _ (pick : List (ℕ × AddressCacheItem Balance Output History) → ℕ)
      (no_history : History) where
    pub add_cache_item :
        ℕ
        → AddressCacheItem Balance Output History
        → AddressCache Balance Output History
        → AddressCache Balance Output History × Bool
    add_cache_item addr item ac =
        let added =
          if_space (λ left. put addr item left) ac
            (purge_rows_to_fit pick num_rows ac.cap ac.cap_addr (num_rows item)
              (stored_rows (lookup addr ac.a)) ac.a) in
        if is_off ac then (ac, false) else added

    -- An item valid at the block, with nothing in it yet.
    pub blank_item : BlockId → AddressCacheItem Balance Output History
    blank_item block = record {
      balance = none;
      rows = none;
      utxos = none;
      history = no_history;
      height = block.height;
      hash = block.hash;
    }

    -- setCacheItemRows on the item of the address, which is valid at the block.
    pub update_rows :
        ℕ
        → List AddressRowCompact
        → AddressCacheItem Balance Output History
        → AddressCache Balance Output History
        → AddressCache Balance Output History × Bool
    update_rows addr rows item ac =
        let updated =
          if_space (λ left. modify addr (λ i. record i { rows = some rows }) left) ac
            (purge_rows_to_fit pick num_rows ac.cap ac.cap_addr (length rows) (num_rows item)
              ac.a) in
        if is_set item.rows && num_rows item == length rows then (ac, true) else updated

    pub set_cache_item_rows :
        ℕ
        → List AddressRowCompact
        → BlockId
        → AddressCache Balance Output History
        → AddressCache Balance Output History × Bool
    set_cache_item_rows addr rows block ac =
        let fresh = add_cache_item addr (record (blank_item block) { rows = some rows }) ac in
        let update : AddressCache Balance Output History × Bool = elim (lookup addr ac.a) [
          | none ↦ fresh
          | some item ↦
              if not (item.hash == block.hash) then fresh else update_rows addr rows item ac
        ] in
        if is_off ac then (ac, false) else update

    -- A nil block stores nothing.
    pub store_rows_compact :
        ℕ
        → Option (List AddressRowCompact)
        → Option BlockId
        → AddressCache Balance Output History
        → AddressCache Balance Output History × Bool
    store_rows_compact addr rows none ac = (ac, false)
    store_rows_compact addr rows (some block) ac =
        if is_off ac then (ac, false) else set_cache_item_rows addr (rows_of rows) block ac

    pub store_rows :
        ℕ
        → Option (List AddressRow)
        → Option BlockId
        → AddressCache Balance Output History
        → AddressCache Balance Output History × Bool
    store_rows addr rows none ac = (ac, false)
    store_rows addr rows (some block) ac =
        if is_off ac
        then (ac, false)
        else store_rows_compact addr (some (compact_rows (rows_of rows))) (some block) ac

    -- `zero_balance` is what a nil balance is stored as.
    pub store_balance :
        (ℕ → Balance)
        → ℕ
        → Option Balance
        → Option BlockId
        → AddressCache Balance Output History
        → AddressCache Balance Output History × Bool
    store_balance zero_balance addr balance none ac = (ac, false)
    store_balance zero_balance addr balance (some block) ac =
        let bal : Balance = elim balance [ none ↦ zero_balance addr | some b ↦ b ] in
        let fresh = add_cache_item addr (record (blank_item block) { balance = some bal }) ac in
        let current = record ac { a = modify addr (λ i. record i { balance = some bal }) ac.a } in
        let stored : AddressCache Balance Output History × Bool = elim (lookup addr ac.a) [
          | none ↦ fresh
          | some item ↦ if not (item.hash == block.hash) then fresh else (current, true)
        ] in
        if is_off ac then (ac, false) else stored

    -- An item at another block keeps it, and gets the outputs all the same.
    pub store_utxos :
        ℕ
        → Option (List Output)
        → Option BlockId
        → AddressCache Balance Output History
        → AddressCache Balance Output History × Bool
    store_utxos addr utxos none ac = (ac, false)
    store_utxos addr utxos (some block) ac =
        let fresh =
          add_cache_item addr (record (blank_item block) { utxos = some (rows_of utxos) }) ac in
        let current = record ac {
          a = modify addr (λ i. record i { utxos = some (rows_of utxos) }) ac.a;
        } in
        let stored : AddressCache Balance Output History × Bool = elim (lookup addr ac.a) [
          | none ↦ fresh
          | some item ↦ (current, true)
        ] in
        if is_off ac || ltb ac.max_utxos_per_addr (length (rows_of utxos))
        then (ac, false)
        else stored

    pub clear_utxos : ℕ → AddressCache Balance Output History → AddressCache Balance Output History
    clear_utxos addr ac = record ac { a = modify addr (λ i. record i { utxos = none }) ac.a }

    pub clear_rows : ℕ → AddressCache Balance Output History → AddressCache Balance Output History
    clear_rows addr ac = record ac { a = modify addr (λ i. record i { rows = none }) ac.a }

  pub clear_all : AddressCache Balance Output History → AddressCache Balance Output History × ℕ
  clear_all ac = (record ac { a = [] }, length ac.a)

  -- The loop of Clear, with the number of items deleted so far.
  pub clear_loop :
      List ℕ → ℕ → AddressCache Balance Output History → AddressCache Balance Output History × ℕ
  clear_loop [] n ac = (ac, n)
  clear_loop (addr ∷ addrs) n ac =
      let next = clear_loop addrs n ac in
      let deleted = clear_loop addrs (n + 1) (record ac { a = erase addr ac.a }) in
      elim (lookup addr ac.a) [ none ↦ next | some item ↦ deleted ]

  -- Clear, whose nil argument clears everything.
  pub clear :
      Option (List ℕ)
      → AddressCache Balance Output History
      → AddressCache Balance Output History × ℕ
  clear none ac = clear_all ac
  clear (some addrs) ac = clear_loop addrs 0 ac

  -- What Rows and the other readers find for an address.
  pub address_cache_item :
      ℕ → AddressCache Balance Output History → Option (AddressCacheItem Balance Output History)
  address_cache_item addr ac = lookup addr ac.a
