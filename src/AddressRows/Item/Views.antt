-- ===== src/AddressRows/Item/Views.antt =====
-- What the pages of an address's cached rows show, for the views of single rows.
use monetarium_explorer.Prelude.{
  ℕ, ◌+◌, ◌^◌, ◌<◌, ◌≡◌, refl, sym, ◌∙◌, ap, Bool, true, false, ◌||◌, ◌&&◌, not, List, [], ◌∷◌,
  Option, some, length, take, drop, keep, leb, ◌==◌, arith, Bool-cases, inl, inr,
}
use monetarium_explorer.Prelude.Int.{ℤ, pos}
use monetarium_explorer.AddressRows.{
  AddressRowCompact, AddrTxnViewType, is_merged_view, is_zero_hash, all, credit, debit, unspent,
}
use monetarium_explorer.AddressRows.Slices.{
  rows_of, address_rows, credit_address_rows, debit_address_rows, unspent_credit_address_rows,
}
use monetarium_explorer.AddressRows.Slices.Loop.{past_end, length-keep, address_rows_lem}
use monetarium_explorer.AddressRows.Slices.Pages.{
  credit_address_rows_lem, debit_address_rows_lem, unspent_credit_address_rows_lem,
}
use monetarium_explorer.AddressRows.Item.{
  AddressCacheItem, BlockId, found, compact_page, block_id, transactions, view_rows, cached_rows,
}

-- What a view of single rows shows.
pub data ShowsSingle : AddrTxnViewType → (AddressRowCompact → Bool) → Type 0 where
  shows_all : ShowsSingle all (λ r. true)
  shows_credit : ShowsSingle credit (λ r. r.is_funding)
  shows_debit : ShowsSingle debit (λ r. not r.is_funding)
  shows_unspent : ShowsSingle unspent (λ r. r.is_funding && is_zero_hash r.matching_tx_hash)

keep-all : {A : Type 0} (xs : List A) → keep (λ x. true) xs ≡ xs
keep-all [] = refl
keep-all (x ∷ xs) = ap (λ r. x ∷ r) (keep-all xs)

module _ (set_string : List ℕ → Option ℤ) where
  view_rows-page :
      {view : AddrTxnViewType} {test : AddressRowCompact → Bool} (n offset : ℕ) (b : BlockId)
      (rows : List AddressRowCompact)
      → ShowsSingle view test
      → 0 < n
      → n + offset < 2 ^ 63
      → (p : Option (List AddressRowCompact)) × (view_rows set_string view n offset b rows
          ≡ found (compact_page p) (some b))
        × (rows_of p ≡ take n (drop offset (keep test rows)))
        × (is_merged_view view ≡ some false)
  unfolding view_rows is_merged_view
  view_rows-page n offset b rows shows_all positive small = (
    address_rows (some rows) n offset,
    refl,
    address_rows_lem rows n offset small ∙ ap (λ r. take n (drop offset r)) (sym (keep-all rows)),
    refl,
  )
  view_rows-page n offset b rows shows_credit positive small = (
    credit_address_rows (some rows) n offset,
    refl,
    credit_address_rows_lem rows n offset positive,
    refl,
  )
  view_rows-page n offset b rows shows_debit positive small = (
    debit_address_rows (some rows) n offset,
    refl,
    debit_address_rows_lem rows n offset positive,
    refl,
  )
  view_rows-page n offset b rows shows_unspent positive small = (
    unspent_credit_address_rows (some rows) n offset,
    refl,
    unspent_credit_address_rows_lem rows n offset positive,
    refl,
  )

  -- Transactions on cached rows, for a view of single rows and at least one row asked for, where the
  -- count and the offset add up to less than 2 ^ 63: the page
  -- holds, in order, the first `n` after the first `offset` of those rows of the main chain that the
  -- view shows, and comes with the item's block.
  pub transactions_shows :
      {Balance Output History : Type 0} (d : AddressCacheItem Balance Output History)
      {view : AddrTxnViewType} {test : AddressRowCompact → Bool} (n offset : ℕ)
      (rows : List AddressRowCompact)
      → ShowsSingle view test
      → 0 < n
      → n + offset < 2 ^ 63
      → d.rows ≡ some rows
      → (p : Option (List AddressRowCompact)) × (transactions set_string (pos n) (pos offset) view d
          ≡ found (compact_page p) (some (block_id d)))
        × (rows_of p ≡ take n (drop offset (keep test (keep (λ r. r.valid_main_chain) rows))))
  unfolding transactions cached_rows block_id
  transactions_shows d {view} {test} n offset rows shows positive small e =
      let filtered = keep (λ r. r.valid_main_chain) rows in
      let (p, page, entries, single) =
        view_rows-page n offset (block_id d) filtered shows positive small in
      elim (Bool-cases (n == 0 || (length filtered == 0 || leb (length filtered) offset))) [
        | inl f ↦ (
          some [],
          rw (single, transactions) (rw (e, f) refl),
          sym (past_end n offset (keep test filtered) (ground (arith, length-keep test filtered))),
        )
        | inr f ↦ (p, rw (single, transactions) (rw (e, f) page), entries)
      ]
