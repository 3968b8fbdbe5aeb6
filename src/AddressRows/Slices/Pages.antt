-- ===== src/AddressRows/Slices/Pages.antt =====
-- What a page of an address's rows holds.
use Prim.Native.Nat.{min}
use monetarium_explorer.Prelude.{
  ℕ, ◌+◌, ◌^◌, ◌<◌, ◌≡◌, ap, true, false, List, some, length, take, drop, keep, leb, arith,
}
use monetarium_explorer.AddressRows.{AddressRow, AddressRowCompact}
use monetarium_explorer.AddressRows.Slices.{
  address_rows, counted_page, rows_of, is_credit, is_debit, is_unspent_credit, credit_address_rows,
  debit_address_rows, unspent_credit_address_rows, is_row_credit, is_row_debit, is_row_unspent,
  slice_address_credit_rows, slice_address_debit_rows, slice_address_unspent_credit_rows,
}
use monetarium_explorer.AddressRows.Slices.Loop.{
  length-keep, count_rows_lem, page_loop-take, counted_page_lem, address_rows_lem,
}

module _ (rows : List AddressRowCompact) (n offset : ℕ) (positive : 0 < n) where
  pub credit_address_rows_lem :
      rows_of (credit_address_rows (some rows) n offset)
      ≡ take n (drop offset (keep is_credit rows))
  unfolding credit_address_rows
  credit_address_rows_lem =
      counted_page_lem is_credit true rows _ n offset positive
        (ap (λ c. c.0) (count_rows_lem is_credit rows))

  pub debit_address_rows_lem :
      rows_of (debit_address_rows (some rows) n offset) ≡ take n (drop offset (keep is_debit rows))
  unfolding debit_address_rows
  debit_address_rows_lem =
      counted_page_lem is_debit false rows _ n offset positive
        (ap (λ c. c.1) (count_rows_lem is_credit rows))

  pub unspent_credit_address_rows_lem :
      rows_of (unspent_credit_address_rows (some rows) n offset)
      ≡ take n (drop offset (keep is_unspent_credit rows))
  unfolding unspent_credit_address_rows
  unspent_credit_address_rows_lem =
      counted_page_lem is_unspent_credit true rows _ n offset positive
        (ap (λ c. c.0) (count_rows_lem is_unspent_credit rows))

module _ (rows : List AddressRow) (n offset : ℕ) where
  -- SliceAddressRowsAll, SliceAddressCreditRows and SliceAddressDebitRows, asked for at least one
  -- row with a count and an offset that add up to less than 2 ^ 63, give the first `n` after the first `offset` of all rows, of the credits and of the debits.
  pub slice_address_rows_pages :
      0 < n
      → n + offset < 2 ^ 63
      → (rows_of (address_rows (some rows) n offset) ≡ take n (drop offset rows))
        × (rows_of (slice_address_credit_rows (some rows) n offset)
            ≡ take n (drop offset (keep is_row_credit rows)))
        × (rows_of (slice_address_debit_rows (some rows) n offset)
            ≡ take n (drop offset (keep is_row_debit rows)))
  unfolding slice_address_credit_rows slice_address_debit_rows
  slice_address_rows_pages positive small = (
    address_rows_lem rows n offset small,
    counted_page_lem is_row_credit true rows _ n offset positive
        (ap (λ c. c.0) (count_rows_lem is_row_credit rows)),
    counted_page_lem is_row_debit true rows _ n offset positive
        (ap (λ c. c.1) (count_rows_lem is_row_credit rows)),
  )

  -- SliceAddressUnspentCreditRows, asked for at least one row at an offset below the number of unspent credits: its page is one
  -- of all credits, spent ones included, and the number of unspent credits only bounds its length.
  pub slice_unspent_page :
      0 < n
      → offset < length (keep is_row_unspent rows)
      → rows_of (slice_address_unspent_credit_rows (some rows) n offset)
        ≡ take (min n (length (keep is_row_unspent rows))) (drop offset (keep is_row_credit rows))
  unfolding slice_address_unspent_credit_rows counted_page
  slice_unspent_page positive inside =
      let count = length (keep is_row_unspent rows) in
      let short : leb (length rows) offset ≡ false =
        ground (arith, length-keep is_row_unspent rows) in
      let within : leb count offset ≡ false = ground arith in
      rw (count_rows_lem is_row_unspent rows, short, within)
        (page_loop-take is_row_credit _ offset (min n count) rows (omega arith) (ground arith))
