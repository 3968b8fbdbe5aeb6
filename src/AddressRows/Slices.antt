-- ===== src/AddressRows/Slices.antt =====
-- The functions that cut a page of `n` rows, after skipping `offset`, out of an address's rows:
-- those of addresscache.go on compact and merged rows, and those of types.go on plain ones. Their
-- callers refuse a negative count or offset first.
pub mod Loop
pub mod Pages
use monetarium_explorer.Prelude.{
  ℕ, ◌+◌, ◌^◌, ◌<◌, ◌≤◌, Bool, true, false, not, ◌&&◌, List, [], ◌∷◌, ◌++◌, Option, none, some,
  length, take, drop, ltb, leb, ◌==◌, if◌then◌else◌,
}
use monetarium_explorer.AddressRows.{AddressRow, AddressRowCompact, is_zero_hash}

-- The loops that count: the rows that pass the test, and the others.
pub count_rows {ℓ} : {A : Type ℓ} → (A → Bool) → List A → ℕ × ℕ
count_rows test [] = (0, 0)
count_rows test (row ∷ rows) =
    let (passed, others) = count_rows test rows in
    if test row then (passed + 1, others) else (passed, others + 1)

-- The loop that collects a page. It leaves rows that fail the test out, skips `offset` of the
-- others, and stops when `n` rows are collected, which it tests after each one.
unfoldable pub page_loop {ℓ} : {A : Type ℓ} → (A → Bool) → ℕ → ℕ → ℕ → List A → List A → List A
page_loop test n offset skipped out [] = out
page_loop test n offset skipped out (row ∷ rows) =
    let pass = page_loop test n offset skipped out rows in
    let skip = page_loop test n offset (skipped + 1) out rows in
    let collect = page_loop test n offset skipped (out ++ row ∷ []) rows in
    if not (test row)
    then pass
    else if ltb skipped offset
    then skip
    else if length (out ++ row ∷ []) == n
    then out ++ row ∷ []
    else collect

-- addressRows, and SliceAddressRowsAll. The sum of the offset and the count, below 2 ^ 63 each, wraps
-- around to a negative end from 2 ^ 63 on, and the page is empty then.
pub address_rows {ℓ} : {A : Type ℓ} → Option (List A) → ℕ → ℕ → Option (List A)
address_rows none n offset = none
address_rows (some rows) n offset =
    if leb (length rows) offset
    then some []
    else if leb (2 ^ 63) (offset + n)
    then some []
    else let end = if ltb (length rows) (offset + n) then length rows else offset + n in
      if ltb offset end then some (drop offset (take end rows)) else some []

-- The body that the other functions share: `count` bounds the page, and `checked` says whether an
-- offset beyond the count gives nil at once.
unfoldable pub counted_page {ℓ} :
    {A : Type ℓ} → (A → Bool) → Bool → ℕ → Option (List A) → ℕ → ℕ → Option (List A)
counted_page test checked count none n offset = none
counted_page test checked count (some rows) n offset =
    if leb (length rows) offset
    then some []
    else if checked && leb count offset
    then none
    else some (page_loop test (if ltb count n then count else n) offset 0 [] rows)

abbrev pub rows_of {ℓ} : {A : Type ℓ} → Option (List A) → List A
rows_of none = []
rows_of (some rows) = rows

abbrev pub is_credit : AddressRowCompact → Bool
is_credit row = row.is_funding

abbrev pub is_debit : AddressRowCompact → Bool
is_debit row = not row.is_funding

abbrev pub is_unspent_credit : AddressRowCompact → Bool
is_unspent_credit row = row.is_funding && is_zero_hash row.matching_tx_hash

pub credit_address_rows : Option (List AddressRowCompact) → ℕ → ℕ → Option (List AddressRowCompact)
credit_address_rows rows n offset =
    counted_page is_credit true (count_rows is_credit (rows_of rows)).0 rows n offset

-- The count of the others among the credits; an offset beyond it is not tested for.
pub debit_address_rows : Option (List AddressRowCompact) → ℕ → ℕ → Option (List AddressRowCompact)
debit_address_rows rows n offset =
    counted_page is_debit false (count_rows is_credit (rows_of rows)).1 rows n offset

pub unspent_credit_address_rows :
    Option (List AddressRowCompact) → ℕ → ℕ → Option (List AddressRowCompact)
unspent_credit_address_rows rows n offset =
    counted_page is_unspent_credit true (count_rows is_unspent_credit (rows_of rows)).0 rows n
      offset

abbrev pub is_row_credit : AddressRow → Bool
is_row_credit row = row.is_funding

abbrev pub is_row_debit : AddressRow → Bool
is_row_debit row = not row.is_funding

abbrev is_nil : Option ℕ → Bool
is_nil none = true
is_nil (some h) = false

abbrev pub is_row_unspent : AddressRow → Bool
is_row_unspent row = row.is_funding && is_nil row.matching_tx_hash

unfoldable pub slice_address_credit_rows :
    Option (List AddressRow) → ℕ → ℕ → Option (List AddressRow)
slice_address_credit_rows rows n offset =
    counted_page is_row_credit true (count_rows is_row_credit (rows_of rows)).0 rows n offset

unfoldable pub slice_address_debit_rows :
    Option (List AddressRow) → ℕ → ℕ → Option (List AddressRow)
slice_address_debit_rows rows n offset =
    counted_page is_row_debit true (count_rows is_row_credit (rows_of rows)).1 rows n offset

-- The count is that of the unspent credits; the loop tests only for credits.
unfoldable pub slice_address_unspent_credit_rows :
    Option (List AddressRow) → ℕ → ℕ → Option (List AddressRow)
slice_address_unspent_credit_rows rows n offset =
    counted_page is_row_credit true (count_rows is_row_unspent (rows_of rows)).0 rows n offset
