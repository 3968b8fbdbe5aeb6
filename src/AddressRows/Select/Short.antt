-- ===== src/AddressRows/Select/Short.antt =====
-- SliceAddressRows gives a page of at most the rows that it is asked for.
use monetarium_explorer.Prelude.{
  ℕ, ◌+◌, ◌<◌, ◌≤◌, ◌≡◌, refl, ap, suc, Bool, true, ◌||◌, List, [], ◌∷◌, ◌++◌, Option, some, length,
  ltb, leb, ◌==◌, Bool-cases, inl, inr, arith, length-append,
}
use monetarium_explorer.Prelude.Int.{ℤ, pos}
use monetarium_explorer.HashSet.{has, insert}
use monetarium_explorer.AddressRows.{
  AddressRow, AddressRowCompact, AddressRowMerged, AddrTxnViewType, is_merged_view, all, credit,
  debit, merged, merged_credit, merged_debit, unspent, unknown,
}
use monetarium_explorer.AddressRows.Slices.{
  page_loop, counted_page, rows_of, slice_address_credit_rows, slice_address_debit_rows,
  slice_address_unspent_credit_rows,
}
use monetarium_explorer.AddressRows.Slices.Loop.{address_rows_short}
use monetarium_explorer.AddressRows.Merge.{
  has_row, merge_into, range_loop, compact_rows, wrong_direction, merge_rows_compact_range,
}
use monetarium_explorer.AddressRows.Merge.Groups.{length-merge_into}
use monetarium_explorer.AddressRows.Merge.Plain.{all_single}
use monetarium_explorer.AddressRows.Merge.PlainRange.{
  rows_rightly, merge_rows_range, merge_rows_range-compact_rows,
}
use monetarium_explorer.AddressRows.Select.{
  uncompact_merged_rows, slice_merged, slice_view, slice_address_rows,
}

abbrev IsShort : ℕ → Option (List AddressRow) → Type 0
IsShort n page = length (rows_of page) ≤ n

page_loop_short :
    (p : AddressRow → Bool) (n offset k : ℕ) (out rows : List AddressRow)
    → length out < n
    → length (page_loop p n offset k out rows) ≤ n
unfolding page_loop
page_loop_short p n offset k out [] lt = omega arith
page_loop_short p n offset k out (r ∷ rows) lt =
    let one_more : length (out ++ r ∷ []) ≡ length out + 1 = length-append out (r ∷ []) in
    elim (Bool-cases (p r)) [
      | inr e ↦ rw e (page_loop_short p n offset k out rows lt)
      | inl e ↦ elim (Bool-cases (ltb k offset)) [
        | inl f ↦ rw (e, f) (page_loop_short p n offset (k + 1) out rows lt)
        | inr f ↦ elim (Bool-cases (length (out ++ r ∷ []) == n)) [
          | inl g ↦ rw (e, f, g) (ground arith)
          | inr g ↦
              rw (e, f, g)
                (page_loop_short p n offset k (out ++ r ∷ []) rows (ground (arith, one_more)))
        ]
      ]
    ]

counted_page-IsShort :
    (p : AddressRow → Bool) (count : ℕ) (rows : List AddressRow) (n offset : ℕ)
    → 0 < n
    → IsShort n (counted_page p true count (some rows) n offset)
unfolding counted_page
counted_page-IsShort p count rows n offset positive = elim (Bool-cases (leb (length rows) offset)) [
  | inl e ↦ rw e (omega arith)
  | inr e ↦ elim (Bool-cases (leb count offset)) [
    | inl f ↦ rw (e, f) (omega arith)
    | inr f ↦
        rw (e, f)
          (elim (Bool-cases (ltb count n)) [
            | inl g ↦ rw g (ground (arith, page_loop_short p count offset 0 [] rows (ground arith)))
            | inr g ↦ rw g (page_loop_short p n offset 0 [] rows positive)
          ])
  ]
]

all_single-rows_rightly :
    (wrong : Bool → Bool) (rows : List AddressRow)
    → all_single rows ≡ true
    → all_single (rows_rightly wrong rows) ≡ true
unfolding all_single
all_single-rows_rightly wrong [] single = refl
all_single-rows_rightly wrong (r ∷ rows) single =
    let this : (r.merged_count == 0) ≡ true = ground arith in
    elim (Bool-cases (wrong r.is_funding)) [
      | inl e ↦ rw e (all_single-rows_rightly wrong rows (ground arith))
      | inr e ↦ rw (e, this) (all_single-rows_rightly wrong rows (ground arith))
    ]

module _ (set_string : List ℕ → Option ℤ) where
  range_loop_short :
      (wrong : Bool → Bool) (n offset k : ℕ) (seen : List ℕ) (ms : List AddressRowMerged)
      (rows : List AddressRowCompact)
      → length ms ≤ n
      → length (range_loop set_string wrong n offset k seen ms rows) ≤ n
  unfolding range_loop
  range_loop_short wrong n offset k seen ms [] le = le
  range_loop_short wrong n offset k seen ms (r ∷ rows) le =
      let grown = length-merge_into set_string r ms in
      let merged = merge_into set_string r ms in
      elim (Bool-cases (wrong r.is_funding)) [
        | inl d ↦ rw d (range_loop_short wrong n offset k seen ms rows le)
        | inr d ↦ elim (Bool-cases (has_row r.tx_hash ms)) [
          | inl h ↦
              rw (d, h)
                (range_loop_short wrong n offset k seen merged rows (ground (arith, grown, h)))
          | inr h ↦ elim (Bool-cases (length ms == n)) [
            | inl f ↦ rw (d, h, f) (range_loop_short wrong n offset k seen ms rows le)
            | inr f ↦ elim (Bool-cases (ltb k offset)) [
              | inr b ↦
                  rw (d, h, f, b)
                    (range_loop_short wrong n offset k seen merged rows (ground (arith, grown, h)))
              | inl b ↦ elim (Bool-cases (has r.tx_hash seen)) [
                | inl s ↦ rw (d, h, f, b, s) (range_loop_short wrong n offset k seen ms rows le)
                | inr s ↦
                    rw (d, h, f, b, s)
                      (range_loop_short wrong n offset (k + 1) (insert r.tx_hash seen) ms rows le)
              ]
            ]
          ]
        ]
      ]

  merge_rows_range_short :
      (rows : List AddressRow) (n offset : ℕ) (view : AddrTxnViewType) (wrong : Bool → Bool)
      → 0 < n
      → wrong_direction view ≡ some wrong
      → all_single rows ≡ true
      → (ms : List AddressRowMerged) × (merge_rows_range set_string rows (pos n) (pos offset) view
          ≡ some ms)
        × (length ms ≤ n)
  unfolding merge_rows_compact_range
  merge_rows_range_short rows n offset view wrong positive e single =
      let same = merge_rows_range-compact_rows set_string rows n offset view wrong positive e in
      rw (same, all_single-rows_rightly wrong rows single, merge_rows_compact_range, e)
        (elim (Bool-cases (n == 0 || length (compact_rows rows) == 0)) [
          | inl z ↦ rw z ([], refl, omega arith)
          | inr z ↦
              rw z
                (_, refl, range_loop_short wrong n offset 0 [] [] (compact_rows rows) (omega arith))
        ])

length-uncompact_merged_rows :
    (show_big : ℤ → List ℕ) (ms : List AddressRowMerged)
    → length (uncompact_merged_rows show_big ms) ≡ length ms
unfolding uncompact_merged_rows
length-uncompact_merged_rows show_big [] = refl
length-uncompact_merged_rows show_big (m ∷ ms) = ap suc (length-uncompact_merged_rows show_big ms)

module _ (set_string : List ℕ → Option ℤ) (show_big : ℤ → List ℕ) where
  slice_merged-IsShort :
      (rows : List AddressRow) (n offset : ℕ) (view : AddrTxnViewType) (wrong : Bool → Bool)
      → 0 < n
      → wrong_direction view ≡ some wrong
      → all_single rows ≡ true
      → (page : Option (List AddressRow)) × (slice_merged set_string show_big
            (some rows)
            n
            offset
            view
          ≡ some page)
        × IsShort n page
  unfolding slice_merged
  slice_merged-IsShort rows n offset view wrong positive e single =
      let (ms, result, le) =
        merge_rows_range_short set_string rows n offset view wrong positive e single in
      rw (result, slice_merged)
        (
          some (uncompact_merged_rows show_big ms),
          refl,
          omega (arith, length-uncompact_merged_rows show_big ms, le),
        )

  slice_view-IsShort :
      (rows : List AddressRow) (n offset : ℕ) (view : AddrTxnViewType) (b : Bool)
      → 0 < n
      → is_merged_view view ≡ some b
      → all_single rows ≡ true
      → (page : Option (List AddressRow)) × (slice_view set_string show_big
            (some rows)
            n
            offset
            view
          ≡ some page)
        × IsShort n page
  unfolding slice_view is_merged_view wrong_direction slice_address_credit_rows
      slice_address_debit_rows slice_address_unspent_credit_rows
  slice_view-IsShort rows n offset all b positive e single =
      (_, refl, address_rows_short rows n offset)
  slice_view-IsShort rows n offset credit b positive e single =
      (_, refl, counted_page-IsShort _ _ rows n offset positive)
  slice_view-IsShort rows n offset debit b positive e single =
      (_, refl, counted_page-IsShort _ _ rows n offset positive)
  slice_view-IsShort rows n offset unspent b positive e single =
      (_, refl, counted_page-IsShort _ _ rows n offset positive)
  slice_view-IsShort rows n offset merged b positive e single =
      slice_merged-IsShort rows n offset merged _ positive refl single
  slice_view-IsShort rows n offset merged_credit b positive e single =
      slice_merged-IsShort rows n offset merged_credit _ positive refl single
  slice_view-IsShort rows n offset merged_debit b positive e single =
      slice_merged-IsShort rows n offset merged_debit _ positive refl single
  slice_view-IsShort rows n offset unknown b positive e single = absurd (ground (arith, e))

  -- On rows none of which is a merged one, for a count and an offset that are not negative and a
  -- view that IsMerged recognises, SliceAddressRows gives a page without an error, and the page has
  -- at most as many rows as were asked for.
  pub slice_address_rows_short :
      (rows : List AddressRow) (n offset : ℕ) (view : AddrTxnViewType) (b : Bool)
      → is_merged_view view ≡ some b
      → all_single rows ≡ true
      → (page : Option (List AddressRow)) × (slice_address_rows set_string show_big
            (some rows)
            (pos n)
            (pos offset)
            view
          ≡ some page)
        × (length (rows_of page) ≤ n)
  unfolding slice_address_rows
  slice_address_rows_short rows n offset view b e single =
      elim (Bool-cases (n == 0 || length rows == 0 || leb (length rows) offset)) [
        | inl z ↦ rw z (some [], refl, omega arith)
        | inr z ↦ rw z (slice_view-IsShort rows n offset view b (ground arith) e single)
      ]
