-- ===== src/AddressRows/Merge/Groups.antt =====
-- What merging gives: one row for each transaction, with its totals.
use monetarium_explorer.Prelude.{
  ℕ, ◌+◌, ◌≡◌, refl, ◌∙◌, true, false, ◌||◌, List, [], ◌∷◌, Option, none, some, length, keep, ◌==◌,
  if◌then◌else◌, arith, Bool-cases, inl, inr,
}
use monetarium_explorer.Prelude.Int.{ℤ}
use monetarium_explorer.AddressRows.{AddressRowCompact, AddressRowMerged}
use monetarium_explorer.AddressRows.Merge.{
  blank_row, counted_row, has_row, add, start_row, update_row, merge_into, merge_loop,
  merge_rows_compact,
}

-- The merged row of a transaction.
abbrev pub find_row : ℕ → List AddressRowMerged → Option AddressRowMerged
find_row h [] = none
find_row h (m ∷ ms) = if h == m.tx_hash then some m else find_row h ms

-- The rows of a transaction, in order.
abbrev pub of_tx : ℕ → List AddressRowCompact → List AddressRowCompact
of_tx h rows = keep (λ r. h == r.tx_hash) rows

-- Every row of the list has a transaction of its own.
abbrev pub AreApart : List AddressRowMerged → Type 0
AreApart [] = Unit
AreApart (m ∷ ms) = (has_row m.tx_hash ms ≡ false) × AreApart ms

pub has_row-nil : (h : ℕ) → has_row h [] ≡ false
unfolding has_row
has_row-nil h = refl

pub has_row-cons :
    (h : ℕ) (m : AddressRowMerged) (ms : List AddressRowMerged)
    → has_row h (m ∷ ms) ≡ (h == m.tx_hash || has_row h ms)
unfolding has_row
has_row-cons h m ms = refl

module _ (set_string : List ℕ → Option ℤ) where
  add-tx_hash :
      (r : AddressRowCompact) (m : AddressRowMerged) → (add set_string r m).tx_hash ≡ m.tx_hash
  unfolding add
  add-tx_hash r m = elim (Bool-cases (r.coin_type == 0)) [
    | inl e ↦ rw e (elim (Bool-cases r.is_funding) [ inl f ↦ rw f refl | inr f ↦ rw f refl ])
    | inr e ↦ rw e (elim (Bool-cases r.is_funding) [ inl f ↦ rw f refl | inr f ↦ rw f refl ])
  ]

  start_row-tx_hash : (r : AddressRowCompact) → (start_row set_string r).tx_hash ≡ r.tx_hash
  unfolding start_row
  start_row-tx_hash r = add-tx_hash r (blank_row r)

  update_row-tx_hash :
      (r : AddressRowCompact) (m : AddressRowMerged)
      → (update_row set_string r m).tx_hash ≡ m.tx_hash
  unfolding update_row
  update_row-tx_hash r m = add-tx_hash r (counted_row m)

  pub merge_into-cons :
      (r : AddressRowCompact) (m : AddressRowMerged) (ms : List AddressRowMerged)
      → merge_into set_string r (m ∷ ms) ≡ (
          if r.tx_hash == m.tx_hash
          then update_row set_string r m ∷ ms
          else m ∷ merge_into set_string r ms)
  unfolding merge_into
  merge_into-cons r m ms = refl

  pub has_row-merge_into :
      (h : ℕ) (r : AddressRowCompact) (ms : List AddressRowMerged)
      → has_row h (merge_into set_string r ms) ≡ (h == r.tx_hash || has_row h ms)
  unfolding has_row merge_into
  has_row-merge_into h r [] = rw (start_row-tx_hash r) refl
  has_row-merge_into h r (m ∷ ms) = elim (Bool-cases (r.tx_hash == m.tx_hash)) [
    | inl e ↦ rw (e, update_row-tx_hash r m) (ground arith)
    | inr e ↦ rw (e, has_row-merge_into h r ms) (ground arith)
  ]

  pub length-merge_into :
      (r : AddressRowCompact) (ms : List AddressRowMerged)
      → length (merge_into set_string r ms)
        ≡ (if has_row r.tx_hash ms then length ms else length ms + 1)
  unfolding has_row merge_into
  length-merge_into r [] = refl
  length-merge_into r (m ∷ ms) = elim (Bool-cases (r.tx_hash == m.tx_hash)) [
    | inl e ↦ rw e refl
    | inr e ↦ rw (e, length-merge_into r ms) (ground arith)
  ]

  merge_into-AreApart :
      (r : AddressRowCompact) (ms : List AddressRowMerged)
      → AreApart ms
      → AreApart (merge_into set_string r ms)
  unfolding merge_into has_row
  merge_into-AreApart r [] apart = (refl, tt)
  merge_into-AreApart r (m ∷ ms) apart = elim (Bool-cases (r.tx_hash == m.tx_hash)) [
    | inl e ↦ rw (e, update_row-tx_hash r m) apart
    | inr e ↦
        rw e
          (rw (has_row-merge_into m.tx_hash r ms) (ground arith), merge_into-AreApart r ms apart.1)
  ]

  -- What one row does to the merged row of its transaction.
  unfoldable pub bump : AddressRowCompact → Option AddressRowMerged → AddressRowMerged
  bump r none = start_row set_string r
  bump r (some m) = update_row set_string r m

  find_row-merge_into :
      (h : ℕ) (r : AddressRowCompact) (ms : List AddressRowMerged)
      → find_row h (merge_into set_string r ms)
        ≡ (if h == r.tx_hash then some (bump r (find_row h ms)) else find_row h ms)
  unfolding merge_into bump update_row add
  find_row-merge_into h r [] = rw (start_row-tx_hash r) refl
  find_row-merge_into h r (m ∷ ms) = elim (Bool-cases (r.tx_hash == m.tx_hash)) [
    | inl e ↦
        let same : r.tx_hash ≡ m.tx_hash = ground arith in
        rw (e, update_row-tx_hash r m)
          (elim (Bool-cases (h == m.tx_hash)) [
            | inl f ↦ let hit : (h == r.tx_hash) ≡ true = ground arith in rw (f, hit, bump) refl
            | inr f ↦ let miss : (h == r.tx_hash) ≡ false = ground arith in rw (f, miss) refl
          ])
    | inr e ↦ rw e (elim (Bool-cases (h == m.tx_hash)) [
      | inl f ↦ let miss : (h == r.tx_hash) ≡ false = ground arith in rw (f, miss) refl
      | inr f ↦ rw f (find_row-merge_into h r ms)
    ])
  ]

  -- The merged row that rows of one transaction add up to.
  unfoldable pub grow : Option AddressRowMerged → List AddressRowCompact → Option AddressRowMerged
  grow o [] = o
  grow o (r ∷ rows) = grow (some (bump r o)) rows

  find_row-merge_loop :
      (h : ℕ) (ms : List AddressRowMerged) (rows : List AddressRowCompact)
      → find_row h (merge_loop set_string ms rows) ≡ grow (find_row h ms) (of_tx h rows)
  unfolding merge_loop grow
  find_row-merge_loop h ms [] = refl
  find_row-merge_loop h ms (r ∷ rows) =
      find_row-merge_loop h (merge_into set_string r ms) rows
      ∙ rw (find_row-merge_into h r ms)
          (elim (Bool-cases (h == r.tx_hash)) [ inl e ↦ rw e refl | inr e ↦ rw e refl ])

  pub merge_loop-AreApart :
      (ms : List AddressRowMerged) (rows : List AddressRowCompact)
      → AreApart ms
      → AreApart (merge_loop set_string ms rows)
  unfolding merge_loop
  merge_loop-AreApart ms [] apart = apart
  merge_loop-AreApart ms (r ∷ rows) apart =
      merge_loop-AreApart (merge_into set_string r ms) rows (merge_into-AreApart r ms apart)

  -- MergeRowsCompact gives one row for each transaction, which is what this transaction's rows add
  -- up to, in their order.
  pub merge_rows_compact-groups :
      (h : ℕ) (rows : List AddressRowCompact)
      → (find_row h (merge_rows_compact set_string rows) ≡ grow none (of_tx h rows))
        × AreApart (merge_rows_compact set_string rows)
  unfolding merge_rows_compact
  merge_rows_compact-groups h rows = (find_row-merge_loop h [] rows, merge_loop-AreApart [] rows tt)
