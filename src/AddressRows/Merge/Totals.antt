-- ===== src/AddressRows/Merge/Totals.antt =====
-- The credit, the debit and the number of rows of a merged row.
use monetarium_explorer.Prelude.{
  ℕ, ◌+◌, ◌%◌, ◌^◌, ◌<◌, ◌≡◌, refl, ◌∙◌, Bool, not, ◌&&◌, List, [], ◌∷◌, Option, none, some, length,
  ◌==◌, if◌then◌else◌, arith, Bool-cases, inl, inr,
}
use monetarium_explorer.Prelude.Int.{ℤ}
use monetarium_explorer.AddressRows.{AddressRowCompact, AddressRowMerged}
use monetarium_explorer.AddressRows.Merge.{
  blank_row, counted_row, add, start_row, update_row, merge_rows_compact,
}
use monetarium_explorer.AddressRows.Merge.Groups.{
  find_row, of_tx, AreApart, bump, grow, merge_rows_compact-groups,
}

-- The VAR atoms that rows credit, and those that they debit.
abbrev pub var_atoms : (Bool → Bool) → List AddressRowCompact → ℕ
var_atoms dir [] = 0
var_atoms dir (r ∷ rows) =
    if r.coin_type == 0 && dir r.is_funding
    then r.value + var_atoms dir rows
    else var_atoms dir rows

module _ (set_string : List ℕ → Option ℤ) where
  -- The totals of a merged row so far, with rows still to come.
  record HasTotals (m : AddressRowMerged) (credits debits count : ℕ) : Type 0 where
    credited : m.atoms_credit ≡ credits % 2 ^ 64
    debited : m.atoms_debit ≡ debits % 2 ^ 64
    counted : m.merged_count ≡ count % 2 ^ 32

  add-HasTotals :
      (r : AddressRowCompact) (m : AddressRowMerged) (c d n : ℕ)
      → HasTotals m c d n
      → HasTotals
          (add set_string r m)
          (c + var_atoms (λ f. f) (r ∷ []))
          (d + var_atoms (λ f. not f) (r ∷ []))
          n
  unfolding add
  add-HasTotals r m c d n t = elim (Bool-cases (r.coin_type == 0)) [
    | inl e ↦ rw e (elim (Bool-cases r.is_funding) [
      | inl f ↦ rw f record {
        credited = omega (arith, t.credited);
        debited = omega (arith, t.debited);
        counted = t.counted;
      }
      | inr f ↦ rw f record {
        credited = omega (arith, t.credited);
        debited = omega (arith, t.debited);
        counted = t.counted;
      }
    ])
    | inr e ↦ rw e (elim (Bool-cases r.is_funding) [
      | inl f ↦ rw f record {
        credited = omega (arith, t.credited);
        debited = omega (arith, t.debited);
        counted = t.counted;
      }
      | inr f ↦ rw f record {
        credited = omega (arith, t.credited);
        debited = omega (arith, t.debited);
        counted = t.counted;
      }
    ])
  ]

  var_atoms-cons :
      (dir : Bool → Bool) (n : ℕ) (r : AddressRowCompact) (rows : List AddressRowCompact)
      → n + var_atoms dir (r ∷ []) + var_atoms dir rows ≡ n + var_atoms dir (r ∷ rows)
  var_atoms-cons dir n r rows = ground arith

  HasTotals-cast :
      {m : AddressRowMerged} {c d n c2 d2 n2 : ℕ}
      → c ≡ c2
      → d ≡ d2
      → n ≡ n2
      → HasTotals m c d n
      → HasTotals m c2 d2 n2
  HasTotals-cast ec ed en t = rw (← ec, ← ed, ← en) t

  grow-HasTotals :
      (m : AddressRowMerged) (c d n : ℕ) (rows : List AddressRowCompact)
      → HasTotals m c d n
      → (t : AddressRowMerged) × (grow set_string (some m) rows ≡ some t)
        × HasTotals t
            (c + var_atoms (λ f. f) rows)
            (d + var_atoms (λ f. not f) rows)
            (n + length rows)
  unfolding grow bump update_row
  grow-HasTotals m c d n [] t =
      (m, refl, HasTotals-cast (omega arith) (omega arith) (omega arith) t)
  grow-HasTotals m c d n (r ∷ rows) t =
      let counted : HasTotals (counted_row m) c d (n + 1) = record {
        credited = t.credited;
        debited = t.debited;
        counted = omega (arith, t.counted);
      } in
      let (u, e, totals) =
        grow-HasTotals (add set_string r (counted_row m)) _ _ (n + 1) rows
          (add-HasTotals r (counted_row m) c d (n + 1) counted) in
      (
        u,
        e,
        HasTotals-cast (var_atoms-cons (λ f. f) c r rows) (var_atoms-cons (λ f. not f) d r rows)
            (omega arith) totals,
      )

  grow-none-HasTotals :
      (r : AddressRowCompact) (rows : List AddressRowCompact)
      → (t : AddressRowMerged) × (grow set_string none (r ∷ rows) ≡ some t)
        × HasTotals t
            (var_atoms (λ f. f) (r ∷ rows))
            (var_atoms (λ f. not f) (r ∷ rows))
            (length (r ∷ rows))
  unfolding grow bump start_row
  grow-none-HasTotals r rows =
      let blank : HasTotals (blank_row r) 0 0 1 = record {
        credited = omega arith;
        debited = omega arith;
        counted = omega arith;
      } in
      let (u, e, totals) =
        grow-HasTotals (add set_string r (blank_row r)) _ _ 1 rows
          (add-HasTotals r (blank_row r) 0 0 1 blank) in
      (
        u,
        e,
        HasTotals-cast (var_atoms-cons (λ f. f) 0 r rows ∙ omega arith)
            (var_atoms-cons (λ f. not f) 0 r rows ∙ omega arith) (omega arith) totals,
      )

  totals_of :
      (h : ℕ) (rows of_h : List AddressRowCompact)
      → 0 < length of_h
      → (t : AddressRowMerged) × (grow set_string none of_h ≡ some t)
        × (t.atoms_credit ≡ var_atoms (λ f. f) of_h % 2 ^ 64)
        × (t.atoms_debit ≡ var_atoms (λ f. not f) of_h % 2 ^ 64)
        × (t.merged_count ≡ length of_h % 2 ^ 32)
  totals_of h rows [] some_row = absurd (omega arith)
  totals_of h rows (r ∷ rs) some_row =
      let (t, e, totals) = grow-none-HasTotals r rs in
      (t, e, totals.credited, totals.debited, totals.counted)

  -- MergeRowsCompact gives every transaction with a row among the input one merged row, and no
  -- transaction two: its credit and its debit are the sums of the VAR values of the transaction's
  -- funding and spending rows, modulo 2^64, and its count is the number of the transaction's rows,
  -- modulo 2^32.
  pub merge_rows_compact_totals :
      (h : ℕ) (rows : List AddressRowCompact)
      → 0 < length (of_tx h rows)
      → (t : AddressRowMerged) × (find_row h (merge_rows_compact set_string rows) ≡ some t)
        × (t.atoms_credit ≡ var_atoms (λ f. f) (of_tx h rows) % 2 ^ 64)
        × (t.atoms_debit ≡ var_atoms (λ f. not f) (of_tx h rows) % 2 ^ 64)
        × (t.merged_count ≡ length (of_tx h rows) % 2 ^ 32)
        × AreApart (merge_rows_compact set_string rows)
  merge_rows_compact_totals h rows some_row =
      let (group, apart) = merge_rows_compact-groups set_string h rows in
      let (t, e, c, d, n) = totals_of h rows (of_tx h rows) some_row in
      (t, group ∙ e, c, d, n, apart)
