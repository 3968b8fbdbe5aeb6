-- ===== src/AddressRows/Slices/Loop.antt =====
-- The loops that count rows and collect a page of them.

use monetarium_explorer.Prelude.{
  ℕ, zero, suc, ◌+◌, ◌^◌, ◌<◌, ◌≤◌, ◌≡◌, refl, sym, ◌∙◌, ap, Bool, true, false, not, ◌&&◌, List, [],
  ◌∷◌, ◌++◌, some, length, take, drop, keep, ltb, leb, ◌==◌, if◌then◌else◌, arith, Bool-cases, ◌⊎◌,
  inl, inr, length-append, length-drop, take-all, drop-all, drop-take,
}
use mathlib.Core.List.{append_assoc, append-nil}
use monetarium_explorer.AddressRows.Slices.{
  count_rows, page_loop, address_rows, counted_page, rows_of,
}

module _ {ℓ} {A : Type ℓ} where
  pub length-keep : (p : A → Bool) (xs : List A) → length (keep p xs) ≤ length xs
  length-keep p [] = omega arith
  length-keep p (x ∷ xs) = ground (arith, length-keep p xs)

  pub count_rows_lem :
      (p : A → Bool) (xs : List A)
      → count_rows p xs ≡ (length (keep p xs), length (keep (λ x. not (p x)) xs))
  unfolding count_rows
  count_rows_lem p [] = refl
  count_rows_lem p (x ∷ xs) = rw (count_rows_lem p xs) (elim (Bool-cases (p x)) [
    | inl e ↦ rw e (ap (λ n. (n, length (keep (λ x. not (p x)) xs))) (omega arith))
    | inr e ↦ rw e (ap (λ n. (length (keep p xs), n)) (omega arith))
  ])

  -- The loop in the middle of its work: `out` is collected, `k` rows are still to be left out, and
  -- `m` to be collected.
  page_loop_lem :
      (p : A → Bool) (n offset skipped : ℕ) (out rows : List A) (k m : ℕ)
      → length out + suc m ≡ n
      → skipped + k ≡ offset
      → page_loop p n offset skipped out rows ≡ out ++ take (suc m) (drop k (keep p rows))
  unfolding page_loop
  page_loop_lem p n offset skipped out [] zero m room left = sym (append-nil out)
  page_loop_lem p n offset skipped out [] (suc k) m room left = sym (append-nil out)
  page_loop_lem p n offset skipped out (x ∷ rows) (suc k) m room left =
      let more : ltb skipped offset ≡ true = ground arith in
      elim (Bool-cases (p x)) [
        | inr e ↦ rw e (page_loop_lem p n offset skipped out rows (suc k) m room left)
        | inl e ↦
            rw (e, more) (page_loop_lem p n offset (skipped + 1) out rows k m room (omega arith))
      ]
  page_loop_lem p n offset skipped out (x ∷ rows) zero zero room left =
      let done : ltb skipped offset ≡ false = ground arith in
      let full : (length (out ++ x ∷ []) == n) ≡ true =
        ground (arith, length-append out (x ∷ [])) in
      elim (Bool-cases (p x)) [
        | inr e ↦ rw e (page_loop_lem p n offset skipped out rows zero zero room left)
        | inl e ↦ rw (e, done, full) refl
      ]
  page_loop_lem p n offset skipped out (x ∷ rows) zero (suc m) room left =
      let done : ltb skipped offset ≡ false = ground arith in
      let more : (length (out ++ x ∷ []) == n) ≡ false =
        ground (arith, length-append out (x ∷ [])) in
      elim (Bool-cases (p x)) [
        | inr e ↦ rw e (page_loop_lem p n offset skipped out rows zero (suc m) room left)
        | inl e ↦
            rw (e, done, more)
              (page_loop_lem p n offset skipped (out ++ x ∷ []) rows zero m
                  (omega (arith, length-append out (x ∷ []))) left
                ∙ append_assoc out (x ∷ []) (take (suc m) (keep p rows)))
      ]

  -- Asked for no rows, the loop never finds that it has as many, and collects all of them.
  pub page_loop_zero :
      (p : A → Bool) (offset skipped : ℕ) (out rows : List A) (k : ℕ)
      → skipped + k ≡ offset
      → page_loop p 0 offset skipped out rows ≡ out ++ drop k (keep p rows)
  unfolding page_loop
  page_loop_zero p offset skipped out [] zero left = sym (append-nil out)
  page_loop_zero p offset skipped out [] (suc k) left = sym (append-nil out)
  page_loop_zero p offset skipped out (x ∷ rows) (suc k) left =
      let more : ltb skipped offset ≡ true = ground arith in
      elim (Bool-cases (p x)) [
        | inr e ↦ rw e (page_loop_zero p offset skipped out rows (suc k) left)
        | inl e ↦ rw (e, more) (page_loop_zero p offset (skipped + 1) out rows k (omega arith))
      ]
  page_loop_zero p offset skipped out (x ∷ rows) zero left =
      let done : ltb skipped offset ≡ false = ground arith in
      let more : (length (out ++ x ∷ []) == 0) ≡ false =
        ground (arith, length-append out (x ∷ [])) in
      elim (Bool-cases (p x)) [
        | inr e ↦ rw e (page_loop_zero p offset skipped out rows zero left)
        | inl e ↦
            rw (e, done, more)
              (page_loop_zero p offset skipped (out ++ x ∷ []) rows zero left
                ∙ append_assoc out (x ∷ []) (keep p rows))
      ]

  pub past_end : (n offset : ℕ) (xs : List A) → length xs ≤ offset → take n (drop offset xs) ≡ []
  past_end n offset xs h = rw (drop-all offset xs h) (take-all n [] (omega arith))

  pub page_loop-take :
      (p : A → Bool) (bound offset n : ℕ) (rows : List A)
      → 0 < n
      → bound ≡ n
      → page_loop p bound offset 0 [] rows ≡ take n (drop offset (keep p rows))
  page_loop-take p zero offset n rows positive e = absurd (omega arith)
  page_loop-take p (suc m) offset n rows positive e =
      page_loop_lem p (suc m) offset 0 [] rows offset m (omega arith) (omega arith)
      ∙ ap (λ k. take k (drop offset (keep p rows))) e

  -- The loop bounded by the count gives the page that it gives without this bound.
  page_loop-bounded :
      (p : A → Bool) (n offset bound : ℕ) (rows : List A)
      → 0 < n
      → ((bound ≡ n) ⊎ (bound ≡ length (keep p rows)))
      → bound ≤ n
      → page_loop p bound offset 0 [] rows ≡ take n (drop offset (keep p rows))
  page_loop-bounded p n offset zero rows positive (inl e) le = absurd (omega arith)
  page_loop-bounded p n offset zero rows positive (inr e) le =
      page_loop_zero p offset 0 [] rows offset (omega arith)
      ∙ drop-all offset (keep p rows) (omega arith)
      ∙ sym (past_end n offset (keep p rows) (omega arith))
  page_loop-bounded p n offset (suc m) rows positive (inl e) le =
      page_loop_lem p (suc m) offset 0 [] rows offset m (omega arith) (omega arith)
      ∙ ap (λ k. take k (drop offset (keep p rows))) e
  page_loop-bounded p n offset (suc m) rows positive (inr e) le =
      page_loop_lem p (suc m) offset 0 [] rows offset m (omega arith) (omega arith)
      ∙ take-all (suc m) _ (omega (arith, length-drop offset (keep p rows)))
      ∙ sym (take-all n _ (omega (arith, length-drop offset (keep p rows))))

  -- A page of at least one row, bounded by the number of rows that pass the test.
  pub counted_page_lem :
      (p : A → Bool) (checked : Bool) (rows : List A) (count n offset : ℕ)
      → 0 < n
      → count ≡ length (keep p rows)
      → rows_of (counted_page p checked count (some rows) n offset)
        ≡ take n (drop offset (keep p rows))
  unfolding counted_page
  counted_page_lem p checked rows count n offset positive counted =
      elim (Bool-cases (leb (length rows) offset)) [
        | inl e ↦ rw e (sym (past_end n offset (keep p rows) (ground (arith, length-keep p rows))))
        | inr e ↦ rw e (elim (Bool-cases (checked && leb count offset)) [
          | inl f ↦ rw f (sym (past_end n offset (keep p rows) (ground arith)))
          | inr f ↦ rw f (
              page_loop-bounded p n offset (if ltb count n then count else n) rows positive
                (ground arith) (ground arith))
        ])
      ]

  take_short : (n : ℕ) (xs : List A) → length (take n xs) ≤ n
  take_short zero xs = omega arith
  take_short (suc n) [] = omega arith
  take_short (suc n) (x ∷ xs) = omega (arith, take_short n xs)

  pub address_rows_lem :
      (rows : List A) (n offset : ℕ)
      → n + offset < 2 ^ 63
      → rows_of (address_rows (some rows) n offset) ≡ take n (drop offset rows)
  unfolding address_rows
  address_rows_lem rows n offset small = elim (Bool-cases (leb (length rows) offset)) [
    | inl e ↦ rw e (sym (past_end n offset rows (ground arith)))
    | inr e ↦
        let no_wrap : leb (2 ^ 63) (offset + n) ≡ false = ground arith in
        rw (e, no_wrap)
          (elim (Bool-cases (ltb (length rows) (offset + n))) [
            | inl f ↦
                let inside : ltb offset (length rows) ≡ true = ground arith in
                rw (f, inside, take-all (length rows) rows (omega arith))
                  (sym (take-all n (drop offset rows) (ground (arith, length-drop offset rows))))
            | inr f ↦ rw f (last n)
          ])
  ]
    where
      last :
          (n : ℕ)
          → rows_of (
              if ltb offset (offset + n)
              then some (drop offset (take (offset + n) rows))
              else some [])
            ≡ take n (drop offset rows)
      last zero = let no_rows : ltb offset (offset + 0) ≡ false = ground arith in rw no_rows refl
      last (suc n) =
          let some_rows : ltb offset (offset + suc n) ≡ true = ground arith in
          rw some_rows (drop-take offset (suc n) rows)

  -- Whether the end wraps around or not.
  pub address_rows_short :
      (rows : List A) (n offset : ℕ) → length (rows_of (address_rows (some rows) n offset)) ≤ n
  unfolding address_rows
  address_rows_short rows n offset = elim (Bool-cases (leb (2 ^ 63) (offset + n))) [
    | inl wraps ↦ elim (Bool-cases (leb (length rows) offset)) [
      | inl e ↦ rw e (omega arith)
      | inr e ↦ rw (e, wraps) (omega arith)
    ]
    | inr small ↦
        rw (address_rows_lem rows n offset (ground arith)) (take_short n (drop offset rows))
  ]
