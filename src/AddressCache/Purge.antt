-- ===== src/AddressCache/Purge.antt =====
-- The purge: what it keeps, and that it makes room whatever the map's order.
use monetarium_explorer.Prelude.{
  ℕ, zero, suc, ◌+◌, ◌%◌, ◌<◌, ◌≤◌, ◌≡◌, refl, ap, Bool, true, false, not, ◌&&◌, ◌||◌, List, [],
  ◌∷◌, some, length, get_elem?, get_elem?-some, keep, ltb, leb, ◌==◌, arith, Bool-cases,
  Option-cases, ◌⊎◌, inl, inr, some-injective,
}
use monetarium_explorer.HashSet.{has}
use monetarium_explorer.AssocMap.{erase, keys, total, length-erase, length-erase_at_most}
use monetarium_explorer.AddressCache.{key_of, victim, purge_addrs, purge_rows, purge_rows_to_fit}

space_lem :
    (kept new row_cap addrs cap_addr : ℕ)
    → ((kept ≡ 0) ⊎ (kept + new ≤ row_cap))
    → addrs < cap_addr
    → (leb (kept + new) row_cap && ltb addrs cap_addr) ≡ leb new row_cap
space_lem kept new row_cap addrs cap_addr (inl z) room = ground arith
space_lem kept new row_cap addrs cap_addr (inr le) room = ground arith

module _ {V : Type 0} where
  has-get_elem? :
      (ok : V → Bool) (m : List (ℕ × V)) (i : ℕ) (e : ℕ × V)
      → get_elem? (keep (λ e. ok e.1) m) i ≡ some e
      → has e.0 (keys m) ≡ true
  unfolding has
  has-get_elem? ok [] i e found = ground arith
  has-get_elem? ok ((j, w) ∷ m) zero e found = elim (Bool-cases (ok w)) [
    | inl o ↦ let same : j ≡ e.0 = ap (λ c. c.0) (some-injective (rw o at found)) in ground arith
    | inr o ↦ let later = has-get_elem? ok m zero e (rw o at found) in ground arith
  ]
  has-get_elem? ok ((j, w) ∷ m) (suc i) e found = elim (Bool-cases (ok w)) [
    | inl o ↦ let later = has-get_elem? ok m i e (rw o at found) in ground arith
    | inr o ↦ let later = has-get_elem? ok m (suc i) e (rw o at found) in ground arith
  ]

  -- Among some candidates, the deleted key is one of the map.
  victim-has :
      (pick : List (ℕ × V) → ℕ) (ok : V → Bool) (m : List (ℕ × V))
      → 0 < length (keep (λ e. ok e.1) m)
      → (k : ℕ) × (victim pick ok m ≡ some k) × (has k (keys m) ≡ true)
  unfolding victim
  victim-has pick ok m some_one =
      let candidates = keep (λ e. ok e.1) m in
      let (e, found) = get_elem?-some candidates (pick m % length candidates) (omega arith) in
      (e.0, ap key_of found, has-get_elem? ok m _ e found)

  -- What every deletion keeps, the purge keeps.
  purge_addrs-keeps :
      (P : List (ℕ × V) → Type 0)
      → ((k : ℕ) (m : List (ℕ × V)) → P m → P (erase k m))
      → (pick : List (ℕ × V) → ℕ) (cap_addr fuel : ℕ) (m : List (ℕ × V)) → P m
      → P (purge_addrs pick cap_addr fuel m)
  unfolding purge_addrs
  purge_addrs-keeps P step pick cap_addr zero m p = p
  purge_addrs-keeps P step pick cap_addr (suc fuel) m p =
      elim (Bool-cases (leb cap_addr (length m))) [
        | inr e ↦ rw e p
        | inl e ↦ rw e (elim (Option-cases (victim pick (λ v. true) m)) [
          | inl f ↦ rw f p
          | inr (k, f) ↦ rw f (purge_addrs-keeps P step pick cap_addr fuel (erase k m) (step k m p))
        ])
      ]

  purge_rows-keeps :
      (P : List (ℕ × V) → Type 0)
      → ((k : ℕ) (m : List (ℕ × V)) → P m → P (erase k m))
      → (pick : List (ℕ × V) → ℕ) (size : V → ℕ) (row_cap new old fuel : ℕ) (m : List (ℕ × V)) → P m
      → P (purge_rows pick size row_cap new old fuel m)
  unfolding purge_rows
  purge_rows-keeps P step pick size row_cap new old zero m p = p
  purge_rows-keeps P step pick size row_cap new old (suc fuel) m p =
      elim (Bool-cases (not (total size m == 0) && ltb (row_cap + old) (total size m + new))) [
        | inr e ↦ rw e p
        | inl e ↦ rw e (elim (Option-cases (victim pick (λ v. not (size v == 0)) m)) [
          | inl f ↦ rw f p
          | inr (k, f) ↦
              rw f (purge_rows-keeps P step pick size row_cap new old fuel (erase k m) (step k m p))
        ])
      ]

  length-keep_all : (m : List (ℕ × V)) → length (keep (λ e. true) m) ≡ length m
  length-keep_all [] = refl
  length-keep_all (e ∷ m) = ap suc (length-keep_all m)

  -- Afterwards there is room for one more address.
  purge_addrs-fits :
      (pick : List (ℕ × V) → ℕ) (cap_addr fuel : ℕ) (m : List (ℕ × V))
      → 0 < cap_addr
      → length m ≤ fuel
      → length (purge_addrs pick cap_addr fuel m) < cap_addr
  unfolding purge_addrs
  purge_addrs-fits pick cap_addr zero m positive enough = omega arith
  purge_addrs-fits pick cap_addr (suc fuel) m positive enough =
      elim (Bool-cases (leb cap_addr (length m))) [
        | inr e ↦ rw e (ground arith)
        | inl e ↦
            let (k, f, known) = victim-has pick (λ v. true) m (ground (arith, length-keep_all m)) in
            rw (e, f)
              (purge_addrs-fits pick cap_addr fuel (erase k m) positive
                (omega (arith, length-erase k m known)))
      ]

  keep-sized :
      (size : V → ℕ) (m : List (ℕ × V))
      → 0 < total size m
      → 0 < length (keep (λ e. not (size e.1 == 0)) m)
  keep-sized size [] h = absurd (omega arith)
  keep-sized size ((j, w) ∷ m) h = ground (arith, keep-sized size m)

  -- Afterwards no rows are left, or there is room for the new ones.
  purge_rows-fits :
      (pick : List (ℕ × V) → ℕ) (size : V → ℕ) (row_cap new old fuel : ℕ) (m : List (ℕ × V))
      → length m ≤ fuel
      → (total size (purge_rows pick size row_cap new old fuel m) ≡ 0)
        ⊎ (total size (purge_rows pick size row_cap new old fuel m) + new ≤ row_cap + old)
  unfolding purge_rows
  purge_rows-fits pick size row_cap new old zero [] enough = inl refl
  purge_rows-fits pick size row_cap new old zero (e ∷ m) enough = absurd (omega arith)
  purge_rows-fits pick size row_cap new old (suc fuel) m enough =
      elim (Bool-cases (not (total size m == 0) && ltb (row_cap + old) (total size m + new))) [
        | inr e ↦ rw e (ground arith)
        | inl e ↦
            let (k, f, known) =
              victim-has pick (λ v. not (size v == 0)) m (keep-sized size m (ground arith)) in
            rw (e, f)
              (purge_rows-fits pick size row_cap new old fuel (erase k m)
                (omega (arith, length-erase k m known)))
      ]

  -- What every deletion keeps, purgeRowsToFit keeps.
  pub purge_rows_to_fit-keeps :
      (P : List (ℕ × V) → Type 0)
      → ((k : ℕ) (m : List (ℕ × V)) → P m → P (erase k m))
      → (pick : List (ℕ × V) → ℕ) (size : V → ℕ) (row_cap cap_addr new old : ℕ) (m : List (ℕ × V))
      → P m
      → P (purge_rows_to_fit pick size row_cap cap_addr new old m).1
  unfolding purge_rows_to_fit
  purge_rows_to_fit-keeps P step pick size row_cap cap_addr new old m p =
      elim (Bool-cases (ltb row_cap 1 || ltb cap_addr 1)) [
        | inl e ↦ rw e p
        | inr e ↦ rw e (
            purge_rows-keeps P step pick size row_cap new old _ _
              (purge_addrs-keeps P step pick cap_addr (length m) m p))
      ]

  -- purgeRowsToFit, for capacities of at least 1 and in whatever order the map gives its entries: it makes room for one more address;
  -- it reports space exactly when the `new` rows, less the `old` ones that they replace, are within
  -- the row capacity by themselves; and it goes on until the rows left and the new ones, less the old
  -- ones, are within it, or no rows are left.
  pub purge_rows_to_fit-fits :
      (pick : List (ℕ × V) → ℕ) (size : V → ℕ) (row_cap cap_addr new old : ℕ) (m : List (ℕ × V))
      → 0 < row_cap
      → 0 < cap_addr
      → ((purge_rows_to_fit pick size row_cap cap_addr new old m).0 ≡ leb new (row_cap + old))
        × (length (purge_rows_to_fit pick size row_cap cap_addr new old m).1 < cap_addr)
        × ((total size (purge_rows_to_fit pick size row_cap cap_addr new old m).1 ≡ 0)
            ⊎ (total size (purge_rows_to_fit pick size row_cap cap_addr new old m).1 + new
                ≤ row_cap + old))
  unfolding purge_rows_to_fit
  purge_rows_to_fit-fits pick size row_cap cap_addr new old m some_rows positive =
      let m1 = purge_addrs pick cap_addr (length m) m in
      let m2 = purge_rows pick size row_cap new old (length m1) m1 in
      let addrs = purge_addrs-fits pick cap_addr (length m) m positive (omega arith) in
      let shrinks : length m2 ≤ length m1 =
        purge_rows-keeps (λ n. length n ≤ length m1)
          (λ k n le. omega (arith, length-erase_at_most k n)) pick size row_cap new old (length m1)
          m1 (omega arith) in
      let fits = purge_rows-fits pick size row_cap new old (length m1) m1 (omega arith) in
      let usable : (ltb row_cap 1 || ltb cap_addr 1) ≡ false = ground arith in
      rw usable (
        space_lem (total size m2) new (row_cap + old) (length m2) cap_addr fits (omega arith),
        omega arith,
        fits,
      )
