-- ===== src/Charts/Reorg.antt =====
-- ReorgHandler takes off the blocks, the days and the windows that a reorganisation may have changed.
use monetarium_explorer.Prelude.{
  ℕ, zero, suc, ◌≤◌, ◌≡◌, refl, sym, ap, ◌∙◌, true, false, List, [], ◌∷◌, none, some, ◌⊎◌,
  Option-cases, arith, length, get_elem?, take, ltb, if◌then◌else◌, Bool-cases, inl, inr,
  length-take, take-all, some-injective,
}
use monetarium_explorer.Prelude.Int.{ℤ, pos, ltz, int_of, sub_ℕ, ◌+ℤ◌}
use monetarium_explorer.Charts.{
  snip, ZoomSet, ChartData, at_least_0, snip_set, snip_windows, keep_windows, reorg_handler,
}
use monetarium_explorer.Charts.Even.{IsEven, snip_set_by}

length-snip_any {ℓ} :
    {A : Type ℓ} (m k : ℕ) (xs : List A)
    → (m ≤ length xs) × (length xs ≤ m)
    → ((if ltb m k then m else k) ≤ length (snip k xs))
      × (length (snip k xs) ≤ (if ltb m k then m else k))
unfolding snip
length-snip_any m k xs (a, b) = elim (Bool-cases (ltb (length xs) k)) [
  | inl e ↦
      let short : ltb m k ≡ true = ground arith in
      let cut = length-take (length xs) xs (omega arith) in rw (e, short) (omega arith, omega arith)
  | inr e ↦
      let long : ltb m k ≡ false = ground arith in
      let cut = length-take k xs (ground arith) in rw (e, long) (omega arith, omega arith)
]

module _ {Work : Type 0} where
  -- A set of `m` points is snipped to `k` if that is less.
  snip_set-IsEven_any :
      (m : ℕ) (z : ℤ) (set : ZoomSet Work)
      → IsEven m set
      → IsEven (if ltb m (at_least_0 z) then m else at_least_0 z) (snip_set z set)
  unfolding IsEven snip_set
  snip_set-IsEven_any m z set even =
      let k = at_least_0 z in
      snip_set_by m m k (if ltb m k then m else k) set (λ A xs. length-snip_any m k xs) even

lesser : (n k : ℕ) → (if ltb n k then n else k) ≤ k
lesser n k = ground arith

no_more : (n k : ℕ) → (if ltb n k then n else k) ≤ n
no_more n k = ground arith

-- The windows that are kept begin no later than the common ancestor.
kept_step :
    (ancestor : ℤ) (h : ℕ) (kept : List ℕ) (i w : ℕ)
    → ltz ancestor (int_of h) ≡ false
    → ((i w : ℕ) → get_elem? kept i ≡ some w → ltz ancestor (int_of w) ≡ false)
    → get_elem? (h ∷ kept) i ≡ some w
    → ltz ancestor (int_of w) ≡ false
kept_step ancestor h kept zero w f all e =
    ap (λ u. ltz ancestor (int_of u)) (sym (some-injective e)) ∙ f
kept_step ancestor h kept (suc i) w f all e = all i w e

kept_windows :
    (ancestor : ℤ) (heights : List ℕ) (i w : ℕ)
    → get_elem? (take (keep_windows ancestor heights) heights) i ≡ some w
    → ltz ancestor (int_of w) ≡ false
unfolding keep_windows
kept_windows ancestor [] i w e = absurd (ground arith)
kept_windows ancestor (h ∷ hs) i w e = elim (Bool-cases (ltz ancestor (int_of h))) [
  | inl f ↦ absurd (ground (arith, rw f at e))
  | inr f ↦
      let next : keep_windows ancestor (h ∷ hs) ≡ suc (keep_windows ancestor hs) =
        rw f (omega arith) in
      kept_step ancestor h (take (keep_windows ancestor hs) hs) i w f (kept_windows ancestor hs)
        (rw next at e)
]

length-keep_windows : (ancestor : ℤ) (hs : List ℕ) → keep_windows ancestor hs ≤ length hs
unfolding keep_windows
length-keep_windows ancestor [] = omega arith
length-keep_windows ancestor (h ∷ hs) = ground (arith, length-keep_windows ancestor hs)

snip-take : (k : ℕ) (xs : List ℕ) → k ≤ length xs → snip k xs ≡ take k xs
unfolding snip
snip-take k xs l = let long : ltb (length xs) k ≡ false = ground arith in rw long refl

module _ {Float Work : Type 0} where
  -- When the series of the blocks have one length, and those of the days, they still do after
  -- ReorgHandler, whatever windows there are: the blocks are no more than those up to the common ancestor
  -- of the chains, the days are no more than they were, and at each index there is no window left, or
  -- one that begins, as an `int64`, no later than the ancestor.
  pub reorg_handler-IsEven :
      (new_height new_length n d i : ℕ) (charts : ChartData Float Work)
      → IsEven n charts.blocks
      → IsEven d charts.days
      → (m : ℕ) × IsEven m (reorg_handler new_height new_length charts).blocks
        × (m ≤ at_least_0 (sub_ℕ new_height new_length +ℤ pos 1))
        × (e : ℕ) × IsEven e (reorg_handler new_height new_length charts).days
        × (e ≤ d)
        × ((get_elem? (reorg_handler new_height new_length charts).windows.height i ≡ none)
            ⊎ ((w : ℕ) × (get_elem? (reorg_handler new_height new_length charts).windows.height i
                  ≡ some w)
                × (ltz (sub_ℕ new_height new_length) (int_of w) ≡ false)))
  unfolding reorg_handler snip_windows
  reorg_handler-IsEven new_height new_length n d i charts blocks days =
      let ancestor = sub_ℕ new_height new_length in
      let heights = charts.windows.height in
      let keep = keep_windows ancestor heights in
      let shown = length-keep_windows ancestor heights in
      let left = (reorg_handler new_height new_length charts).windows.height in
      let same : left ≡ take keep heights = elim (Bool-cases (ltb keep (length heights))) [
        | inl e ↦ rw e (snip-take keep heights shown)
        | inr e ↦ rw e (sym (take-all keep heights (ground arith)))
      ] in
      (
        _,
        snip_set-IsEven_any n (ancestor +ℤ pos 1) charts.blocks blocks,
        lesser n (at_least_0 (ancestor +ℤ pos 1)),
        _,
        snip_set-IsEven_any d _ charts.days days,
        no_more d _,
        elim (Option-cases (get_elem? left i)) [
          | inl e ↦ inl e
          | inr (w, e) ↦
              inr
                (w, e, kept_windows ancestor heights i w (ap (λ xs. get_elem? xs i) (sym same) ∙ e))
        ],
      )
