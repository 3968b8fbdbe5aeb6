-- ===== src/Charts/Tiles.antt =====
-- The days that Lengthen adds take up the blocks without a gap, and none of them twice.

use monetarium_explorer.Prelude.{
  ℕ, zero, suc, ◌+◌, ◌-◌, ◌%◌, ◌^◌, ◌≤◌, ◌<◌, ◌≡◌, refl, sym, ap, ◌∙◌, Bool, true, false, not, ◌&&◌,
  ◌⊎◌, get_elem?, List, [], ◌∷◌, ◌++◌, some, arith, length, take, drop, ltb, leb, Bool-cases, inl,
  inr, some-injective, take-all, drop-all,
}
use monetarium_explorer.Charts.{add64, slice, sum64, sum_range, a_day}
use monetarium_explorer.Charts.Days.{DayInterval, day_intervals, new_days, offset_after}

-- Each day begins at the block where the one before it ended.
abbrev pub IsTiled : ℕ → ℕ → List DayInterval → Type 0
IsTiled from to [] = from ≡ to
IsTiled from to (d ∷ ds) = (d.first ≡ from) × (d.first ≤ d.after) × IsTiled d.after to ds

day_intervals-IsTiled :
    (offset end i start_idx start next : ℕ) (times : List ℕ)
    → start_idx ≤ i
    → (to : ℕ) × IsTiled
        (start_idx + offset)
        to
        (day_intervals offset end i start_idx start next times)
unfolding day_intervals
day_intervals-IsTiled offset end i start_idx start next [] l = (start_idx + offset, refl)
day_intervals-IsTiled offset end i start_idx start next (t ∷ ts) l =
    elim (Bool-cases (leb next t)) [
      | inr e ↦
          rw e (day_intervals-IsTiled offset end (i + 1) start_idx start next ts (omega arith))
      | inl e ↦ elim (Bool-cases (ltb end t)) [
        | inl f ↦ rw (e, f) (i + offset, (refl, omega arith, refl))
        | inr f ↦
            let (to, tiled) =
              day_intervals-IsTiled offset end (i + 1) i next (add64 next a_day) ts (omega arith) in
            rw (e, f) (to, (refl, omega arith, tiled))
      ]
    ]

-- No time of the list is after a given one.
abbrev pub none_after : ℕ → List ℕ → Bool
none_after start [] = true
none_after start (t ∷ ts) = not (ltb start t) && none_after start ts

offset_after_lem :
    (start i : ℕ) (times : List ℕ)
    → ((none_after start times ≡ true) × (offset_after start i times ≡ 0))
      ⊎ ((k : ℕ) × (t : ℕ) × (offset_after start i times ≡ i + k)
          × (get_elem? times k ≡ some t)
          × (start < t)
          × (none_after start (take k times) ≡ true))
unfolding offset_after
offset_after_lem start i [] = inl (refl, refl)
offset_after_lem start i (t ∷ ts) = elim (Bool-cases (ltb start t)) [
  | inl e ↦ inr (0, t, rw e (omega arith), refl, ground arith, refl)
  | inr e ↦ elim (offset_after_lem start (i + 1) ts) [
    | inl (early, f) ↦ inl (rw e early, rw e f)
    | inr (k, u, f, g, l, early) ↦ inr (suc k, u, rw e (omega (arith, f)), g, l, rw e early)
  ]
]

-- No day ends while no block is after its midnight.
day_intervals-none :
    (offset end i start_idx start next : ℕ) (times : List ℕ)
    → start < next
    → none_after start times ≡ true
    → day_intervals offset end i start_idx start next times ≡ []
unfolding day_intervals
day_intervals-none offset end i start_idx start next [] l e = refl
day_intervals-none offset end i start_idx start next (t ∷ ts) l e =
    let early : leb next t ≡ false = ground arith in
    rw early (day_intervals-none offset end (i + 1) start_idx start next ts l (ground arith))

none_or_some : (ds : List DayInterval) → (ds ≡ []) ⊎ (0 < length ds)
none_or_some [] = inl refl
none_or_some (d ∷ ds) = inr (omega arith)

-- There are new days, from the first block after `start` on.
abbrev pub AreNew : ℕ → List ℕ → ℕ → ℕ → List DayInterval → Type 0
AreNew start times from to ds =
    (t : ℕ) × (get_elem? times from ≡ some t)
    × (start < t)
    × (none_after start (take from times) ≡ true)
    × (0 < length ds)

pub new_days-IsTiled :
    (start end : ℕ) (times : List ℕ)
    → start + a_day < 2 ^ 64
    → (new_days start end times ≡ [])
      ⊎ ((from : ℕ) × (to : ℕ) × IsTiled from to (new_days start end times)
          × AreNew start times from to (new_days start end times))
new_days-IsTiled start end times small =
    let offset = offset_after start 0 times in
    let next = add64 start a_day in
    let later : start < next = omega arith in
    let found = day_intervals offset end 0 0 start next (drop offset times) in
    elim (Bool-cases (ltb next end)) [
      | inr e ↦ inl (rw e refl)
      | inl e ↦ elim (offset_after_lem start 0 times) [
        | inl (early, zero_offset) ↦
            let whole : drop offset times ≡ times = ap (λ k. drop k times) zero_offset in
            inl (
              rw e (
                day_intervals-none offset end 0 0 start next (drop offset times) later
                  (ap (none_after start) whole ∙ early)))
        | inr (k, t, at, hit, after, early) ↦ elim (none_or_some found) [
          | inl none_found ↦ inl (rw e none_found)
          | inr more ↦
              let (to, tiled) =
                day_intervals-IsTiled offset end 0 0 start next (drop offset times) (omega arith) in
              let same : k ≡ 0 + offset = omega (arith, at) in
              inr (
                rw e (
                  0 + offset,
                  to,
                  tiled,
                  (
                    t,
                    ap (get_elem? times) (sym same) ∙ hit,
                    after,
                    ap (λ j. none_after start (take j times)) (sym same) ∙ early,
                    more,
                  ),
                ))
        ]
      ]
    ]

pub tiled_le : (ds : List DayInterval) (from to : ℕ) → IsTiled from to ds → from ≤ to
tiled_le [] from to e = omega (arith, e)
tiled_le (d ∷ ds) from to (e, l, tiled) = omega (arith, e, l, tiled_le ds d.after to tiled)

-- The sum of the points from a block up to another.
abbrev pub sum_between : ℕ → ℕ → List ℕ → ℕ
sum_between from to xs = sum64 (take (to - from) (drop from xs))

pub sum64_small : (xs : List ℕ) → sum64 xs < 2 ^ 64
unfolding sum64
sum64_small [] = omega arith
sum64_small (x ∷ xs) = omega arith

pub sum64-append : (xs ys : List ℕ) → sum64 (xs ++ ys) ≡ (sum64 xs + sum64 ys) % 2 ^ 64
unfolding sum64
sum64-append [] ys = omega (arith, sum64_small ys)
sum64-append (x ∷ xs) ys = omega (arith, sum64-append xs ys)

sum_take :
    (m n : ℕ) (xs : List ℕ)
    → sum64 (take (m + n) xs) ≡ (sum64 (take m xs) + sum64 (take n (drop m xs))) % 2 ^ 64
unfolding sum64
sum_take zero n xs =
    let same : 0 + n ≡ n = omega arith in rw same (omega (arith, sum64_small (take n xs)))
sum_take (suc m) n [] =
    rw (take-all {A = ℕ} (suc m + n) [] (omega arith), take-all {A = ℕ} n [] (omega arith))
      (omega arith)
sum_take (suc m) n (x ∷ xs) =
    let next : suc m + n ≡ suc (m + n) = omega arith in rw next (omega (arith, sum_take m n xs))

drop-drop {ℓ} : {A : Type ℓ} (m n : ℕ) (xs : List A) → drop n (drop m xs) ≡ drop (m + n) xs
drop-drop zero n xs = ap (λ k. drop k xs) (omega arith)
drop-drop {A = A} (suc m) n [] =
    drop-all {A = A} n [] (omega arith) ∙ sym (drop-all {A = A} (suc m + n) [] (omega arith))
drop-drop (suc m) n (x ∷ xs) =
    let next : suc m + n ≡ suc (m + n) = omega arith in
    drop-drop m n xs ∙ sym (ap (λ k. drop k (x ∷ xs)) next)

-- Two stretches of blocks that meet.
pub sum_between_meets :
    (a b c : ℕ) (xs : List ℕ)
    → a ≤ b
    → b ≤ c
    → sum_between a c xs ≡ (sum_between a b xs + sum_between b c xs) % 2 ^ 64
sum_between_meets a b c xs l m =
    let whole : c - a ≡ (b - a) + (c - b) = omega arith in
    let at : a + (b - a) ≡ b = omega arith in
    ap (λ k. sum64 (take k (drop a xs))) whole
    ∙ sum_take (b - a) (c - b) (drop a xs)
    ∙ ap (λ ys. (sum_between a b xs + sum64 (take (c - b) ys)) % 2 ^ 64)
        (drop-drop a (b - a) xs ∙ ap (λ k. drop k xs) at)

pub sum_range_lem :
    (s e v : ℕ) (xs : List ℕ) → s ≤ e → sum_range s e xs ≡ some v → v ≡ sum_between s e xs
unfolding sum_range slice sum64
sum_range_lem s e v xs l f = elim (Bool-cases (leb e s)) [
  | inl g ↦
      let width : e - s ≡ 0 = ground arith in
      sym (some-injective (rw g at f)) ∙ sym (ap (λ k. sum64 (take k (drop s xs))) width)
  | inr g ↦ elim (Bool-cases (leb e (length xs))) [
    | inl h ↦ sym (some-injective (rw h at (rw g at f)))
    | inr h ↦ absurd (ground (arith, rw h at (rw g at f)))
  ]
]
