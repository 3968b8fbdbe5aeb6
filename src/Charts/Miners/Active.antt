-- ===== src/Charts/Miners/Active.antt =====
-- The counts of the sweep are those of the miners that are active.
use monetarium_explorer.Prelude.{
  ℕ, ◌+◌, ◌-◌, ◌^◌, ◌≤◌, ◌<◌, ◌≡◌, refl, Bool, true, false, not, ◌&&◌, List, [], ◌∷◌, Option, none,
  some, arith, length, get_elem?, leb, ltb, if◌then◌else◌, Bool-cases, Option-cases, inl, inr,
  some-injective, get_elem?-some,
}
use monetarium_explorer.Charts.{add64, MinerRange}
use monetarium_explorer.Charts.Miners.{
  IntervalType, all_interval, year_interval, week_interval, day_interval, other_interval, duration,
  Event, time_after, last_block,
}
use monetarium_explorer.Charts.Miners.Sweep.{one, count_if, IsFrom}

-- The events at heights from 2 ^ 63 on, which are negative as an `int`.
abbrev pub negatives : List Event → ℕ
negatives es = count_if (λ e. leb (2 ^ 63) e.height) es

-- sort.Slice keeps the events and puts them in the order of their heights.
pub record SortLaws (sort : List Event → List Event) : Type 0 where
  pub keeps : (p : Event → Bool) (es : List Event) → count_if p (sort es) ≡ count_if p es
  pub orders : (es : List Event) → negatives es ≡ 0 → IsFrom 0 (sort es)

-- sort.Search finds where a test that stays true becomes true.
abbrev pub SearchLaw : (ℕ → (ℕ → Bool) → ℕ) → Type 0
SearchLaw search =
    (n : ℕ) (f : ℕ → Bool)
    → ((i j : ℕ) → i ≤ j → j < n → f i ≡ true → f j ≡ true)
    → (i : ℕ) → i < n
    → leb (search n f) i ≡ f i

-- The times of the blocks do not decrease, and they and their number fit in an `int64`.
pub record IsTimeline (times : List ℕ) : Type 0 where
  pub ordered :
      (i j t u : ℕ) → i ≤ j → get_elem? times i ≡ some t → get_elem? times j ≡ some u → t ≤ u
  pub small : (i t : ℕ) → get_elem? times i ≡ some t → t < 2 ^ 63
  pub few : length times < 2 ^ 63

-- How far back an interval looks, in seconds: not at all for the whole chain, else 365 days, 7 days or
-- one day.
abbrev pub lookback_of : IntervalType → Option ℕ
lookback_of all_interval = none
lookback_of year_interval = some 31536000
lookback_of week_interval = some 604800
lookback_of day_interval = some 86400
lookback_of other_interval = some 604800

pub duration_lem : (interval : IntervalType) → lookback_of interval ≡ duration interval
unfolding duration
duration_lem all_interval = refl
duration_lem year_interval = refl
duration_lem week_interval = refl
duration_lem day_interval = refl
duration_lem other_interval = refl

-- The last block at which a miner was seen, or the last block there is.
abbrev pub last_counted : ℕ → MinerRange → ℕ
last_counted num_blocks m = if ltb m.last_used num_blocks then m.last_used else num_blocks - 1

-- The block at a height is later than the last one of a miner by more than the lookback.
abbrev pub is_gone : Option ℕ → Option ℕ → Option ℕ → Bool
is_gone none last here = false
is_gone (some lookback) none here = false
is_gone (some lookback) (some t_last) here = time_after here (t_last + lookback)

-- A miner is active at a height from the first block that it was seen at, until the lookback is over.
abbrev pub is_active : ℕ → IntervalType → List ℕ → ℕ → MinerRange → Bool
is_active num_blocks interval times h m =
    leb m.first_seen h
    && not (
        is_gone (lookback_of interval) (get_elem? times (last_counted num_blocks m))
          (get_elem? times h))

abbrev pub active_count : ℕ → IntervalType → List ℕ → ℕ → List MinerRange → ℕ
active_count num_blocks interval times h [] = 0
active_count num_blocks interval times h (m ∷ ms) =
    one (is_active num_blocks interval times h m) + active_count num_blocks interval times h ms

-- Every miner was first seen no later than last, at heights that an `int` holds.
abbrev pub AreRanges : List MinerRange → Type 0
AreRanges [] = Unit
AreRanges (m ∷ ms) = ((m.first_seen ≤ m.last_used) × (m.last_used < 2 ^ 63)) × AreRanges ms

pub lookback_small : (interval : IntervalType) (d : ℕ) → duration interval ≡ some d → d < 2 ^ 63
unfolding duration
lookback_small all_interval d e = absurd (ground arith)
lookback_small year_interval d e = omega (arith, some-injective e)
lookback_small week_interval d e = omega (arith, some-injective e)
lookback_small day_interval d e = omega (arith, some-injective e)
lookback_small other_interval d e = omega (arith, some-injective e)

module _ (times : List ℕ) (line : IsTimeline times) where
  pub later_stays :
      (exit i j : ℕ)
      → i ≤ j
      → j < length times
      → time_after (get_elem? times i) exit ≡ true
      → time_after (get_elem? times j) exit ≡ true
  later_stays exit i j l inside e =
      let (t, f) = get_elem?-some times i (omega arith) in
      let (u, g) = get_elem?-some times j inside in
      rw g (ground (arith, line.ordered i j t u l f g, rw f at e))

  -- The last block of a miner, and any before it, is not past the lookback.
  pub not_gone :
      (last h t lookback : ℕ)
      → h ≤ last
      → get_elem? times last ≡ some t
      → lookback < 2 ^ 63
      → time_after (get_elem? times h) (add64 t lookback) ≡ false
  not_gone last h t lookback l e small = elim (Option-cases (get_elem? times h)) [
    | inl f ↦ rw f refl
    | inr (u, f) ↦ rw f (ground (arith, line.ordered h last u t l f e, line.small last t e, small))
  ]

pub last_block_lem :
    (n : ℕ) (m : MinerRange) → m.last_used < 2 ^ 63 → last_block n m ≡ some (last_counted n m)
unfolding last_block
last_block_lem n m small =
    let fits : ltb m.last_used (2 ^ 63) ≡ true = ground arith in
    elim (Bool-cases (ltb m.last_used n)) [
      | inl e ↦
          let inside : leb n m.last_used ≡ false = ground arith in
          rw (last_block, fits, e, inside) refl
      | inr e ↦
          let beyond : leb n m.last_used ≡ true = ground arith in
          rw (last_block, fits, e, beyond) refl
    ]
