-- ===== src/Charts/Days.antt =====
-- Lengthen: the series are cut to one length, and the days that are over are made from the blocks.
use monetarium_explorer.Prelude.{
  ℕ, ◌+◌, ◌-◌, ◌*◌, ◌%◌, ◌^◌, List, [], ◌∷◌, ◌++◌, Option, none, some, length, get_elem?, ltb, leb,
  ◌==◌, if◌then◌else◌, Outcome, fine, failed, panic,
}
use monetarium_explorer.Prelude.Int.{pos}
use monetarium_explorer.Charts.{
  add64, avg_range, sum_range, ZoomSet, WindowSet, ChartData, snip_set, snip_windows, set_lengths,
  window_lengths, validate_lengths, a_day, midnight, drop,
}

-- The index of the first block after a time, or 0.
unfoldable pub offset_after : ℕ → ℕ → List ℕ → ℕ
offset_after start i [] = 0
offset_after start i (t ∷ ts) = if ltb start t then i else offset_after start (i + 1) ts

-- A day's blocks, the first and one past the last, and its midnight.
pub record DayInterval : Type 0 where
  pub first : ℕ
  pub after : ℕ
  pub stamp : ℕ

-- The scan over the block times from the offset on. At the time of the block `i + offset`, which has
-- passed the next midnight, the day ends.
unfoldable pub day_intervals : ℕ → ℕ → ℕ → ℕ → ℕ → ℕ → List ℕ → List DayInterval
day_intervals offset end i start_idx start next [] = []
day_intervals offset end i start_idx start next (t ∷ ts) =
    let day : DayInterval = record {
      first = start_idx + offset;
      after = i + offset;
      stamp = start;
    } in
    let later = day_intervals offset end (i + 1) i next (add64 next a_day) ts in
    let same_day = day_intervals offset end (i + 1) start_idx start next ts in
    if leb next t then if ltb end t then day ∷ [] else day ∷ later else same_day

infixl 5 ◌>>=◌
abbrev pub ◌>>=◌ {ℓ κ} : {A : Type ℓ} {B : Type κ} → Option A → (A → Option B) → Option B
none >>= f = none
some a >>= f = f a

module _ {Work : Type 0} where
  -- The snapshot of a day: sums, averages, and the work and the height of its end.
  unfoldable pub append_day : ZoomSet Work → DayInterval → ZoomSet Work → Option (ZoomSet Work)
  append_day blocks day days = do
    pool_size ← avg_range day.first day.after blocks.pool_size
    pool_value ← avg_range day.first day.after blocks.pool_value
    block_size ← sum_range day.first day.after blocks.block_size
    tx_count ← sum_range day.first day.after blocks.tx_count
    new_atoms ← sum_range day.first day.after blocks.new_atoms
    chainwork ← get_elem? blocks.chainwork day.after
    fees ← sum_range day.first day.after blocks.fees
    total_mixed ← sum_range day.first day.after blocks.total_mixed
    anonymity_set ← avg_range day.first day.after blocks.anonymity_set
    some (record days {
      height = days.height ++ (day.after - 1) ∷ [];
      time = days.time ++ day.stamp ∷ [];
      pool_size = days.pool_size ++ pool_size ∷ [];
      pool_value = days.pool_value ++ pool_value ∷ [];
      block_size = days.block_size ++ block_size ∷ [];
      tx_count = days.tx_count ++ tx_count ∷ [];
      new_atoms = days.new_atoms ++ new_atoms ∷ [];
      chainwork = days.chainwork ++ chainwork ∷ [];
      fees = days.fees ++ fees ∷ [];
      total_mixed = days.total_mixed ++ total_mixed ∷ [];
      anonymity_set = days.anonymity_set ++ anonymity_set ∷ [];
    })

  unfoldable pub append_days :
      ZoomSet Work → List DayInterval → ZoomSet Work → Option (ZoomSet Work)
  append_days blocks [] days = some days
  append_days blocks (day ∷ later) days = append_day blocks day days >>= append_days blocks later

-- The midnight that the scan begins at.
abbrev pub scan_start : ℕ → List ℕ → ℕ
scan_start first day_times = elim (get_elem? day_times (length day_times - 1)) [
  | none ↦ midnight first
  | some last ↦ add64 last a_day
]

abbrev pub new_days : ℕ → ℕ → List ℕ → List DayInterval
new_days start end times =
    let offset = offset_after start 0 times in
    let found = day_intervals offset end 0 0 start (add64 start a_day) (drop offset times) in
    if ltb (add64 start a_day) end then found else []

pub data ChartsError : Type 0 where
  zero_length_windows : ChartsError
  day_bin : ChartsError

module _ {Work : Type 0} where
  abbrev pub cut_blocks : ZoomSet Work → ZoomSet Work
  cut_blocks blocks =
      let (shortest, mismatch) = validate_lengths (set_lengths blocks) in
      if mismatch then snip_set (pos shortest) blocks else blocks

module _ {Float : Type 0} where
  abbrev pub cut_windows : WindowSet Float → WindowSet Float
  cut_windows windows =
      let (shortest, mismatch) = validate_lengths (window_lengths windows) in
      if mismatch then snip_windows (pos shortest) windows else windows

module _ {Float Work : Type 0} where
  -- The end of Lengthen, with the new days appended: the identifiers of the cached charts. The shifted
  -- time and the version, a `uint32`, have no bit in common.
  abbrev pub finish :
      List DayInterval
      → ZoomSet Work
      → ChartData Float Work
      → Outcome ChartsError (ChartData Float Work)
  finish intervals days charts =
      if (validate_lengths (set_lengths days)).1
      then failed day_bin (record charts { days = days })
      else elim (get_elem? charts.windows.time (length charts.windows.time - 1)) [
        | none ↦ panic
        | some window_time ↦ elim (get_elem? charts.blocks.time (length charts.blocks.time - 1)) [
          | none ↦ panic
          | some block_time ↦ fine (record charts {
            days =
                if ltb 0 (length intervals)
                then record days { cache_id = add64 days.cache_id 1 }
                else days;
            blocks = record charts.blocks { cache_id = block_time };
            windows = record charts.windows {
              cache_id = window_time * 2 ^ 32 % 2 ^ 64 + charts.windows.stake_count_version;
            };
          })
        ]
      ]

  -- The days of blocks from the time `first` to the time `last`.
  abbrev pub with_days : ℕ → ℕ → ChartData Float Work → Outcome ChartsError (ChartData Float Work)
  with_days first last charts =
      let intervals =
        new_days (scan_start first charts.days.time) (midnight last) charts.blocks.time in
      elim (append_days charts.blocks intervals charts.days) [
        | none ↦ panic
        | some days ↦ finish intervals days charts
      ]

  unfoldable pub lengthen : ChartData Float Work → Outcome ChartsError (ChartData Float Work)
  lengthen charts =
      let cut = record charts { blocks = cut_blocks charts.blocks } in
      if (validate_lengths (set_lengths charts.blocks)).0 == 0
      then fine cut
      else let both = record cut { windows = cut_windows charts.windows } in
        if (validate_lengths (window_lengths charts.windows)).0 == 0
        then failed zero_length_windows both
        else elim (get_elem? both.blocks.time 0) [
          | none ↦ panic
          | some first ↦ elim (get_elem? both.blocks.time (length both.blocks.time - 1)) [
            | none ↦ panic
            | some last ↦ with_days first last both
          ]
        ]
