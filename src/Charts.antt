-- ===== src/Charts.antt =====
-- db/cache/charts.go: ChartData, the series behind the charts, one value per block, day or difficulty
-- window.
--
-- A `uint64` is a number below 2 ^ 64. The points that are floats and big integers are only moved, and
-- are of the types `Float` and `Work`; what a method does with them is left out. A slice expression out
-- of range is `none` or a panic. The locks, the database and the encoding of charts are left out.
pub mod Times
pub mod Days
pub mod Ends
pub mod Lengths
pub mod Even
pub mod Miners
pub mod Reorg
pub mod Tiles
pub mod Sums
mod Checks
use monetarium_explorer.Prelude.{
  ℕ, ◌+◌, ◌-◌, ◌*◌, ◌/◌, ◌%◌, ◌^◌, Bool, true, false, not, ◌&&◌, List, [], ◌∷◌, ◌++◌, Option, none,
  some, length, get_elem?, take, drop, ltb, leb, ◌==◌, if◌then◌else◌,
}
use monetarium_explorer.Prelude.Int.{ℤ, pos, negsuc, sub_ℕ, ◌+ℤ◌, below, ltz, int_of}

abbrev pub add64 : ℕ → ℕ → ℕ
add64 a b = (a + b) % 2 ^ 64

-- snip: at most `max` points.
unfoldable pub snip {ℓ} : {A : Type ℓ} → ℕ → List A → List A
snip max xs = if ltb (length xs) max then take (length xs) xs else take max xs

-- The sum of the points, wrapping around.
unfoldable pub sum64 : List ℕ → ℕ
sum64 [] = 0
sum64 (v ∷ vs) = add64 v (sum64 vs)

-- `data[s:e]`
unfoldable pub slice : ℕ → ℕ → List ℕ → Option (List ℕ)
slice s e xs = if leb e (length xs) then some (take (e - s) (drop s xs)) else none

-- Avg and Sum of a ChartUints.
unfoldable pub avg_range : ℕ → ℕ → List ℕ → Option ℕ
avg_range s e xs =
    if leb e s
    then some 0
    else elim (slice s e xs) [ none ↦ none | some ys ↦ some (sum64 ys / (e - s)) ]

unfoldable pub sum_range : ℕ → ℕ → List ℕ → Option ℕ
sum_range s e xs =
    if leb e s then some 0 else elim (slice s e xs) [ none ↦ none | some ys ↦ some (sum64 ys) ]

pub record ZoomSet (Work : Type 0) : Type 0 where
  pub cache_id : ℕ
  pub height : List ℕ
  pub time : List ℕ
  pub pool_size : List ℕ
  pub pool_value : List ℕ
  pub block_size : List ℕ
  pub tx_count : List ℕ
  pub new_atoms : List ℕ
  pub chainwork : List Work
  pub fees : List ℕ
  pub total_mixed : List ℕ
  pub anonymity_set : List ℕ

pub record WindowSet (Float : Type 0) : Type 0 where
  pub cache_id : ℕ
  pub time : List ℕ
  pub height : List ℕ
  pub pow_diff : List Float
  pub ticket_price : List ℕ
  pub stake_count : List ℕ
  pub missed_votes : List ℕ
  pub stake_count_version : ℕ

-- The first and the last height at which a miner was seen.
pub record MinerRange : Type 0 where
  pub first_seen : ℕ
  pub last_used : ℕ

pub record ChartData (Float Work : Type 0) : Type 0 where
  pub blocks : ZoomSet Work
  pub windows : WindowSet Float
  pub days : ZoomSet Work
  pub miner_ranges : List MinerRange

-- `if length < 0 { length = 0 }`
abbrev pub at_least_0 : ℤ → ℕ
at_least_0 (pos n) = n
at_least_0 (negsuc n) = 0

module _ {Work : Type 0} where
  unfoldable pub snip_set : ℤ → ZoomSet Work → ZoomSet Work
  snip_set len set =
      let n = at_least_0 len in
      record set {
        height = snip n set.height;
        time = snip n set.time;
        pool_size = snip n set.pool_size;
        pool_value = snip n set.pool_value;
        block_size = snip n set.block_size;
        tx_count = snip n set.tx_count;
        new_atoms = snip n set.new_atoms;
        chainwork = snip n set.chainwork;
        fees = snip n set.fees;
        total_mixed = snip n set.total_mixed;
        anonymity_set = snip n set.anonymity_set;
      }

  -- The lengths of the series.
  abbrev pub set_lengths : ZoomSet Work → List ℕ
  set_lengths set =
      length set.height
      ∷ length set.time
      ∷ length set.pool_size
      ∷ length set.pool_value
      ∷ length set.block_size
      ∷ length set.tx_count
      ∷ length set.new_atoms
      ∷ length set.chainwork
      ∷ length set.fees
      ∷ length set.total_mixed
      ∷ length set.anonymity_set
      ∷ []

module _ {Float : Type 0} where
  unfoldable pub snip_windows : ℤ → WindowSet Float → WindowSet Float
  snip_windows len set =
      let n = at_least_0 len in
      record set {
        time = snip n set.time;
        height = snip n set.height;
        pow_diff = snip n set.pow_diff;
        ticket_price = snip n set.ticket_price;
        stake_count = snip n set.stake_count;
        missed_votes = snip n set.missed_votes;
      }

  abbrev pub window_lengths : WindowSet Float → List ℕ
  window_lengths set =
      length set.time
      ∷ length set.pow_diff
      ∷ length set.ticket_price
      ∷ length set.stake_count
      ∷ length set.missed_votes
      ∷ length set.height
      ∷ []

-- The loop of ValidateLengths.
unfoldable pub lengths_loop : ℕ → ℕ → ℕ → List ℕ → ℕ × ℕ
lengths_loop first shortest longest [] = (shortest, longest)
lengths_loop first shortest longest (n ∷ lens) =
    if not (n == first)
    then if ltb n shortest
      then lengths_loop first n longest lens
      else if ltb longest n
      then lengths_loop first shortest n lens
      else lengths_loop first shortest longest lens
    else lengths_loop first shortest longest lens

-- ValidateLengths, by the lengths: the length to keep, and whether they differ.
unfoldable pub validate_lengths : List ℕ → ℕ × Bool
validate_lengths [] = (0, false)
validate_lengths (first ∷ lens) =
    let (shortest, longest) = lengths_loop first first first lens in
    if not (shortest == longest) then (shortest, true) else (first, false)

abbrev pub a_day : ℕ
a_day = 86400

unfoldable pub midnight : ℕ → ℕ
midnight t = if ltb 0 t then t - t % a_day else 0

-- The first window that begins after a height, or the number of windows.
unfoldable pub keep_windows : ℤ → List ℕ → ℕ
keep_windows ancestor [] = 0
keep_windows ancestor (h ∷ hs) = if ltz ancestor (int_of h) then 0 else keep_windows ancestor hs + 1

module _ {Float Work : Type 0} where
  -- ReorgHandler, by the new chain's height and length.
  unfoldable pub reorg_handler : ℕ → ℕ → ChartData Float Work → ChartData Float Work
  reorg_handler new_chain_height new_chain_length charts =
      let ancestor = sub_ℕ new_chain_height new_chain_length in
      let days_len = sub_ℕ (length charts.days.time) 2 in
      let keep = keep_windows ancestor charts.windows.height in
      record charts {
        blocks = snip_set (ancestor +ℤ pos 1) charts.blocks;
        days = snip_set (if below days_len 1 then pos 1 else days_len) charts.days;
        windows =
            if ltb keep (length charts.windows.height)
            then snip_windows (pos keep) charts.windows
            else charts.windows;
      }

-- Each point and all before it.
abbrev accumulate_loop : ℕ → List ℕ → List ℕ
accumulate_loop accumulator [] = []
accumulate_loop accumulator (v ∷ vs) =
    let next = add64 accumulator v in next ∷ accumulate_loop next vs

unfoldable pub accumulate : List ℕ → List ℕ
accumulate xs = accumulate_loop 0 xs

-- `a - b` on `uint64`.
abbrev pub sub64 : ℕ → ℕ → ℕ
sub64 a b = (a + 2 ^ 64 - b) % 2 ^ 64

-- NormalizeGenesisBlockTime: whether the first time was moved, and the times.
unfoldable pub normalize_genesis_block_time : List ℕ → Bool × List ℕ
normalize_genesis_block_time [] = (false, [])
normalize_genesis_block_time (t ∷ []) = (false, t ∷ [])
normalize_genesis_block_time (t ∷ u ∷ ts) =
    if leb (sub64 u t) 3600 then (false, t ∷ u ∷ ts) else (true, sub64 u 1 ∷ u ∷ ts)

-- The differences of the times, 0 for one that an `int64` shows as negative.
unfoldable pub time_differences : ℕ → List ℕ → List ℕ
time_differences last [] = []
time_differences last (v ∷ vs) =
    let dif = sub64 v last in (if leb (2 ^ 63) dif then 0 else dif) ∷ time_differences v vs

unfoldable pub block_times : List ℕ → List ℕ × List ℕ
block_times [] = ([], [])
block_times (t ∷ []) = ([], [])
block_times (t ∷ u ∷ ts) = (u ∷ ts, time_differences t (u ∷ ts))
