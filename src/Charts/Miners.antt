-- ===== src/Charts/Miners.antt =====
-- activeMinersCounts: at each block, how many miners are counted as active, by a sweep over the heights
-- where one comes or goes. The number of blocks is an `int` that is not negative. `sort` is sort.Slice by
-- the heights, and `search` is sort.Search.
pub mod Sweep
pub mod Active
pub mod Counting
use monetarium_explorer.Prelude.{
  ℕ, zero, suc, ◌+◌, ◌-◌, ◌*◌, ◌%◌, ◌^◌, Bool, true, false, not, ◌&&◌, ◌||◌, List, [], ◌∷◌, ◌++◌,
  Option, none, some, length, get_elem?, ltb, leb, ◌==◌, if◌then◌else◌,
}
use monetarium_explorer.Prelude.Int.{pos, negsuc, below, int_of}
use monetarium_explorer.Charts.{add64, MinerRange}
use monetarium_explorer.Charts.Days.{◌>>=◌}

pub data IntervalType : Type 0 where
  all_interval : IntervalType
  year_interval : IntervalType
  week_interval : IntervalType
  day_interval : IntervalType
  other_interval : IntervalType

-- In seconds; none for the whole chain.
unfoldable pub duration : IntervalType → Option ℕ
duration all_interval = none
duration year_interval = some (365 * 24 * 60 * 60)
duration week_interval = some (7 * 24 * 60 * 60)
duration day_interval = some (24 * 60 * 60)
duration other_interval = some (7 * 24 * 60 * 60)

-- A miner comes (`delta` is 1) or goes (`delta` is -1). `height` is the 64 bits of an `int`.
pub record Event : Type 0 where
  pub height : ℕ
  pub comes : Bool

abbrev pub time_after : Option ℕ → ℕ → Bool
time_after none exit = false
time_after (some t) exit = ltb exit t

-- The last block that counts for a miner, `used`; a negative one is an index out of range (`none`).
unfoldable pub last_block : ℕ → MinerRange → Option ℕ
last_block num_blocks m = elim (int_of m.last_used) [
  | pos used ↦ some (if leb num_blocks used then num_blocks - 1 else used)
  | negsuc k ↦ none
]

unfoldable pub repeat0 : ℕ → List ℕ
repeat0 zero = []
repeat0 (suc n) = 0 ∷ repeat0 n

-- The events at a height, and the count after them.
unfoldable pub consume : ℕ → List Event → ℕ → List Event × ℕ
consume h [] current = ([], current)
consume h (e ∷ es) current =
    let came = consume h es ((current + 1) % 2 ^ 64) in
    let gone = consume h es ((current + 2 ^ 64 - 1) % 2 ^ 64) in
    if e.height == h then if e.comes then came else gone else (e ∷ es, current)

-- The counts at `n` heights from `h` on.
unfoldable pub sweep : ℕ → ℕ → List Event → ℕ → List ℕ
sweep zero h es current = []
sweep (suc n) h es current =
    let (rest, next) = consume h es current in next ∷ sweep n (h + 1) rest next

module _ (search : ℕ → (ℕ → Bool) → ℕ) where
  unfoldable pub exit_events : ℕ → ℕ → List ℕ → MinerRange → Option (List Event)
  exit_events num_blocks lookback times m =
      elim (last_block num_blocks m >>= λ used. get_elem? times used) [
        | none ↦ none
        | some t_last ↦
            let exit =
              search (length times) (λ i. time_after (get_elem? times i) (add64 t_last lookback)) in
            if ltb exit num_blocks
            then some (record { height = exit; comes = false } ∷ [])
            else some []
      ]

  unfoldable pub miner_events : ℕ → IntervalType → List ℕ → MinerRange → Option (List Event)
  miner_events num_blocks interval times m =
      if not (below (int_of m.first_seen) num_blocks) then some [] else elim (duration interval) [
        | none ↦ some (record { height = m.first_seen; comes = true } ∷ [])
        | some lookback ↦ elim (exit_events num_blocks lookback times m) [
          | none ↦ none
          | some exits ↦ some (record { height = m.first_seen; comes = true } ∷ exits)
        ]
      ]

  unfoldable pub all_events : ℕ → IntervalType → List ℕ → List MinerRange → Option (List Event)
  all_events num_blocks interval times [] = some []
  all_events num_blocks interval times (m ∷ ms) = elim (miner_events num_blocks interval times m) [
    | none ↦ none
    | some es ↦ elim (all_events num_blocks interval times ms) [
      | none ↦ none
      | some later ↦ some (es ++ later)
    ]
  ]

module _ (search : ℕ → (ℕ → Bool) → ℕ) (sort : List Event → List Event) where
  unfoldable pub active_miners_counts :
      ℕ → IntervalType → List ℕ → List MinerRange → Option (List ℕ)
  active_miners_counts num_blocks interval times ranges =
      if num_blocks == 0 || length ranges == 0
      then some (repeat0 num_blocks)
      else elim (all_events search num_blocks interval times ranges) [
        | none ↦ none
        | some events ↦ some (sweep num_blocks 0 (sort events) 0)
      ]
