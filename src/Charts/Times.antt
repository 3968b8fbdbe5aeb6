-- ===== src/Charts/Times.antt =====
-- avgBlockTimes: the average time between the blocks of each tick's interval.
use monetarium_explorer.Prelude.{
  ℕ, ◌+◌, ◌-◌, List, [], ◌∷◌, none, some, length, take, drop, ltb, if◌then◌else◌,
}
use monetarium_explorer.Charts.{avg_range, block_times}

-- Avg over the whole series, which no index leaves.
abbrev pub avg_all : List ℕ → ℕ
avg_all points = elim (avg_range 0 (length points) points) [ none ↦ 0 | some avg ↦ avg ]

-- The average over `blocks[last_idx:i]`.
abbrev pub avg_since : List ℕ → ℕ → ℕ → ℕ
avg_since blocks last_idx i = avg_all (block_times (take (i - last_idx) (drop last_idx blocks))).1

-- The loop over the blocks from the index `i` on, with the ticks after `next`; the results are the times
-- and the averages.
unfoldable pub avg_loop : List ℕ → ℕ → ℕ → ℕ → ℕ → List ℕ → List ℕ → List ℕ × List ℕ
avg_loop blocks last_idx i working_on next later [] = ([], [])
avg_loop blocks last_idx i working_on next [] (t ∷ ts) =
    let on = avg_loop blocks last_idx (i + 1) working_on next [] ts in
    if ltb next t then (working_on ∷ [], avg_since blocks last_idx i ∷ []) else on
avg_loop blocks last_idx i working_on next (tick ∷ later) (t ∷ ts) =
    let on = avg_loop blocks last_idx (i + 1) working_on next (tick ∷ later) ts in
    let (times, avgs) = avg_loop blocks i (i + 1) tick tick later ts in
    if ltb next t then (working_on ∷ times, avg_since blocks last_idx i ∷ avgs) else on

unfoldable pub avg_block_times : List ℕ → List ℕ → List ℕ × List ℕ
avg_block_times [] blocks = ([], [])
avg_block_times (tick ∷ []) blocks = ([], [])
avg_block_times (tick ∷ next ∷ later) blocks = avg_loop blocks 0 0 tick next later blocks
