-- ===== src/BlockQueue.antt =====
-- api/types/apicache.go: CachedBlock and BlockPriorityQueue, the queue of the blocks that the API cache
-- holds, with the comparators that order it.
--
-- A hash string is a number that names it; a time is its nanoseconds since 1970, which lie below
-- 2 ^ 63 until the year 2262. A call reads the clock once, as `now`. Of the two payloads of a block
-- the fields that the cache reads are kept. The package container/heap, which the queue is handed to,
-- is the parameter `Heap` of the child module Heap; the lock is left out, and `none` is a panic.
pub mod Heap
pub mod Ops
pub mod Swaps
pub mod Ranges
pub mod Places
pub mod Inserting
pub mod Cases
pub mod Invariant
pub mod Rearranging
pub mod History
pub mod Refinement
pub mod Order
pub mod Selection
mod Checks
use monetarium_explorer.Prelude.{
  ℕ, suc, ◌+◌, ◌-◌, ◌*◌, ◌/◌, ◌%◌, ◌^◌, Bool, true, false, List, [], ◌∷◌, ◌++◌, Option, none, some,
  length, get_elem?, set_at, but_last, ltb, leb, ◌==◌, if◌then◌else◌,
}
use monetarium_explorer.Prelude.Int.{ℤ, pos, negsuc, ltz, eqz, gtb, below, int64_next}

pub record BlockDataBasic : Type 0 where
  pub height : ℕ
  pub hash : ℕ
  pub size : ℕ

-- `height` is `Feeinfo.Height`.
pub record StakeInfoExtended : Type 0 where
  pub height : ℕ
  pub hash : ℕ

pub record CachedBlock : Type 0 where
  pub height : ℕ
  pub hash : ℕ
  pub summary : Option BlockDataBasic
  pub stake_info : Option StakeInfoExtended
  pub accesses : ℤ
  pub access_time : ℕ
  pub heap_idx : ℤ

pub record CachedBlockData : Type 0 where
  pub block_summary : Option BlockDataBasic
  pub stake_info : Option StakeInfoExtended

-- The height and the hash of a block, or `none` for a mismatch; outside for a block with neither part,
-- where the code reads through a nil pointer.
abbrev pub check_parts : Option BlockDataBasic → Option StakeInfoExtended → Option (Option (ℕ × ℕ))
check_parts none none = none
check_parts none (some i) = some (some (i.height, i.hash))
check_parts (some s) none = some (some (s.height, s.hash))
check_parts (some s) (some i) =
    if s.height == i.height
    then if s.hash == i.hash then some (some (s.height, s.hash)) else some none
    else some none

unfoldable pub check_block_height_hash : CachedBlockData → Option (Option (ℕ × ℕ))
check_block_height_hash b = check_parts b.block_summary b.stake_info

-- newCachedBlock, with `none` for nil.
unfoldable pub new_cached_block :
    Option BlockDataBasic → Option StakeInfoExtended → Option CachedBlock
new_cached_block summary stake_info =
    elim (check_block_height_hash (record { block_summary = summary; stake_info = stake_info })) [
      | none ↦ none
      | some none ↦ none
      | some (some (height, hash)) ↦ some (record {
        height = height;
        hash = hash;
        summary = summary;
        stake_info = stake_info;
        accesses = pos 0;
        access_time = 0;
        heap_idx = negsuc 0;
      })
    ]

-- Access
unfoldable pub access : ℕ → CachedBlock → CachedBlock
access now b = record b { accesses = int64_next b.accesses; access_time = now }

abbrev pub LessFn : Type 0
LessFn = CachedBlock → CachedBlock → Bool

unfoldable pub less_by_height : LessFn
less_by_height bi bj = ltb bi.height bj.height

unfoldable pub less_by_access_count : LessFn
less_by_access_count bi bj = ltz bi.accesses bj.accesses

unfoldable pub less_by_access_time : LessFn
less_by_access_time bi bj = ltb bi.access_time bj.access_time

unfoldable pub less_by_access_count_then_height : LessFn
less_by_access_count_then_height bi bj =
    if eqz bi.accesses bj.accesses then less_by_height bi bj else less_by_access_count bi bj

-- The threshold of MakeLessByAccessTimeThenCount, a product on `int64`, by its size: the sign of a
-- divisor does not matter to whether a truncated quotient is 0.
abbrev pub threshold : ℕ → ℕ
threshold milliseconds_binned =
    let product = milliseconds_binned * 1000000 % 2 ^ 64 in
    if ltb product (2 ^ 63) then product else 2 ^ 64 - product

-- MakeLessByAccessTimeThenCount, for a resolution whose threshold is not 0: at one with threshold 0,
-- such as 2 ^ 58, the code divides by zero when it compares. Truncated division is 0 when the distance
-- of the times, divided, is.
unfoldable pub make_less_by_access_time_then_count : ℕ → LessFn
make_less_by_access_time_then_count milliseconds_binned bi bj =
    let distance =
      if leb bj.access_time bi.access_time
      then bi.access_time - bj.access_time
      else bj.access_time - bi.access_time in
    if distance / threshold milliseconds_binned == 0
    then less_by_access_count bi bj
    else less_by_access_time bi bj

-- The times are zero before the first access, as `time.Unix(0, 0)`.
pub record BlockPriorityQueue : Type 0 where
  pub bh : List CachedBlock
  pub capacity : ℕ
  pub needs_reheap : Bool
  pub min_height : ℕ
  pub max_height : ℤ
  pub less_fn : LessFn
  pub last_access : ℕ

abbrev pub max_uint32 : ℕ
max_uint32 = 2 ^ 32 - 1

unfoldable pub new_block_priority_queue : ℕ → BlockPriorityQueue
new_block_priority_queue capacity = record {
  bh = [];
  capacity = capacity;
  needs_reheap = false;
  min_height = max_uint32;
  max_height = negsuc 0;
  less_fn = make_less_by_access_time_then_count 1;
  last_access = 0;
}

-- Swap, by the two blocks.
abbrev pub swap_blocks :
    ℕ → ℕ → Option CachedBlock → Option CachedBlock → List CachedBlock → List CachedBlock
swap_blocks i j (some a) (some b) bh =
    set_at j (record a { heap_idx = pos j }) (set_at i (record b { heap_idx = pos i }) bh)
swap_blocks i j none b bh = bh
swap_blocks i j (some a) none bh = bh

-- Swap: with an index out of range, which container/heap never passes, nothing is swapped here.
unfoldable pub swap : ℕ → ℕ → List CachedBlock → List CachedBlock
swap i j bh = swap_blocks i j (get_elem? bh i) (get_elem? bh j) bh

unfoldable pub set_less_fn : LessFn → BlockPriorityQueue → BlockPriorityQueue
set_less_fn less_fn pq = record pq { less_fn = less_fn }

-- updateMinMax
unfoldable pub update_min_max : ℕ → BlockPriorityQueue → BlockPriorityQueue
update_min_max h pq = record pq {
  max_height = if below pq.max_height h then pos h else pq.max_height;
  min_height = if ltb h pq.min_height then h else pq.min_height;
}

-- The loop of RescanMinMax.
unfoldable pub rescan_loop : List CachedBlock → BlockPriorityQueue → BlockPriorityQueue
rescan_loop [] pq = pq
rescan_loop (b ∷ bs) pq = rescan_loop bs (update_min_max b.height pq)

unfoldable pub rescan_min_max : BlockPriorityQueue → BlockPriorityQueue
rescan_min_max pq = rescan_loop pq.bh pq
