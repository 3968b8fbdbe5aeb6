-- ===== src/ApiCache.antt =====
-- api/types/apicache.go: APICache, the cache of block summaries and stake information, with the
-- queue of the module BlockQueue.
--
-- The block map and the queue hold blocks of their own: Insert makes a new CachedBlock for the queue,
-- and the map holds the one that the store operation made, so what happens to one is not seen by the
-- other. A `chainhash.Hash` is a number; `parse` is chainhash.NewHashFromStr and `show` its String
-- method. `hits` and `misses` are `uint64`. The locks are left out; `none` is a panic.
pub mod Store
pub mod Consistent
pub mod Storing
pub mod Keeping
pub mod Getting
mod Checks
pub mod History
use monetarium_explorer.Prelude.{
  ℕ, ◌+◌, ◌%◌, ◌^◌, Bool, true, false, not, List, [], ◌∷◌, Option, none, some, length, ◌==◌,
  if◌then◌else◌, ltb, ◌-◌,
}
use monetarium_explorer.Prelude.Int.{ℤ, pos, negsuc}
use monetarium_explorer.AssocMap.{lookup, put, erase}
use monetarium_explorer.BlockQueue.{
  BlockDataBasic, StakeInfoExtended, CachedBlock, BlockPriorityQueue, LessFn, new_cached_block,
  access, new_block_priority_queue, set_less_fn,
}
use monetarium_explorer.BlockQueue.Heap.{Heap}
use monetarium_explorer.BlockQueue.Ops.{
  InsertResult, insert, remove_block, set_needs_reheap, set_access_time,
}

-- The keys of `mainchain_blocks`, heights that are `int64` in the code, are the non-negative ones that
-- the store operations put there. `is_enabled` is `none` before the first Enable or Disable.
pub record ApiCache : Type 0 where
  pub is_enabled : Option Bool
  pub capacity : ℕ
  pub block_cache : List (ℕ × CachedBlock)
  pub mainchain_blocks : List (ℕ × ℕ)
  pub expire_queue : BlockPriorityQueue
  pub hits : ℕ
  pub misses : ℕ

unfoldable pub new_api_cache : ℕ → ApiCache
new_api_cache capacity = record {
  is_enabled = none;
  capacity = capacity;
  block_cache = [];
  mainchain_blocks = [];
  expire_queue = new_block_priority_queue capacity;
  hits = 0;
  misses = 0;
}

unfoldable pub set_cache_less_fn : LessFn → ApiCache → ApiCache
set_cache_less_fn less_fn apic = record apic {
  expire_queue = set_less_fn less_fn apic.expire_queue;
}

unfoldable pub utilization_blocks : ApiCache → ℕ
utilization_blocks apic = length apic.block_cache

unfoldable pub enable : ApiCache → ApiCache
enable apic = record apic { is_enabled = some true }

unfoldable pub disable : ApiCache → ApiCache
disable apic = record apic { is_enabled = some false }

-- The value that was never stored is no Boolean.
abbrev pub is_on : Option Bool → Bool
is_on none = false
is_on (some enabled) = enabled

unfoldable pub is_enabled : ApiCache → Bool
is_enabled apic = is_on apic.is_enabled

-- getCachedBlockByHash
unfoldable pub get_cached_block_by_hash : ℕ → ℕ → ApiCache → Option CachedBlock × ApiCache
get_cached_block_by_hash now hash apic = elim (lookup hash apic.block_cache) [
  | some cached_block ↦
      let accessed = access now cached_block in
      (
        some accessed,
        record apic {
          block_cache = put hash accessed apic.block_cache;
          expire_queue = set_access_time now (set_needs_reheap true apic.expire_queue);
          hits = (apic.hits + 1) % 2 ^ 64;
        },
      )
  | none ↦ (none, record apic { misses = (apic.misses + 1) % 2 ^ 64 })
]

-- A key of MainchainBlocks.
abbrev pub main_hash : ℤ → ApiCache → Option ℕ
main_hash (pos height) apic = lookup height apic.mainchain_blocks
main_hash (negsuc n) apic = none

unfoldable pub get_cached_block_by_height : ℕ → ℤ → ApiCache → Option CachedBlock × ApiCache
get_cached_block_by_height now height apic = elim (main_hash height apic) [
  | none ↦ (none, apic)
  | some hash ↦ get_cached_block_by_hash now hash apic
]

-- GetBlockHash, with `none` for the empty string.
unfoldable pub get_block_hash : (ℕ → ℕ) → ℤ → ApiCache → Option ℕ
get_block_hash show height apic =
    if not (is_enabled apic)
    then none
    else elim (main_hash height apic) [ none ↦ none | some hash ↦ some (show hash) ]

-- GetBlockSize: an `int32` of the size, or -1.
abbrev int32 : ℕ → ℤ
int32 n = let m = n % 2 ^ 32 in if ltb m (2 ^ 31) then pos m else negsuc (2 ^ 32 - 1 - m)

abbrev size_of : Option CachedBlock → ℤ
size_of none = negsuc 0
size_of (some b) = elim b.summary [ none ↦ negsuc 0 | some summary ↦ int32 summary.size ]

unfoldable pub get_block_size : ℕ → ℤ → ApiCache → ℤ × ApiCache
get_block_size now height apic =
    if not (is_enabled apic)
    then (negsuc 0, apic)
    else let (found, t) = get_cached_block_by_height now height apic in (size_of found, t)

abbrev pub summary_of : Option CachedBlock → Option BlockDataBasic
summary_of none = none
summary_of (some b) = b.summary

abbrev pub stake_info_of : Option CachedBlock → Option StakeInfoExtended
stake_info_of none = none
stake_info_of (some b) = b.stake_info

unfoldable pub get_block_summary : ℕ → ℤ → ApiCache → Option BlockDataBasic × ApiCache
get_block_summary now height apic =
    if not (is_enabled apic)
    then (none, apic)
    else let (found, t) = get_cached_block_by_height now height apic in (summary_of found, t)

unfoldable pub get_stake_info : ℕ → ℤ → ApiCache → Option StakeInfoExtended × ApiCache
get_stake_info now height apic =
    if not (is_enabled apic)
    then (none, apic)
    else let (found, t) = get_cached_block_by_height now height apic in (stake_info_of found, t)

module _ (parse : ℕ → Option ℕ) where
  unfoldable pub get_cached_block_by_hash_str : ℕ → ℕ → ApiCache → Option CachedBlock × ApiCache
  get_cached_block_by_hash_str now hash_str apic = elim (parse hash_str) [
    | none ↦ (none, apic)
    | some hash ↦ get_cached_block_by_hash now hash apic
  ]

  unfoldable pub get_block_summary_by_hash : ℕ → ℕ → ApiCache → Option BlockDataBasic × ApiCache
  get_block_summary_by_hash now hash apic =
      if not (is_enabled apic)
      then (none, apic)
      else let (found, t) = get_cached_block_by_hash_str now hash apic in (summary_of found, t)

  unfoldable pub get_stake_info_by_hash : ℕ → ℕ → ApiCache → Option StakeInfoExtended × ApiCache
  get_stake_info_by_hash now hash apic =
      if not (is_enabled apic)
      then (none, apic)
      else let (found, t) = get_cached_block_by_hash_str now hash apic in (stake_info_of found, t)
