-- ===== src/ApiCache/Store.antt =====
-- StoreBlockSummary, StoreStakeInfo and the removal of blocks.
use monetarium_explorer.Prelude.{ℕ, Bool, true, false, not, List, Option, none, some, if◌then◌else◌}
use monetarium_explorer.Prelude.Int.{ℤ, pos, negsuc}
use monetarium_explorer.AssocMap.{lookup, put, erase}
use monetarium_explorer.BlockQueue.{
  BlockDataBasic, StakeInfoExtended, CachedBlock, new_cached_block, access,
}
use monetarium_explorer.BlockQueue.Heap.{Heap}
use monetarium_explorer.BlockQueue.Ops.{insert, remove_block}
use monetarium_explorer.ApiCache.{ApiCache, is_enabled, main_hash, get_cached_block_by_hash}

-- `delete(apic.MainchainBlocks, height)`
abbrev pub erase_height : ℤ → List (ℕ × ℕ) → List (ℕ × ℕ)
erase_height (pos height) m = erase height m
erase_height (negsuc n) m = m

-- Deletes the block that left the queue, when one did.
unfoldable pub forget_removed : Option ℕ → ℤ → ApiCache → ApiCache
forget_removed none height apic = apic
forget_removed (some hash) height apic = record apic {
  block_cache = erase hash apic.block_cache;
  mainchain_blocks = erase_height height apic.mainchain_blocks;
}

-- Adds the new block, when it went into the queue.
unfoldable pub add_to_maps : Bool → ℕ → ℕ → CachedBlock → ApiCache → ApiCache
add_to_maps false height hash b apic = apic
add_to_maps true height hash b apic = record apic {
  block_cache = put hash b apic.block_cache;
  mainchain_blocks = put height hash apic.mainchain_blocks;
}

module _ (heap : Heap) (parse : ℕ → Option ℕ) where
  -- The end of both store operations, for a block that is not cached.
  unfoldable pub store_new :
      ℕ → Option BlockDataBasic → Option StakeInfoExtended → ℕ → ℕ → ApiCache → Option ApiCache
  store_new now summary stake_info height hash apic = elim (new_cached_block summary stake_info) [
    | none ↦ none
    | some cached_block ↦ elim (insert heap parse now summary stake_info apic.expire_queue) [
      | none ↦ none
      | some (r, queue) ↦ some (
          add_to_maps r.was_added height hash (access now cached_block)
            (forget_removed r.removed_hash r.removed_height (record apic { expire_queue = queue })))
    ]
  ]

  unfoldable pub store_block_summary : ℕ → BlockDataBasic → ApiCache → Option ApiCache
  store_block_summary now block_summary apic =
      if not (is_enabled apic) then some apic else elim (parse block_summary.hash) [
        | none ↦ none
        | some hash ↦ elim (lookup hash apic.block_cache) [
          | none ↦ store_new now (some block_summary) none block_summary.height hash apic
          | some b ↦ elim b.summary [
            | some already ↦ some apic
            | none ↦ some (record apic {
              block_cache = put hash (record b { summary = some block_summary }) apic.block_cache;
            })
          ]
        ]
      ]

  unfoldable pub store_stake_info : ℕ → StakeInfoExtended → ApiCache → Option ApiCache
  store_stake_info now stake_info apic =
      if not (is_enabled apic) then some apic else elim (parse stake_info.hash) [
        | none ↦ none
        | some hash ↦ elim (lookup hash apic.block_cache) [
          | none ↦ store_new now none (some stake_info) stake_info.height hash apic
          | some b ↦ elim b.stake_info [
            | some already ↦ some apic
            | none ↦ some (record apic {
              block_cache = put hash (record b { stake_info = some stake_info }) apic.block_cache;
            })
          ]
        ]
      ]

  -- removeCachedBlock, as it is written: the block map is touched only when the hash does not parse,
  -- and then through a nil pointer.
  unfoldable pub remove_cached_block : Option CachedBlock → ApiCache → Option ApiCache
  remove_cached_block none apic = some apic
  remove_cached_block (some b) apic = elim (remove_block heap (some b) apic.expire_queue) [
    | none ↦ none
    | some queue ↦ elim (parse b.hash) [
      | none ↦ none
      | some hash ↦ some (record apic {
        expire_queue = queue;
        mainchain_blocks = erase b.height apic.mainchain_blocks;
      })
    ]
  ]

  unfoldable pub remove_cached_block_by_height : ℕ → ℤ → ApiCache → Option ApiCache
  remove_cached_block_by_height now height apic = elim (main_hash height apic) [
    | none ↦ some apic
    | some hash ↦
        let (found, t) = get_cached_block_by_hash now hash apic in remove_cached_block found t
  ]
