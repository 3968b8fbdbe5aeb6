-- ===== src/ApiCache/Checks.antt =====
-- A cache for two blocks, with one in it.
use monetarium_explorer.Prelude.{ℕ, ◌+◌, ◌≤◌, ◌≡◌, ◌⊎◌, refl, [], none, some, arith, length}
use monetarium_explorer.Prelude.Int.{pos}
use monetarium_explorer.AssocMap.{lookup, put, erase}
use monetarium_explorer.BlockQueue.Ops.{remove_block}
use monetarium_explorer.BlockQueue.{
  BlockDataBasic, CachedBlock, less_by_height, set_less_fn, new_block_priority_queue,
}
use monetarium_explorer.BlockQueue.Selection.{selection}
use monetarium_explorer.ApiCache.{
  ApiCache, new_api_cache, set_cache_less_fn, enable, is_enabled, utilization_blocks, main_hash,
  get_block_summary, get_block_summary_by_hash, set_less_fn, put, remove_block,
  new_block_priority_queue, erase,
}
use monetarium_explorer.ApiCache.Store.{store_block_summary, remove_cached_block}
use monetarium_explorer.ApiCache.Getting.{
  with_summary, fresh, insert_with_room, store_block_summary-get,
}
use monetarium_explorer.ApiCache.History.{
  ApiReach, starts, enables, stores_summary, ApiReach-bounded, remove_cached_block-keeps,
}

abbrev summary_at : ℕ → BlockDataBasic
summary_at height = record { height = height; hash = height + 1; size = 300 }

abbrev empty_cache : ApiCache
empty_cache = enable (set_cache_less_fn less_by_height (new_api_cache 2))

abbrev one_block : ApiCache
one_block = with_summary selection some 50 (summary_at 7) 8 empty_cache

one_stored : store_block_summary selection some 50 (summary_at 7) empty_cache ≡ some one_block
unfolding store_block_summary enable set_cache_less_fn new_api_cache is_enabled lookup set_less_fn
    new_block_priority_queue
one_stored = insert_with_room selection some 50 (summary_at 7) 8 empty_cache (ground arith)

one : ApiReach selection less_by_height some 2 one_block
one = stores_summary 50 (summary_at 7) (enables starts) one_stored

ApiReach-bounded_example :
    (utilization_blocks one_block ≤ 2)
    × (utilization_blocks one_block ≡ length one_block.expire_queue.bh)
    × ((lookup 7 one_block.mainchain_blocks ≡ none)
        ⊎ ((k : ℕ) × (b : CachedBlock) × (lookup 7 one_block.mainchain_blocks ≡ some k)
            × (lookup k one_block.block_cache ≡ some b)
            × (b.height ≡ 7)))
ApiReach-bounded_example = ApiReach-bounded selection less_by_height some 2 one_block 7 one

abbrev after_removal : ApiCache
after_removal = record one_block { mainchain_blocks = [] }

only : CachedBlock
only = fresh selection some 50 (summary_at 7) 8 empty_cache

removed_one : remove_cached_block selection some (some only) one_block ≡ some after_removal
unfolding remove_cached_block remove_block only put erase enable set_cache_less_fn new_api_cache
removed_one = refl

remove_cached_block-keeps_example :
    (main_hash (pos 7) after_removal ≡ none)
    × (lookup 8 after_removal.block_cache ≡ lookup 8 one_block.block_cache)
    × (after_removal.expire_queue ≡ one_block.expire_queue)
unfolding only
remove_cached_block-keeps_example =
    remove_cached_block-keeps selection less_by_height some 2 only 0 8 one_block after_removal refl
      removed_one

store_block_summary-get_example :
    (t : ApiCache) × (store_block_summary selection some 60 (summary_at 9) one_block ≡ some t)
    × ((get_block_summary 70 (pos 9) t).0 ≡ some (summary_at 9))
    × ((get_block_summary_by_hash some 70 10 t).0 ≡ some (summary_at 9))
unfolding is_enabled utilization_blocks put lookup enable set_cache_less_fn new_api_cache
store_block_summary-get_example =
    store_block_summary-get selection less_by_height some 2 60 70 10 (summary_at 9) one_block one
      refl (ground arith) refl refl
