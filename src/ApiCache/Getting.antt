-- ===== src/ApiCache/Getting.antt =====
-- What the getters of the cache give once a block is stored.
use monetarium_explorer.Prelude.{
  ℕ, ◌<◌, ◌≡◌, refl, ◌∙◌, true, false, Option, none, some, arith, length, leb, ◌==◌,
}
use monetarium_explorer.Prelude.Int.{pos, negsuc}
use monetarium_explorer.AssocMap.{lookup, put, lookup-put}
use monetarium_explorer.BlockQueue.{
  BlockDataBasic, CachedBlock, LessFn, access, check_block_height_hash,
}
use monetarium_explorer.BlockQueue.Heap.{Heap, no_order}
use monetarium_explorer.BlockQueue.Ops.{insert_some, insert_room}
use monetarium_explorer.BlockQueue.Inserting.{built, joined, insert_room_lem, new_cached_block_lem}
use monetarium_explorer.BlockQueue.Refinement.{insert_lem}
use monetarium_explorer.BlockQueue.History.{QueueReach-IsQueue}
use monetarium_explorer.ApiCache.{
  ApiCache, is_enabled, utilization_blocks, get_cached_block_by_hash, get_cached_block_by_height,
  get_cached_block_by_hash_str, get_block_summary, get_block_summary_by_hash,
}
use monetarium_explorer.ApiCache.Store.{forget_removed, add_to_maps, store_new, store_block_summary}
use monetarium_explorer.ApiCache.History.{ApiReach, ApiReach-IsConsistent}

module _ (heap : Heap) (parse : ℕ → Option ℕ) (now : ℕ) (summary : BlockDataBasic) (k : ℕ)
    (apic : ApiCache) where
  -- The block that the store makes for the map.
  abbrev pub fresh : CachedBlock
  fresh = record (built now (some summary) none summary.height summary.hash (negsuc 0)) {
    access_time = now;
  }

  -- The cache with the summary stored, when there is room.
  abbrev pub with_summary : ApiCache
  with_summary = record apic {
    block_cache = put k fresh apic.block_cache;
    mainchain_blocks = put summary.height k apic.mainchain_blocks;
    expire_queue =
        joined heap now (some summary) none summary.height summary.hash apic.expire_queue;
  }

  pub insert_with_room :
      length apic.expire_queue.bh < apic.expire_queue.capacity
      → store_new heap parse now (some summary) none summary.height k apic ≡ some with_summary
  unfolding store_new access add_to_maps forget_removed check_block_height_hash insert_some
  insert_with_room room =
      let on : (apic.expire_queue.capacity == 0) ≡ false = ground arith in
      let free : leb apic.expire_queue.capacity (length apic.expire_queue.bh) ≡ false =
        ground arith in
      let given = some summary in
      let pq = apic.expire_queue in
      let inside : insert_some heap parse now (some summary) none pq
          ≡ insert_room heap parse now (some summary) none pq =
        rw (on, free, insert_some) refl in
      let inserted =
        insert_lem heap parse now given none summary.height summary.hash pq refl
        ∙ inside
        ∙ insert_room_lem heap now given none summary.height summary.hash parse pq refl in
      rw
        (
          new_cached_block_lem heap now (some summary) none summary.height summary.hash refl,
          store_new,
        )
        (rw inserted refl)

  get_by_hash_stored :
      (later : ℕ) → (get_cached_block_by_hash later k with_summary).0 ≡ some (access later fresh)
  unfolding get_cached_block_by_hash
  get_by_hash_stored later =
      let held : lookup k (put k fresh apic.block_cache) ≡ some fresh =
        lookup-put k k fresh apic.block_cache ∙ ground arith in
      rw (held, get_cached_block_by_hash) refl

module _ (heap : Heap) (less : LessFn) (parse : ℕ → Option ℕ) (capacity : ℕ) where
  -- In a cache that came about by its operations, where the blocks that it was told to remove are ones
  -- that note no position, as those that it hands out do, with any comparator that it was given at the
  -- start and whatever swaps container/heap makes, and that is enabled and has room: StoreBlockSummary of a
  -- block that is not cached, under a hash that parses, does not panic, and a call right after it that
  -- asks for the summary, by the height or by the hash, whatever the clock says then, gets it.
  pub store_block_summary-get :
      (now later k : ℕ) (summary : BlockDataBasic) (apic : ApiCache)
      → ApiReach heap less parse capacity apic
      → is_enabled apic ≡ true
      → utilization_blocks apic < capacity
      → parse summary.hash ≡ some k
      → lookup k apic.block_cache ≡ none
      → (t : ApiCache) × (store_block_summary heap parse now summary apic ≡ some t)
        × ((get_block_summary later (pos summary.height) t).0 ≡ some summary)
        × ((get_block_summary_by_hash parse later summary.hash t).0 ≡ some summary)
  unfolding store_block_summary utilization_blocks get_block_summary get_block_summary_by_hash
      is_enabled get_cached_block_by_height get_cached_block_by_hash_str access
  store_block_summary-get now later k summary apic r on room spelled absent =
      let c = ApiReach-IsConsistent heap less parse capacity r in
      let w = QueueReach-IsQueue (no_order heap less) capacity capacity parse c.queue in
      let t = with_summary heap parse now summary k apic in
      let got = get_by_hash_stored heap parse now summary k apic later in
      let main : lookup summary.height (put summary.height k apic.mainchain_blocks) ≡ some k =
        lookup-put summary.height summary.height k apic.mainchain_blocks ∙ ground arith in
      (
        t,
        rw on (
            rw spelled (
              rw absent
                (insert_with_room heap parse now summary k apic (omega (arith, c.same, w.sized))))),
        rw on (rw (main, get_cached_block_by_height) (rw got refl)),
        rw on (rw (spelled, get_cached_block_by_hash_str) (rw got refl)),
      )
