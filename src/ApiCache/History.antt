-- ===== src/ApiCache/History.antt =====
-- The cache through any sequence of its operations.
use mathlib.Core.Path.{subst}
use monetarium_explorer.Prelude.{
  ℕ, ◌≤◌, ◌≡◌, ◌⊎◌, refl, sym, ◌∙◌, true, false, Option, none, some, arith, length, Bool-cases,
  Option-cases, inl, inr, some-injective,
}
use monetarium_explorer.Prelude.Int.{pos, negsuc}
use monetarium_explorer.AssocMap.{lookup, erase, lookup-erase}
use monetarium_explorer.BlockQueue.{
  BlockDataBasic, StakeInfoExtended, CachedBlock, LessFn, set_less_fn, new_block_priority_queue,
}
use monetarium_explorer.BlockQueue.Heap.{Heap, no_order}
use monetarium_explorer.BlockQueue.Swaps.{tally, tally-swap_all, length-swap_all}
use monetarium_explorer.BlockQueue.Ops.{
  remove_block, reheap, does_need_reheap, watch_priority_queue,
}
use monetarium_explorer.BlockQueue.History.{begins, watches, QueueReach-IsQueue}
use monetarium_explorer.ApiCache.{
  ApiCache, new_api_cache, set_cache_less_fn, enable, disable, get_cached_block_by_hash,
  utilization_blocks, main_hash,
}
use monetarium_explorer.ApiCache.Store.{store_block_summary, store_stake_info, remove_cached_block}
use monetarium_explorer.ApiCache.Consistent.{
  IsConsistent, counted-IsConsistent, requeued-IsConsistent, erased-IsConsistent,
}
use monetarium_explorer.ApiCache.Storing.{holds-some}
use monetarium_explorer.ApiCache.Keeping.{
  store_block_summary-IsConsistent, store_stake_info-IsConsistent,
  get_cached_block_by_hash-IsConsistent,
}

module _ (heap : Heap) (less : LessFn) (parse : ℕ → Option ℕ) (capacity : ℕ) where
  -- The blocks that the cache hands out note no position, since only the blocks of the queue do.
  pub data ApiReach : ApiCache → Type 0 where
    starts : ApiReach (set_cache_less_fn less (new_api_cache capacity))
    enables : {apic : ApiCache} → ApiReach apic → ApiReach (enable apic)
    disables : {apic : ApiCache} → ApiReach apic → ApiReach (disable apic)
    stores_summary :
        {apic t : ApiCache} (now : ℕ) (summary : BlockDataBasic)
        → ApiReach apic
        → store_block_summary heap parse now summary apic ≡ some t
        → ApiReach t
    stores_info :
        {apic t : ApiCache} (now : ℕ) (info : StakeInfoExtended)
        → ApiReach apic
        → store_stake_info heap parse now info apic ≡ some t
        → ApiReach t
    gets :
        {apic : ApiCache} (now hash : ℕ)
        → ApiReach apic
        → ApiReach (get_cached_block_by_hash now hash apic).1
    -- The goroutine that watches the queue may rearrange it at any time.
    cleans :
        {apic : ApiCache} (now : ℕ)
        → ApiReach apic
        → ApiReach (record apic { expire_queue = watch_priority_queue heap now apic.expire_queue })
    removes :
        {apic t : ApiCache} (b : CachedBlock) (n : ℕ)
        → ApiReach apic
        → b.heap_idx ≡ negsuc n
        → remove_cached_block heap parse (some b) apic ≡ some t
        → ApiReach t

module _ (heap : Heap) (less : LessFn) (parse : ℕ → Option ℕ) (capacity : ℕ) where
  remove_cached_block_lem :
      (b : CachedBlock) (n : ℕ) (apic t : ApiCache)
      → b.heap_idx ≡ negsuc n
      → remove_cached_block heap parse (some b) apic ≡ some t
      → t ≡ record apic { mainchain_blocks = erase b.height apic.mainchain_blocks }
  unfolding remove_cached_block remove_block
  remove_cached_block_lem b n apic t e f =
      let left : remove_block heap (some b) apic.expire_queue ≡ some apic.expire_queue =
        rw (e, remove_block) refl in
      let g = rw (left, remove_cached_block) at f in
      elim (Option-cases (parse b.hash)) [
        | inl bad ↦ absurd (ground (arith, rw bad at g))
        | inr (k, named) ↦ sym (some-injective (rw named at g))
      ]

  start-IsConsistent :
      IsConsistent heap less parse capacity (set_cache_less_fn less (new_api_cache capacity))
  unfolding set_cache_less_fn new_api_cache new_block_priority_queue lookup set_less_fn tally
  start-IsConsistent = record {
    queue = begins (omega arith);
    once = tt;
    same = refl;
    parsed = refl;
    shared = λ k h. refl;
    known = λ h k e. ground arith;
  }

  watched-IsConsistent :
      (now : ℕ) (apic : ApiCache)
      → IsConsistent heap less parse capacity apic
      → IsConsistent heap less parse capacity
          (record apic { expire_queue = watch_priority_queue heap now apic.expire_queue })
  unfolding watch_priority_queue reheap
  watched-IsConsistent now apic c =
      let pq = apic.expire_queue in
      let swaps = heap.init pq.less_fn pq.bh in
      let reach = watches now c.queue in
      elim (Bool-cases (does_need_reheap now pq)) [
        | inl e ↦
            requeued-IsConsistent heap less parse capacity (watch_priority_queue heap now pq) apic
              reach (rw e (λ p. tally-swap_all p swaps pq.bh)) (rw e (length-swap_all swaps pq.bh))
              c
        | inr e ↦
            requeued-IsConsistent heap less parse capacity (watch_priority_queue heap now pq) apic
              reach (rw e (λ p. refl)) (rw e refl) c
      ]

  pub ApiReach-IsConsistent :
      {apic : ApiCache}
      → ApiReach heap less parse capacity apic
      → IsConsistent heap less parse capacity apic
  unfolding enable disable
  ApiReach-IsConsistent starts = start-IsConsistent
  ApiReach-IsConsistent (enables {apic = apic} r) =
      counted-IsConsistent heap less parse capacity (some true) apic.hits apic.misses apic
        (ApiReach-IsConsistent r)
  ApiReach-IsConsistent (disables {apic = apic} r) =
      counted-IsConsistent heap less parse capacity (some false) apic.hits apic.misses apic
        (ApiReach-IsConsistent r)
  ApiReach-IsConsistent {apic = t} (stores_summary {apic = apic} now summary r e) =
      store_block_summary-IsConsistent (no_order heap less) parse capacity now summary apic t
        (ApiReach-IsConsistent r) e
  ApiReach-IsConsistent {apic = t} (stores_info {apic = apic} now info r e) =
      store_stake_info-IsConsistent (no_order heap less) parse capacity now info apic t
        (ApiReach-IsConsistent r) e
  ApiReach-IsConsistent (gets {apic = apic} now hash r) =
      get_cached_block_by_hash-IsConsistent (no_order heap less) parse capacity now hash apic
        (ApiReach-IsConsistent r)
  ApiReach-IsConsistent (cleans {apic = apic} now r) =
      watched-IsConsistent now apic (ApiReach-IsConsistent r)
  ApiReach-IsConsistent {apic = t} (removes {apic = apic} b n r e f) =
      subst (IsConsistent heap less parse capacity) (sym (remove_cached_block_lem b n apic t e f))
        (erased-IsConsistent heap less parse capacity b.height apic (ApiReach-IsConsistent r))

  -- In a cache that came about by its operations, where the blocks that it was told to remove are ones
  -- that note no position, as those that it hands out do, with any comparator that it was given at the
  -- start and whatever swaps container/heap makes: it holds no more blocks than the capacity that it was made
  -- with, as many as its queue does, and a height is not on its main chain, or stands there for a block
  -- that it holds, which has this height.
  pub ApiReach-bounded :
      (apic : ApiCache) (h : ℕ)
      → ApiReach heap less parse capacity apic
      → (utilization_blocks apic ≤ capacity)
        × (utilization_blocks apic ≡ length apic.expire_queue.bh)
        × ((lookup h apic.mainchain_blocks ≡ none)
            ⊎ ((k : ℕ) × (b : CachedBlock) × (lookup h apic.mainchain_blocks ≡ some k)
                × (lookup k apic.block_cache ≡ some b)
                × (b.height ≡ h)))
  unfolding utilization_blocks
  ApiReach-bounded apic h r =
      let c = ApiReach-IsConsistent r in
      let w = QueueReach-IsQueue (no_order heap less) capacity capacity parse c.queue in
      (
        omega (arith, w.few, c.same),
        c.same,
        elim (Option-cases (lookup h apic.mainchain_blocks)) [
          | inl e ↦ inl e
          | inr (k, e) ↦
              let (b, held, tall) =
                holds-some k h apic.block_cache (omega (arith, c.known h k e)) in
              inr (k, b, e, held, tall)
        ],
      )

  -- Removing a block that the cache handed out, when that does not panic, takes its height from the
  -- main chain and leaves the blocks and the queue: the block can still be had by its hash.
  pub remove_cached_block-keeps :
      (b : CachedBlock) (n hash : ℕ) (apic t : ApiCache)
      → b.heap_idx ≡ negsuc n
      → remove_cached_block heap parse (some b) apic ≡ some t
      → (main_hash (pos b.height) t ≡ none)
        × (lookup hash t.block_cache ≡ lookup hash apic.block_cache)
        × (t.expire_queue ≡ apic.expire_queue)
  remove_cached_block-keeps b n hash apic t e f =
      let ends = remove_cached_block_lem b n apic t e f in
      rw ends (lookup-erase b.height b.height apic.mainchain_blocks ∙ ground arith, refl, refl)
