-- ===== src/ApiCache/Consistent.antt =====
-- What the maps of the cache have to do with its queue.

use monetarium_explorer.Prelude.{
  ℕ, ◌≡◌, refl, sym, ◌∙◌, Bool, true, false, ◌&&◌, List, Option, none, some, arith, length, ◌==◌,
  Bool-cases, inl, inr, ==_iff,
}
use monetarium_explorer.HashSet.{IsDistinct}
use monetarium_explorer.AssocMap.{
  lookup, put, erase, keys, lookup-put, lookup-erase, put-IsDistinct, length-put, lookup-keys,
}
use monetarium_explorer.BlockQueue.{CachedBlock, BlockPriorityQueue, LessFn}
use monetarium_explorer.BlockQueue.Heap.{Heap}
use monetarium_explorer.BlockQueue.Swaps.{one, tally}
use monetarium_explorer.BlockQueue.History.{QueueReach}
use monetarium_explorer.ApiCache.{ApiCache}

-- Whether a hash string spells a hash.
abbrev pub spells : Option ℕ → ℕ → Bool
spells none k = false
spells (some j) k = j == k

-- How many blocks a map holds for a hash, at a height.
abbrev pub holds_at : Option CachedBlock → ℕ → ℕ
holds_at none h = 0
holds_at (some b) h = one (b.height == h)

abbrev pub holds : List (ℕ × CachedBlock) → ℕ → ℕ → ℕ
holds m k h = holds_at (lookup k m) h

abbrev pub is_at : (ℕ → Option ℕ) → ℕ → ℕ → CachedBlock → Bool
is_at parse k h b = spells (parse b.hash) k && b.height == h

abbrev pub unparsed : (ℕ → Option ℕ) → CachedBlock → Bool
unparsed parse b = elim (parse b.hash) [ none ↦ true | some k ↦ false ]

module _ (heap : Heap) (less : LessFn) (parse : ℕ → Option ℕ) (capacity : ℕ) where
  -- The queue and the block map hold blocks of the same hashes and heights, each hash once, and a
  -- height of the main chain stands for a cached block of that height.
  pub record IsConsistent (apic : ApiCache) : Type 0 where
    pub queue : QueueReach heap less parse capacity capacity apic.expire_queue
    pub once : IsDistinct (keys apic.block_cache)
    pub same : length apic.block_cache ≡ length apic.expire_queue.bh
    pub parsed : tally (unparsed parse) apic.expire_queue.bh ≡ 0
    pub shared :
        (k h : ℕ) → tally (is_at parse k h) apic.expire_queue.bh ≡ holds apic.block_cache k h
    pub known : (h k : ℕ) → lookup h apic.mainchain_blocks ≡ some k → holds apic.block_cache k h ≡ 1

  -- A block of the map is changed, but not in its height.
  pub revised-IsConsistent :
      (k : ℕ) (old new : CachedBlock) (apic : ApiCache)
      → lookup k apic.block_cache ≡ some old
      → new.height ≡ old.height
      → IsConsistent apic
      → IsConsistent (record apic { block_cache = put k new apic.block_cache })
  revised-IsConsistent k old new apic e f c =
      let held : (j h : ℕ) → holds (put k new apic.block_cache) j h ≡ holds apic.block_cache j h =
        λ j h. elim (Bool-cases (j == k)) [
          | inr g ↦ rw (lookup-put j k new apic.block_cache, g) refl
          | inl g ↦
              let at : j ≡ k = (==_iff j k).0 g in
              rw (lookup-put j k new apic.block_cache, g) (rw (at, e, f) refl)
        ] in
      record {
        queue = c.queue;
        once = put-IsDistinct k new apic.block_cache c.once;
        same = length-put k new apic.block_cache ∙ rw (lookup-keys k old apic.block_cache e) c.same;
        parsed = c.parsed;
        shared = λ j h. c.shared j h ∙ sym (held j h);
        known = λ h j g. held j h ∙ c.known h j g;
      }

  -- Only the counters and the switch are changed.
  pub counted-IsConsistent :
      (is_enabled : Option Bool) (hits misses : ℕ) (apic : ApiCache)
      → IsConsistent apic
      → IsConsistent (record apic { is_enabled = is_enabled; hits = hits; misses = misses })
  counted-IsConsistent is_enabled hits misses apic c = record {
    queue = c.queue;
    once = c.once;
    same = c.same;
    parsed = c.parsed;
    shared = c.shared;
    known = c.known;
  }

  -- The queue has the same blocks.
  pub requeued-IsConsistent :
      (pq : BlockPriorityQueue) (apic : ApiCache)
      → QueueReach heap less parse capacity capacity pq
      → ((p : CachedBlock → Bool) → tally p pq.bh ≡ tally p apic.expire_queue.bh)
      → length pq.bh ≡ length apic.expire_queue.bh
      → IsConsistent apic
      → IsConsistent (record apic { expire_queue = pq })
  requeued-IsConsistent pq apic reach counts long c = record {
    queue = reach;
    once = c.once;
    same = c.same ∙ sym long;
    parsed = counts (unparsed parse) ∙ c.parsed;
    shared = λ k h. counts (is_at parse k h) ∙ c.shared k h;
    known = c.known;
  }

  -- A height leaves the main chain.
  pub erased-IsConsistent :
      (height : ℕ) (apic : ApiCache)
      → IsConsistent apic
      → IsConsistent (record apic { mainchain_blocks = erase height apic.mainchain_blocks })
  erased-IsConsistent height apic c = record {
    queue = c.queue;
    once = c.once;
    same = c.same;
    parsed = c.parsed;
    shared = c.shared;
    known = λ h k e. elim (Bool-cases (h == height)) [
      | inl f ↦ absurd (ground (arith, rw (lookup-erase h height apic.mainchain_blocks, f) at e))
      | inr f ↦ c.known h k (rw (lookup-erase h height apic.mainchain_blocks, f) at e)
    ];
  }
