-- ===== src/BlockQueue/Invariant.antt =====
-- The queue is well formed: it has its blocks where they say, no more of them than `most`, a
-- range that takes in their heights, and the order of a heap. Each operation keeps it so.

use monetarium_explorer.Prelude.{
  ℕ, ◌≤◌, ◌<◌, ◌≡◌, refl, ap, ◌∙◌, Bool, false, [], ◌∷◌, ◌++◌, Option, some, arith, length,
  get_elem?, set_at, length-append, length-set_at, get_elem?-lt,
}
use monetarium_explorer.Prelude.Int.{pos}
use monetarium_explorer.BlockQueue.{
  BlockDataBasic, StakeInfoExtended, CachedBlock, BlockPriorityQueue, LessFn, update_min_max,
  new_block_priority_queue, set_less_fn,
}
use monetarium_explorer.BlockQueue.Heap.{Heap, HeapLaws, swap_all}
use monetarium_explorer.BlockQueue.Swaps.{
  one, tally, tally-set_at, tally-append, tally-swap_all, length-swap_all,
}
use monetarium_explorer.BlockQueue.Ranges.{
  outside, IsCovered, Widens-IsCovered, update_min_max-Widens, update_min_max-takes,
  rescan_min_max_for_update-Widens, rescan_min_max_for_update-takes, rescan_min_max_for_update-same,
}
use monetarium_explorer.BlockQueue.Places.{
  IsPlaced, set_at-IsPlaced, swap_all-IsPlaced, append-IsPlaced,
}
use monetarium_explorer.BlockQueue.Inserting.{built, replaced, joined}

module _ {heap : Heap} {less : LessFn} (laws : HeapLaws heap less) (most capacity : ℕ) where
  pub record IsQueue (pq : BlockPriorityQueue) : Type 0 where
    pub placed : IsPlaced pq.bh
    pub few : length pq.bh ≤ most
    pub covered : IsCovered pq pq.bh
    pub ordered : laws.IsHeap pq.bh
    pub by_less : pq.less_fn ≡ less
    pub sized : pq.capacity ≡ capacity
    pub within : capacity ≤ most

  pub new_block_priority_queue-IsQueue :
      capacity ≤ most → IsQueue (set_less_fn less (new_block_priority_queue capacity))
  unfolding set_less_fn new_block_priority_queue tally
  new_block_priority_queue-IsQueue within = record {
    placed = λ i b e. ground arith;
    few = omega arith;
    covered = refl;
    ordered = laws.empty;
    by_less = refl;
    sized = refl;
    within = within;
  }

  -- A change of the notes on accesses alone.
  pub noted-IsQueue :
      (needs_reheap : Bool) (last_access : ℕ) (pq : BlockPriorityQueue)
      → IsQueue pq
      → IsQueue (record pq { needs_reheap = needs_reheap; last_access = last_access })
  noted-IsQueue needs_reheap last_access pq q = record {
    placed = q.placed;
    few = q.few;
    covered = q.covered;
    ordered = q.ordered;
    by_less = q.by_less;
    sized = q.sized;
    within = q.within;
  }

  module _ (now : ℕ) (s : Option BlockDataBasic) (i : Option StakeInfoExtended) (h k : ℕ) where
    replaced-IsCovered :
        (idx : ℕ) (b : CachedBlock) (pq : BlockPriorityQueue)
        → get_elem? pq.bh idx ≡ some b
        → IsCovered pq pq.bh
        → IsCovered
            (replaced heap now s i h k idx b.height pq)
            (set_at idx (built now s i h k (pos idx)) pq.bh)
    replaced-IsCovered idx b pq e c =
        let t = replaced heap now s i h k idx b.height pq in
        let p : CachedBlock → Bool = λ x. outside t x.height in
        let old = Widens-IsCovered pq t pq.bh (rescan_min_max_for_update-Widens h b.height _) c in
        let took : outside t h ≡ false = rescan_min_max_for_update-takes h b.height _ in
        let added = tally-set_at p idx (built now s i h k (pos idx)) b pq.bh e in
        omega (arith, old, added, ap one took)

    pub replaced-IsQueue :
        (idx : ℕ) (b : CachedBlock) (pq : BlockPriorityQueue)
        → get_elem? pq.bh idx ≡ some b
        → IsQueue pq
        → IsQueue (replaced heap now s i h k idx b.height pq)
    replaced-IsQueue idx b pq e q =
        let inside = get_elem?-lt pq.bh idx b e in
        let bh = set_at idx (built now s i h k (pos idx)) pq.bh in
        let swaps = heap.fix pq.less_fn idx bh in
        let (same_bh, same_capacity, same_less) =
          rescan_min_max_for_update-same h b.height (record pq { bh = swap_all swaps bh }) in
        record {
          placed =
              rw same_bh
                (swap_all-IsPlaced swaps bh (set_at-IsPlaced idx _ pq.bh inside refl q.placed));
          few =
              rw same_bh
                (omega (arith, q.few, length-swap_all swaps bh, length-set_at idx _ pq.bh));
          covered =
              rw same_bh (tally-swap_all _ swaps bh ∙ replaced-IsCovered idx b pq e q.covered);
          ordered = rw same_bh (rw q.by_less (laws.fix_orders pq.bh idx _ q.ordered inside));
          by_less = same_less ∙ q.by_less;
          sized = same_capacity ∙ q.sized;
          within = q.within;
        }

    joined-IsCovered :
        (pq : BlockPriorityQueue)
        → IsCovered pq pq.bh
        → IsCovered
            (joined heap now s i h k pq)
            (pq.bh ++ built now s i h k (pos (length pq.bh)) ∷ [])
    unfolding tally update_min_max
    joined-IsCovered pq c =
        let t = joined heap now s i h k pq in
        let once = Widens-IsCovered pq (update_min_max h pq) pq.bh (update_min_max-Widens h pq) c in
        let twice =
          Widens-IsCovered (update_min_max h pq) t pq.bh
            (λ x. update_min_max-Widens h (update_min_max h pq) x) once in
        let took : outside t h ≡ false = update_min_max-takes h (update_min_max h pq) in
        let sum =
          tally-append (λ x. outside t x.height) pq.bh
            (built now s i h k (pos (length pq.bh)) ∷ []) in
        omega (arith, twice, sum, ap one took)

    pub joined-IsQueue :
        (pq : BlockPriorityQueue)
        → length pq.bh < pq.capacity
        → IsQueue pq
        → IsQueue (joined heap now s i h k pq)
    unfolding update_min_max
    joined-IsQueue pq room q =
        let b = built now s i h k (pos (length pq.bh)) in
        let bh = pq.bh ++ b ∷ [] in
        let swaps = heap.push pq.less_fn bh in
        record {
          placed = swap_all-IsPlaced swaps bh (append-IsPlaced pq.bh b refl q.placed);
          few =
              omega
                (arith, q.sized, q.within, length-swap_all swaps bh, length-append pq.bh (b ∷ []));
          covered = tally-swap_all _ swaps bh ∙ joined-IsCovered pq q.covered;
          ordered = rw q.by_less (laws.push_orders pq.bh b q.ordered);
          by_less = q.by_less;
          sized = q.sized;
          within = q.within;
        }
