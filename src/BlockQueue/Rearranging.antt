-- ===== src/BlockQueue/Rearranging.antt =====
-- RemoveIndex, Reheap and ResetHeap keep the queue well formed.
use mathlib.Core.Path.{subst}
use monetarium_explorer.Prelude.{
  ℕ, zero, suc, ◌+◌, ◌-◌, ◌≤◌, ◌≡◌, refl, sym, ap, ◌∙◌, List, [], ◌∷◌, some, arith, length,
  get_elem?, but_last, Bool-cases, Option-cases, inl, inr, length-but_last, get_elem?-lt,
  get_elem?-some, some-injective,
}
use monetarium_explorer.Prelude.Int.{pos, negsuc}
use monetarium_explorer.BlockQueue.{
  CachedBlock, BlockPriorityQueue, LessFn, update_min_max, max_uint32,
}
use monetarium_explorer.BlockQueue.Heap.{Heap, HeapLaws, swap_all}
use monetarium_explorer.BlockQueue.Ops.{
  pop, reset_blocks, reset_range, reheap, reset_heap, remove_index, rescan_min_max_for_remove,
}
use monetarium_explorer.BlockQueue.Swaps.{
  one, tally, tally-swap_all, tally-but_last, length-swap_all,
}
use monetarium_explorer.BlockQueue.Ranges.{
  outside, Widens, IsCovered, Widens-IsCovered, update_min_max-Widens, update_min_max-takes,
  rescan_min_max_for_remove-Widens, rescan_min_max_for_remove-same,
}
use monetarium_explorer.BlockQueue.Places.{swap_all-IsPlaced, but_last-IsPlaced}
use monetarium_explorer.BlockQueue.Invariant.{IsQueue}

module _ {heap : Heap} {less : LessFn} (laws : HeapLaws heap less) (most capacity : ℕ) where
  remove_index_lem :
      (idx : ℕ) (b : CachedBlock) (pq : BlockPriorityQueue)
      → get_elem? pq.bh idx ≡ some b
      → remove_index heap idx pq
        ≡ some (
            rescan_min_max_for_remove b.height
              (record pq { bh = but_last (swap_all (heap.remove pq.less_fn idx pq.bh) pq.bh) }))
  unfolding remove_index pop
  remove_index_lem idx b pq e =
      let swapped = swap_all (heap.remove pq.less_fn idx pq.bh) pq.bh in
      let inside = get_elem?-lt pq.bh idx b e in
      let (last, f) =
        get_elem?-some swapped (length swapped - 1)
          (omega (arith, length-swap_all (heap.remove pq.less_fn idx pq.bh) pq.bh)) in
      rw (e, remove_index) (rw (f, pop) refl)

  removed-IsQueue :
      (idx : ℕ) (b : CachedBlock) (pq : BlockPriorityQueue)
      → get_elem? pq.bh idx ≡ some b
      → IsQueue laws most capacity pq
      → IsQueue laws most capacity (
          rescan_min_max_for_remove b.height
            (record pq { bh = but_last (swap_all (heap.remove pq.less_fn idx pq.bh) pq.bh) }))
  removed-IsQueue idx b pq e q =
      let swaps = heap.remove pq.less_fn idx pq.bh in
      let swapped = swap_all swaps pq.bh in
      let t = record pq { bh = but_last swapped } in
      let (same_bh, same_capacity, same_less) = rescan_min_max_for_remove-same b.height t in
      let fewer = tally-but_last (λ x. outside pq x.height) swapped in
      let covered : IsCovered pq (but_last swapped) =
        omega (arith, fewer, q.covered, tally-swap_all (λ x. outside pq x.height) swaps pq.bh) in
      record {
        placed = rw same_bh (but_last-IsPlaced swapped (swap_all-IsPlaced swaps pq.bh q.placed));
        few =
            rw same_bh (omega (arith, q.few, length-but_last swapped, length-swap_all swaps pq.bh));
        covered = rw same_bh (
            Widens-IsCovered pq (rescan_min_max_for_remove b.height t) (but_last swapped)
              (rescan_min_max_for_remove-Widens b.height t) covered);
        ordered =
            rw same_bh
              (rw q.by_less (laws.remove_orders pq.bh idx q.ordered (get_elem?-lt pq.bh idx b e)));
        by_less = same_less ∙ q.by_less;
        sized = same_capacity ∙ q.sized;
        within = q.within;
      }

  pub remove_index-IsQueue :
      (idx : ℕ) (pq t : BlockPriorityQueue)
      → IsQueue laws most capacity pq
      → remove_index heap idx pq ≡ some t
      → IsQueue laws most capacity t
  unfolding remove_index
  remove_index-IsQueue idx pq t q e = elim (Option-cases (get_elem? pq.bh idx)) [
    | inl f ↦ absurd (ground (arith, rw (f, remove_index) at e))
    | inr (b, f) ↦
        subst (IsQueue laws most capacity) (some-injective (sym (remove_index_lem idx b pq f) ∙ e))
          (removed-IsQueue idx b pq f q)
  ]

  pub reheap-IsQueue :
      (pq : BlockPriorityQueue)
      → IsQueue laws most capacity pq
      → IsQueue laws most capacity (reheap heap pq)
  unfolding reheap
  reheap-IsQueue pq q =
      let swaps = heap.init pq.less_fn pq.bh in
      record {
        placed = swap_all-IsPlaced swaps pq.bh q.placed;
        few = omega (arith, q.few, length-swap_all swaps pq.bh);
        covered = tally-swap_all _ swaps pq.bh ∙ q.covered;
        ordered = rw q.by_less (laws.init_orders pq.bh);
        by_less = q.by_less;
        sized = q.sized;
        within = q.within;
      }

  reset_range-Widens :
      (bs : List CachedBlock) (pq : BlockPriorityQueue) → Widens pq (reset_range bs pq)
  unfolding reset_range
  reset_range-Widens [] pq x e = e
  reset_range-Widens (b ∷ bs) pq x e =
      update_min_max-Widens b.height pq x (reset_range-Widens bs (update_min_max b.height pq) x e)

  reset_range-IsCovered :
      (now i : ℕ) (bs : List CachedBlock) (pq : BlockPriorityQueue)
      → IsCovered (reset_range bs pq) (reset_blocks now i bs)
  unfolding reset_range reset_blocks tally
  reset_range-IsCovered now i [] pq = refl
  reset_range-IsCovered now i (b ∷ bs) pq =
      elim (Bool-cases (outside (reset_range bs (update_min_max b.height pq)) b.height)) [
        | inr e ↦
            omega
              (arith, ap one e, reset_range-IsCovered now (i + 1) bs (update_min_max b.height pq))
        | inl e ↦ absurd (
            ground (
              arith,
              reset_range-Widens bs (update_min_max b.height pq) b.height e,
              update_min_max-takes b.height pq,
            ))
      ]

  reset_blocks_placed :
      (now i j : ℕ) (bs : List CachedBlock) (b : CachedBlock)
      → get_elem? (reset_blocks now i bs) j ≡ some b
      → b.heap_idx ≡ pos (i + j)
  unfolding reset_blocks
  reset_blocks_placed now i j [] b e = ground arith
  reset_blocks_placed now i zero (c ∷ bs) b e =
      ap (λ x. x.heap_idx) (sym (some-injective e)) ∙ ap pos (omega arith)
  reset_blocks_placed now i (suc j) (c ∷ bs) b e =
      reset_blocks_placed now (i + 1) j bs b e ∙ ap pos (omega arith)

  length-reset_blocks :
      (now i : ℕ) (bs : List CachedBlock) → length (reset_blocks now i bs) ≡ length bs
  unfolding reset_blocks
  length-reset_blocks now i [] = refl
  length-reset_blocks now i (b ∷ bs) = ap suc (length-reset_blocks now (i + 1) bs)

  reset_range-same :
      (bs : List CachedBlock) (pq : BlockPriorityQueue)
      → ((reset_range bs pq).capacity ≡ pq.capacity) × ((reset_range bs pq).less_fn ≡ pq.less_fn)
  unfolding reset_range update_min_max
  reset_range-same [] pq = (refl, refl)
  reset_range-same (b ∷ bs) pq = reset_range-same bs (update_min_max b.height pq)

  -- ResetHeap, given no more blocks than `most`; it does not look at the capacity.
  pub reset_heap-IsQueue :
      (now : ℕ) (bs : List CachedBlock) (pq : BlockPriorityQueue)
      → length bs ≤ most
      → IsQueue laws most capacity pq
      → IsQueue laws most capacity (reset_heap heap now bs pq)
  unfolding reset_heap
  reset_heap-IsQueue now bs pq room q =
      let start = record pq { max_height = negsuc 0; min_height = max_uint32 } in
      let ranged = reset_range bs start in
      let (same_capacity, same_less) = reset_range-same bs start in
      let blocks = reset_blocks now 0 bs in
      let swaps = heap.init ranged.less_fn blocks in
      record {
        placed =
            swap_all-IsPlaced swaps blocks
              (λ i b e. reset_blocks_placed now 0 i bs b e ∙ ap pos (omega arith));
        few = omega (arith, length-swap_all swaps blocks, length-reset_blocks now 0 bs);
        covered = tally-swap_all _ swaps blocks ∙ reset_range-IsCovered now 0 bs start;
        ordered = rw (same_less ∙ q.by_less) (laws.init_orders blocks);
        by_less = same_less ∙ q.by_less;
        sized = same_capacity ∙ q.sized;
        within = q.within;
      }
