-- ===== src/BlockQueue/Checks.antt =====
-- A queue of one block, by heights.
use monetarium_explorer.Prelude.{
  ℕ, ◌+◌, ◌≤◌, ◌≡◌, ◌⊎◌, refl, true, false, Option, none, some, arith, length,
}
use monetarium_explorer.Prelude.Int.{pos, negsuc, below}
use monetarium_explorer.BlockQueue.{
  BlockDataBasic, CachedBlock, BlockPriorityQueue, check_block_height_hash, less_by_height,
  less_by_access_count_then_height, new_block_priority_queue, new_cached_block, set_less_fn, access,
  swap, update_min_max, get_elem?, less_by_access_count,
}
use monetarium_explorer.BlockQueue.Heap.{swap_all}
use monetarium_explorer.BlockQueue.Swaps.{bare}
use monetarium_explorer.BlockQueue.Ops.{
  InsertResult, insert, insert_some, insert_room, push, rescan_min_max_for_add,
}
use monetarium_explorer.BlockQueue.Inserting.{built, joined}
use monetarium_explorer.BlockQueue.History.{QueueReach, begins, inserts, QueueReach-ranged}
use monetarium_explorer.BlockQueue.Refinement.{bag, Offered, insert-Offered, QueueReach-ordered}
use monetarium_explorer.BlockQueue.Order.{less_by_access_count_then_height-weak}
use monetarium_explorer.BlockQueue.Selection.{selection, selection-HeapLaws, selection-HasMinimum}

abbrev summary_at : ℕ → BlockDataBasic
summary_at height = record { height = height; hash = height + 1; size = 300 }

abbrev empty_queue : BlockPriorityQueue
empty_queue = set_less_fn less_by_height (new_block_priority_queue 1)

abbrev full_queue : BlockPriorityQueue
full_queue = joined selection 50 (some (summary_at 7)) none 7 8 empty_queue

abbrev only_block : CachedBlock
only_block = built 50 (some (summary_at 7)) none 7 8 (pos 0)

full : QueueReach selection less_by_height some 1 1 full_queue
unfolding insert insert_some insert_room push new_cached_block access check_block_height_hash
    set_less_fn new_block_priority_queue update_min_max rescan_min_max_for_add swap_all swap
full = inserts 50 (some (summary_at 7)) none (begins (omega arith)) refl

found : ◌≡◌ {A = Option CachedBlock} (get_elem? full_queue.bh 0) (some only_block)
unfolding set_less_fn new_block_priority_queue update_min_max swap_all swap
found = refl

QueueReach-ranged_example :
    (full_queue.min_height ≤ 7)
    × (below full_queue.max_height 7 ≡ false)
    × (only_block.heap_idx ≡ pos 0)
    × (length full_queue.bh ≤ 1)
QueueReach-ranged_example =
    QueueReach-ranged selection less_by_height some 1 1 full_queue 0 only_block full found

QueueReach-ordered_example :
    (less_by_height only_block only_block ≡ false) × (only_block.heap_idx ≡ pos 0)
QueueReach-ordered_example =
    QueueReach-ordered selection-HeapLaws selection-HasMinimum 1 1 some full_queue 0 only_block
      only_block full found found

blind : (b c : CachedBlock) → less_by_height (bare b) (bare c) ≡ less_by_height b c
unfolding less_by_height
blind b c = refl

insert-Offered_example :
    (r : InsertResult) × (t : BlockPriorityQueue) × (insert selection some 60
        (some (summary_at 9))
        none
        full_queue
      ≡ some (r, t))
    × Offered less_by_height some
        (built 60 (some (summary_at 9)) none 9 10 (pos 0))
        (bag full_queue)
        r
        (bag t)
unfolding check_block_height_hash
insert-Offered_example =
    insert-Offered selection-HeapLaws selection-HasMinimum 1 1 some blind full_queue 60
      (some (summary_at 9)) none 9 10 full refl

abbrev counted : ℕ → ℕ → CachedBlock
counted count height = record (built 50 none none height 1 (negsuc 0)) { accesses = pos count }

less_by_access_count_then_height-weak_example :
    (less_by_access_count_then_height (counted 2 5) (counted 2 4) ≡ false)
    × ((less_by_access_count_then_height (counted 2 4) (counted 1 9) ≡ true)
        ⊎ (less_by_access_count_then_height (counted 1 9) (counted 2 5) ≡ true))
unfolding less_by_access_count_then_height less_by_height less_by_access_count
less_by_access_count_then_height-weak_example =
    less_by_access_count_then_height-weak (counted 2 4) (counted 2 5) (counted 1 9) refl
