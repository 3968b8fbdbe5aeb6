-- ===== src/BlockQueue/Ops.antt =====
-- The operations of the queue that hand it to container/heap.
use monetarium_explorer.Prelude.{
  ℕ, ◌+◌, ◌-◌, ◌*◌, ◌^◌, Bool, true, false, ◌&&◌, ◌||◌, List, [], ◌∷◌, ◌++◌, Option, none, some,
  length, get_elem?, set_at, but_last, ltb, leb, ◌==◌, if◌then◌else◌,
}
use monetarium_explorer.Prelude.Int.{ℤ, pos, negsuc, is}
use monetarium_explorer.BlockQueue.{
  BlockDataBasic, StakeInfoExtended, CachedBlock, CachedBlockData, BlockPriorityQueue,
  check_block_height_hash, new_cached_block, access, update_min_max, rescan_min_max, max_uint32,
}
use monetarium_explorer.BlockQueue.Heap.{Heap, swap_all}

-- Push, with `none` for data that is nil; the block of a mismatch is nil, and Access panics on it.
unfoldable pub push : ℕ → Option CachedBlockData → BlockPriorityQueue → Option BlockPriorityQueue
push now none pq = some pq
push now (some block_data) pq =
    elim (new_cached_block block_data.block_summary block_data.stake_info) [
      | none ↦ none
      | some b ↦ some (record (update_min_max b.height pq) {
        bh = pq.bh ++ record (access now b) { heap_idx = pos (length pq.bh) } ∷ [];
        last_access = now;
      })
    ]

-- Pop: the last block, out of the queue.
unfoldable pub pop : BlockPriorityQueue → Option (CachedBlock × BlockPriorityQueue)
pop pq = elim (get_elem? pq.bh (length pq.bh - 1)) [
  | none ↦ none
  | some block ↦ some (record block { heap_idx = negsuc 0 }, record pq { bh = but_last pq.bh })
]

-- The loop of ResetHeap over the blocks, from position `i` on.
unfoldable pub reset_blocks : ℕ → ℕ → List CachedBlock → List CachedBlock
reset_blocks now i [] = []
reset_blocks now i (b ∷ bs) =
    record b { heap_idx = pos i; accesses = pos 1; access_time = now } ∷ reset_blocks now (i + 1) bs

unfoldable pub reset_range : List CachedBlock → BlockPriorityQueue → BlockPriorityQueue
reset_range [] pq = pq
reset_range (b ∷ bs) pq = reset_range bs (update_min_max b.height pq)

-- RescanMinMaxForAdd
unfoldable pub rescan_min_max_for_add : ℕ → BlockPriorityQueue → BlockPriorityQueue
rescan_min_max_for_add height pq = update_min_max height pq

unfoldable pub rescan_min_max_for_remove : ℕ → BlockPriorityQueue → BlockPriorityQueue
rescan_min_max_for_remove height pq =
    if height == pq.min_height || is pq.max_height height then rescan_min_max pq else pq

unfoldable pub rescan_min_max_for_update : ℕ → ℕ → BlockPriorityQueue → BlockPriorityQueue
rescan_min_max_for_update height_add height_remove pq =
    if (height_remove == pq.min_height && leb height_remove height_add)
      || (is pq.max_height height_remove && leb height_add height_remove)
    then update_min_max height_add (rescan_min_max pq)
    else update_min_max height_add pq

unfoldable pub set_access_time : ℕ → BlockPriorityQueue → BlockPriorityQueue
set_access_time t pq = record pq { last_access = t }

unfoldable pub set_needs_reheap : Bool → BlockPriorityQueue → BlockPriorityQueue
set_needs_reheap need_reheap pq = record pq { needs_reheap = need_reheap }

-- The queue waits seven seconds after an access.
unfoldable pub does_need_reheap : ℕ → BlockPriorityQueue → Bool
does_need_reheap now pq = pq.needs_reheap && ltb (7 * 10 ^ 9) (now - pq.last_access)

-- What Insert returns: whether the block was added, and the hash and the height of the one that it
-- replaced.
pub record InsertResult : Type 0 where
  pub was_added : Bool
  pub removed_hash : Option ℕ
  pub removed_height : ℤ

abbrev pub not_added : InsertResult
not_added = record { was_added = false; removed_hash = none; removed_height = negsuc 0 }

module _ (heap : Heap) where
  abbrev heap_init : BlockPriorityQueue → BlockPriorityQueue
  heap_init pq = record pq { bh = swap_all (heap.init pq.less_fn pq.bh) pq.bh }

  abbrev heap_push : ℕ → CachedBlockData → BlockPriorityQueue → Option BlockPriorityQueue
  heap_push now block_data pq = elim (push now (some block_data) pq) [
    | none ↦ none
    | some t ↦ some (record t { bh = swap_all (heap.push t.less_fn t.bh) t.bh })
  ]

  abbrev heap_fix : ℕ → BlockPriorityQueue → BlockPriorityQueue
  heap_fix i pq = record pq { bh = swap_all (heap.fix pq.less_fn i pq.bh) pq.bh }

  abbrev heap_remove : ℕ → BlockPriorityQueue → Option (CachedBlock × BlockPriorityQueue)
  heap_remove i pq = pop (record pq { bh = swap_all (heap.remove pq.less_fn i pq.bh) pq.bh })

  unfoldable pub reheap : BlockPriorityQueue → BlockPriorityQueue
  reheap pq = heap_init (record pq { needs_reheap = false })

  -- One turn of WatchPriorityQueue.
  unfoldable pub watch_priority_queue : ℕ → BlockPriorityQueue → BlockPriorityQueue
  watch_priority_queue now pq = if does_need_reheap now pq then reheap pq else pq

  unfoldable pub reset_heap : ℕ → List CachedBlock → BlockPriorityQueue → BlockPriorityQueue
  reset_heap now bh pq =
      let ranged = reset_range bh (record pq { max_height = negsuc 0; min_height = max_uint32 }) in
      heap_init (record ranged { bh = reset_blocks now 0 bh; needs_reheap = false })

  -- UpdateBlock, of the block at position `i`: nothing for no block there and for a mismatch.
  unfoldable pub update_block :
      ℕ
      → ℕ
      → Option BlockDataBasic
      → Option StakeInfoExtended
      → BlockPriorityQueue
      → Option BlockPriorityQueue
  update_block now i summary stake_info pq = elim (get_elem? pq.bh i) [
    | none ↦ some pq
    | some b ↦
        elim (check_block_height_hash
          (record { block_summary = summary; stake_info = stake_info })) [
            | none ↦ none
            | some none ↦ some pq
            | some (some (height, hash)) ↦
                let updated = record b {
                  height = height;
                  hash = hash;
                  summary = summary;
                  stake_info = stake_info;
                  accesses = pos 0;
                } in
                elim b.heap_idx [
                  | negsuc k ↦ none
                  | pos k ↦
                      let fixed =
                        heap_fix k (record pq { bh = set_at i (access now updated) pq.bh }) in
                      some (record (rescan_min_max_for_update height b.height fixed) {
                        last_access = now;
                      })
                ]
          ]
  ]

  -- RemoveIndex
  unfoldable pub remove_index : ℕ → BlockPriorityQueue → Option BlockPriorityQueue
  remove_index idx pq = elim (get_elem? pq.bh idx) [
    | none ↦ none
    | some b ↦ elim (heap_remove idx pq) [
      | none ↦ none
      | some (popped, t) ↦ some (rescan_min_max_for_remove b.height t)
    ]
  ]

  -- RemoveBlock, by the position that the block has noted; `none` for a nil block.
  unfoldable pub remove_block : Option CachedBlock → BlockPriorityQueue → Option BlockPriorityQueue
  remove_block none pq = some pq
  remove_block (some b) pq = elim b.heap_idx [
    | negsuc k ↦ some pq
    | pos k ↦
        if ltb 0 k && ltb k (length pq.bh)
        then elim (get_elem? pq.bh k) [
          | none ↦ none
          | some c ↦ if c.hash == b.hash then remove_index k pq else some pq
        ]
        else some pq
  ]

  -- Insert; `parse` is chainhash.NewHashFromStr.
  module _ (parse : ℕ → Option ℕ) where
    -- At capacity: the new block replaces the first one when that has a lower priority.
    unfoldable pub insert_full :
        ℕ
        → Option BlockDataBasic
        → Option StakeInfoExtended
        → BlockPriorityQueue
        → Option (InsertResult × BlockPriorityQueue)
    insert_full now summary stake_info pq = elim (new_cached_block summary stake_info) [
      | none ↦ none
      | some b ↦ elim (get_elem? pq.bh 0) [
        | none ↦ none
        | some top ↦
            if pq.less_fn top (record (access now b) { heap_idx = pos 0 })
            then elim (update_block now 0 summary stake_info pq) [
              | none ↦ none
              | some t ↦ some (
                record {
                  was_added = true;
                  removed_hash = parse top.hash;
                  removed_height = pos top.height;
                },
                elim (parse top.hash) [ none ↦ t | some hash ↦ record t { last_access = now } ],
              )
            ]
            else some (not_added, pq)
      ]
    ]

    -- With room to grow.
    unfoldable pub insert_room :
        ℕ
        → Option BlockDataBasic
        → Option StakeInfoExtended
        → BlockPriorityQueue
        → Option (InsertResult × BlockPriorityQueue)
    insert_room now summary stake_info pq =
        let block_data : CachedBlockData = record {
          block_summary = summary;
          stake_info = stake_info;
        } in
        elim (check_block_height_hash block_data) [
          | none ↦ none
          | some none ↦ some (not_added, pq)
          | some (some (height, hash)) ↦ elim (heap_push now block_data pq) [
            | none ↦ none
            | some t ↦ some (
              record { was_added = true; removed_hash = none; removed_height = negsuc 0 },
              record (rescan_min_max_for_add height t) { last_access = now },
            )
          ]
        ]

    unfoldable pub insert_some :
        ℕ
        → Option BlockDataBasic
        → Option StakeInfoExtended
        → BlockPriorityQueue
        → Option (InsertResult × BlockPriorityQueue)
    insert_some now summary stake_info pq =
        if pq.capacity == 0
        then some (not_added, pq)
        else if leb pq.capacity (length pq.bh)
        then insert_full now summary stake_info pq
        else insert_room now summary stake_info pq

    unfoldable pub insert :
        ℕ
        → Option BlockDataBasic
        → Option StakeInfoExtended
        → BlockPriorityQueue
        → Option (InsertResult × BlockPriorityQueue)
    insert now none none pq = some (not_added, pq)
    insert now (some s) stake_info pq = insert_some now (some s) stake_info pq
    insert now none (some i) pq = insert_some now none (some i) pq
