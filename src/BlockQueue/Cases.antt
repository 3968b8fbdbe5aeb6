-- ===== src/BlockQueue/Cases.antt =====
-- Insert by the way that it ends.
use monetarium_explorer.Prelude.{
  ◌==◌, leb, ℕ, ◌≡◌, true, Option, none, some, length, get_elem?, Option-cases, inl, inr, ◌<◌,
  arith, Bool-cases, sym, some-injective, ◌∙◌,
}
use monetarium_explorer.Prelude.Int.{pos, negsuc}
use monetarium_explorer.BlockQueue.{
  BlockDataBasic, StakeInfoExtended, CachedBlock, BlockPriorityQueue, new_cached_block,
}
use monetarium_explorer.BlockQueue.Heap.{Heap}
use monetarium_explorer.BlockQueue.Ops.{
  not_added, insert_full, insert_room, InsertResult, insert, insert_some,
}
use monetarium_explorer.BlockQueue.Inserting.{
  Names, built, joined, replaced, parts-cases, new_cached_block_lem, insert_room_lem,
  insert_full_replaces, insert_full_refuses,
}

-- How an insertion that does not panic ends: the queue is as it was, or it has room for the block, or
-- the block takes the place of the first one.
pub data InsertCase (heap : Heap) (now : ℕ) (s : Option BlockDataBasic)
    (i : Option StakeInfoExtended) (parse : ℕ → Option ℕ) (pq t : BlockPriorityQueue)
    (r : InsertResult) : Type 0 where
  refused :
      ◌≡◌ {A = InsertResult × BlockPriorityQueue} (r, t) (not_added, pq)
      → InsertCase heap now s i parse pq t r
  takes_room :
      (h k : ℕ)
      → Names s i h k
      → length pq.bh < pq.capacity
      → ◌≡◌ {A = InsertResult × BlockPriorityQueue}
          (r, t)
          (
            record { was_added = true; removed_hash = none; removed_height = negsuc 0 },
            joined heap now s i h k pq,
          )
      → InsertCase heap now s i parse pq t r
  takes_top :
      (h k : ℕ) (top : CachedBlock)
      → Names s i h k
      → get_elem? pq.bh 0 ≡ some top
      → pq.less_fn top (built now s i h k (pos 0)) ≡ true
      → ◌≡◌ {A = InsertResult × BlockPriorityQueue}
          (r, t)
          (
            record {
              was_added = true;
              removed_hash = parse top.hash;
              removed_height = pos top.height;
            },
            replaced heap now s i h k 0 top.height pq,
          )
      → InsertCase heap now s i parse pq t r

module _ (heap : Heap) (parse : ℕ → Option ℕ) (now : ℕ) (s : Option BlockDataBasic)
    (i : Option StakeInfoExtended) (pq t : BlockPriorityQueue) (r : InsertResult) where
  insert_full-InsertCase :
      ((b : CachedBlock) → get_elem? pq.bh 0 ≡ some b → b.heap_idx ≡ pos 0)
      → insert_full heap parse now s i pq ≡ some (r, t)
      → InsertCase heap now s i parse pq t r
  unfolding insert_full new_cached_block
  insert_full-InsertCase placed e = elim (parts-cases s i) [
    | inr (inl mismatch) ↦
        absurd (ground (arith, rw (mismatch, insert_full, new_cached_block) at e))
    | inr (inr (no_s, no_i, nothing)) ↦
        absurd (ground (arith, rw (nothing, insert_full, new_cached_block) at e))
    | inl (h, k, names) ↦ elim (Option-cases (get_elem? pq.bh 0)) [
      | inl f ↦ absurd (
          ground
            (arith, rw f at (rw (new_cached_block_lem heap now s i h k names, insert_full) at e)))
      | inr (top, f) ↦ elim (Bool-cases (pq.less_fn top (built now s i h k (pos 0)))) [
        | inl low ↦ takes_top h k top names f low (
            some-injective (
              sym e
              ∙ insert_full_replaces heap now s i h k parse top pq names f (placed top f) low))
        | inr low ↦
            refused (
              some-injective
                (sym e ∙ insert_full_refuses heap now s i h k parse top pq names f low))
      ]
    ]
  ]

  insert_room-InsertCase :
      length pq.bh < pq.capacity
      → insert_room heap parse now s i pq ≡ some (r, t)
      → InsertCase heap now s i parse pq t r
  unfolding insert_room
  insert_room-InsertCase room e = elim (parts-cases s i) [
    | inr (inl mismatch) ↦ refused (sym (some-injective (rw (mismatch, insert_room) at e)))
    | inr (inr (no_s, no_i, nothing)) ↦ absurd (ground (arith, rw (nothing, insert_room) at e))
    | inl (h, k, names) ↦
        takes_room h k names room
          (some-injective (sym e ∙ insert_room_lem heap now s i h k parse pq names))
  ]

  insert_some-InsertCase :
      ((b : CachedBlock) → get_elem? pq.bh 0 ≡ some b → b.heap_idx ≡ pos 0)
      → insert_some heap parse now s i pq ≡ some (r, t)
      → InsertCase heap now s i parse pq t r
  unfolding insert_some
  insert_some-InsertCase placed e = elim (Bool-cases (pq.capacity == 0)) [
    | inl f ↦ refused (sym (some-injective (rw (f, insert_some) at e)))
    | inr f ↦ elim (Bool-cases (leb pq.capacity (length pq.bh))) [
      | inl g ↦ insert_full-InsertCase placed (rw (f, g, insert_some) at e)
      | inr g ↦ insert_room-InsertCase (ground arith) (rw (f, g, insert_some) at e)
    ]
  ]

pub insert-InsertCase :
    (heap : Heap) (parse : ℕ → Option ℕ) (now : ℕ) (s : Option BlockDataBasic)
    (i : Option StakeInfoExtended) (pq t : BlockPriorityQueue) (r : InsertResult)
    → ((b : CachedBlock) → get_elem? pq.bh 0 ≡ some b → b.heap_idx ≡ pos 0)
    → insert heap parse now s i pq ≡ some (r, t)
    → InsertCase heap now s i parse pq t r
unfolding insert
insert-InsertCase heap parse now none none pq t r placed e = refused (sym (some-injective e))
insert-InsertCase heap parse now (some s) i pq t r placed e =
    insert_some-InsertCase heap parse now (some s) i pq t r placed e
insert-InsertCase heap parse now none (some i) pq t r placed e =
    insert_some-InsertCase heap parse now none (some i) pq t r placed e
