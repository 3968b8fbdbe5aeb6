-- ===== src/BlockQueue/History.antt =====
-- The queue through any sequence of its operations, from its construction and the choice of its
-- comparator on.
use mathlib.Core.Path.{subst}
use monetarium_explorer.Prelude.{
  ℕ, ◌≤◌, ◌≡◌, sym, ap, ◌∙◌, Bool, false, ◌&&◌, List, [], ◌∷◌, Option, none, some, arith, length,
  get_elem?, ltb, ◌==◌, Bool-cases, Option-cases, inl, inr, some-injective,
}
use monetarium_explorer.Prelude.Int.{pos, below, ℤ-cases}
use monetarium_explorer.BlockQueue.{
  BlockDataBasic, StakeInfoExtended, CachedBlock, BlockPriorityQueue, LessFn,
  new_block_priority_queue, set_less_fn,
}
use monetarium_explorer.BlockQueue.Heap.{Heap, HeapLaws, HasMinimum, no_order}
use monetarium_explorer.BlockQueue.Ops.{
  InsertResult, update_block, insert, remove_index, remove_block, reset_heap, reheap,
  watch_priority_queue, set_access_time, set_needs_reheap, does_need_reheap,
}
use monetarium_explorer.BlockQueue.Swaps.{tally-none}
use monetarium_explorer.BlockQueue.Inserting.{update_block_lem, parts-cases}
use monetarium_explorer.BlockQueue.Cases.{refused, takes_room, takes_top, insert-InsertCase}
use monetarium_explorer.BlockQueue.Invariant.{
  IsQueue, new_block_priority_queue-IsQueue, noted-IsQueue, replaced-IsQueue, joined-IsQueue,
}
use monetarium_explorer.BlockQueue.Rearranging.{
  remove_index-IsQueue, reheap-IsQueue, reset_heap-IsQueue,
}

module _ (heap : Heap) (less : LessFn) (parse : ℕ → Option ℕ) (most : ℕ) where
  -- The queue, made with a capacity and then given its comparator. Neither the capacity nor a list that
  -- ResetHeap is given is longer than `most`.
  pub data QueueReach (capacity : ℕ) : BlockPriorityQueue → Type 0 where
    begins :
        capacity ≤ most → QueueReach capacity (set_less_fn less (new_block_priority_queue capacity))
    inserts :
        {pq t : BlockPriorityQueue} {r : InsertResult} (now : ℕ) (s : Option BlockDataBasic)
        (i : Option StakeInfoExtended)
        → QueueReach capacity pq
        → insert heap parse now s i pq ≡ some (r, t)
        → QueueReach capacity t
    updates :
        {pq t : BlockPriorityQueue} (now idx : ℕ) (s : Option BlockDataBasic)
        (i : Option StakeInfoExtended)
        → QueueReach capacity pq
        → update_block heap now idx s i pq ≡ some t
        → QueueReach capacity t
    removes :
        {pq t : BlockPriorityQueue} (b : Option CachedBlock)
        → QueueReach capacity pq
        → remove_block heap b pq ≡ some t
        → QueueReach capacity t
    removes_index :
        {pq t : BlockPriorityQueue} (idx : ℕ)
        → QueueReach capacity pq
        → remove_index heap idx pq ≡ some t
        → QueueReach capacity t
    resets :
        {pq : BlockPriorityQueue} (now : ℕ) (bh : List CachedBlock)
        → QueueReach capacity pq
        → length bh ≤ most
        → QueueReach capacity (reset_heap heap now bh pq)
    watches :
        {pq : BlockPriorityQueue} (now : ℕ)
        → QueueReach capacity pq
        → QueueReach capacity (watch_priority_queue heap now pq)
    reheaps :
        {pq : BlockPriorityQueue} → QueueReach capacity pq → QueueReach capacity (reheap heap pq)
    marks :
        {pq : BlockPriorityQueue} (need_reheap : Bool)
        → QueueReach capacity pq
        → QueueReach capacity (set_needs_reheap need_reheap pq)
    accesses :
        {pq : BlockPriorityQueue} (t : ℕ)
        → QueueReach capacity pq
        → QueueReach capacity (set_access_time t pq)

pub first_least :
    {heap : Heap} {less : LessFn} (laws : HeapLaws heap less) (bh : List CachedBlock) (idx : ℕ)
    (b top : CachedBlock)
    → HasMinimum laws
    → laws.IsHeap bh
    → get_elem? bh idx ≡ some b
    → get_elem? bh 0 ≡ some top
    → less b top ≡ false
first_least laws [] idx b top least o e f = absurd (ground arith)
first_least {less = less} laws (c ∷ bs) idx b top least o e f =
    let same : c ≡ top = some-injective f in
    subst (λ x. less b x ≡ false) same (least b c bs idx o e)

module _ {heap : Heap} {less : LessFn} (laws : HeapLaws heap less) (most capacity : ℕ)
    (parse : ℕ → Option ℕ) where
  update_block-IsQueue :
      (now idx : ℕ) (s : Option BlockDataBasic) (i : Option StakeInfoExtended)
      (pq t : BlockPriorityQueue)
      → IsQueue laws most capacity pq
      → update_block heap now idx s i pq ≡ some t
      → IsQueue laws most capacity t
  unfolding update_block
  update_block-IsQueue now idx s i pq t q e = elim (Option-cases (get_elem? pq.bh idx)) [
    | inl f ↦ subst (IsQueue laws most capacity) (some-injective (rw (f, update_block) at e)) q
    | inr (b, f) ↦ elim (parts-cases s i) [
      | inl (h, k, names) ↦
          subst (IsQueue laws most capacity)
            (some-injective
              (sym (update_block_lem heap now s i h k idx b pq names f (q.placed idx b f)) ∙ e))
            (replaced-IsQueue laws most capacity now s i h k idx b pq f q)
      | inr (inl mismatch) ↦
          subst (IsQueue laws most capacity)
            (some-injective (rw mismatch at (rw (f, update_block) at e))) q
      | inr (inr (no_s, no_i, nothing)) ↦
          absurd (ground (arith, rw nothing at (rw (f, update_block) at e)))
    ]
  ]

  insert-IsQueue :
      (now : ℕ) (s : Option BlockDataBasic) (i : Option StakeInfoExtended)
      (pq t : BlockPriorityQueue) (r : InsertResult)
      → IsQueue laws most capacity pq
      → insert heap parse now s i pq ≡ some (r, t)
      → IsQueue laws most capacity t
  insert-IsQueue now s i pq t r q e =
      elim (insert-InsertCase heap parse now s i pq t r (q.placed 0) e) [
        | refused same ↦ subst (IsQueue laws most capacity) (ap (λ x. x.1) (sym same)) q
        | takes_room h k names room same ↦
            subst (IsQueue laws most capacity) (ap (λ x. x.1) (sym same))
              (joined-IsQueue laws most capacity now s i h k pq room q)
        | takes_top h k top names found low same ↦
            subst (IsQueue laws most capacity) (ap (λ x. x.1) (sym same))
              (replaced-IsQueue laws most capacity now s i h k 0 top pq found q)
      ]

  remove_block-IsQueue :
      (b : Option CachedBlock) (pq t : BlockPriorityQueue)
      → IsQueue laws most capacity pq
      → remove_block heap b pq ≡ some t
      → IsQueue laws most capacity t
  unfolding remove_block
  remove_block-IsQueue none pq t q e = subst (IsQueue laws most capacity) (some-injective e) q
  remove_block-IsQueue (some b) pq t q e = elim (ℤ-cases b.heap_idx) [
    | inr (k, f) ↦ subst (IsQueue laws most capacity) (some-injective (rw (f, remove_block) at e)) q
    | inl (k, f) ↦ elim (Bool-cases (ltb 0 k && ltb k (length pq.bh))) [
      | inr g ↦
          subst (IsQueue laws most capacity) (some-injective (rw g at (rw (f, remove_block) at e)))
            q
      | inl g ↦ elim (Option-cases (get_elem? pq.bh k)) [
        | inl h ↦ absurd (ground (arith, rw h at (rw g at (rw (f, remove_block) at e))))
        | inr (c, h) ↦ elim (Bool-cases (c.hash == b.hash)) [
          | inr j ↦
              subst (IsQueue laws most capacity)
                (some-injective (rw j at (rw h at (rw g at (rw (f, remove_block) at e))))) q
          | inl j ↦
              remove_index-IsQueue laws most capacity k pq t q
                (rw j at (rw h at (rw g at (rw (f, remove_block) at e))))
        ]
      ]
    ]
  ]

  watch_priority_queue-IsQueue :
      (now : ℕ) (pq : BlockPriorityQueue)
      → IsQueue laws most capacity pq
      → IsQueue laws most capacity (watch_priority_queue heap now pq)
  unfolding watch_priority_queue
  watch_priority_queue-IsQueue now pq q = elim (Bool-cases (does_need_reheap now pq)) [
    | inl e ↦ rw e (reheap-IsQueue laws most capacity pq q)
    | inr e ↦ rw e q
  ]

  pub QueueReach-IsQueue :
      {pq : BlockPriorityQueue}
      → QueueReach heap less parse most capacity pq
      → IsQueue laws most capacity pq
  unfolding set_needs_reheap set_access_time
  QueueReach-IsQueue (begins within) = new_block_priority_queue-IsQueue laws most capacity within
  QueueReach-IsQueue {pq = t} (inserts {pq = pq} {r = r} now s i q e) =
      insert-IsQueue now s i pq t r (QueueReach-IsQueue q) e
  QueueReach-IsQueue {pq = t} (updates {pq = pq} now idx s i q e) =
      update_block-IsQueue now idx s i pq t (QueueReach-IsQueue q) e
  QueueReach-IsQueue {pq = t} (removes {pq = pq} b q e) =
      remove_block-IsQueue b pq t (QueueReach-IsQueue q) e
  QueueReach-IsQueue {pq = t} (removes_index {pq = pq} idx q e) =
      remove_index-IsQueue laws most capacity idx pq t (QueueReach-IsQueue q) e
  QueueReach-IsQueue (resets {pq = pq} now bh q room) =
      reset_heap-IsQueue laws most capacity now bh pq room (QueueReach-IsQueue q)
  QueueReach-IsQueue (watches {pq = pq} now q) =
      watch_priority_queue-IsQueue now pq (QueueReach-IsQueue q)
  QueueReach-IsQueue (reheaps {pq = pq} q) =
      reheap-IsQueue laws most capacity pq (QueueReach-IsQueue q)
  QueueReach-IsQueue (marks {pq = pq} need_reheap q) =
      noted-IsQueue laws most capacity need_reheap pq.last_access pq (QueueReach-IsQueue q)
  QueueReach-IsQueue (accesses {pq = pq} t q) =
      noted-IsQueue laws most capacity pq.needs_reheap t pq (QueueReach-IsQueue q)

-- In a queue that came about by its operations, with any comparator that it was given at the start and
-- whatever swaps container/heap makes: each block notes the position where it stands, the range of
-- heights takes in every block, none lower than the lowest height and none higher than the highest, and
-- there are no more blocks than `most`, any number that neither the capacity that the queue was made
-- with nor the length of a list that ResetHeap was given exceeds.
pub QueueReach-ranged :
    (heap : Heap) (less : LessFn) (parse : ℕ → Option ℕ) (most capacity : ℕ)
    (pq : BlockPriorityQueue) (idx : ℕ) (b : CachedBlock)
    → QueueReach heap less parse most capacity pq
    → get_elem? pq.bh idx ≡ some b
    → (pq.min_height ≤ b.height)
      × (below pq.max_height b.height ≡ false)
      × (b.heap_idx ≡ pos idx)
      × (length pq.bh ≤ most)
QueueReach-ranged heap less parse most capacity pq idx b q e =
    let w = QueueReach-IsQueue (no_order heap less) most capacity parse q in
    let inside = tally-none _ pq.bh idx b w.covered e in
    (ground (arith, inside), ground (arith, inside), w.placed idx b e, w.few)
