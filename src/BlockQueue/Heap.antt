-- ===== src/BlockQueue/Heap.antt =====
-- Go's container/heap, as a parameter. The package changes the queue only through Swap, Push and Pop,
-- so what an operation of it does is the list of the pairs of positions that it swaps, after Push and
-- before Pop.
use monetarium_explorer.Prelude.{
  ℕ, ◌<◌, ◌≡◌, false, List, [], ◌∷◌, ◌++◌, some, length, get_elem?, set_at, but_last,
}
use monetarium_explorer.BlockQueue.{CachedBlock, LessFn, swap}

pub record Heap : Type 0 where
  -- heap.Init
  pub init : LessFn → List CachedBlock → List (ℕ × ℕ)
  -- heap.Push, once the new block stands last
  pub push : LessFn → List CachedBlock → List (ℕ × ℕ)
  -- heap.Fix, at a position
  pub fix : LessFn → ℕ → List CachedBlock → List (ℕ × ℕ)
  -- heap.Remove, of a position, before the last block is popped
  pub remove : LessFn → ℕ → List CachedBlock → List (ℕ × ℕ)

unfoldable pub swap_all : List (ℕ × ℕ) → List CachedBlock → List CachedBlock
swap_all [] bh = bh
swap_all ((i, j) ∷ swaps) bh = swap_all swaps (swap i j bh)

-- What the package documents of an order: it has a notion of a heap, and Init, Push, Fix and Remove
-- leave a heap when they are given one, up to the one block that they are about.
pub record HeapLaws (heap : Heap) (less : LessFn) : Type 1 where
  pub IsHeap : List CachedBlock → Type 0
  pub empty : IsHeap []
  pub init_orders : (bh : List CachedBlock) → IsHeap (swap_all (heap.init less bh) bh)
  pub push_orders :
      (bh : List CachedBlock) (b : CachedBlock)
      → IsHeap bh
      → IsHeap (swap_all (heap.push less (bh ++ b ∷ [])) (bh ++ b ∷ []))
  pub fix_orders :
      (bh : List CachedBlock) (i : ℕ) (b : CachedBlock)
      → IsHeap bh
      → i < length bh
      → IsHeap (swap_all (heap.fix less i (set_at i b bh)) (set_at i b bh))
  pub remove_orders :
      (bh : List CachedBlock) (i : ℕ)
      → IsHeap bh
      → i < length bh
      → IsHeap (but_last (swap_all (heap.remove less i bh) bh))

-- The minimum of a heap is at position 0. A comparator has this law only if it orders the blocks,
-- which the one by access times and counts does not.
abbrev pub HasMinimum : {heap : Heap} {less : LessFn} → HeapLaws heap less → Type 0
HasMinimum {less = less} laws =
    (b top : CachedBlock) (bh : List CachedBlock) (i : ℕ)
    → laws.IsHeap (top ∷ bh)
    → get_elem? (top ∷ bh) i ≡ some b
    → less b top ≡ false

-- Without an order, any comparator and any swaps.
pub no_order : (heap : Heap) (less : LessFn) → HeapLaws heap less
no_order heap less = record {
  IsHeap = λ bh. Unit;
  empty = tt;
  init_orders = λ bh. tt;
  push_orders = λ bh b o. tt;
  fix_orders = λ bh i b o l. tt;
  remove_orders = λ bh i o l. tt;
}
