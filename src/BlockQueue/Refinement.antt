-- ===== src/BlockQueue/Refinement.antt =====
-- What the queue is to its user: a bag of blocks of bounded size. Insert refines the offer of a block to
-- such a bag.
use mathlib.Core.Path.{fun_ext, subst}
use monetarium_explorer.Prelude.{
  ℕ, zero, suc, ◌+◌, ◌-◌, ◌≤◌, ◌<◌, ◌≡◌, refl, sym, ap, ◌∙◌, Bool, true, false, List, [], ◌∷◌, ◌++◌,
  Option, none, some, arith, length, get_elem?, set_at, leb, ◌==◌, Bool-cases, inl, inr,
  get_elem?-some, some-injective,
}
use monetarium_explorer.Prelude.Int.{pos, negsuc}
use monetarium_explorer.BlockQueue.{
  BlockDataBasic, StakeInfoExtended, CachedBlock, BlockPriorityQueue, LessFn, update_min_max,
  check_block_height_hash,
}
use monetarium_explorer.BlockQueue.Heap.{Heap, HeapLaws, HasMinimum, swap_all}
use monetarium_explorer.BlockQueue.Ops.{InsertResult, not_added, insert_some, insert, insert_full}
use monetarium_explorer.BlockQueue.Swaps.{
  bare, one, tally, tally-set_at, tally-append, tally-swap_all,
}
use monetarium_explorer.BlockQueue.Ranges.{rescan_min_max_for_update-same}
use monetarium_explorer.BlockQueue.Inserting.{
  Names, built, replaced, joined, insert_room_lem, insert_full_replaces, insert_full_refuses,
}
use monetarium_explorer.BlockQueue.Invariant.{IsQueue}
use monetarium_explorer.BlockQueue.History.{QueueReach, QueueReach-IsQueue, first_least}

-- A bag, by the number of its blocks that pass each test.
pub record Bag : Type 0 where
  pub room : ℕ
  pub count : (CachedBlock → Bool) → ℕ

abbrev pub size : Bag → ℕ
size m = m.count (λ b. true)

abbrev pub add : CachedBlock → Bag → Bag
add b m = record m { count = λ p. m.count p + one (p (bare b)) }

abbrev pub take_away : CachedBlock → Bag → Bag
take_away b m = record m { count = λ p. m.count p - one (p (bare b)) }

-- The bag of a queue forgets the order and the positions.
abbrev pub bag : BlockPriorityQueue → Bag
bag pq = record { room = pq.capacity; count = λ p. tally p pq.bh }

-- How a bag takes the offer of a block. A full bag gives up a block that is least by the comparator,
-- when that one comes before the new block.
pub data Offered (less : LessFn) (parse : ℕ → Option ℕ) (b : CachedBlock)
    : Bag → InsertResult → Bag → Type 0 where
  without_room : {m : Bag} → m.room ≡ 0 → Offered less parse b m not_added m
  joins :
      {m : Bag}
      → size m < m.room
      → Offered less parse b m
          (record { was_added = true; removed_hash = none; removed_height = negsuc 0 })
          (add b m)
  takes_place :
      {m : Bag} (least : CachedBlock)
      → m.room ≤ size m
      → 1 ≤ m.count (λ c. c.hash == least.hash)
      → m.count (λ c. less c least) ≡ 0
      → less least b ≡ true
      → Offered less parse b m
          (record {
            was_added = true;
            removed_hash = parse least.hash;
            removed_height = pos least.height;
          })
          (add b (take_away least m))
  loses :
      {m : Bag} (least : CachedBlock)
      → m.room ≤ size m
      → m.count (λ c. less c least) ≡ 0
      → less least b ≡ false
      → Offered less parse b m not_added m

pub size-length : (bh : List CachedBlock) → tally (λ b. true) bh ≡ length bh
unfolding tally
size-length [] = refl
size-length (b ∷ bs) = omega (arith, size-length bs)

-- No block passes a test that fails for each one.
tally-all :
    (p : CachedBlock → Bool) (bh : List CachedBlock)
    → ((i : ℕ) (b : CachedBlock) → get_elem? bh i ≡ some b → p (bare b) ≡ false)
    → tally p bh ≡ 0
unfolding tally
tally-all p [] h = refl
tally-all p (b ∷ bs) h = rw (h 0 b refl) (omega (arith, tally-all p bs (λ i c. h (suc i) c)))

-- A block that stands in the queue passes what it passes.
pub tally-one :
    (p : CachedBlock → Bool) (bh : List CachedBlock) (i : ℕ) (b : CachedBlock)
    → get_elem? bh i ≡ some b
    → one (p (bare b)) ≤ tally p bh
unfolding tally
tally-one p [] i b e = absurd (ground arith)
tally-one p (c ∷ bs) zero b e = let same : c ≡ b = some-injective e in rw same (omega arith)
tally-one p (c ∷ bs) (suc i) b e = omega (arith, tally-one p bs i b e)

module _ (heap : Heap) (now : ℕ) (s : Option BlockDataBasic) (i : Option StakeInfoExtended)
    (h k : ℕ) where
  pub bag-joined :
      (pq : BlockPriorityQueue)
      → bag (joined heap now s i h k pq) ≡ add (built now s i h k (pos 0)) (bag pq)
  unfolding update_min_max tally
  bag-joined pq =
      ap (λ c. record { room = pq.capacity; count = c })
        (fun_ext (λ p.
          let bh = pq.bh ++ built now s i h k (pos (length pq.bh)) ∷ [] in
          tally-swap_all p (heap.push pq.less_fn bh) bh
          ∙ tally-append p pq.bh (built now s i h k (pos (length pq.bh)) ∷ [])
          ∙ omega arith))

  pub bag-replaced :
      (top : CachedBlock) (pq : BlockPriorityQueue)
      → get_elem? pq.bh 0 ≡ some top
      → bag (replaced heap now s i h k 0 top.height pq)
        ≡ add (built now s i h k (pos 0)) (take_away top (bag pq))
  bag-replaced top pq e =
      let b = built now s i h k (pos 0) in
      let bh = set_at 0 b pq.bh in
      let swaps = heap.fix pq.less_fn 0 bh in
      let (same_bh, same_capacity, same_less) =
        rescan_min_max_for_update-same h top.height (record pq { bh = swap_all swaps bh }) in
      let counts : (p : CachedBlock → Bool)
          → tally p (replaced heap now s i h k 0 top.height pq).bh
            ≡ tally p pq.bh - one (p (bare top)) + one (p (bare b)) =
        λ p. rw same_bh (
          omega (
            arith,
            tally-swap_all p swaps bh,
            tally-set_at p 0 b top pq.bh e,
            tally-one p pq.bh 0 top e,
          )) in
      rw same_capacity (ap (λ c. record { room = pq.capacity; count = c }) (fun_ext counts))

pub insert_lem :
    (heap : Heap) (parse : ℕ → Option ℕ) (now : ℕ) (s : Option BlockDataBasic)
    (i : Option StakeInfoExtended) (h k : ℕ) (pq : BlockPriorityQueue)
    → Names s i h k
    → insert heap parse now s i pq ≡ insert_some heap parse now s i pq
unfolding insert check_block_height_hash
insert_lem heap parse now none none h k pq names = absurd (ground arith)
insert_lem heap parse now (some s) i h k pq names = refl
insert_lem heap parse now none (some i) h k pq names = refl

module _ {heap : Heap} {less : LessFn} (laws : HeapLaws heap less) (minimal : HasMinimum laws)
    (most capacity : ℕ) (parse : ℕ → Option ℕ) where
  least_counts :
      ((b c : CachedBlock) → less (bare b) (bare c) ≡ less b c)
      → (pq : BlockPriorityQueue) (top : CachedBlock) → IsQueue laws most capacity pq
      → get_elem? pq.bh 0 ≡ some top
      → tally (λ c. less c top) pq.bh ≡ 0
  least_counts blind pq top w found =
      tally-all (λ c. less c top) pq.bh
        (λ j c e.
          sym (blind (bare c) top)
          ∙ blind c top
          ∙ first_least laws pq.bh j c top minimal w.ordered e found)

  insert_full-Offered :
      ((b c : CachedBlock) → less (bare b) (bare c) ≡ less b c)
      → (pq : BlockPriorityQueue) (now : ℕ) (s : Option BlockDataBasic)
        (i : Option StakeInfoExtended) (h k : ℕ) (top : CachedBlock)
      → IsQueue laws most capacity pq
      → Names s i h k
      → get_elem? pq.bh 0 ≡ some top
      → pq.capacity ≤ length pq.bh
      → (r : InsertResult) × (t : BlockPriorityQueue) × (insert_full heap parse now s i pq
          ≡ some (r, t))
        × Offered less parse (built now s i h k (pos 0)) (bag pq) r (bag t)
  insert_full-Offered blind pq now s i h k top w names found many =
      let b = built now s i h k (pos 0) in
      let full : pq.capacity ≤ size (bag pq) = omega (arith, many, size-length pq.bh) in
      let least = least_counts blind pq top w found in
      let there : 1 ≤ tally (λ c. c.hash == top.hash) pq.bh =
        ground (arith, tally-one (λ c. c.hash == top.hash) pq.bh 0 top found) in
      let by_less : pq.less_fn top b ≡ less top b = ap (λ f. f top b) w.by_less in
      elim (Bool-cases (less top b)) [
        | inl g ↦ (
          record {
            was_added = true;
            removed_hash = parse top.hash;
            removed_height = pos top.height;
          },
          replaced heap now s i h k 0 top.height pq,
          insert_full_replaces heap now s i h k parse top pq names found (w.placed 0 top found)
              (by_less ∙ g),
          subst (Offered less parse b (bag pq) _) (sym (bag-replaced heap now s i h k top pq found))
              (takes_place top full there least g),
        )
        | inr g ↦ (
          not_added,
          pq,
          insert_full_refuses heap now s i h k parse top pq names found (by_less ∙ g),
          loses top full least g,
        )
      ]

  -- For a comparator that does not look at the positions and that container/heap can order by, as its
  -- laws say, which the comparator by access times and counts is not: Insert of one block with a
  -- summary, with its stake information, or with both when they agree, does not panic, and in a queue
  -- that came about by its operations it does to the bag of the blocks what offering the block to a
  -- bag of the capacity may do: with room the block joins, and in a full bag it takes the place of a
  -- least block if that comes before it.
  pub insert-Offered :
      ((b c : CachedBlock) → less (bare b) (bare c) ≡ less b c)
      → (pq : BlockPriorityQueue) (now : ℕ) (s : Option BlockDataBasic)
        (i : Option StakeInfoExtended) (h k : ℕ)
      → QueueReach heap less parse most capacity pq
      → Names s i h k
      → (r : InsertResult) × (t : BlockPriorityQueue) × (insert heap parse now s i pq ≡ some (r, t))
        × Offered less parse (built now s i h k (pos 0)) (bag pq) r (bag t)
  unfolding insert_some
  insert-Offered blind pq now s i h k q names =
      let w = QueueReach-IsQueue laws most capacity parse q in
      let b = built now s i h k (pos 0) in
      let as_some = insert_lem heap parse now s i h k pq names in
      elim (Bool-cases (pq.capacity == 0)) [
        | inl e ↦ (not_added, pq, as_some ∙ rw (e, insert_some) refl, without_room (ground arith))
        | inr e ↦ elim (Bool-cases (leb pq.capacity (length pq.bh))) [
          | inr f ↦
              let room : size (bag pq) < pq.capacity = ground (arith, size-length pq.bh) in
              (
                _,
                joined heap now s i h k pq,
                as_some ∙ rw (e, f, insert_some) (insert_room_lem heap now s i h k parse pq names),
                subst (Offered less parse b (bag pq) _) (sym (bag-joined heap now s i h k pq))
                    (joins room),
              )
          | inl f ↦
              let (top, found) = get_elem?-some pq.bh 0 (ground arith) in
              let (r, t, e', offered) =
                insert_full-Offered blind pq now s i h k top w names found (ground arith) in
              (r, t, as_some ∙ rw (e, f, insert_some) e', offered)
        ]
      ]

  -- For a comparator that container/heap can order by, as its laws say, which the comparator by access
  -- times and counts is not: in a queue that came about by its operations, no block comes before the
  -- first one by the comparator, and the blocks are where they say.
  pub QueueReach-ordered :
      (pq : BlockPriorityQueue) (idx : ℕ) (b top : CachedBlock)
      → QueueReach heap less parse most capacity pq
      → get_elem? pq.bh idx ≡ some b
      → get_elem? pq.bh 0 ≡ some top
      → (less b top ≡ false) × (b.heap_idx ≡ pos idx)
  QueueReach-ordered pq idx b top q e f =
      let w = QueueReach-IsQueue laws most capacity parse q in
      (first_least laws pq.bh idx b top minimal w.ordered e f, w.placed idx b e)
