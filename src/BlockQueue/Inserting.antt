-- ===== src/BlockQueue/Inserting.antt =====
-- What Insert and UpdateBlock come to, by the case that they are in.
use monetarium_explorer.Prelude.{
  ◌==◌, ℕ, ◌≡◌, refl, true, false, [], ◌∷◌, ◌++◌, Option, none, some, length, get_elem?, set_at,
  Option-cases, inl, inr, ◌⊎◌, Bool-cases,
}
use monetarium_explorer.Prelude.Int.{ℤ, pos, negsuc, int64_next}
use monetarium_explorer.BlockQueue.{
  BlockDataBasic, StakeInfoExtended, CachedBlock, BlockPriorityQueue, check_block_height_hash,
  new_cached_block, access, update_min_max,
}
use monetarium_explorer.BlockQueue.Heap.{Heap, swap_all}
use monetarium_explorer.BlockQueue.Ops.{
  not_added, push, update_block, insert_full, insert_room, rescan_min_max_for_add,
  rescan_min_max_for_update,
}

-- The block that the queue makes of what it is given, at a position.
abbrev pub built : ℕ → Option BlockDataBasic → Option StakeInfoExtended → ℕ → ℕ → ℤ → CachedBlock
built now s i h k idx = record {
  height = h;
  hash = k;
  summary = s;
  stake_info = i;
  accesses = pos 1;
  access_time = now;
  heap_idx = idx;
}

-- What is given names a block of this height and hash.
abbrev pub Names : Option BlockDataBasic → Option StakeInfoExtended → ℕ → ℕ → Type 0
Names s i h k =
    check_block_height_hash (record { block_summary = s; stake_info = i }) ≡ some (some (h, k))

module _ (heap : Heap) (now : ℕ) (s : Option BlockDataBasic) (i : Option StakeInfoExtended)
    (h k : ℕ) where
  -- The queue with the block at a position replaced.
  abbrev pub replaced : ℕ → ℕ → BlockPriorityQueue → BlockPriorityQueue
  replaced idx removed pq =
      let bh = set_at idx (built now s i h k (pos idx)) pq.bh in
      record (rescan_min_max_for_update h removed
        (record pq { bh = swap_all (heap.fix pq.less_fn idx bh) bh })) { last_access = now }

  -- The queue with the block added.
  abbrev pub joined : BlockPriorityQueue → BlockPriorityQueue
  joined pq =
      let bh = pq.bh ++ built now s i h k (pos (length pq.bh)) ∷ [] in
      record (update_min_max h
        (record (update_min_max h pq) { bh = swap_all (heap.push pq.less_fn bh) bh })) {
          last_access = now;
        }

  pub new_cached_block_lem :
      Names s i h k
      → new_cached_block s i
        ≡ some (record (built now s i h k (negsuc 0)) { accesses = pos 0; access_time = 0 })
  unfolding new_cached_block
  new_cached_block_lem e = rw (e, new_cached_block) refl

  pub update_block_lem :
      (idx : ℕ) (b : CachedBlock) (pq : BlockPriorityQueue)
      → Names s i h k
      → get_elem? pq.bh idx ≡ some b
      → b.heap_idx ≡ pos idx
      → update_block heap now idx s i pq ≡ some (replaced idx b.height pq)
  unfolding update_block access
  update_block_lem idx b pq e f g = rw (f, update_block) (rw e (simp (g, int64_next) refl))

  module _ (parse : ℕ → Option ℕ) where
    pub insert_room_lem :
        (pq : BlockPriorityQueue)
        → Names s i h k
        → insert_room heap parse now s i pq
          ≡ some (
            record { was_added = true; removed_hash = none; removed_height = negsuc 0 },
            joined pq,
          )
    unfolding insert_room push access rescan_min_max_for_add update_min_max
    insert_room_lem pq e = rw (e, insert_room) (rw (new_cached_block_lem e, push) refl)

    pub insert_full_replaces :
        (top : CachedBlock) (pq : BlockPriorityQueue)
        → Names s i h k
        → get_elem? pq.bh 0 ≡ some top
        → top.heap_idx ≡ pos 0
        → pq.less_fn top (built now s i h k (pos 0)) ≡ true
        → insert_full heap parse now s i pq
          ≡ some (
            record {
              was_added = true;
              removed_hash = parse top.hash;
              removed_height = pos top.height;
            },
            replaced 0 top.height pq,
          )
    unfolding insert_full access
    insert_full_replaces top pq e f g less =
        let u = update_block_lem 0 top pq e f g in
        elim (Option-cases (parse top.hash)) [
          | inl p ↦ rw (new_cached_block_lem e, insert_full) (rw f (rw (less, u, p) refl))
          | inr (hash, p) ↦ rw (new_cached_block_lem e, insert_full) (rw f (rw (less, u, p) refl))
        ]

    pub insert_full_refuses :
        (top : CachedBlock) (pq : BlockPriorityQueue)
        → Names s i h k
        → get_elem? pq.bh 0 ≡ some top
        → pq.less_fn top (built now s i h k (pos 0)) ≡ false
        → insert_full heap parse now s i pq ≡ some (not_added, pq)
    unfolding insert_full access
    insert_full_refuses top pq e f less =
        rw (new_cached_block_lem e, insert_full) (rw f (rw less refl))

-- What is given names a block, or its two parts disagree, or it is nothing at all.
pub parts-cases :
    (s : Option BlockDataBasic) (i : Option StakeInfoExtended)
    → ((h : ℕ) × (k : ℕ) × Names s i h k)
      ⊎ ((check_block_height_hash (record { block_summary = s; stake_info = i }) ≡ some none)
          ⊎ ((s ≡ none)
              × (i ≡ none)
              × (check_block_height_hash (record { block_summary = s; stake_info = i }) ≡ none)))
unfolding check_block_height_hash
parts-cases none none = inr (inr (refl, refl, refl))
parts-cases none (some i) = inl (i.height, i.hash, refl)
parts-cases (some s) none = inl (s.height, s.hash, refl)
parts-cases (some s) (some i) = elim (Bool-cases (s.height == i.height)) [
  | inr e ↦ rw e (inr (inl refl))
  | inl e ↦ elim (Bool-cases (s.hash == i.hash)) [
    | inr f ↦ rw (e, f) (inr (inl refl))
    | inl f ↦ rw (e, f) (inl (s.height, s.hash, refl))
  ]
]
