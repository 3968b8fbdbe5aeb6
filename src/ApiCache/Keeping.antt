-- ===== src/ApiCache/Keeping.antt =====
-- Each operation of the cache keeps its maps and its queue consistent.
use mathlib.Core.Path.{subst}
use monetarium_explorer.Prelude.{
  ℕ, ◌≡◌, refl, sym, ap, ◌∙◌, true, Option, none, some, arith, Bool-cases, Option-cases, inl, inr,
  some-injective,
}
use monetarium_explorer.Prelude.Int.{pos, negsuc}
use monetarium_explorer.AssocMap.{lookup, put}
use monetarium_explorer.BlockQueue.{
  BlockDataBasic, StakeInfoExtended, CachedBlock, BlockPriorityQueue, LessFn, access,
  check_block_height_hash,
}
use monetarium_explorer.BlockQueue.Heap.{Heap, HeapLaws}
use monetarium_explorer.BlockQueue.Ops.{InsertResult, insert, set_needs_reheap, set_access_time}
use monetarium_explorer.BlockQueue.Swaps.{tally-none}
use monetarium_explorer.BlockQueue.Inserting.{Names, joined, replaced, new_cached_block_lem}
use monetarium_explorer.BlockQueue.Cases.{insert-InsertCase, refused, takes_room, takes_top}
use monetarium_explorer.BlockQueue.History.{inserts, marks, accesses, QueueReach-IsQueue}
use monetarium_explorer.ApiCache.{ApiCache, get_cached_block_by_hash, is_enabled}
use monetarium_explorer.ApiCache.Store.{
  forget_removed, add_to_maps, store_new, store_block_summary, store_stake_info,
}
use monetarium_explorer.ApiCache.Consistent.{
  unparsed, IsConsistent, revised-IsConsistent, counted-IsConsistent, requeued-IsConsistent,
}
use monetarium_explorer.ApiCache.Storing.{joined-IsConsistent, replaced-IsConsistent}

-- What is given names one block.
name_one :
    (s : Option BlockDataBasic) (i : Option StakeInfoExtended) (h k h' k' : ℕ)
    → Names s i h k
    → Names s i h' k'
    → ◌≡◌ {A = ℕ × ℕ} (h, k) (h', k')
name_one s i h k h' k' names names' = some-injective (some-injective (sym names ∙ names'))

abbrev joined_result : InsertResult
joined_result = record { was_added = true; removed_hash = none; removed_height = negsuc 0 }

module _ {heap : Heap} {less : LessFn} (laws : HeapLaws heap less) (parse : ℕ → Option ℕ)
    (capacity : ℕ) where
  -- What a store makes of the cache, by what Insert returned.
  abbrev stored : ℕ → ℕ → CachedBlock → ApiCache → InsertResult × BlockPriorityQueue → ApiCache
  stored h k b apic (r, q) =
      add_to_maps r.was_added h k b
        (forget_removed r.removed_hash r.removed_height (record apic { expire_queue = q }))

  store_new_lem :
      (now : ℕ) (s : Option BlockDataBasic) (i : Option StakeInfoExtended) (h str k : ℕ)
      (apic t : ApiCache)
      → Names s i h str
      → store_new heap parse now s i h k apic ≡ some t
      → (b : CachedBlock) × (r : InsertResult) × (q : BlockPriorityQueue) × (b.height ≡ h)
        × (insert heap parse now s i apic.expire_queue ≡ some (r, q))
        × (stored h k b apic (r, q) ≡ t)
  unfolding store_new access
  store_new_lem now s i h str k apic t names e =
      let f = rw (new_cached_block_lem heap now s i h str names, store_new) at e in
      elim (Option-cases (insert heap parse now s i apic.expire_queue)) [
        | inl g ↦ absurd (ground (arith, rw g at f))
        | inr ((r, q), g) ↦ (_, r, q, refl, g, some-injective (rw g at f))
      ]

  stored-IsConsistent :
      (now : ℕ) (s : Option BlockDataBasic) (i : Option StakeInfoExtended) (h str k : ℕ)
      (b : CachedBlock) (r : InsertResult) (q : BlockPriorityQueue) (apic : ApiCache)
      → parse str ≡ some k
      → Names s i h str
      → b.height ≡ h
      → lookup k apic.block_cache ≡ none
      → IsConsistent heap less parse capacity apic
      → insert heap parse now s i apic.expire_queue ≡ some (r, q)
      → IsConsistent heap less parse capacity (stored h k b apic (r, q))
  unfolding add_to_maps forget_removed
  stored-IsConsistent now s i h str k b r q apic spelled names tall absent c inserted =
      let pq = apic.expire_queue in
      let w = QueueReach-IsQueue laws capacity capacity parse c.queue in
      let Good : InsertResult × BlockPriorityQueue → Type 0 =
        λ rq. IsConsistent heap less parse capacity (stored h k b apic rq) in
      elim (insert-InsertCase heap parse now s i pq q r (w.placed 0) inserted) [
        | refused same ↦ subst Good (sym same) c
        | takes_room h' str' names' room same ↦
            let at = name_one s i h' str' h str names' names in
            let ends = same ∙ ap (λ n. (joined_result, joined heap now s i n.0 n.1 pq)) at in
            let reach = inserts now s i c.queue (inserted ∙ ap some ends) in
            subst Good (sym ends) (
              joined-IsConsistent heap less parse capacity now s i h str k spelled b apic tall
                absent reach c)
        | takes_top h' str' top names' found low same ↦ elim (Option-cases (parse top.hash)) [
          | inl unnamed ↦ absurd (
              ground (
                arith,
                rw (unnamed, unparsed) at (tally-none (unparsed parse) pq.bh 0 top c.parsed found),
              ))
          | inr (gone, named) ↦
              let at = name_one s i h' str' h str names' names in
              let taken : InsertResult = record {
                was_added = true;
                removed_hash = parse top.hash;
                removed_height = pos top.height;
              } in
              let ends =
                same ∙ ap (λ n. (taken, replaced heap now s i n.0 n.1 0 top.height pq)) at in
              let reach = inserts now s i c.queue (inserted ∙ ap some ends) in
              subst Good (sym ends) (
                rw named (
                  replaced-IsConsistent heap less parse capacity now s i h str k spelled b top gone
                    apic tall absent found named reach c))
        ]
      ]

  store_new-IsConsistent :
      (now : ℕ) (s : Option BlockDataBasic) (i : Option StakeInfoExtended) (h str k : ℕ)
      (apic t : ApiCache)
      → parse str ≡ some k
      → Names s i h str
      → lookup k apic.block_cache ≡ none
      → IsConsistent heap less parse capacity apic
      → store_new heap parse now s i h k apic ≡ some t
      → IsConsistent heap less parse capacity t
  store_new-IsConsistent now s i h str k apic t spelled names absent c e =
      let (b, r, q, tall, inserted, ends) = store_new_lem now s i h str k apic t names e in
      subst (IsConsistent heap less parse capacity) ends
        (stored-IsConsistent now s i h str k b r q apic spelled names tall absent c inserted)

  pub store_block_summary-IsConsistent :
      (now : ℕ) (summary : BlockDataBasic) (apic t : ApiCache)
      → IsConsistent heap less parse capacity apic
      → store_block_summary heap parse now summary apic ≡ some t
      → IsConsistent heap less parse capacity t
  unfolding store_block_summary check_block_height_hash
  store_block_summary-IsConsistent now summary apic t c e = elim (Bool-cases (is_enabled apic)) [
    | inr off ↦ subst (IsConsistent heap less parse capacity) (some-injective (rw off at e)) c
    | inl on ↦ elim (Option-cases (parse summary.hash)) [
      | inl bad ↦ absurd (ground (arith, rw bad at (rw on at e)))
      | inr (k, spelled) ↦ elim (Option-cases (lookup k apic.block_cache)) [
        | inl absent ↦
            store_new-IsConsistent now (some summary) none summary.height summary.hash k apic t
              spelled refl absent c (rw absent at (rw spelled at (rw on at e)))
        | inr (b, held) ↦ elim (Option-cases b.summary) [
          | inl bare_b ↦
              subst (IsConsistent heap less parse capacity)
                (some-injective (rw bare_b at (rw held at (rw spelled at (rw on at e)))))
                (revised-IsConsistent heap less parse capacity k b _ apic held refl c)
          | inr (already, full) ↦
              subst (IsConsistent heap less parse capacity)
                (some-injective (rw full at (rw held at (rw spelled at (rw on at e))))) c
        ]
      ]
    ]
  ]

  pub store_stake_info-IsConsistent :
      (now : ℕ) (info : StakeInfoExtended) (apic t : ApiCache)
      → IsConsistent heap less parse capacity apic
      → store_stake_info heap parse now info apic ≡ some t
      → IsConsistent heap less parse capacity t
  unfolding store_stake_info check_block_height_hash
  store_stake_info-IsConsistent now info apic t c e = elim (Bool-cases (is_enabled apic)) [
    | inr off ↦ subst (IsConsistent heap less parse capacity) (some-injective (rw off at e)) c
    | inl on ↦ elim (Option-cases (parse info.hash)) [
      | inl bad ↦ absurd (ground (arith, rw bad at (rw on at e)))
      | inr (k, spelled) ↦ elim (Option-cases (lookup k apic.block_cache)) [
        | inl absent ↦
            store_new-IsConsistent now none (some info) info.height info.hash k apic t spelled refl
              absent c (rw absent at (rw spelled at (rw on at e)))
        | inr (b, held) ↦ elim (Option-cases b.stake_info) [
          | inl bare_b ↦
              subst (IsConsistent heap less parse capacity)
                (some-injective (rw bare_b at (rw held at (rw spelled at (rw on at e)))))
                (revised-IsConsistent heap less parse capacity k b _ apic held refl c)
          | inr (already, full) ↦
              subst (IsConsistent heap less parse capacity)
                (some-injective (rw full at (rw held at (rw spelled at (rw on at e))))) c
        ]
      ]
    ]
  ]

  pub get_cached_block_by_hash-IsConsistent :
      (now k : ℕ) (apic : ApiCache)
      → IsConsistent heap less parse capacity apic
      → IsConsistent heap less parse capacity (get_cached_block_by_hash now k apic).1
  unfolding get_cached_block_by_hash access set_access_time set_needs_reheap
  get_cached_block_by_hash-IsConsistent now k apic c =
      elim (Option-cases (lookup k apic.block_cache)) [
        | inl absent ↦
            rw (absent, get_cached_block_by_hash)
              (counted-IsConsistent heap less parse capacity apic.is_enabled apic.hits _ apic c)
        | inr (b, held) ↦
            rw (held, get_cached_block_by_hash)
              (counted-IsConsistent heap less parse capacity apic.is_enabled _ apic.misses
                (record apic {
                  block_cache = put k (access now b) apic.block_cache;
                  expire_queue = set_access_time now (set_needs_reheap true apic.expire_queue);
                })
                (requeued-IsConsistent heap less parse capacity _
                  (record apic { block_cache = put k (access now b) apic.block_cache })
                  (accesses now (marks true c.queue)) (λ p. refl) refl
                  (revised-IsConsistent heap less parse capacity k b (access now b) apic held refl
                    c)))
      ]
