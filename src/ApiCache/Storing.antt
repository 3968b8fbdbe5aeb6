-- ===== src/ApiCache/Storing.antt =====
-- Storing a block that is not cached keeps the maps and the queue consistent.

use monetarium_explorer.Prelude.{
  ℕ, ◌+◌, ◌≤◌, ◌≡◌, refl, sym, ap, ◌∙◌, Bool, true, false, ◌&&◌, List, Option, none, some, arith,
  get_elem?, ◌==◌, Bool-cases, Option-cases, inl, inr, ==_iff, some-injective,
}
use monetarium_explorer.Prelude.Int.{pos}
use monetarium_explorer.AssocMap.{
  lookup, put, erase, lookup-put, lookup-erase, put-IsDistinct, erase-IsDistinct, length-put,
  length-erase_once, lookup-has, lookup-keys,
}
use monetarium_explorer.BlockQueue.{
  BlockDataBasic, StakeInfoExtended, CachedBlock, BlockPriorityQueue, LessFn,
}
use monetarium_explorer.BlockQueue.Heap.{Heap}
use monetarium_explorer.BlockQueue.Swaps.{bare, one, tally}
use monetarium_explorer.BlockQueue.Inserting.{built, joined, replaced}
use monetarium_explorer.BlockQueue.Refinement.{size-length, bag-joined, bag-replaced, tally-one}
use monetarium_explorer.BlockQueue.History.{QueueReach}
use monetarium_explorer.ApiCache.{ApiCache}
use monetarium_explorer.ApiCache.Consistent.{holds, is_at, unparsed, IsConsistent}

holds-put :
    (k h j x : ℕ) (b : CachedBlock) (m : List (ℕ × CachedBlock))
    → lookup k m ≡ none
    → b.height ≡ h
    → holds (put k b m) j x ≡ holds m j x + one (k == j && h == x)
holds-put k h j x b m absent e = elim (Bool-cases (j == k)) [
  | inr f ↦
      let apart : (k == j) ≡ false = ground arith in rw (lookup-put j k b m, f, apart) (omega arith)
  | inl f ↦
      let same : j ≡ k = (==_iff j k).0 f in
      let again : (k == k) ≡ true = ground arith in
      rw (lookup-put j k b m, f) (rw (same, absent, again, e) (omega arith))
]

holds-erase :
    (k j x : ℕ) (b : CachedBlock) (m : List (ℕ × CachedBlock))
    → lookup k m ≡ some b
    → holds (erase k m) j x + one (k == j && b.height == x) ≡ holds m j x
holds-erase k j x b m e = elim (Bool-cases (j == k)) [
  | inr f ↦
      let apart : (k == j) ≡ false = ground arith in rw (lookup-erase j k m, f, apart) (omega arith)
  | inl f ↦
      let same : j ≡ k = (==_iff j k).0 f in
      let again : (k == k) ≡ true = ground arith in
      rw (lookup-erase j k m, f) (rw (same, e, again) (omega arith))
]

-- Each height of the main chain stands for a block of that height.
abbrev IsKnown : List (ℕ × CachedBlock) → List (ℕ × ℕ) → Type 0
IsKnown m main = (h k : ℕ) → lookup h main ≡ some k → holds m k h ≡ 1

put-IsKnown :
    (k h : ℕ) (b : CachedBlock) (m : List (ℕ × CachedBlock)) (main : List (ℕ × ℕ))
    → lookup k m ≡ none
    → b.height ≡ h
    → IsKnown m main
    → IsKnown (put k b m) (put h k main)
put-IsKnown k h b m main absent e known x j f = elim (Bool-cases (x == h)) [
  | inl g ↦
      let at : x ≡ h = (==_iff x h).0 g in
      let named : k ≡ j = some-injective (rw (lookup-put x h k main, g) at f) in
      let before : holds m k h ≡ 0 = rw absent refl in
      let both : one (k == k && h == h) ≡ 1 = ground arith in
      rw (at, sym named) (omega (arith, holds-put k h k h b m absent e, before, both))
  | inr g ↦
      let old = known x j (rw (lookup-put x h k main, g) at f) in
      let other : one (k == j && h == x) ≡ 0 = ground arith in
      omega (arith, holds-put k h j x b m absent e, old, other)
]

erase-IsKnown :
    (k : ℕ) (b : CachedBlock) (m : List (ℕ × CachedBlock)) (main : List (ℕ × ℕ))
    → lookup k m ≡ some b
    → IsKnown m main
    → IsKnown (erase k m) (erase b.height main)
erase-IsKnown k b m main e known x j f = elim (Bool-cases (x == b.height)) [
  | inl g ↦ absurd (ground (arith, rw (lookup-erase x b.height main, g) at f))
  | inr g ↦
      let old = known x j (rw (lookup-erase x b.height main, g) at f) in
      let other : one (k == j && b.height == x) ≡ 0 = ground arith in
      omega (arith, holds-erase k j x b m e, old, other)
]

-- A hash that a map has is another than one that it does not have.
different :
    (k gone : ℕ) (b : CachedBlock) (m : List (ℕ × CachedBlock))
    → lookup k m ≡ none
    → lookup gone m ≡ some b
    → (k == gone) ≡ false
different k gone b m absent held = elim (Bool-cases (k == gone)) [
  | inr f ↦ f
  | inl f ↦
      let same : k ≡ gone = (==_iff k gone).0 f in absurd (ground (arith, rw same at absent, held))
]

-- A map that holds a block for a hash, at a height.
pub holds-some :
    (k h : ℕ) (m : List (ℕ × CachedBlock))
    → 1 ≤ holds m k h
    → (b : CachedBlock) × (lookup k m ≡ some b) × (b.height ≡ h)
holds-some k h m l = elim (Option-cases (lookup k m)) [
  | inl e ↦ absurd (omega (arith, rw e at l))
  | inr (b, e) ↦ (
    b,
    e,
    elim (Bool-cases (b.height == h)) [
      | inl f ↦ (==_iff b.height h).0 f
      | inr f ↦ absurd (omega (arith, rw f at (rw e at l)))
    ],
  )
]

module _ (heap : Heap) (less : LessFn) (parse : ℕ → Option ℕ) (capacity now : ℕ)
    (s : Option BlockDataBasic) (i : Option StakeInfoExtended) (h str k : ℕ)
    (spelled : parse str ≡ some k) where
  joined-counts :
      (p : CachedBlock → Bool) (pq : BlockPriorityQueue)
      → tally p (joined heap now s i h str pq).bh
        ≡ tally p pq.bh + one (p (bare (built now s i h str (pos 0))))
  joined-counts p pq = ap (λ m. m.count p) (bag-joined heap now s i h str pq)

  replaced-counts :
      (p : CachedBlock → Bool) (top : CachedBlock) (pq : BlockPriorityQueue)
      → get_elem? pq.bh 0 ≡ some top
      → tally p (replaced heap now s i h str 0 top.height pq).bh + one (p (bare top))
        ≡ tally p pq.bh + one (p (bare (built now s i h str (pos 0))))
  replaced-counts p top pq e =
      let counts = ap (λ m. m.count p) (bag-replaced heap now s i h str top pq e) in
      omega (arith, counts, tally-one p pq.bh 0 top e)

  new_parsed : unparsed parse (built now s i h str (pos 0)) ≡ false
  new_parsed = rw (spelled, unparsed) refl

  new_spells : (j x : ℕ) → is_at parse j x (built now s i h str (pos 0)) ≡ (k == j && h == x)
  new_spells j x = rw spelled refl

  -- The block joined the queue.
  pub joined-IsConsistent :
      (b : CachedBlock) (apic : ApiCache)
      → b.height ≡ h
      → lookup k apic.block_cache ≡ none
      → QueueReach heap less parse capacity capacity (joined heap now s i h str apic.expire_queue)
      → IsConsistent heap less parse capacity apic
      → IsConsistent heap less parse capacity (record apic {
        block_cache = put k b apic.block_cache;
        mainchain_blocks = put h k apic.mainchain_blocks;
        expire_queue = joined heap now s i h str apic.expire_queue;
      })
  joined-IsConsistent b apic e absent reach c =
      let pq = apic.expire_queue in
      let t = joined heap now s i h str pq in
      let longer = joined-counts (λ x. true) pq in
      let missing = lookup-has k apic.block_cache absent in
      record {
        queue = reach;
        once = put-IsDistinct k b apic.block_cache c.once;
        same =
            length-put k b apic.block_cache
            ∙ rw missing (omega (arith, c.same, longer, size-length t.bh, size-length pq.bh));
        parsed = omega (arith, joined-counts (unparsed parse) pq, c.parsed, ap one new_parsed);
        shared = λ j x. omega (
          arith,
          joined-counts (is_at parse j x) pq,
          c.shared j x,
          ap one (new_spells j x),
          holds-put k h j x b apic.block_cache absent e,
        );
        known = put-IsKnown k h b apic.block_cache apic.mainchain_blocks absent e c.known;
      }

  -- The block took the place of the first one of the queue, which leaves the maps.
  pub replaced-IsConsistent :
      (b top : CachedBlock) (gone : ℕ) (apic : ApiCache)
      → b.height ≡ h
      → lookup k apic.block_cache ≡ none
      → get_elem? apic.expire_queue.bh 0 ≡ some top
      → parse top.hash ≡ some gone
      → QueueReach heap less parse capacity capacity
          (replaced heap now s i h str 0 top.height apic.expire_queue)
      → IsConsistent heap less parse capacity apic
      → IsConsistent heap less parse capacity (record apic {
        block_cache = put k b (erase gone apic.block_cache);
        mainchain_blocks = put h k (erase top.height apic.mainchain_blocks);
        expire_queue = replaced heap now s i h str 0 top.height apic.expire_queue;
      })
  replaced-IsConsistent b top gone apic e absent found named reach c =
      let pq = apic.expire_queue in
      let t = replaced heap now s i h str 0 top.height pq in
      let m = apic.block_cache in
      let top_spells : (j x : ℕ) → is_at parse j x (bare top) ≡ (gone == j && top.height == x) =
        λ j x. rw named refl in
      let top_parsed : unparsed parse (bare top) ≡ false = rw (named, unparsed) refl in
      let there : 1 ≤ holds m gone top.height = ground (
        arith,
        c.shared gone top.height,
        top_spells gone top.height,
        tally-one (is_at parse gone top.height) pq.bh 0 top found,
      ) in
      let (old, held, tall) = holds-some gone top.height m there in
      let present = lookup-keys gone old m held in
      let apart : (k == gone) ≡ false = different k gone old m absent held in
      let absent_still : lookup k (erase gone m) ≡ none = lookup-erase k gone m ∙ rw apart absent in
      let missing = lookup-has k (erase gone m) absent_still in
      let same_size = replaced-counts (λ x. true) top pq found in
      record {
        queue = reach;
        once = put-IsDistinct k b (erase gone m) (erase-IsDistinct gone m c.once);
        same =
            length-put k b (erase gone m)
            ∙ rw missing (
                omega (
                  arith,
                  c.same,
                  same_size,
                  size-length t.bh,
                  size-length pq.bh,
                  length-erase_once gone m present c.once,
                ));
        parsed = omega (
          arith,
          replaced-counts (unparsed parse) top pq found,
          c.parsed,
          ap one new_parsed,
          ap one top_parsed,
        );
        shared = λ j x. omega (
          arith,
          replaced-counts (is_at parse j x) top pq found,
          c.shared j x,
          ap one (new_spells j x),
          ap one (top_spells j x),
          holds-put k h j x b (erase gone m) absent_still e,
          rw tall at (holds-erase gone j x old m held),
        );
        known =
            put-IsKnown k h b (erase gone m) (erase top.height apic.mainchain_blocks) absent_still e
              (rw tall at (erase-IsKnown gone old m apic.mainchain_blocks held c.known));
      }
