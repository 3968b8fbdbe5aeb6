-- ===== src/BlockQueue/Order.antt =====
-- The comparators: which of them order the blocks.
use monetarium_explorer.Prelude.{
  ◌^◌, ℕ, ◌-◌, ◌*◌, ◌≤◌, ◌<◌, ◌≡◌, ◌⊎◌, Bool, true, false, none, arith, ltb, if◌then◌else◌,
}
use monetarium_explorer.Prelude.Int.{ℤ, pos, negsuc, ltz, eqz}
use monetarium_explorer.BlockQueue.{
  CachedBlock, less_by_height, less_by_access_count, less_by_access_count_then_height, leb,
}

-- Counts, then heights.
abbrev before : ℤ → ℕ → ℤ → ℕ → Bool
before x h y k = if eqz x y then ltb h k else ltz x y

before-weak :
    (x y z : ℤ) (h k l : ℕ)
    → before x h y k ≡ true
    → (before y k x h ≡ false) × ((before x h z l ≡ true) ⊎ (before z l y k ≡ true))
before-weak (pos x) (pos y) (pos z) h k l e = ground arith
before-weak (pos x) (pos y) (negsuc z) h k l e = ground arith
before-weak (pos x) (negsuc y) z h k l e = absurd (ground arith)
before-weak (negsuc x) (pos y) (pos z) h k l e = ground arith
before-weak (negsuc x) (pos y) (negsuc z) h k l e = ground arith
before-weak (negsuc x) (negsuc y) (pos z) h k l e = ground arith
before-weak (negsuc x) (negsuc y) (negsuc z) h k l e = ground arith

-- LessByAccessCountThenHeight is a strict weak order, as a heap needs: when it puts a block before
-- another, it does not put that one before the first, and it puts any third block after the first or
-- before the second.
pub less_by_access_count_then_height-weak :
    (a b c : CachedBlock)
    → less_by_access_count_then_height a b ≡ true
    → (less_by_access_count_then_height b a ≡ false)
      × ((less_by_access_count_then_height a c ≡ true)
          ⊎ (less_by_access_count_then_height c b ≡ true))
unfolding less_by_access_count_then_height less_by_height less_by_access_count
less_by_access_count_then_height-weak a b c e =
    before-weak a.accesses b.accesses c.accesses a.height b.height c.height e

-- The distance of two times, as the comparator by times takes it.
abbrev distance : ℕ → ℕ → ℕ
distance s t = if leb t s then s - t else t - s

module _ (ms : ℕ) (some_ms : 1 ≤ ms) (few_ms : ms * 1000000 < 2 ^ 63) where
  -- A block with this count of accesses, the last of them at this time.
  seen : ℕ → ℕ → CachedBlock
  seen count time = record {
    height = 0;
    hash = 0;
    summary = none;
    stake_info = none;
    accesses = pos count;
    access_time = time;
    heap_idx = negsuc 0;
  }
