-- ===== src/Charts/Sums.antt =====
-- The series of the days that are sums grow by the blocks of one range.
pub mod Day
use monetarium_explorer.Prelude.{
  ℕ, Bool, true, ◌&&◌, ltb, ◌<◌, none, length, ◌+◌, ◌-◌, ◌%◌, ◌^◌, ◌≡◌, refl, List, [], ◌∷◌, some,
  get_elem?, take,
}
use monetarium_explorer.Charts.{sum64, avg_range, sum_range, ZoomSet}
use monetarium_explorer.Charts.Tiles.{none_after, sum_between}

module _ {Work : Type 0} where
  -- A series of the days has, over and above what it had, the sum of its blocks of some range.
  abbrev pub IsGrown :
      (ZoomSet Work → List ℕ) → ZoomSet Work → ZoomSet Work → ZoomSet Work → ℕ → ℕ → Type 0
  IsGrown series blocks days t from to =
      sum64 (series t) ≡ (sum64 (series days) + sum_between from to (series blocks)) % 2 ^ 64

  -- The series of the days that are sums.
  abbrev pub AllGrown : ZoomSet Work → ZoomSet Work → ZoomSet Work → ℕ → ℕ → Type 0
  AllGrown blocks days t from to =
      IsGrown (λ x. x.fees) blocks days t from to
      × IsGrown (λ x. x.tx_count) blocks days t from to
      × IsGrown (λ x. x.block_size) blocks days t from to
      × IsGrown (λ x. x.new_atoms) blocks days t from to
      × IsGrown (λ x. x.total_mixed) blocks days t from to

-- Every time of the list fits in an `int64`.
abbrev pub all_small : List ℕ → Bool
all_small [] = true
all_small (t ∷ ts) = ltb t (2 ^ 63) && all_small ts

-- The time up to which the days have taken up the blocks: the end of the last day or, before there is
-- a day, the last midnight before the first block.
abbrev pub covered_until : ℕ → List ℕ → ℕ
covered_until first stamps = elim (get_elem? stamps (length stamps - 1)) [
  | none ↦ first - first % 86400
  | some last ↦ last + 86400
]

module _ {Work : Type 0} where
  -- The days `t`, over and above `days`, have the sums of the blocks from the first one after the days
  -- that there were, up to the block that the last new day notes.
  abbrev pub AreGathered : ZoomSet Work → ZoomSet Work → ZoomSet Work → Type 0
  AreGathered blocks days t =
      (first : ℕ) × (from : ℕ) × (to : ℕ) × (block : ℕ) × (get_elem? blocks.time 0 ≡ some first)
      × (get_elem? blocks.time from ≡ some block)
      × (covered_until first days.time < block)
      × (none_after (covered_until first days.time) (take from blocks.time) ≡ true)
      × (get_elem? t.height (length t.height - 1) ≡ some (to - 1))
      × AllGrown blocks days t from to
