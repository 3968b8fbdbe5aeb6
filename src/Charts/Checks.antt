-- ===== src/Charts/Checks.antt =====
-- Two blocks and a window, one miner, and a search and a sort as they are documented.
use monetarium_explorer.Prelude.Int.{pos, ltz, int_of, sub_ℕ, ◌+ℤ◌}
use monetarium_explorer.Prelude.{
  ◌*◌, ℕ, zero, suc, ◌+◌, ◌%◌, ◌^◌, ◌≤◌, ◌<◌, ◌≡◌, ◌⊎◌, refl, Bool, false, List, [], ◌∷◌, none,
  some, arith, get_elem?, ltb, leb, if◌then◌else◌, Bool-cases, inl, inr, fine, some-injective, ◌∙◌,
}
use monetarium_explorer.Charts.{
  ZoomSet, WindowSet, ChartData, MinerRange, set_lengths, validate_lengths, lengths_loop, midnight,
  snip_set, pos, snip, reorg_handler, at_least_0,
}
use monetarium_explorer.Charts.Days.{lengthen, offset_after, day_intervals, append_days}
use monetarium_explorer.Charts.Reorg.{reorg_handler-IsEven}
use monetarium_explorer.Charts.Even.{IsEven, lengthen-IsEven}
use monetarium_explorer.Charts.Lengths.{shortest_of}
use monetarium_explorer.Charts.Miners.{Event, day_interval, active_miners_counts}
use monetarium_explorer.Charts.Miners.Sweep.{one, count_if, IsFrom}
use monetarium_explorer.Charts.Miners.Active.{SearchLaw, IsTimeline, negatives, active_count}
use monetarium_explorer.Charts.Miners.Counting.{active_miners_counts_lem}

-- Search by trying one index after another.
search_by_steps : ℕ → (ℕ → Bool) → ℕ
search_by_steps zero f = 0
search_by_steps (suc n) f =
    let later = search_by_steps n (λ i. f (suc i)) in if f 0 then 0 else suc later

step : (m i : ℕ) → leb (suc m) (suc i) ≡ leb m i
step m i = ground arith

search_by_steps_lem : SearchLaw search_by_steps
unfolding search_by_steps
search_by_steps_lem zero f stays i l = absurd (omega arith)
search_by_steps_lem (suc n) f stays zero l = elim (Bool-cases (f 0)) [
  | inl e ↦ rw e (ground arith)
  | inr e ↦ rw e (ground arith)
]
search_by_steps_lem (suc n) f stays (suc i) l = elim (Bool-cases (f 0)) [
  | inl e ↦ rw (e, stays 0 (suc i) (omega arith) l e) (ground arith)
  | inr e ↦
      let next =
        search_by_steps_lem n (λ j. f (suc j))
          (λ j k m o. stays (suc j) (suc k) (omega arith) (omega arith)) i (omega arith) in
      rw e (step _ i ∙ next)
]

-- Insertion by heights.
put_in : Event → List Event → List Event
put_in e [] = e ∷ []
put_in e (d ∷ es) =
    let later = put_in e es in if ltb d.height e.height then d ∷ later else e ∷ d ∷ es

sort_by_insertion : List Event → List Event
sort_by_insertion [] = []
sort_by_insertion (e ∷ es) = put_in e (sort_by_insertion es)

put_in-IsFrom :
    (h : ℕ) (e : Event) (es : List Event) → h ≤ e.height → IsFrom h es → IsFrom h (put_in e es)
unfolding put_in
put_in-IsFrom h e [] l o = (l, tt)
put_in-IsFrom h e (d ∷ es) l (m, o) = elim (Bool-cases (ltb d.height e.height)) [
  | inl f ↦ rw f (m, put_in-IsFrom d.height e es (ground arith) o)
  | inr f ↦ rw f (l, (ground arith, o))
]

count_if-put_in :
    (p : Event → Bool) (e : Event) (es : List Event)
    → count_if p (put_in e es) ≡ one (p e) + count_if p es
unfolding put_in count_if
count_if-put_in p e [] = refl
count_if-put_in p e (d ∷ es) = elim (Bool-cases (ltb d.height e.height)) [
  | inl f ↦ rw f (omega (arith, count_if-put_in p e es))
  | inr f ↦ rw f refl
]

sort_keeps :
    (p : Event → Bool) (es : List Event) → count_if p (sort_by_insertion es) ≡ count_if p es
unfolding sort_by_insertion count_if
sort_keeps p [] = refl
sort_keeps p (e ∷ es) = omega (arith, count_if-put_in p e (sort_by_insertion es), sort_keeps p es)

sort_by_insertion-IsFrom : (es : List Event) → IsFrom 0 (sort_by_insertion es)
unfolding sort_by_insertion
sort_by_insertion-IsFrom [] = tt
sort_by_insertion-IsFrom (e ∷ es) =
    put_in-IsFrom 0 e (sort_by_insertion es) (omega arith) (sort_by_insertion-IsFrom es)

sort_orders : (es : List Event) → negatives es ≡ 0 → IsFrom 0 (sort_by_insertion es)
sort_orders es plain = sort_by_insertion-IsFrom es

abbrev two_times : List ℕ
two_times = 86400 ∷ 86700 ∷ []

two_times-IsTimeline : IsTimeline two_times
two_times-IsTimeline = record { ordered = ordered; small = small; few = omega arith }
  where
    ordered :
        (i j t u : ℕ)
        → i ≤ j
        → get_elem? two_times i ≡ some t
        → get_elem? two_times j ≡ some u
        → t ≤ u
    ordered zero zero t u l e f = omega (arith, some-injective e, some-injective f)
    ordered zero (suc zero) t u l e f = omega (arith, some-injective e, some-injective f)
    ordered zero (suc (suc j)) t u l e f = absurd (ground arith)
    ordered (suc zero) zero t u l e f = absurd (omega arith)
    ordered (suc zero) (suc zero) t u l e f = omega (arith, some-injective e, some-injective f)
    ordered (suc zero) (suc (suc j)) t u l e f = absurd (ground arith)
    ordered (suc (suc i)) j t u l e f = absurd (ground arith)

    small : (i t : ℕ) → get_elem? two_times i ≡ some t → t < 2 ^ 63
    small zero t e = omega (arith, some-injective e)
    small (suc zero) t e = omega (arith, some-injective e)
    small (suc (suc i)) t e = absurd (ground arith)

abbrev one_miner : List MinerRange
one_miner = record { first_seen = 0; last_used = 1 } ∷ []

active_miners_counts_lem_example :
    (counts : List ℕ) × (active_miners_counts search_by_steps sort_by_insertion 2 day_interval
        two_times one_miner
      ≡ some counts)
    × (get_elem? counts 1 ≡ some (active_count 2 day_interval two_times 1 one_miner % 2 ^ 64))
active_miners_counts_lem_example =
    active_miners_counts_lem search_by_steps sort_by_insertion two_times 1 day_interval one_miner
      search_by_steps_lem (record { keeps = sort_keeps; orders = sort_orders }) two_times-IsTimeline
      ((omega arith, omega arith), tt) (omega arith)

abbrev zoom : ZoomSet ℕ
zoom = record {
  cache_id = 0;
  height = 0 ∷ 1 ∷ [];
  time = two_times;
  pool_size = 5 ∷ 6 ∷ [];
  pool_value = 7 ∷ 8 ∷ [];
  block_size = 300 ∷ 400 ∷ [];
  tx_count = 1 ∷ 2 ∷ [];
  new_atoms = 9 ∷ 9 ∷ [];
  chainwork = 10 ∷ 20 ∷ [];
  fees = 3 ∷ 4 ∷ [];
  total_mixed = 0 ∷ 0 ∷ [];
  anonymity_set = 0 ∷ [];
}

abbrev no_days : ZoomSet ℕ
no_days = record {
  cache_id = 0;
  height = [];
  time = [];
  pool_size = [];
  pool_value = [];
  block_size = [];
  tx_count = [];
  new_atoms = [];
  chainwork = [];
  fees = [];
  total_mixed = [];
  anonymity_set = [];
}

abbrev window : WindowSet ℕ
window = record {
  cache_id = 0;
  time = 86400 ∷ [];
  height = 0 ∷ [];
  pow_diff = 1 ∷ [];
  ticket_price = 2 ∷ [];
  stake_count = 0 ∷ [];
  missed_votes = 0 ∷ [];
  stake_count_version = 1;
}

abbrev before : ChartData ℕ ℕ
before = record { blocks = zoom; windows = window; days = no_days; miner_ranges = [] }

abbrev after : ChartData ℕ ℕ
after = record {
  blocks = record (snip_set (pos 1) zoom) { cache_id = 86400 };
  windows = record window { cache_id = 86400 * 2 ^ 32 + 1 };
  days = no_days;
  miner_ranges = [];
}

lengthened : lengthen before ≡ fine after
unfolding lengthen validate_lengths lengths_loop midnight offset_after day_intervals append_days
    snip_set snip
lengthened = refl

lengthen-IsEven_example :
    IsEven (shortest_of (set_lengths zoom)) after.blocks
    × ((shortest_of (set_lengths zoom) ≡ 0) ⊎ ((m : ℕ) × IsEven m after.days))
lengthen-IsEven_example = lengthen-IsEven before after lengthened

abbrev even_zoom : ZoomSet ℕ
even_zoom = record zoom { anonymity_set = 0 ∷ 1 ∷ [] }

abbrev even_charts : ChartData ℕ ℕ
even_charts = record before { blocks = even_zoom }

-- The last block is replaced.
reorg_handler-IsEven_example :
    (m : ℕ) × IsEven m (reorg_handler 1 1 even_charts).blocks
    × (m ≤ at_least_0 (sub_ℕ 1 1 +ℤ pos 1))
    × (e : ℕ) × IsEven e (reorg_handler 1 1 even_charts).days
    × (e ≤ 0)
    × ((get_elem? (reorg_handler 1 1 even_charts).windows.height 0 ≡ none)
        ⊎ ((w : ℕ) × (get_elem? (reorg_handler 1 1 even_charts).windows.height 0 ≡ some w)
            × (ltz (sub_ℕ 1 1) (int_of w) ≡ false)))
unfolding IsEven
reorg_handler-IsEven_example =
    reorg_handler-IsEven 1 1 2 0 0 even_charts (ground arith) (ground arith)

abbrev five_blocks : ZoomSet ℕ
five_blocks = record {
  cache_id = 0;
  height = 0 ∷ 1 ∷ 2 ∷ 3 ∷ 4 ∷ [];
  time = 86410 ∷ 86420 ∷ 172805 ∷ 259205 ∷ 345605 ∷ [];
  pool_size = 5 ∷ 6 ∷ 7 ∷ 8 ∷ 9 ∷ [];
  pool_value = 7 ∷ 8 ∷ 9 ∷ 9 ∷ 9 ∷ [];
  block_size = 300 ∷ 400 ∷ 500 ∷ 600 ∷ 700 ∷ [];
  tx_count = 1 ∷ 2 ∷ 3 ∷ 4 ∷ 5 ∷ [];
  new_atoms = 9 ∷ 9 ∷ 9 ∷ 9 ∷ 9 ∷ [];
  chainwork = 10 ∷ 20 ∷ 30 ∷ 40 ∷ 50 ∷ [];
  fees = 3 ∷ 4 ∷ 5 ∷ 6 ∷ 7 ∷ [];
  total_mixed = 0 ∷ 0 ∷ 1 ∷ 0 ∷ 0 ∷ [];
  anonymity_set = 0 ∷ 0 ∷ 0 ∷ 0 ∷ 0 ∷ [];
}

-- The day that there is covers the first two blocks.
abbrev one_day : ZoomSet ℕ
one_day = record {
  cache_id = 1;
  height = 1 ∷ [];
  time = 86400 ∷ [];
  pool_size = 5 ∷ [];
  pool_value = 7 ∷ [];
  block_size = 700 ∷ [];
  tx_count = 3 ∷ [];
  new_atoms = 18 ∷ [];
  chainwork = 30 ∷ [];
  fees = 7 ∷ [];
  total_mixed = 0 ∷ [];
  anonymity_set = 0 ∷ [];
}

abbrev three_days : ZoomSet ℕ
three_days = record {
  cache_id = 2;
  height = 1 ∷ 2 ∷ 3 ∷ [];
  time = 86400 ∷ 172800 ∷ 259200 ∷ [];
  pool_size = 5 ∷ 7 ∷ 8 ∷ [];
  pool_value = 7 ∷ 9 ∷ 9 ∷ [];
  block_size = 700 ∷ 500 ∷ 600 ∷ [];
  tx_count = 3 ∷ 3 ∷ 4 ∷ [];
  new_atoms = 18 ∷ 9 ∷ 9 ∷ [];
  chainwork = 30 ∷ 40 ∷ 50 ∷ [];
  fees = 7 ∷ 5 ∷ 6 ∷ [];
  total_mixed = 0 ∷ 1 ∷ 0 ∷ [];
  anonymity_set = 0 ∷ 0 ∷ 0 ∷ [];
}

abbrev next_days : ChartData ℕ ℕ
next_days = record { blocks = five_blocks; windows = window; days = one_day; miner_ranges = [] }

abbrev with_next_days : ChartData ℕ ℕ
with_next_days = record {
  blocks = record five_blocks { cache_id = 345605 };
  windows = record window { cache_id = 86400 * 2 ^ 32 + 1 };
  days = three_days;
  miner_ranges = [];
}
