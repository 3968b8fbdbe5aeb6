-- ===== src/Charts/Miners/Counting.antt =====
-- activeMinersCounts counts the active miners.
use mathlib.Core.Path.{subst}
use monetarium_explorer.Prelude.{
  ℕ, zero, suc, ◌+◌, ◌%◌, ◌^◌, ◌≤◌, ◌<◌, ◌≡◌, refl, ap, ◌∙◌, Bool, true, false, not, ◌&&◌, ◌||◌,
  List, [], ◌∷◌, ◌++◌, some, arith, length, get_elem?, ltb, leb, ◌==◌, if◌then◌else◌, Bool-cases,
  Option-cases, inl, inr, get_elem?-some,
}
use monetarium_explorer.Charts.{add64, MinerRange}
use monetarium_explorer.Charts.Miners.{
  IntervalType, duration, Event, time_after, exit_events, miner_events, all_events,
  active_miners_counts, sweep, repeat0,
}
use monetarium_explorer.Charts.Miners.Sweep.{
  one, count_if, comings, goings, sweep_lem, count_if-append, reached,
}
use monetarium_explorer.Charts.Miners.Active.{
  SortLaws, SearchLaw, IsTimeline, is_active, active_count, AreRanges, lookback_small, later_stays,
  not_gone, negatives, duration_lem, last_counted, last_block_lem,
}

-- The events of one miner, who comes at `first` and goes at `exit`.
abbrev stay : ℕ → ℕ → ℕ → List Event
stay n first exit =
    record { height = first; comes = true }
    ∷ (if ltb exit n then record { height = exit; comes = false } ∷ [] else [])

stay_counts :
    (n h first exit : ℕ) (gone : Bool)
    → h < n
    → leb exit h ≡ gone
    → (gone ≡ true → first ≤ h)
    → comings h (stay n first exit) ≡ goings h (stay n first exit) + one (leb first h && not gone)
unfolding count_if
stay_counts n h first exit true inside e after =
    let came : leb first h ≡ true = ground (arith, after refl) in
    let counts : ltb exit n ≡ true = ground arith in rw counts (rw (came, e) (omega arith))
stay_counts n h first exit false inside e after = elim (Bool-cases (leb first h)) [
  | inl g ↦ elim (Bool-cases (ltb exit n)) [
    | inl f ↦ rw f (rw (g, e) (omega arith))
    | inr f ↦ rw f (rw g (omega arith))
  ]
  | inr g ↦ elim (Bool-cases (ltb exit n)) [
    | inl f ↦ rw f (rw (g, e) (omega arith))
    | inr f ↦ rw f (rw g (omega arith))
  ]
]

-- What the events of a miner, or of several, count at a height.
abbrev Counts : ℕ → List Event → ℕ → Type 0
Counts h es active = comings h es ≡ goings h es + active

module _ (search : ℕ → (ℕ → Bool) → ℕ) (finds : SearchLaw search) (times : List ℕ)
    (line : IsTimeline times) (h : ℕ) (inside : h < length times) (interval : IntervalType) where
  exit_lem :
      (m : MinerRange) (t lookback : ℕ)
      → m.last_used < 2 ^ 63
      → get_elem? times (last_counted (length times) m) ≡ some t
      → exit_events search (length times) lookback times m
        ≡ some (
            if ltb
              (search (length times) (λ i. time_after (get_elem? times i) (add64 t lookback)))
              (length times)
            then record {
              height =
                  search (length times) (λ i. time_after (get_elem? times i) (add64 t lookback));
              comes = false;
            }
              ∷ []
            else [])
  unfolding exit_events
  exit_lem m t lookback small e =
      let used = last_block_lem (length times) m small in
      let exit = search (length times) (λ i. time_after (get_elem? times i) (add64 t lookback)) in
      elim (Bool-cases (ltb exit (length times))) [
        | inl f ↦ rw (exit_events, used) (rw e (rw f refl))
        | inr f ↦ rw (exit_events, used) (rw e (rw f refl))
      ]

  one_miner :
      (m : MinerRange)
      → m.first_seen ≤ m.last_used
      → m.last_used < 2 ^ 63
      → (es : List Event) × (miner_events search (length times) interval times m ≡ some es)
        × Counts h es (one (is_active (length times) interval times h m))
        × (negatives es ≡ 0)
  unfolding miner_events count_if
  one_miner m range small =
      let first_small : ltb m.first_seen (2 ^ 63) ≡ true = ground arith in
      let not_negative : leb (2 ^ 63) m.first_seen ≡ false = ground arith in
      elim (Bool-cases (ltb m.first_seen (length times))) [
        | inr late ↦
            let before : leb m.first_seen h ≡ false = ground arith in
            ([], rw (miner_events, first_small) (rw late refl), rw before (omega arith), refl)
        | inl early ↦ elim (Option-cases (duration interval)) [
          | inl whole ↦ (
            record { height = m.first_seen; comes = true } ∷ [],
            rw (miner_events, first_small) (rw early (rw whole refl)),
            rw (duration_lem interval, whole)
                (elim (Bool-cases (leb m.first_seen h)) [
                  | inl e ↦ rw e (omega arith)
                  | inr e ↦ rw e (omega arith)
                ]),
            rw not_negative refl,
          )
          | inr (lookback, back) ↦
              let last = last_counted (length times) m in
              let (t, found) = get_elem?-some times last (ground arith) in
              let exit_time = add64 t lookback in
              let test : ℕ → Bool = λ i. time_after (get_elem? times i) exit_time in
              let exit = search (length times) test in
              let gone_at = finds (length times) test (later_stays times line exit_time) h inside in
              let short = lookback_small interval lookback back in
              let no_wrap : exit_time ≡ t + lookback =
                omega (arith, line.small last t found, short) in
              let after : test h ≡ true → m.first_seen ≤ h = λ e.
                elim (Bool-cases (ltb h m.first_seen)) [
                  | inr on ↦ ground arith
                  | inl before ↦
                      let still =
                        not_gone times line last h t lookback (ground arith) found short in
                      absurd (ground (arith, still, e))
                ] in
              let counts =
                stay_counts (length times) h m.first_seen exit (test h) inside gone_at after in
              (
                stay (length times) m.first_seen exit,
                rw (miner_events, first_small)
                    (rw early (rw back (rw (exit_lem m t lookback small found) refl))),
                rw (duration_lem interval, back, found)
                    (subst
                      (λ k.
                        Counts h (stay (length times) m.first_seen exit)
                          (one (leb m.first_seen h && not (time_after (get_elem? times h) k))))
                      no_wrap counts),
                elim (Bool-cases (ltb exit (length times))) [
                  | inr f ↦ rw (not_negative, f) refl
                  | inl f ↦
                      let low : leb (2 ^ 63) exit ≡ false = ground (arith, line.few) in
                      rw (not_negative, f) (rw low refl)
                ],
              )
        ]
      ]

  all_miners :
      (ms : List MinerRange)
      → AreRanges ms
      → (es : List Event) × (all_events search (length times) interval times ms ≡ some es)
        × Counts h es (active_count (length times) interval times h ms)
        × (negatives es ≡ 0)
  unfolding all_events count_if
  all_miners [] none_left = ([], refl, omega arith, refl)
  all_miners (m ∷ ms) ((range, small), ranges) =
      let (es, e, counts, plain) = one_miner m range small in
      let (later, f, sum, plain_later) = all_miners ms ranges in
      (
        es ++ later,
        rw (e, all_events) (rw f refl),
        omega (
          arith,
          counts,
          sum,
          count_if-append (λ x. x.comes && leb x.height h) es later,
          count_if-append (λ x. not x.comes && leb x.height h) es later,
        ),
        omega (arith, plain, plain_later, count_if-append (λ x. leb (2 ^ 63) x.height) es later),
      )

get_elem?-repeat0 : (n k : ℕ) → k < n → get_elem? (repeat0 n) k ≡ some 0
unfolding repeat0
get_elem?-repeat0 zero k l = absurd (omega arith)
get_elem?-repeat0 (suc n) zero l = refl
get_elem?-repeat0 (suc n) (suc k) l = get_elem?-repeat0 n k (omega arith)

-- With sort.Slice and sort.Search as they are documented, block times that do not decrease and fit in
-- an `int64`, as their number does, and miners first seen no later than last, at heights below 2 ^ 63,
-- activeMinersCounts over all blocks does not
-- panic, and at each height of a block it gives the number of the miners that are active there: those
-- seen by then whose last block is no further back than the interval's days, or all seen by then for the
-- whole chain.
pub active_miners_counts_lem :
    (search : ℕ → (ℕ → Bool) → ℕ) (sort : List Event → List Event) (times : List ℕ) (h : ℕ)
    (interval : IntervalType) (ms : List MinerRange)
    → SearchLaw search
    → SortLaws sort
    → IsTimeline times
    → AreRanges ms
    → h < length times
    → (counts : List ℕ) × (active_miners_counts search sort (length times) interval times ms
        ≡ some counts)
      × (get_elem? counts h ≡ some (active_count (length times) interval times h ms % 2 ^ 64))
unfolding active_miners_counts
active_miners_counts_lem search sort times h interval [] finds sorts line ranges inside =
    let idle : (length times == 0 || length {A = MinerRange} [] == 0) ≡ true = ground arith in
    (repeat0 (length times), rw idle refl, get_elem?-repeat0 (length times) h inside)
active_miners_counts_lem search sort times h interval (m ∷ ms) finds sorts line ranges inside =
    let (es, e, counts, plain) =
      all_miners search finds times line h inside interval (m ∷ ms) ranges in
    let some_blocks : (length times == 0 || length (m ∷ ms) == 0) ≡ false = ground arith in
    let came = sorts.keeps (λ x. x.comes && leb x.height h) es in
    let gone = sorts.keeps (λ x. not x.comes && leb x.height h) es in
    let at_h : 0 + h ≡ h = omega arith in
    (
      sweep (length times) 0 (sort es) 0,
      rw some_blocks (rw e refl),
      sweep_lem (length times) 0 h (sort es) 0 (omega arith) (sorts.orders es plain) inside
          ∙ ap some (ap (λ x. reached 0 x (sort es)) at_h ∙ omega (arith, came, gone, counts)),
    )
