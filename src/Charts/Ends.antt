-- ===== src/Charts/Ends.antt =====
-- How Lengthen ends when it succeeds.
use mathlib.Core.Path.{subst}
use monetarium_explorer.Prelude.{
  ℕ, ◌-◌, ◌≡◌, ◌⊎◌, refl, sym, false, List, arith, length, get_elem?, ltb, ◌==◌, Bool-cases,
  Option-cases, inl, inr, ==_iff, fine, fine-injective,
}
use monetarium_explorer.Charts.{
  ZoomSet, ChartData, set_lengths, window_lengths, validate_lengths, midnight, some,
}
use monetarium_explorer.Charts.Days.{
  lengthen, cut_blocks, DayInterval, finish, with_days, cut_windows, new_days, scan_start,
  append_days,
}

-- A set without the identifier of its cached charts.
abbrev pub series_of : {Work : Type 0} → ZoomSet Work → ZoomSet Work
series_of set = record set { cache_id = 0 }

module _ {Float Work : Type 0} where
  -- The days were validated, and only the identifiers of the cached charts are new.
  abbrev Ends : ZoomSet Work → ZoomSet Work → ChartData Float Work → Type 0
  Ends blocks days t =
      ((validate_lengths (set_lengths days)).1 ≡ false)
      × (series_of t.blocks ≡ series_of blocks)
      × (series_of t.days ≡ series_of days)

  finish-Ends :
      (intervals : List DayInterval) (days : ZoomSet Work) (charts t : ChartData Float Work)
      → finish intervals days charts ≡ fine t
      → Ends charts.blocks days t
  finish-Ends intervals days charts t e =
      elim (Bool-cases (validate_lengths (set_lengths days)).1) [
        | inl bad ↦ absurd (ground (arith, rw bad at e))
        | inr good ↦
            elim (Option-cases (get_elem? charts.windows.time (length charts.windows.time - 1))) [
              | inl none_w ↦ absurd (ground (arith, rw none_w at (rw good at e)))
              | inr (w, some_w) ↦
                  elim (Option-cases
                    (get_elem? charts.blocks.time (length charts.blocks.time - 1))) [
                      | inl none_b ↦
                          absurd (ground (arith, rw none_b at (rw some_w at (rw good at e))))
                      | inr (b, some_b) ↦
                          let f = rw some_b at (rw some_w at (rw good at e)) in
                          elim (Bool-cases (ltb 0 (length intervals))) [
                            | inl more ↦
                                subst (Ends charts.blocks days) (fine-injective (rw more at f))
                                  (good, refl, refl)
                            | inr same ↦
                                subst (Ends charts.blocks days) (fine-injective (rw same at f))
                                  (good, refl, refl)
                          ]
                    ]
            ]
      ]

  -- There were no blocks, or new days were appended.
  abbrev pub LengthenEnds : ChartData Float Work → ChartData Float Work → Type 0
  LengthenEnds charts t =
      let blocks = cut_blocks charts.blocks in
      (((validate_lengths (set_lengths charts.blocks)).0 ≡ 0)
        × (t ≡ record charts { blocks = blocks }))
      ⊎ ((first : ℕ) × (end : ℕ) × (days : ZoomSet Work) × (append_days blocks
              (new_days (scan_start first charts.days.time) end blocks.time) charts.days
            ≡ some days)
          × (get_elem? blocks.time 0 ≡ some first)
          × Ends blocks days t)

  with_days-Ends :
      (first last : ℕ) (charts t : ChartData Float Work)
      → with_days first last charts ≡ fine t
      → (end : ℕ) × (days : ZoomSet Work) × (append_days charts.blocks
            (new_days (scan_start first charts.days.time) end charts.blocks.time)
            charts.days
          ≡ some days)
        × Ends charts.blocks days t
  with_days-Ends first last charts t e =
      let start = scan_start first charts.days.time in
      let intervals = new_days start (midnight last) charts.blocks.time in
      elim (Option-cases (append_days charts.blocks intervals charts.days)) [
        | inl a ↦ absurd (ground (arith, rw (a, with_days) at e))
        | inr (days, a) ↦
            (midnight last, days, a, finish-Ends intervals days charts t (rw (a, with_days) at e))
      ]

  pub lengthen_ends :
      (charts t : ChartData Float Work) → lengthen charts ≡ fine t → LengthenEnds charts t
  unfolding lengthen
  lengthen_ends charts t e =
      let n = (validate_lengths (set_lengths charts.blocks)).0 in
      let blocks = cut_blocks charts.blocks in
      let both = record charts { blocks = blocks; windows = cut_windows charts.windows } in
      elim (Bool-cases (n == 0)) [
        | inl none_yet ↦ inl ((==_iff n 0).0 none_yet, sym (fine-injective (rw none_yet at e)))
        | inr more ↦ elim (Bool-cases ((validate_lengths (window_lengths charts.windows)).0 == 0)) [
          | inl no_windows ↦ absurd (ground (arith, rw no_windows at (rw more at e)))
          | inr windows ↦
              let f = rw windows at (rw more at e) in
              elim (Option-cases (get_elem? blocks.time 0)) [
                | inl a ↦ absurd (ground (arith, rw a at f))
                | inr (first, a) ↦
                    elim (Option-cases (get_elem? blocks.time (length blocks.time - 1))) [
                      | inl b ↦ absurd (ground (arith, rw b at (rw a at f)))
                      | inr (last, b) ↦
                          let (end, days, appended, ends) =
                            with_days-Ends first last both t (rw b at (rw a at f)) in
                          inr (first, end, days, appended, a, ends)
                    ]
              ]
        ]
      ]
