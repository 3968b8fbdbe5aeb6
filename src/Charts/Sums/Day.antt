-- ===== src/Charts/Sums/Day.antt =====
-- What one new day adds to the series of the days.

use monetarium_explorer.Prelude.{
  ℕ, ◌-◌, ◌≡◌, sym, ap, List, [], ◌∷◌, ◌++◌, some, arith, get_elem?, Option-cases, inl, inr,
  some-injective,
}
use monetarium_explorer.Charts.{avg_range, sum_range, ZoomSet}
use monetarium_explorer.Charts.Days.{DayInterval, append_day}

-- A series gets the sum of a day.
abbrev pub IsSummed : List ℕ → List ℕ → List ℕ → DayInterval → Type 0
IsSummed blocks days after d =
    (v : ℕ) × (sum_range d.first d.after blocks ≡ some v) × (after ≡ days ++ v ∷ [])

module _ {Work : Type 0} where
  pub append_day-IsSummed :
      (blocks days t : ZoomSet Work) (d : DayInterval)
      → append_day blocks d days ≡ some t
      → IsSummed blocks.fees days.fees t.fees d
        × IsSummed blocks.tx_count days.tx_count t.tx_count d
        × IsSummed blocks.block_size days.block_size t.block_size d
        × IsSummed blocks.new_atoms days.new_atoms t.new_atoms d
        × IsSummed blocks.total_mixed days.total_mixed t.total_mixed d
        × (t.height ≡ days.height ++ (d.after - 1) ∷ [])
  unfolding append_day
  append_day-IsSummed blocks days t d e0 =
      elim (Option-cases (avg_range d.first d.after blocks.pool_size)) [
        | inl q ↦ absurd (ground (arith, rw q at e0))
        | inr (ps, p0) ↦
            let e1 = rw p0 at e0 in
            elim (Option-cases (avg_range d.first d.after blocks.pool_value)) [
              | inl q ↦ absurd (ground (arith, rw q at e1))
              | inr (pv, p1) ↦
                  let e2 = rw p1 at e1 in
                  elim (Option-cases (sum_range d.first d.after blocks.block_size)) [
                    | inl q ↦ absurd (ground (arith, rw q at e2))
                    | inr (bs, p2) ↦
                        let e3 = rw p2 at e2 in
                        elim (Option-cases (sum_range d.first d.after blocks.tx_count)) [
                          | inl q ↦ absurd (ground (arith, rw q at e3))
                          | inr (tc, p3) ↦
                              let e4 = rw p3 at e3 in
                              elim (Option-cases (sum_range d.first d.after blocks.new_atoms)) [
                                | inl q ↦ absurd (ground (arith, rw q at e4))
                                | inr (na, p4) ↦
                                    let e5 = rw p4 at e4 in
                                    elim (Option-cases (get_elem? blocks.chainwork d.after)) [
                                      | inl q ↦ absurd (ground (arith, rw q at e5))
                                      | inr (cw, p5) ↦
                                          let e6 = rw p5 at e5 in
                                          elim (Option-cases
                                            (sum_range d.first d.after blocks.fees)) [
                                              | inl q ↦ absurd (ground (arith, rw q at e6))
                                              | inr (fe, p6) ↦
                                                  let e7 = rw p6 at e6 in
                                                  elim (Option-cases (
                                                    sum_range d.first d.after blocks.total_mixed)) [
                                                      | inl q ↦ absurd (ground (arith, rw q at e7))
                                                      | inr (tm, p7) ↦
                                                          let e8 = rw p7 at e7 in
                                                          elim (Option-cases (
                                                            avg_range d.first d.after
                                                            blocks.anonymity_set)) [
                                                              | inl q ↦
                                                                absurd (ground (arith, rw q at e8))
                                                              | inr (an, p8) ↦
                                                                let e9 = rw p8 at e8 in
                                                                let same = some-injective e9 in
                                                                (
                                                                (
                                                                fe,
                                                                p6,
                                                                ap (λ x. x.fees) (sym same),
                                                                ),
                                                                (
                                                                tc,
                                                                p3,
                                                                ap (λ x. x.tx_count) (sym same),
                                                                ),
                                                                (
                                                                bs,
                                                                p2,
                                                                ap (λ x. x.block_size) (sym same),
                                                                ),
                                                                (
                                                                na,
                                                                p4,
                                                                ap (λ x. x.new_atoms) (sym same),
                                                                ),
                                                                (
                                                                tm,
                                                                p7,
                                                                ap (λ x. x.total_mixed) (sym same),
                                                                ),
                                                                ap (λ x. x.height) (sym same),
                                                                )
                                                            ]
                                                    ]
                                            ]
                                    ]
                              ]
                        ]
                  ]
            ]
      ]
