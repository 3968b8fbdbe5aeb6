-- ===== src/Mempool/Pages.antt =====
-- The entries that the cache hands out are the last ones.
use Prim.Native.Nat.{min}
use monetarium_explorer.Prelude.{
  ℕ, zero, suc, ◌-◌, ◌≡◌, refl, ap, ◌∙◌, List, [], ◌∷◌, ◌++◌, length, take, drop, leb, ◌==◌, arith,
  Bool-cases, inl, inr, length-drop, take-all,
}
use mathlib.Core.List.{append-nil}
use monetarium_explorer.Prelude.Int.{pos}
use monetarium_explorer.Mempool.{
  DataCache, last_entries, get_fees, get_fee_rates, get_tickets_details,
}

take-append-drop : {A : Type 0} (n : ℕ) (xs : List A) → take n xs ++ drop n xs ≡ xs
take-append-drop zero xs = refl
take-append-drop (suc n) [] = refl
take-append-drop (suc n) (x ∷ xs) = ap (λ r. x ∷ r) (take-append-drop n xs)

-- At the end of a list: what is left out comes first, and `n` are shown if there are as many.
pub record IsEnd {A : Type 0} (n : ℕ) (all shown : List A) : Type 0 where
  pub count : length shown ≡ min n (length all)
  pub rest : take (length all - n) all ++ shown ≡ all

last_entries-IsEnd : {A : Type 0} (n : ℕ) (xs : List A) → IsEnd n xs (last_entries (pos n) xs)
unfolding last_entries
last_entries-IsEnd n xs = elim (Bool-cases (n == 0)) [
  | inl e ↦ rw e record {
    count = ground arith;
    rest = append-nil _ ∙ take-all (length xs - n) xs (ground arith);
  }
  | inr e ↦ rw e (elim (Bool-cases (leb (length xs) n)) [
    | inl f ↦
        let nothing : length xs - n ≡ 0 = ground arith in
        rw f record { count = ground arith; rest = ap (λ k. take k xs ++ xs) nothing }
    | inr f ↦ rw f record {
      count = ground (arith, length-drop (length xs - n) xs);
      rest = take-append-drop (length xs - n) xs;
    }
  ])
]

-- GetFees, GetFeeRates and GetTicketsDetails, asked for `n` entries, show the last `n` of their list
-- in its order, or the whole list where it is shorter, beside the length of the whole list.
pub last_fees_rates_details :
    {Fee Info Details : Type 0} (n : ℕ) (c : DataCache Fee Info Details)
    → IsEnd n c.all_fees (get_fees (pos n) c).2
      × IsEnd n c.all_fee_rates (get_fee_rates (pos n) c).3
      × IsEnd n c.all_tickets_details (get_tickets_details (pos n) c).3
      × ((get_fees (pos n) c).1 ≡ length c.all_fees)
      × ((get_fee_rates (pos n) c).2 ≡ length c.all_fee_rates)
      × ((get_tickets_details (pos n) c).2 ≡ length c.all_tickets_details)
unfolding get_fees get_fee_rates get_tickets_details
last_fees_rates_details n c = (
  last_entries-IsEnd n c.all_fees,
  last_entries-IsEnd n c.all_fee_rates,
  last_entries-IsEnd n c.all_tickets_details,
  refl,
  refl,
  refl,
)
