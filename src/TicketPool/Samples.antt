-- ===== src/TicketPool/Samples.antt =====
-- A small chain, and pools over it, for the checks.

use monetarium_explorer.Prelude.{ℕ, ◌≡◌, refl, List, [], ◌∷◌, Option, none, some, arith}
use monetarium_explorer.HashSet.{has, insert, delete, insert_all, delete_all}
use monetarium_explorer.TicketPool.{
  TicketPool, PoolDiff, apply_diff, advance_loop, retreat_loop, pool_at, advance, retreat,
}
use monetarium_explorer.TicketPool.Codec.{IsStorable}
use monetarium_explorer.TicketPool.Diffs.{live_at, IsExact, IsChain, nil-IsChain}
use monetarium_explorer.TicketPool.Moves.{IsWellFormed}
use monetarium_explorer.TicketPool.Growth.{append-IsChain}
use monetarium_explorer.TicketPool.Load.{new_ticket_pool}
use monetarium_explorer.TicketPool.Load.Restart.{new_ticket_pool-IsWellFormed}

abbrev pub first_diff : PoolDiff
first_diff = record { ins = 11 ∷ 12 ∷ []; outs = [] }

abbrev pub second_diff : PoolDiff
second_diff = record { ins = 13 ∷ []; outs = 11 ∷ [] }

abbrev pub third_diff : PoolDiff
third_diff = record { ins = 14 ∷ []; outs = 12 ∷ 13 ∷ [] }

abbrev pub sample_diffs : List PoolDiff
sample_diffs = first_diff ∷ second_diff ∷ []

-- A database that logs its writes.
abbrev pub Log : Type 0
Log = List (List ℕ × List ℕ)

abbrev pub write_log : Log → List ℕ → List ℕ → Option Log
write_log db key value = some ((key, value) ∷ db)

-- One whose disk is full.
abbrev pub write_fails : Log → List ℕ → List ℕ → Option Log
write_fails db key value = none

unfoldable pub sample : TicketPool Log
unfolding new_ticket_pool
sample = new_ticket_pool sample_diffs []

pub first_diff-IsExact : IsExact (live_at [] 0) first_diff
unfolding has live_at
first_diff-IsExact = record {
  in_once = (refl, (refl, tt));
  out_once = tt;
  in_new = λ h e. refl;
  out_live = λ h e. ground arith;
}

pub second_diff-IsExact : IsExact (live_at (first_diff ∷ []) 1) second_diff
unfolding has live_at
second_diff-IsExact = record {
  in_once = (refl, tt);
  out_once = (refl, tt);
  in_new = λ h e. ground arith;
  out_live = λ h e. ground arith;
}

pub third_diff-IsExact : IsExact (live_at sample_diffs 2) third_diff
unfolding has live_at
third_diff-IsExact = record {
  in_once = (refl, tt);
  out_once = (refl, (refl, tt));
  in_new = λ h e. ground arith;
  out_live = λ h e. ground arith;
}

pub sample_diffs-IsChain : IsChain sample_diffs
sample_diffs-IsChain =
    append-IsChain (first_diff ∷ []) second_diff
      (append-IsChain [] first_diff nil-IsChain first_diff-IsExact) second_diff-IsExact

pub sample-IsChain : IsChain sample.diffs
unfolding sample
sample-IsChain = sample_diffs-IsChain

pub sample-IsWellFormed : IsWellFormed sample
unfolding sample
sample-IsWellFormed = new_ticket_pool-IsWellFormed sample_diffs []

-- The sample with the cursor at its tip.
unfoldable pub climbed : TicketPool Log
unfolding sample pool_at advance_loop retreat_loop advance retreat apply_diff insert_all delete_all
    insert delete has
climbed = record sample { cursor = 2; pool = 13 ∷ 12 ∷ [] }

pub climbed_holds : (h : ℕ) → has h (13 ∷ 12 ∷ []) ≡ live_at sample_diffs 2 h
unfolding has live_at
climbed_holds h = ground arith

pub climbed-IsWellFormed : IsWellFormed climbed
unfolding climbed
climbed-IsWellFormed = record {
  counted = refl;
  placed = record { in_range = omega arith; once = (refl, (refl, tt)); holds = climbed_holds };
}

pub climbed-IsChain : IsChain climbed.diffs
unfolding climbed sample
climbed-IsChain = sample_diffs-IsChain

pub third_diff_fits : IsExact (live_at climbed.diffs climbed.tip) third_diff
unfolding climbed sample
third_diff_fits = third_diff-IsExact

pub first_diff-IsStorable : IsStorable first_diff
first_diff-IsStorable = omega arith

pub second_diff-IsStorable : IsStorable second_diff
second_diff-IsStorable = omega arith
