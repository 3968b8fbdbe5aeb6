-- ===== src/TicketPool/Checks.antt =====
-- The pool's methods run on a small chain.
use Prim.Native.Nat.{min}
use monetarium_explorer.Prelude.{
  ℕ, ◌+◌, ◌-◌, ◌≤◌, ◌≡◌, refl, List, [], ◌∷◌, ◌++◌, some, arith, length, get_elem?, but_last, fine,
  failed, panic, ◌>>=◌,
}
use monetarium_explorer.Prelude.Int.{pos, negsuc}
use monetarium_explorer.HashSet.{has, insert, delete, insert_all, delete_all, IsDistinct}
use monetarium_explorer.TicketPool.{
  TicketPool, PoolDiff, apply_diff, advance_loop, retreat_loop, cursor_at_genesis, db_write,
  not_building, pool_at, advance, retreat, append, trim, advance_to, advance_to_tip,
}
use monetarium_explorer.TicketPool.Codec.{uint64_bytes, encoded, encode_diff, decode_diff, decoded}
use monetarium_explorer.TicketPool.Codec.RoundTrip.{decode_diff-encode_diff}
use monetarium_explorer.TicketPool.Diffs.{live_at, IsChain}
use monetarium_explorer.TicketPool.Moves.{IsWellFormed, IsMoved}
use monetarium_explorer.TicketPool.Query.{pool_at_live, pool_at_negative}
use monetarium_explorer.TicketPool.Trim.{trim_removes_last}
use monetarium_explorer.TicketPool.Growth.{
  append_at, append_and_advance, append_at_grows, append_and_advance_grows, append_at_write_fails,
}
use monetarium_explorer.TicketPool.Load.{new_ticket_pool, load_all_v1}
use monetarium_explorer.TicketPool.Load.Restart.{
  load_all_v1-entries, load_all_v1-gap, entries, version_item, heights_above,
}
use monetarium_explorer.TicketPool.History.{Reach, start, next, climbs, Reach-live}
use monetarium_explorer.TicketPool.Samples.{
  first_diff, second_diff, third_diff, sample_diffs, Log, write_log, write_fails, sample,
  sample_diffs-IsChain, sample-IsChain, sample-IsWellFormed, climbed, climbed-IsWellFormed,
  climbed-IsChain, third_diff_fits, first_diff-IsStorable, second_diff-IsStorable,
}

-- The pool at height 2, then back at height 1.
pool_at_2 :
    (pool_at (pos 2) sample >>= pool_at (pos 1))
    ≡ fine (record sample { cursor = 1; pool = 11 ∷ 12 ∷ [] })
unfolding sample pool_at advance_loop retreat_loop advance retreat apply_diff insert_all delete_all
    insert delete has
pool_at_2 = refl

pool_at_live_example :
    (t : TicketPool Log) × (pool_at (pos 2) sample ≡ fine t)
    × ((h : ℕ) → has h t.pool ≡ live_at sample.diffs 2 h)
    × IsDistinct t.pool
    × IsWellFormed t
    × (t.cursor ≡ 2)
unfolding sample
pool_at_live_example = pool_at_live sample 2 sample-IsWellFormed sample-IsChain (omega arith)

pool_at_negative_example :
    (t : TicketPool Log) × (pool_at (negsuc 0) sample ≡ failed cursor_at_genesis t)
    × IsMoved sample 0 t
pool_at_negative_example = pool_at_negative sample 0 sample-IsWellFormed sample-IsChain

trim_removes_last_example :
    (t : TicketPool Log) × (undo : PoolDiff) × (trim climbed ≡ fine (t, climbed.tip - 1, undo))
    × (get_elem? climbed.diffs (climbed.tip - 1) ≡ some undo)
    × (t.diffs ≡ but_last climbed.diffs)
    × IsWellFormed t
    × IsChain t.diffs
    × (t.cursor ≡ min climbed.cursor (climbed.tip - 2))
    × (t.diff_db ≡ climbed.diff_db)
unfolding climbed
trim_removes_last_example =
    trim_removes_last climbed climbed-IsWellFormed climbed-IsChain (omega arith)

append_at_grows_example :
    (t : TicketPool Log) × (append_at write_log third_diff (pos (climbed.tip + 1)) climbed ≡ fine t)
    × IsWellFormed t
    × IsChain t.diffs
    × (t.diffs ≡ climbed.diffs ++ third_diff ∷ [])
    × (t.cursor ≡ climbed.cursor)
    × (t.pool ≡ climbed.pool)
    × (t.diff_db ≡ (uint64_bytes (climbed.tip + 1), encoded third_diff) ∷ climbed.diff_db)
unfolding climbed
append_at_grows_example =
    append_at_grows write_log third_diff climbed _ climbed-IsWellFormed climbed-IsChain
      third_diff_fits (omega arith) refl

append_and_advance_grows_example :
    (t : TicketPool Log) × (append_and_advance write_log third_diff (pos (climbed.tip + 1)) climbed
      ≡ fine t)
    × IsWellFormed t
    × (t.cursor ≡ climbed.cursor + 1)
    × (t.diffs ≡ climbed.diffs ++ third_diff ∷ [])
    × (t.diff_db ≡ (uint64_bytes (climbed.tip + 1), encoded third_diff) ∷ climbed.diff_db)
unfolding climbed
append_and_advance_grows_example =
    append_and_advance_grows write_log third_diff climbed _ climbed-IsWellFormed climbed-IsChain
      third_diff_fits (omega arith) refl

append_at_write_fails_example :
    (append_at write_fails third_diff (pos (climbed.tip + 1)) climbed
      ≡ failed db_write (append third_diff climbed))
    × (append_at write_fails third_diff (pos (climbed.tip + 1)) (append third_diff climbed)
        ≡ failed
            (not_building (pos (climbed.tip + 1)) (climbed.tip + 1))
            (append third_diff climbed))
unfolding climbed
append_at_write_fails_example =
    append_at_write_fails write_fails third_diff climbed (omega arith) refl

decode_diff-encode_diff_example :
    (v : List ℕ) × (encode_diff second_diff ≡ some v) × (decode_diff v ≡ decoded second_diff)
decode_diff-encode_diff_example = decode_diff-encode_diff second_diff second_diff-IsStorable

load_all_v1-entries_example :
    (load_all_v1 (entries 0 sample_diffs ++ version_item (118 ∷ []) (0 ∷ 0 ∷ 0 ∷ 1 ∷ []) ∷ [])
      ≡ fine (sample_diffs, heights_above 0 sample_diffs))
    × IsWellFormed (new_ticket_pool sample_diffs climbed.diff_db)
load_all_v1-entries_example =
    load_all_v1-entries climbed.diff_db (118 ∷ []) (0 ∷ 0 ∷ 0 ∷ 1 ∷ []) sample_diffs
      (first_diff-IsStorable, (second_diff-IsStorable, tt)) (omega arith)

load_all_v1-gap_example :
    load_all_v1 (
      entries 0 (first_diff ∷ [])
      ++ record { user_meta = 0; key = uint64_bytes 3; value = encoded second_diff } ∷ [])
    ≡ panic
load_all_v1-gap_example =
    load_all_v1-gap (first_diff ∷ []) second_diff 3 [] (first_diff-IsStorable, tt)
      second_diff-IsStorable (omega arith) (omega arith)

climb : advance_to_tip sample ≡ fine climbed
unfolding climbed advance_to_tip advance_to
climb = refl

Reach-live_example :
    ((h : ℕ) → has h climbed.pool ≡ live_at climbed.diffs climbed.cursor h)
    × IsDistinct climbed.pool
    × (climbed.cursor ≤ climbed.tip)
    × (climbed.tip ≡ length climbed.diffs)
unfolding new_ticket_pool sample
Reach-live_example =
    Reach-live write_log sample_diffs [] climbed sample_diffs-IsChain
      (next start_sample (climbs climb))
  where
    start_sample : Reach write_log sample_diffs [] sample
    start_sample = start
