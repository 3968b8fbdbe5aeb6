-- ===== src/TicketPool.antt =====
-- stakedb/ticketpool.go: the live ticket pool, its slice of diffs and the cursor over it.
-- Each method is the body that runs under `tp.mtx`. `cursor` and `tip` are counters that start at 0
-- or at a slice's length and are decremented behind a test, so they are numbers; the heights that
-- callers pass are `int64` and may be negative. Log lines are left out.
pub mod Diffs
pub mod Moves
pub mod Query
pub mod Trim
pub mod Growth
pub mod History
pub mod Codec
pub mod Load
mod Samples
mod Checks
use monetarium_explorer.Prelude.{
  ℕ, zero, suc, ◌+◌, ◌-◌, ◌≡◌, Bool, List, [], ◌∷◌, ◌++◌, Option, none, some, length, get_elem?,
  but_last, ltb, ◌==◌, ◌||◌, if◌then◌else◌, Outcome, fine, failed, panic, ◌>>=◌,
}
use monetarium_explorer.Prelude.Int.{ℤ, pos, negsuc, gtb, below, is}
use monetarium_explorer.HashSet.{insert_all, delete_all}

pub record PoolDiff : Type 0 where
  pub ins : List ℕ
  pub outs : List ℕ

-- `PoolDiff{}`
abbrev pub empty_diff : PoolDiff
empty_diff = record { ins = []; outs = [] }

-- The badger database stays abstract: it is the parameter `Db`.
pub record TicketPool (Db : Type 0) : Type 0 where
  pub cursor : ℕ
  pub tip : ℕ
  pub diffs : List PoolDiff
  pub pool : List ℕ
  pub diff_db : Db

-- The errors that the methods return, each with the numbers that its message shows.
pub data PoolError : Type 0 where
  not_building : ℤ → ℕ → PoolError
  not_connected : ℤ → ℕ → PoolError
  past_tip : PoolError
  cursor_at_tip : PoolError
  cursor_at_genesis : PoolError
  invalid_destination : ℤ → PoolError
  wrong_size : ℕ → PoolError
  db_write : PoolError
  -- a loop ran out of fuel
  out_of_fuel : PoolError

-- applyDiff on the pool map.
pub apply_diff : List ℕ → List ℕ → List ℕ → List ℕ
apply_diff ins outs pool = delete_all outs (insert_all ins pool)

-- The diff as retreat applies it: its Out goes in, its In comes out.
abbrev pub reverse_diff : PoolDiff → PoolDiff
reverse_diff d = record { ins = d.outs; outs = d.ins }

module _ {Db : Type 0} where
  pub max_cursor : TicketPool Db → ℕ
  max_cursor tp = if tp.tip == 0 then 0 else tp.tip - 1

  -- `len(pool) != initPoolSize + len(In) - len(Out)` over `int`, with the negative term moved across.
  check_size : ℕ → PoolDiff → TicketPool Db → Outcome PoolError (TicketPool Db)
  check_size before d tp =
      if length tp.pool + length d.outs == before + length d.ins
      then fine tp
      else failed (wrong_size (length tp.pool)) tp

  advance_by : TicketPool Db → Option PoolDiff → Outcome PoolError (TicketPool Db)
  unfolding check_size
  advance_by tp none = panic
  advance_by tp (some d) =
      check_size (length tp.pool) d
        (record tp { pool = apply_diff d.ins d.outs tp.pool; cursor = tp.cursor + 1 })

  pub advance : TicketPool Db → Outcome PoolError (TicketPool Db)
  unfolding advance_by max_cursor
  advance tp =
      if ltb (max_cursor tp) tp.cursor
      then failed cursor_at_tip tp
      else advance_by tp (get_elem? tp.diffs tp.cursor)

  retreat_by : TicketPool Db → Option PoolDiff → Outcome PoolError (TicketPool Db)
  unfolding check_size
  retreat_by tp none = panic
  retreat_by tp (some d) =
      check_size (length tp.pool) (reverse_diff d)
        (record tp { pool = apply_diff d.outs d.ins tp.pool; cursor = tp.cursor - 1 })

  pub retreat : TicketPool Db → Outcome PoolError (TicketPool Db)
  unfolding retreat_by
  retreat tp =
      if tp.cursor == 0
      then failed cursor_at_genesis tp
      else retreat_by tp (get_elem? tp.diffs (tp.cursor - 1))

  -- `for height > tp.cursor { advance }`
  pub advance_loop : ℕ → ℤ → TicketPool Db → Outcome PoolError (TicketPool Db)
  advance_loop zero height tp = failed out_of_fuel tp
  advance_loop (suc fuel) height tp =
      let step = advance tp >>= advance_loop fuel height in
      if gtb height tp.cursor then step else fine tp

  -- `for tp.cursor > height { retreat }`
  pub retreat_loop : ℕ → ℤ → TicketPool Db → Outcome PoolError (TicketPool Db)
  retreat_loop zero height tp = failed out_of_fuel tp
  retreat_loop (suc fuel) height tp =
      let step = retreat tp >>= retreat_loop fuel height in
      if below height tp.cursor then step else fine tp

  -- The fuel covers every height up to the tip, and every cursor down to genesis.
  pub advance_to : ℤ → TicketPool Db → Outcome PoolError (TicketPool Db)
  advance_to height tp =
      if gtb height tp.tip then failed past_tip tp else advance_loop (tp.tip + 1) height tp

  pub retreat_to : ℤ → TicketPool Db → Outcome PoolError (TicketPool Db)
  retreat_to height tp =
      if below height 0
      then failed (invalid_destination height) tp
      else if gtb height tp.tip
      then failed (invalid_destination height) tp
      else retreat_loop (tp.cursor + 1) height tp

  -- The hashes come back in the map's order; the state is returned beside them.
  pub pool_at : ℤ → TicketPool Db → Outcome PoolError (TicketPool Db)
  pool_at height tp =
      if gtb height tp.tip
      then failed (not_connected height tp.tip) tp
      else advance_loop (tp.tip + 1) height tp >>= λ t. retreat_loop (t.cursor + 1) height t

  pub advance_to_tip : TicketPool Db → Outcome PoolError (TicketPool Db)
  advance_to_tip tp = advance_to (pos tp.tip) tp

  -- The unexported append.
  pub append : PoolDiff → TicketPool Db → TicketPool Db
  append d tp = record tp { tip = tp.tip + 1; diffs = tp.diffs ++ d ∷ [] }

  -- An error of retreatTo is logged, and trim goes on with the state that it left.
  trim_retreat : TicketPool Db → Outcome PoolError (TicketPool Db)
  unfolding max_cursor
  trim_retreat tp =
      if ltb (max_cursor tp) tp.cursor then retreat_to (pos (max_cursor tp)) tp else fine tp

  -- `undo := tp.diffs[len(tp.diffs)-1]`, which panics on the empty slice.
  cut : TicketPool Db → Outcome PoolError (TicketPool Db × ℕ × PoolDiff)
  cut tp = elim (get_elem? tp.diffs (length tp.diffs - 1)) [
    | none ↦ panic
    | some undo ↦ fine (record tp { diffs = but_last tp.diffs }, tp.tip, undo)
  ]

  cut_after : Outcome PoolError (TicketPool Db) → Outcome PoolError (TicketPool Db × ℕ × PoolDiff)
  unfolding cut
  cut_after (fine tp) = cut tp
  cut_after (failed e tp) = cut tp
  cut_after panic = panic

  -- Trim: the new tip and the diff that was removed.
  pub trim : TicketPool Db → Outcome PoolError (TicketPool Db × ℕ × PoolDiff)
  trim tp =
      if tp.tip == 0 || length tp.diffs == 0
      then fine (tp, tp.tip, empty_diff)
      else cut_after (trim_retreat (record tp { tip = tp.tip - 1 }))
