-- ===== src/TicketPool/History.antt =====
-- A pool over its life: the calls that the explorer makes on it, in any order.
use mathlib.Core.Path.{subst}
use monetarium_explorer.Prelude.{
  ℕ, ◌+◌, ◌^◌, ◌≤◌, ◌<◌, ◌≡◌, sym, ◌∙◌, ap, List, Option, none, some, arith, length, fine, failed,
  fine-injective, failed-injective,
}
use monetarium_explorer.Prelude.Int.{pos, negsuc}
use monetarium_explorer.HashSet.{has, IsDistinct}
use monetarium_explorer.TicketPool.{
  TicketPool, PoolDiff, cursor_at_genesis, db_write, pool_at, advance_to_tip, trim,
}
use monetarium_explorer.TicketPool.Codec.{uint64_bytes, encoded}
use monetarium_explorer.TicketPool.Diffs.{live_at, IsExact, IsChain}
use monetarium_explorer.TicketPool.Moves.{
  IsWellFormed, IsMoved, IsMoved-IsChain, IsMoved-IsWellFormed,
}
use monetarium_explorer.TicketPool.Query.{pool_at-MovesTo, pool_at_negative, advance_to_tip-MovesTo}
use monetarium_explorer.TicketPool.Trim.{trim_removes_last}
use monetarium_explorer.TicketPool.Growth.{
  append_at, append_at_grows, append_at_write_fails, append-IsWellFormed, append_diffs-IsChain,
}
use monetarium_explorer.TicketPool.Load.{new_ticket_pool}
use monetarium_explorer.TicketPool.Load.Restart.{
  new_ticket_pool-IsWellFormed, new_ticket_pool-IsChain,
}

module _ {Db : Type 0} (put : Db → List ℕ → List ℕ → Option Db) where
  -- One call with its outcome. Append does not look whether a diff fits; here it does.
  pub data Call (tp : TicketPool Db) (t : TicketPool Db) : Type 0 where
    appends :
        (d : PoolDiff) (db : Db)
        → IsExact (live_at tp.diffs tp.tip) d
        → tp.tip + 1 < 2 ^ 64
        → put tp.diff_db (uint64_bytes (tp.tip + 1)) (encoded d) ≡ some db
        → append_at put d (pos (tp.tip + 1)) tp ≡ fine t
        → Call tp t
    misappends :
        (d : PoolDiff)
        → IsExact (live_at tp.diffs tp.tip) d
        → tp.tip + 1 < 2 ^ 64
        → put tp.diff_db (uint64_bytes (tp.tip + 1)) (encoded d) ≡ none
        → append_at put d (pos (tp.tip + 1)) tp ≡ failed db_write t
        → Call tp t
    trims : (tip : ℕ) (undo : PoolDiff) → 0 < tp.tip → trim tp ≡ fine (t, tip, undo) → Call tp t
    queries : (height : ℕ) → height ≤ tp.tip → pool_at (pos height) tp ≡ fine t → Call tp t
    misqueries : (k : ℕ) → pool_at (negsuc k) tp ≡ failed cursor_at_genesis t → Call tp t
    climbs : advance_to_tip tp ≡ fine t → Call tp t

  -- The states that a pool over the chain `ds` can come to.
  pub data Reach (ds : List PoolDiff) (db : Db) : TicketPool Db → Type 0 where
    start : Reach ds db (new_ticket_pool ds db)
    next : {tp t : TicketPool Db} → Reach ds db tp → Call tp t → Reach ds db t

  pub record IsSound (tp : TicketPool Db) : Type 0 where
    pub well : IsWellFormed tp
    pub chain : IsChain tp.diffs

  IsMoved-IsSound : {tp t : TicketPool Db} (c : ℕ) → IsMoved tp c t → IsSound tp → IsSound t
  IsMoved-IsSound c m s = record {
    well = IsMoved-IsWellFormed c m s.well;
    chain = IsMoved-IsChain c m s.chain;
  }

  Call-IsSound : {tp t : TicketPool Db} → Call tp t → IsSound tp → IsSound t
  Call-IsSound {tp} (appends d db x small wrote e) s =
      let (u, r, w, ch, _, _, _, _) = append_at_grows put d tp db s.well s.chain x small wrote in
      subst IsSound (fine-injective (sym r ∙ e)) (record { well = w; chain = ch })
  Call-IsSound {tp} (misappends d x small fails e) s =
      let (r, again) = append_at_write_fails put d tp small fails in
      let exact = subst (λ k. IsExact (live_at tp.diffs k) d) s.well.counted x in
      subst IsSound (failed-injective (sym r ∙ e)) (record {
        well = append-IsWellFormed tp d s.well;
        chain = append_diffs-IsChain d tp s.chain exact;
      })
  Call-IsSound {tp} (trims tip undo some_diff e) s =
      let (u, _, r, _, _, w, ch, _, _) = trim_removes_last tp s.well s.chain some_diff in
      subst IsSound (ap (λ c. c.0) (fine-injective (sym r ∙ e))) (record { well = w; chain = ch })
  Call-IsSound {tp} (queries height le e) s =
      let (u, r, m) = pool_at-MovesTo tp height s.well s.chain le in
      subst IsSound (fine-injective (sym r ∙ e)) (IsMoved-IsSound height m s)
  Call-IsSound {tp} (misqueries k e) s =
      let (u, r, m) = pool_at_negative tp k s.well s.chain in
      subst IsSound (failed-injective (sym r ∙ e)) (IsMoved-IsSound 0 m s)
  Call-IsSound {tp} (climbs e) s =
      let (u, r, m) = advance_to_tip-MovesTo tp s.well s.chain in
      subst IsSound (fine-injective (sym r ∙ e)) (IsMoved-IsSound tp.tip m s)

  Reach-IsSound :
      (ds : List PoolDiff) (db : Db) {tp : TicketPool Db} → IsChain ds → Reach ds db tp → IsSound tp
  Reach-IsSound ds db ch start = record {
    well = new_ticket_pool-IsWellFormed ds db;
    chain = new_ticket_pool-IsChain ds db ch;
  }
  Reach-IsSound ds db ch (next r c) = Call-IsSound c (Reach-IsSound ds db ch r)

  -- From a loaded chain on, after any sequence of these calls: Append of a diff at the next height, below
  -- 2 ^ 64, where the diff fits exactly on the live tickets at the tip, and its write succeeds or fails; trims;
  -- queries at a height up to the tip or at a negative one; and climbs to the tip. Then the pool map holds each ticket once, and exactly those that
  -- are live at the cursor, and the tip counts the diffs.
  pub Reach-live :
      (ds : List PoolDiff) (db : Db) (tp : TicketPool Db)
      → IsChain ds
      → Reach ds db tp
      → ((h : ℕ) → has h tp.pool ≡ live_at tp.diffs tp.cursor h)
        × IsDistinct tp.pool
        × (tp.cursor ≤ tp.tip)
        × (tp.tip ≡ length tp.diffs)
  Reach-live ds db tp ch r =
      let s = Reach-IsSound ds db ch r in
      (
        s.well.placed.holds,
        s.well.placed.once,
        omega (arith, s.well.placed.in_range, s.well.counted),
        s.well.counted,
      )
