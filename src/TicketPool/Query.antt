-- ===== src/TicketPool/Query.antt =====
-- Pool, advanceTo, AdvanceToTip and retreatTo: the moves that callers ask for.
use Prim.Native.Nat.{min, max}
use native.Mathlib.Numerals.{add-one}
use monetarium_explorer.Prelude.{
  ℕ, zero, suc, ◌+◌, ◌-◌, ◌≤◌, ◌<◌, ◌≡◌, refl, ◌∙◌, ap, true, false, arith, ltb, ◌==◌, ◌||◌,
  Bool-cases, inl, inr, fine, failed,
}
use monetarium_explorer.Prelude.Int.{ℤ, pos, negsuc, gtb, below}
use monetarium_explorer.HashSet.{has, IsDistinct}
use monetarium_explorer.TicketPool.{
  TicketPool, cursor_at_genesis, not_connected, invalid_destination, advance_loop, retreat_loop,
  advance_to, retreat_to, pool_at, advance_to_tip,
}
use monetarium_explorer.TicketPool.Diffs.{live_at, IsChain}
use monetarium_explorer.TicketPool.Moves.{
  IsPlaced, IsWellFormed, IsMoved, MovesTo, advance_loop-MovesTo, retreat_loop-MovesTo,
  retreat-MovesTo, retreat_at_genesis, IsMoved-refl, IsMoved-trans, IsMoved-at, IsMoved-IsChain,
  IsMoved-IsWellFormed,
}

module _ {Db : Type 0} where
  -- Pool brings the cursor to any connected height, whether that lies above it or below.
  pub pool_at-MovesTo :
      (tp : TicketPool Db) (height : ℕ)
      → IsWellFormed tp
      → IsChain tp.diffs
      → height ≤ tp.tip
      → MovesTo tp height (pool_at (pos height) tp)
  unfolding pool_at
  pool_at-MovesTo tp height w ch le =
      let (t, up, m) =
        advance_loop-MovesTo (tp.tip + 1) height tp w.placed w.counted ch le (omega arith)
          (omega arith) in
      let (u, down, n) =
        retreat_loop-MovesTo (t.cursor + 1) height t m.well
          (IsMoved-IsChain (max tp.cursor height) m ch) (omega arith) (omega arith) in
      let connected : ltb tp.tip height ≡ false = ground arith in
      rw (connected, up)
        (u, down, IsMoved-at (omega (arith, m.at)) (IsMoved-trans (max tp.cursor height) _ m n))

  -- From a well-formed state over a chain of diffs, Pool at a connected height succeeds; it leaves
  -- in the pool map exactly the tickets that are live at that height, each once, in a well-formed
  -- state with the cursor there.
  pub pool_at_live :
      (tp : TicketPool Db) (height : ℕ)
      → IsWellFormed tp
      → IsChain tp.diffs
      → height ≤ tp.tip
      → (t : TicketPool Db) × (pool_at (pos height) tp ≡ fine t)
        × ((h : ℕ) → has h t.pool ≡ live_at tp.diffs height h)
        × IsDistinct t.pool
        × IsWellFormed t
        × (t.cursor ≡ height)
  pool_at_live tp height w ch le =
      let (t, e, m) = pool_at-MovesTo tp height w ch le in
      (
        t,
        e,
        (λ h.
            m.well.holds h
            ∙ ap (λ ds. live_at ds t.cursor h) m.same_diffs
            ∙ ap (λ n. live_at tp.diffs n h) m.at),
        m.well.once,
        IsMoved-IsWellFormed height m w,
        m.at,
      )

  -- A height that is not connected is refused, and the state stays as it was.
  pub pool_at-not_connected :
      (tp : TicketPool Db) (height : ℕ)
      → tp.tip < height
      → pool_at (pos height) tp ≡ failed (not_connected (pos height) tp.tip) tp
  unfolding pool_at
  pool_at-not_connected tp height lt = ground arith

  retreat_loop_negative :
      (fuel k : ℕ) (tp : TicketPool Db)
      → IsPlaced tp
      → IsChain tp.diffs
      → tp.cursor < fuel
      → (t : TicketPool Db) × (retreat_loop fuel (negsuc k) tp ≡ failed cursor_at_genesis t)
        × IsMoved tp 0 t
  unfolding retreat_loop
  retreat_loop_negative zero k tp w ch enough = absurd (omega arith)
  retreat_loop_negative (suc fuel) k tp w ch enough = elim (Bool-cases (tp.cursor == 0)) [
    | inl e ↦
        let zero_cursor : tp.cursor ≡ 0 = ground arith in
        rw (retreat_at_genesis tp zero_cursor) (tp, refl, IsMoved-refl tp 0 w zero_cursor)
    | inr e ↦
        let (t, step, m) = retreat-MovesTo tp w ch (ground arith) in
        let (u, rest, n) =
          retreat_loop_negative fuel k t m.well (IsMoved-IsChain (tp.cursor - 1) m ch)
            (ground (arith, m.at)) in
        rw step (u, rest, IsMoved-trans (tp.cursor - 1) 0 m n)
  ]

  -- A negative height is not refused at once: from a well-formed state over a chain of diffs, Pool
  -- retreats to genesis, and only there returns an error, with the cursor and the pool moved.
  pub pool_at_negative :
      (tp : TicketPool Db) (k : ℕ)
      → IsWellFormed tp
      → IsChain tp.diffs
      → (t : TicketPool Db) × (pool_at (negsuc k) tp ≡ failed cursor_at_genesis t) × IsMoved tp 0 t
  unfolding pool_at advance_loop
  pool_at_negative tp k w ch =
      rw add-one (retreat_loop_negative (tp.cursor + 1) k tp w.placed ch (omega arith))

  -- AdvanceToTip applies every stored diff.
  pub advance_to_tip-MovesTo :
      (tp : TicketPool Db)
      → IsWellFormed tp
      → IsChain tp.diffs
      → MovesTo tp tp.tip (advance_to_tip tp)
  unfolding advance_to_tip advance_to
  advance_to_tip-MovesTo tp w ch =
      let (t, e, m) =
        advance_loop-MovesTo (tp.tip + 1) tp.tip tp w.placed w.counted ch (omega arith)
          (omega arith) (omega arith) in
      let reached : ltb tp.tip tp.tip ≡ false = ground arith in
      rw reached (t, e, IsMoved-at (omega (arith, w.counted, w.placed.in_range)) m)

  -- retreatTo a height between genesis and the cursor ends there, also while the tip is one less
  -- than the number of diffs.
  pub retreat_to-MovesTo :
      (tp : TicketPool Db) (height : ℕ)
      → IsPlaced tp
      → IsChain tp.diffs
      → height ≤ tp.tip
      → MovesTo tp (min tp.cursor height) (retreat_to (pos height) tp)
  unfolding retreat_to
  retreat_to-MovesTo tp height w ch le =
      let not_negative : ltb height 0 ≡ false = ground arith in
      let connected : ltb tp.tip height ≡ false = ground arith in
      rw (not_negative, connected)
        (retreat_loop-MovesTo (tp.cursor + 1) height tp w ch (omega arith) (omega arith))

  -- retreatTo refuses a negative height and one beyond the tip, and changes nothing then.
  pub retreat_to-refused :
      (tp : TicketPool Db) (z : ℤ)
      → (below z 0 || gtb z tp.tip) ≡ true
      → retreat_to z tp ≡ failed (invalid_destination z) tp
  unfolding retreat_to
  retreat_to-refused tp z e = ground arith
