-- ===== src/TicketPool/Trim.antt =====
-- trim: the removal of the last diff.
use Prim.Native.Nat.{min}
use monetarium_explorer.Prelude.{
  ℕ, suc, ◌-◌, ◌≤◌, ◌<◌, ◌≡◌, refl, sym, ◌∙◌, ap, false, List, some, none, arith, length, get_elem?,
  get_elem?-some, get_elem?-but_last, length-but_last, but_last, ltb, ltb→lt, get_elem?-none, ◌==◌,
  ◌||◌, Bool-cases, inl, inr, fine,
}
use monetarium_explorer.TicketPool.{
  TicketPool, PoolDiff, max_cursor, cut, cut_after, trim_retreat, trim,
}
use monetarium_explorer.TicketPool.Diffs.{live_at, IsChain, IsExact-ext, live_at-but_last}
use monetarium_explorer.TicketPool.Moves.{
  IsPlaced, IsWellFormed, IsMoved, MovesTo, IsMoved-IsChain, stay,
}
use monetarium_explorer.TicketPool.Query.{retreat_to-MovesTo}

pub but_last-IsChain : (ds : List PoolDiff) → IsChain ds → IsChain (but_last ds)
but_last-IsChain ds ch = record {
  exact = λ n d e. elim (Bool-cases (ltb (suc n) (length ds))) [
    | inl lt ↦
        let inside : suc n < length ds = ltb→lt _ _ lt in
        IsExact-ext (live_at ds n) _ d (λ h. sym (live_at-but_last ds n h (omega arith)))
          (ch.exact n d (sym (get_elem?-but_last ds n inside) ∙ e))
    | inr past ↦
        let gone : get_elem? (but_last ds) n ≡ none =
          get_elem?-none (but_last ds) n (ground (arith, length-but_last ds)) in
        absurd (ground arith)
  ];
}

last_lem :
    (ds es : List PoolDiff) (tip : ℕ) (undo : PoolDiff)
    → ds ≡ es
    → tip ≡ length es
    → get_elem? es (tip - 1) ≡ some undo
    → get_elem? ds (length ds - 1) ≡ some undo
last_lem ds es tip undo same counted e = rw (same, ← counted) e

module _ {Db : Type 0} where
  -- trim's retreat leaves the cursor at the new largest cursor at most.
  trim_retreat-MovesTo :
      (tp : TicketPool Db)
      → IsPlaced tp
      → IsChain tp.diffs
      → MovesTo tp (min tp.cursor (max_cursor tp)) (trim_retreat tp)
  unfolding trim_retreat
  trim_retreat-MovesTo tp w ch = elim (Bool-cases (ltb (max_cursor tp) tp.cursor)) [
    | inl e ↦ rw e (retreat_to-MovesTo tp (max_cursor tp) w ch (ground arith))
    | inr e ↦ rw e (stay tp (min tp.cursor (max_cursor tp)) w (ground arith))
  ]

  but_last-IsPlaced :
      (tp : TicketPool Db)
      → IsPlaced tp
      → suc tp.cursor ≤ length tp.diffs
      → IsPlaced (record tp { diffs = but_last tp.diffs })
  but_last-IsPlaced tp w lt = record {
    in_range = omega (arith, length-but_last tp.diffs);
    once = w.once;
    holds = λ h. w.holds h ∙ sym (live_at-but_last tp.diffs tp.cursor h lt);
  }

  trim_cursor :
      (tp t : TicketPool Db)
      → IsWellFormed tp
      → IsMoved
          (record tp { tip = tp.tip - 1 })
          (min tp.cursor (max_cursor (record tp { tip = tp.tip - 1 })))
          t
      → t.cursor ≡ min tp.cursor (tp.tip - 2)
  unfolding max_cursor
  trim_cursor tp t w m = ground (arith, m.at, w.placed.in_range, w.counted)

  cut_lem :
      (t : TicketPool Db) (tip : ℕ) (undo : PoolDiff)
      → get_elem? t.diffs (length t.diffs - 1) ≡ some undo
      → t.tip ≡ tip
      → cut_after (fine t) ≡ fine (record t { diffs = but_last t.diffs }, tip, undo)
  unfolding cut_after
  cut_lem t tip undo e same = rw (e, cut, same) refl

  -- trim on a well-formed state over a chain with a diff: it succeeds, returns the last diff and the new tip, and leaves a
  -- well-formed state over the other diffs, with the cursor on one of them or at genesis, and the
  -- database as it was.
  pub trim_removes_last :
      (tp : TicketPool Db)
      → IsWellFormed tp
      → IsChain tp.diffs
      → 0 < tp.tip
      → (t : TicketPool Db) × (undo : PoolDiff) × (trim tp ≡ fine (t, tp.tip - 1, undo))
        × (get_elem? tp.diffs (tp.tip - 1) ≡ some undo)
        × (t.diffs ≡ but_last tp.diffs)
        × IsWellFormed t
        × IsChain t.diffs
        × (t.cursor ≡ min tp.cursor (tp.tip - 2))
        × (t.diff_db ≡ tp.diff_db)
  unfolding trim
  trim_removes_last tp w ch some_diff =
      let lower = record tp { tip = tp.tip - 1 } in
      let placed : IsPlaced lower = record {
        in_range = w.placed.in_range;
        once = w.placed.once;
        holds = w.placed.holds;
      } in
      let (t, step, m) = trim_retreat-MovesTo lower placed ch in
      let (undo, e) = get_elem?-some tp.diffs (tp.tip - 1) (omega (arith, w.counted)) in
      let full : (tp.tip == 0 || length tp.diffs == 0) ≡ false = ground (arith, w.counted) in
      let low = trim_cursor tp t w m in
      let last : get_elem? t.diffs (length t.diffs - 1) ≡ some undo =
        last_lem t.diffs tp.diffs tp.tip undo m.same_diffs w.counted e in
      let cut_short =
        but_last-IsPlaced t m.well (omega (arith, low, ap length m.same_diffs, w.counted)) in
      (
        record t { diffs = but_last t.diffs },
        undo,
        rw (full, step) (cut_lem t (tp.tip - 1) undo last m.same_tip),
        e,
        ap but_last m.same_diffs,
        record {
          counted =
              omega (arith, m.same_tip, w.counted, ap length m.same_diffs, length-but_last t.diffs);
          placed = cut_short;
        },
        but_last-IsChain t.diffs (IsMoved-IsChain _ m ch),
        low,
        m.same_db,
      )
