-- ===== src/TicketPool/Moves.antt =====
-- advance and retreat: one step of the cursor, and the loops over them.
use monetarium_explorer.Prelude.{
  ℕ, zero, suc, ◌+◌, ◌-◌, ◌≤◌, ◌<◌, ◌≡◌, refl, sym, ◌∙◌, ap, false, not, ◌&&◌, ◌||◌, [], arith,
  length, get_elem?-some, ltb, ltb→lt, ◌==◌, Bool-cases, inl, inr, Outcome, fine, failed, panic,
}
use monetarium_explorer.Prelude.Int.{pos}
use Prim.Native.Nat.{min, max}
use native.Mathlib.Numerals.{add-one}
use monetarium_explorer.HashSet.{has, IsDistinct}
use monetarium_explorer.TicketPool.{
  TicketPool, PoolDiff, PoolError, cursor_at_tip, cursor_at_genesis, apply_diff, reverse_diff,
  max_cursor, check_size, advance, retreat, advance_loop, retreat_loop,
}
use monetarium_explorer.TicketPool.Diffs.{
  live_at, IsExact, IsChain, live_at-suc, has-apply_diff, apply_diff-IsDistinct, length-apply_diff,
  IsExact-ext, reverse_diff-IsExact, reverse_diff-undoes,
}

module _ {Db : Type 0} where
  -- The pool map holds the tickets that are live at the cursor.
  pub record IsPlaced (tp : TicketPool Db) : Type 0 where
    pub in_range : tp.cursor ≤ length tp.diffs
    pub once : IsDistinct tp.pool
    pub holds : (h : ℕ) → has h tp.pool ≡ live_at tp.diffs tp.cursor h

  -- And the tip counts the diffs. (Inside trim it is one less for a while.)
  pub record IsWellFormed (tp : TicketPool Db) : Type 0 where
    pub counted : tp.tip ≡ length tp.diffs
    pub placed : IsPlaced tp

  -- `t` is `tp` with the cursor, and the pool with it, moved to `c`.
  pub record IsMoved (tp : TicketPool Db) (c : ℕ) (t : TicketPool Db) : Type 0 where
    pub well : IsPlaced t
    pub at : t.cursor ≡ c
    pub same_tip : t.tip ≡ tp.tip
    pub same_diffs : t.diffs ≡ tp.diffs
    pub same_db : t.diff_db ≡ tp.diff_db

  abbrev pub MovesTo : TicketPool Db → ℕ → Outcome PoolError (TicketPool Db) → Type 0
  MovesTo tp c r = (t : TicketPool Db) × (r ≡ fine t) × IsMoved tp c t

  -- A diff that fits on the pool, applied with the cursor moved to `c`, passes the size check.
  check_size-lem :
      (tp : TicketPool Db) (d : PoolDiff) (c : ℕ)
      → IsPlaced tp
      → IsExact (live_at tp.diffs tp.cursor) d
      → c ≤ length tp.diffs
      → ((h : ℕ)
          → (not (has h d.outs) && (has h d.ins || live_at tp.diffs tp.cursor h))
            ≡ live_at tp.diffs c h)
      → MovesTo tp c (
          check_size
            (length tp.pool)
            d
            (record tp { pool = apply_diff d.ins d.outs tp.pool; cursor = c }))
  unfolding check_size
  check_size-lem tp d c w x le same = (
    record tp { pool = apply_diff d.ins d.outs tp.pool; cursor = c },
    ground (arith, length-apply_diff d tp.pool w.once fits),
    record {
      well = record {
        in_range = le;
        once = apply_diff-IsDistinct d.ins d.outs tp.pool w.once;
        holds = λ h. rw (has-apply_diff h d.ins d.outs tp.pool, w.holds h) (same h);
      };
      at = refl;
      same_tip = refl;
      same_diffs = refl;
      same_db = refl;
    },
  )
    where
      fits : IsExact (λ h. has h tp.pool) d
      fits = IsExact-ext (live_at tp.diffs tp.cursor) _ d (λ h. sym (w.holds h)) x

  -- Below the tip of a chain, advance applies the next diff and moves the cursor up by one.
  pub advance-MovesTo :
      (tp : TicketPool Db)
      → IsPlaced tp
      → tp.tip ≡ length tp.diffs
      → IsChain tp.diffs
      → tp.cursor < tp.tip
      → MovesTo tp (tp.cursor + 1) (advance tp)
  unfolding advance
  advance-MovesTo tp w counted ch lt =
      let below_tip : tp.cursor < length tp.diffs = omega arith in
      let (d, e) = get_elem?-some tp.diffs tp.cursor below_tip in
      let step =
        check_size-lem tp d (tp.cursor + 1) w (ch.exact tp.cursor d e) (omega arith)
          (λ h. rw add-one (sym (live_at-suc tp.diffs tp.cursor d h e))) in
      let room : ltb (max_cursor tp) tp.cursor ≡ false = ground arith in rw (room, e) step

  -- Above genesis, retreat takes the last applied diff back and moves the cursor down by one.
  pub retreat-MovesTo :
      (tp : TicketPool Db)
      → IsPlaced tp
      → IsChain tp.diffs
      → 0 < tp.cursor
      → MovesTo tp (tp.cursor - 1) (retreat tp)
  unfolding retreat
  retreat-MovesTo tp w ch above =
      let c = tp.cursor - 1 in
      let at : tp.cursor ≡ suc c = omega arith in
      let (d, e) = get_elem?-some tp.diffs c (omega (arith, w.in_range)) in
      let x = ch.exact c d e in
      let live : (h : ℕ)
          → live_at tp.diffs tp.cursor h
            ≡ (not (has h d.outs) && (has h d.ins || live_at tp.diffs c h)) =
        λ h. ap (λ n. live_at tp.diffs n h) at ∙ live_at-suc tp.diffs c d h e in
      let back = reverse_diff-IsExact (live_at tp.diffs c) d x in
      let step =
        check_size-lem tp (reverse_diff d) c w
          (IsExact-ext _ (live_at tp.diffs tp.cursor) (reverse_diff d) (λ h. sym (live h)) back)
          (omega (arith, w.in_range))
          (λ h. rw (live h) (reverse_diff-undoes (live_at tp.diffs c) d h x)) in
      let positive : (tp.cursor == 0) ≡ false = ground arith in rw (positive, e) step

  -- An empty pool has no diff to advance over: the cursor test passes, and the index panics.
  pub advance_empty :
      (tp : TicketPool Db) → tp.diffs ≡ [] → tp.tip ≡ 0 → tp.cursor ≡ 0 → advance tp ≡ panic
  unfolding advance
  advance_empty tp e t c =
      let room : ltb (max_cursor tp) tp.cursor ≡ false = ground arith in rw (room, e) refl

  -- With the cursor beyond the last diff, advance is refused and changes nothing.
  pub advance_at_tip :
      (tp : TicketPool Db) → 0 < tp.tip → tp.cursor ≡ tp.tip → advance tp ≡ failed cursor_at_tip tp
  unfolding advance
  advance_at_tip tp some_diff e = ground arith

  pub retreat_at_genesis :
      (tp : TicketPool Db) → tp.cursor ≡ 0 → retreat tp ≡ failed cursor_at_genesis tp
  unfolding retreat
  retreat_at_genesis tp e = ground arith

  pub IsMoved-trans :
      {tp t u : TicketPool Db} (c n : ℕ) → IsMoved tp c t → IsMoved t n u → IsMoved tp n u
  IsMoved-trans c n f g = record {
    well = g.well;
    at = g.at;
    same_tip = g.same_tip ∙ f.same_tip;
    same_diffs = g.same_diffs ∙ f.same_diffs;
    same_db = g.same_db ∙ f.same_db;
  }

  IsMoved-counted :
      {tp t : TicketPool Db} (c : ℕ)
      → IsMoved tp c t
      → tp.tip ≡ length tp.diffs
      → t.tip ≡ length t.diffs
  IsMoved-counted c f e = f.same_tip ∙ e ∙ ap length (sym f.same_diffs)

  pub IsMoved-IsWellFormed :
      {tp t : TicketPool Db} (c : ℕ) → IsMoved tp c t → IsWellFormed tp → IsWellFormed t
  IsMoved-IsWellFormed c f w = record { counted = IsMoved-counted c f w.counted; placed = f.well }

  pub IsMoved-IsChain :
      {tp t : TicketPool Db} (c : ℕ) → IsMoved tp c t → IsChain tp.diffs → IsChain t.diffs
  IsMoved-IsChain c f ch = rw f.same_diffs ch

  pub IsMoved-at : {tp t : TicketPool Db} {c n : ℕ} → c ≡ n → IsMoved tp c t → IsMoved tp n t
  IsMoved-at e f = rw e at f

  pub IsMoved-refl : (tp : TicketPool Db) (c : ℕ) → IsPlaced tp → tp.cursor ≡ c → IsMoved tp c tp
  IsMoved-refl tp c w e = record {
    well = w;
    at = e;
    same_tip = refl;
    same_diffs = refl;
    same_db = refl;
  }

  pub stay : (tp : TicketPool Db) (c : ℕ) → IsPlaced tp → tp.cursor ≡ c → MovesTo tp c (fine tp)
  stay tp c w e = (tp, refl, IsMoved-refl tp c w e)

  -- The loop of advances brings the cursor up to the height; where the cursor is there already, or
  -- beyond, it changes nothing.
  pub advance_loop-MovesTo :
      (fuel height : ℕ) (tp : TicketPool Db)
      → IsPlaced tp
      → tp.tip ≡ length tp.diffs
      → IsChain tp.diffs
      → height ≤ tp.tip
      → 0 < fuel
      → height < fuel + tp.cursor
      → MovesTo tp (max tp.cursor height) (advance_loop fuel (pos height) tp)
  unfolding advance_loop
  advance_loop-MovesTo zero height tp w counted ch le more enough = absurd (omega arith)
  advance_loop-MovesTo (suc fuel) height tp w counted ch le more enough =
      elim (Bool-cases (ltb tp.cursor height)) [
        | inr e ↦ rw e (stay tp (max tp.cursor height) w (ground arith))
        | inl e ↦
            let lt : tp.cursor < height = ltb→lt _ _ e in
            let (t, step, m) = advance-MovesTo tp w counted ch (omega arith) in
            let (u, rest, n) =
              advance_loop-MovesTo fuel height t m.well (IsMoved-counted (tp.cursor + 1) m counted)
                (IsMoved-IsChain (tp.cursor + 1) m ch) (omega (arith, m.same_tip)) (omega arith)
                (omega (arith, m.at)) in
            rw (e, step)
              (u, rest, IsMoved-at (omega (arith, m.at)) (IsMoved-trans (tp.cursor + 1) _ m n))
      ]

  -- The loop of retreats brings the cursor down to the height; where the cursor is there already, or
  -- below, it changes nothing.
  pub retreat_loop-MovesTo :
      (fuel height : ℕ) (tp : TicketPool Db)
      → IsPlaced tp
      → IsChain tp.diffs
      → tp.cursor < fuel + height
      → 0 < fuel
      → MovesTo tp (min tp.cursor height) (retreat_loop fuel (pos height) tp)
  unfolding retreat_loop
  retreat_loop-MovesTo zero height tp w ch enough more = absurd (omega arith)
  retreat_loop-MovesTo (suc fuel) height tp w ch enough more =
      elim (Bool-cases (ltb height tp.cursor)) [
        | inr e ↦ rw e (stay tp (min tp.cursor height) w (ground arith))
        | inl e ↦
            let lt : height < tp.cursor = ltb→lt _ _ e in
            let (t, step, m) = retreat-MovesTo tp w ch (omega arith) in
            let (u, rest, n) =
              retreat_loop-MovesTo fuel height t m.well (IsMoved-IsChain (tp.cursor - 1) m ch)
                (omega (arith, m.at)) (omega arith) in
            rw (e, step)
              (u, rest, IsMoved-at (omega (arith, m.at)) (IsMoved-trans (tp.cursor - 1) _ m n))
      ]
